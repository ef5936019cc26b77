-- ===== src/Spool/Limits.antt =====
-- Proofs about spool/sink.py: what a write of a batch leaves in the directory.
use mathlib.Core.List.{append-nil, append_assoc}
use nats_sinks.Common.{
  ℕ, suc, ◌+◌, ◌≤◌, ◌≡◌, refl, ap, sym, subst, ◌∙◌, inl, inr, true, ◌||◌, List, [], ◌∷◌, ◌++◌,
  length, String, str_eq_refl, All, Bool-cases, arith,
}
use nats_sinks.Errors.{Result, ok, err}
use nats_sinks.Envelope.{NatsEnvelope}
use nats_sinks.Spool.{
  SpoolSinkConfig, SpoolDuplicatePolicy, skip_existing, fail_existing, Wrapper, SpoolFile,
  FileOutcome, lands, fails_before, fails_after, exists, total_size, commit_new, commit_existing,
  write_wrapper, after_wrapper, write_all,
}

total_size-append : (xs ys : List SpoolFile) → total_size (xs ++ ys) ≡ total_size xs + total_size ys
total_size-append [] ys = omega arith
total_size-append (x ∷ xs) ys = omega (arith, total_size-append xs ys)

length-append-one : (xs : List SpoolFile) (f : SpoolFile) → length (xs ++ f ∷ []) ≡ suc (length xs)
length-append-one [] f = omega arith
length-append-one (x ∷ xs) f = omega (arith, length-append-one xs f)

pub exists-append :
    (xs ys : List SpoolFile) (name : String)
    → exists (xs ++ ys) name ≡ (exists xs name || exists ys name)
exists-append [] ys name = refl
exists-append (x ∷ xs) ys name = ground (arith, exists-append xs ys name)

-- A directory that only grew, by files of at most `n` in number and `size` in bytes.
pub record Grows (n size : ℕ) (before after : List SpoolFile) : Type 0 where
  pub news : List SpoolFile
  pub same : after ≡ before ++ news
  pub few : length after ≤ length before + n
  pub small : total_size after ≤ total_size before + size

pub Grows-refl : (n size : ℕ) (files : List SpoolFile) → Grows n size files files
Grows-refl n size files = record {
  news = [];
  same = sym (append-nil files);
  few = omega arith;
  small = omega arith;
}

Grows-one :
    (files : List SpoolFile) (file : SpoolFile)
    → Grows 1 file.wrapper.size files (files ++ file ∷ [])
Grows-one files file = record {
  news = file ∷ [];
  same = refl;
  few = omega (arith, length-append-one files file);
  small = omega (arith, total_size-append files (file ∷ []));
}

Grows-trans :
    (n s m r n' s' : ℕ) (a b c : List SpoolFile)
    → Grows n s a b
    → Grows m r b c
    → n + m ≤ n'
    → s + r ≤ s'
    → Grows n' s' a c
Grows-trans n s m r n' s' a b c f g p q = record {
  news = f.news ++ g.news;
  same = g.same ∙ (ap (λ l. l ++ g.news) f.same ∙ append_assoc a f.news g.news);
  few = omega (arith, f.few, g.few);
  small = omega (arith, f.small, g.small);
}

module _ (config : SpoolSinkConfig) (filename : NatsEnvelope → Result String)
    (wrapper_of : NatsEnvelope → Result Wrapper)
    (outcome : List SpoolFile → SpoolFile → FileOutcome) where
  -- A file written without an error is there.
  record Lands (files : List SpoolFile) (file : SpoolFile) (r : List SpoolFile × Result (Unit {0}))
      : Type 0 where
    grows : Grows 1 file.wrapper.size files r.0
    is_there : r.1 ≡ ok tt → exists r.0 file.name ≡ true

  exists-last :
      (files : List SpoolFile) (file : SpoolFile) → exists (files ++ file ∷ []) file.name ≡ true
  exists-last files file =
      ground (arith, exists-append files (file ∷ []) file.name, str_eq_refl file.name)

  commit_new-Lands :
      (files : List SpoolFile) (file : SpoolFile) (o : FileOutcome)
      → Lands files file (commit_new config filename wrapper_of outcome files file o)
  commit_new-Lands files file lands = record {
    grows = Grows-one files file;
    is_there = λ h. exists-last files file;
  }
  commit_new-Lands files file fails_before = record {
    grows = Grows-refl 1 file.wrapper.size files;
    is_there = λ h. cc;
  }
  commit_new-Lands files file fails_after = record {
    grows = Grows-one files file;
    is_there = λ h. cc;
  }

  commit_existing-Lands :
      (files : List SpoolFile) (file : SpoolFile) (p : SpoolDuplicatePolicy)
      → exists files file.name ≡ true
      → Lands files file (commit_existing config filename wrapper_of outcome p files)
  commit_existing-Lands files file skip_existing e = record {
    grows = Grows-refl 1 file.wrapper.size files;
    is_there = λ h. e;
  }
  commit_existing-Lands files file fail_existing e = record {
    grows = Grows-refl 1 file.wrapper.size files;
    is_there = λ h. cc;
  }

  write_wrapper-Lands :
      (files : List SpoolFile) (file : SpoolFile)
      → Lands files file (write_wrapper config filename wrapper_of outcome files file)
  unfolding write_wrapper
  write_wrapper-Lands files file = elim (Bool-cases (exists files file.name)) [
    | inl e ↦ rw e (commit_existing-Lands files file config.duplicate_policy e)
    | inr n ↦ rw n (commit_new-Lands files file (outcome files file))
  ]

  -- What a loop over planned files leaves.
  pub record LandAll (files planned : List SpoolFile) (r : List SpoolFile × Result (Unit {0}))
      : Type 0 where
    pub grows : Grows (length planned) (total_size planned) files r.0
    pub are_there : r.1 ≡ ok tt → All (λ f. exists r.0 f.name ≡ true) planned

  pub exists-Grows :
      (n s : ℕ) (a b : List SpoolFile) (name : String)
      → Grows n s a b
      → exists a name ≡ true
      → exists b name ≡ true
  exists-Grows n s a b name g h =
      subst (λ l. exists l name ≡ true) (sym g.same) (ground (arith, exists-append a g.news name))

  after_wrapper-LandAll :
      (files : List SpoolFile) (file : SpoolFile) (planned : List SpoolFile)
      (one : List SpoolFile × Result (Unit {0}))
      (later : List SpoolFile → List SpoolFile × Result (Unit {0}))
      → Lands files file one
      → ((files' : List SpoolFile) → LandAll files' planned (later files'))
      → LandAll files (file ∷ planned) (after_wrapper config filename wrapper_of outcome one later)
  after_wrapper-LandAll files file planned (files', ok done) later l k =
      let g = k files' in
      record {
        grows =
            Grows-trans 1 file.wrapper.size (length planned) (total_size planned) _ _ files files' _
              l.grows g.grows (omega arith) (omega arith);
        are_there =
            λ h. (exists-Grows _ _ files' _ file.name g.grows (l.is_there refl), g.are_there h);
      }
  after_wrapper-LandAll files file planned (files', err e) later l k = record {
    grows =
        Grows-trans 1 file.wrapper.size 0 0 _ _ files files' files' l.grows (Grows-refl 0 0 files')
          (omega arith) (omega arith);
    are_there = λ h. cc;
  }

  pub write_all-LandAll :
      (files planned : List SpoolFile)
      → LandAll files planned (write_all config filename wrapper_of outcome files planned)
  unfolding write_all
  write_all-LandAll files [] = record { grows = Grows-refl 0 0 files; are_there = λ h. tt }
  write_all-LandAll files (file ∷ planned) =
      after_wrapper-LandAll files file planned _
        (λ files'. write_all config filename wrapper_of outcome files' planned)
        (write_wrapper-Lands files file) (λ files'. write_all-LandAll files' planned)
