-- ===== src/Spool/Took.antt =====
-- Proofs about spool/sink.py: how far a replay went.
use mathlib.Core.List.{append-nil, append_assoc}
use nats_sinks.Common.{
  ℕ, ◌+◌, ◌≡◌, refl, ap, sym, ◌∙◌, inl, inr, ◌⊎◌, Bool, true, false, List, [], ◌∷◌, ◌++◌, length,
  length-append, String, Option, none, some, str_eq, str_eq→eq, Any, Bool-cases, arith,
}
use nats_sinks.Errors.{Error, Result, ok, err}
use nats_sinks.Envelope.{NatsEnvelope}
use nats_sinks.Spool.{
  SpoolSinkConfig, SpoolFile, Replaying, unlink, remove_entry, after_sink, after_load,
  continue_replay, replay_each,
}

-- How many files are removed for the entries that were taken.
abbrev pub deletions : Bool → List SpoolFile → ℕ
deletions true taken = length taken
deletions false taken = 0

deletions-append :
    (b : Bool) (xs ys : List SpoolFile) → deletions b (xs ++ ys) ≡ deletions b xs + deletions b ys
deletions-append true xs ys = length-append xs ys
deletions-append false xs ys = omega arith

deletions-nil : (b : Bool) → deletions b [] ≡ 0
deletions-nil true = refl
deletions-nil false = refl

module _ (config : SpoolSinkConfig) (sink : List SpoolFile → NatsEnvelope → Option Error)
    (unlink_fails : SpoolFile → Bool) where
  -- The file is still there, or the other sink committed a file of its name.
  unfoldable pub Kept : Replaying → SpoolFile → Type 0
  Kept r file = Any (λ f. f ≡ file) r.files ⊎ Any (λ w. w.name ≡ file.name) r.written

  -- A replay that went from one state to another: it took the first of the entries, in order, and
  -- the other sink committed each of them.
  pub record Took (entries : List SpoolFile) (before : Replaying)
      (r : Replaying × Result (Unit {0})) : Type 0 where
    pub taken : List SpoolFile
    pub left : List SpoolFile
    pub split : entries ≡ taken ++ left
    pub wrote : r.0.written ≡ before.written ++ taken
    pub kept : (file : SpoolFile) → Kept before file → Kept r.0 file
    pub finished : r.1 ≡ ok tt → left ≡ []
    pub removed :
        r.1 ≡ ok tt → r.0.deleted ≡ before.deleted + deletions config.delete_after_replay taken

  -- An entry that the sink did not commit.
  Took-none : (entries : List SpoolFile) (r : Replaying) (e : Error) → Took entries r (r, err e)
  Took-none entries r e = record {
    taken = [];
    left = entries;
    split = refl;
    wrote = sym (append-nil r.written);
    kept = λ file k. k;
    finished = λ h. cc;
    removed = λ h. cc;
  }

  Any-append-left : {A : Type 0} (P : A → Type 0) (xs ys : List A) → Any P xs → Any P (xs ++ ys)
  Any-append-left P (x ∷ xs) ys (inl h) = inl h
  Any-append-left P (x ∷ xs) ys (inr h) = inr (Any-append-left P xs ys h)
  Any-append-left P [] ys h = absurd h

  Any-append-last : {A : Type 0} (P : A → Type 0) (xs : List A) (x : A) → P x → Any P (xs ++ x ∷ [])
  Any-append-last P [] x h = inl h
  Any-append-last P (y ∷ xs) x h = inr (Any-append-last P xs x h)

  -- A file is removed only under the name that is unlinked.
  unlink-or :
      (name : String) (files : List SpoolFile) (file : SpoolFile)
      → Any (λ f. f ≡ file) files
      → Any (λ f. f ≡ file) (unlink name files) ⊎ (name ≡ file.name)
  unlink-or name [] file h = absurd h
  unlink-or name (f ∷ files) file h = elim (Bool-cases (str_eq f.name name)) [
    | inl e ↦ rw e (elim h [
      | inl same ↦ inr (sym (str_eq→eq f.name name e) ∙ ap (λ (f : SpoolFile). f.name) same)
      | inr later ↦ unlink-or name files file later
    ])
    | inr n ↦ rw n (elim h [
      | inl same ↦ inl (inl same)
      | inr later ↦ elim (unlink-or name files file later) [
        | inl there ↦ inl (inr there)
        | inr q ↦ inr q
      ]
    ])
  ]

  remove_entry-Took :
      (delete fails : Bool) (entry : SpoolFile) (before : Replaying)
      → config.delete_after_replay ≡ delete
      → Took (entry ∷ []) before (
          remove_entry config sink unlink_fails delete fails entry
            (record before { written = before.written ++ entry ∷ [] }))
  unfolding Kept
  remove_entry-Took false fails entry before d = record {
    taken = entry ∷ [];
    left = [];
    split = refl;
    wrote = refl;
    kept = λ file k. elim k [
      | inl there ↦ inl there
      | inr w ↦ inr (Any-append-left _ before.written (entry ∷ []) w)
    ];
    finished = λ h. refl;
    removed = λ h. rw d (omega arith);
  }
  remove_entry-Took true true entry before d = record {
    taken = entry ∷ [];
    left = [];
    split = refl;
    wrote = refl;
    kept = λ file k. elim k [
      | inl there ↦ inl there
      | inr w ↦ inr (Any-append-left _ before.written (entry ∷ []) w)
    ];
    finished = λ h. cc;
    removed = λ h. cc;
  }
  remove_entry-Took true false entry before d = record {
    taken = entry ∷ [];
    left = [];
    split = refl;
    wrote = refl;
    kept = λ file k. elim k [
      | inl there ↦ elim (unlink-or entry.name before.files file there) [
        | inl still ↦ inl still
        | inr same ↦ inr (Any-append-last _ before.written entry same)
      ]
      | inr w ↦ inr (Any-append-left _ before.written (entry ∷ []) w)
    ];
    finished = λ h. refl;
    removed = λ h. rw d (omega arith);
  }

  after_sink-Took :
      (found : Option Error) (entry : SpoolFile) (before : Replaying)
      → Took (entry ∷ []) before (after_sink config sink unlink_fails found entry before)
  after_sink-Took (some e) entry before = Took-none (entry ∷ []) before e
  after_sink-Took none entry before =
      remove_entry-Took config.delete_after_replay (unlink_fails entry) entry before refl

  after_load-Took :
      (loaded : Result NatsEnvelope) (entry : SpoolFile) (before : Replaying)
      → Took (entry ∷ []) before (after_load config sink unlink_fails loaded entry before)
  after_load-Took (err e) entry before = Took-none (entry ∷ []) before e
  after_load-Took (ok envelope) entry before =
      after_sink-Took (sink before.written envelope) entry before

  Took-then :
      (entry : SpoolFile) (entries : List SpoolFile) (before : Replaying)
      (one : Replaying × Result (Unit {0})) (later : Replaying → Replaying × Result (Unit {0}))
      → Took (entry ∷ []) before one
      → ((r : Replaying) → Took entries r (later r))
      → Took (entry ∷ entries) before (continue_replay config sink unlink_fails one later)
  Took-then entry entries before (r, ok done) later t k =
      let g = k r in
      record {
        taken = t.taken ++ g.taken;
        left = g.left;
        split =
            ap (λ l. l ++ entries)
              (t.split ∙ (ap (λ l. t.taken ++ l) (t.finished refl) ∙ append-nil t.taken))
            ∙ (ap (λ l. t.taken ++ l) g.split ∙ sym (append_assoc t.taken g.taken g.left));
        wrote =
            g.wrote
            ∙ (ap (λ l. l ++ g.taken) t.wrote ∙ append_assoc before.written t.taken g.taken);
        kept = λ file h. g.kept file (t.kept file h);
        finished = g.finished;
        removed = λ h. omega (
          arith,
          g.removed h,
          t.removed refl,
          deletions-append config.delete_after_replay t.taken g.taken,
        );
      }
  Took-then entry entries before (r, err e) later t k = record {
    taken = t.taken;
    left = t.left ++ entries;
    split = ap (λ l. l ++ entries) t.split ∙ append_assoc t.taken t.left entries;
    wrote = t.wrote;
    kept = t.kept;
    finished = λ h. cc;
    removed = λ h. cc;
  }

  pub replay_each-Took :
      (entries : List SpoolFile) (before : Replaying)
      → Took entries before (replay_each config sink unlink_fails entries before)
  unfolding replay_each
  replay_each-Took [] before = record {
    taken = [];
    left = [];
    split = refl;
    wrote = sym (append-nil before.written);
    kept = λ file k. k;
    finished = λ h. refl;
    removed = λ h. omega (arith, deletions-nil config.delete_after_replay);
  }
  replay_each-Took (entry ∷ entries) before =
      Took-then entry entries before
        (after_load config sink unlink_fails entry.wrapper.loaded entry before)
        (replay_each config sink unlink_fails entries)
        (after_load-Took entry.wrapper.loaded entry before) (λ r. replay_each-Took entries r)
