-- ===== src/Spool/Writes.antt =====
-- Proofs about spool/sink.py: the limits of the directory, and the records of a batch that was
-- written.
use mathlib.Core.List.{append-nil}
use nats_sinks.Common.{
  ◌+◌, ◌≤◌, ◌≡◌, refl, sym, inl, inr, ◌⊎◌, Bool, true, false, ◌||◌, ltb, List, [], ◌∷◌, ◌++◌,
  length, String, All, Any, All-weaken, Bool-cases, arith, subst,
}
use nats_sinks.Errors.{Result, ok, err, bind-ok}
use nats_sinks.Envelope.{NatsEnvelope}
use nats_sinks.Spool.{
  SpoolSinkConfig, skip_existing, fail_existing, SpoolDuplicatePolicy, Wrapper, SpoolFile,
  FileOutcome, exists, total_size, plan_one, plan_records, on_duplicate, write_planned, if_planned,
  write_batch, write_batch_sync,
}
use nats_sinks.Spool.Limits.{exists-append, write_all-LandAll}

-- A directory within the limits of its configuration.
abbrev pub Within : SpoolSinkConfig → List SpoolFile → Type 0
Within config files = (length files ≤ config.max_records) × (total_size files ≤ config.max_bytes)

module _ (config : SpoolSinkConfig) (filename : NatsEnvelope → Result String)
    (wrapper_of : NatsEnvelope → Result Wrapper)
    (outcome : List SpoolFile → SpoolFile → FileOutcome) where
  -- What a call leaves: the files that were there, new ones after them, and all within the limits.
  pub record Keeps (files : List SpoolFile) (after : List SpoolFile) : Type 0 where
    pub within : Within config after
    pub news : List SpoolFile
    pub same : after ≡ files ++ news

  pub Keeps-refl : (files : List SpoolFile) → Within config files → Keeps files files
  Keeps-refl files w = record { within = w; news = []; same = sym (append-nil files) }

  record Settles (files planned : List SpoolFile) (r : List SpoolFile × Result (Unit {0}))
      : Type 0 where
    keeps : Keeps files r.0
    there : r.1 ≡ ok tt → All (λ f. exists r.0 f.name ≡ true) planned

  write_planned-Settles :
      (files planned : List SpoolFile)
      → Within config files
      → Settles files planned (write_planned config filename wrapper_of outcome files planned)
  write_planned-Settles files [] w = record { keeps = Keeps-refl files w; there = λ h. tt }
  write_planned-Settles files (f ∷ planned) w =
      elim (Bool-cases (
        ltb config.max_records (length files + length (f ∷ planned))
        || ltb config.max_bytes (total_size files + total_size (f ∷ planned)))) [
          | inl full ↦ rw full (record { keeps = Keeps-refl files w; there = λ h. cc })
          | inr room ↦
              let l = write_all-LandAll config filename wrapper_of outcome files (f ∷ planned) in
              rw room (record {
                keeps = record {
                  within = (ground (arith, l.grows.few), ground (arith, l.grows.small));
                  news = l.grows.news;
                  same = l.grows.same;
                };
                there = l.are_there;
              })
        ]

  -- A message of a plan: its file is there already, or it is planned.
  Planned : List SpoolFile → List SpoolFile → NatsEnvelope → Type 0
  Planned files planned message =
      (name : String) × (filename message ≡ ok name)
      × ((exists files name ≡ true) ⊎ Any (λ f. f.name ≡ name) planned)

  Planned-more :
      (files planned : List SpoolFile) (f : SpoolFile) (message : NatsEnvelope)
      → Planned files planned message
      → Planned files (f ∷ planned) message
  unfolding Planned
  Planned-more files planned f message (name, e, inl h) = (name, e, inl h)
  Planned-more files planned f message (name, e, inr h) = (name, e, inr (inr h))

  -- A planned message has its file once the planned files are there.
  found :
      (files planned after : List SpoolFile)
      → Keeps files after
      → All (λ f. exists after f.name ≡ true) planned
      → (m : NatsEnvelope) → Planned files planned m
      → (name : String) × (filename m ≡ ok name) × (exists after name ≡ true)
  unfolding Planned
  found files planned after k there m (name, e, inl h) = (
    name,
    e,
    subst (λ l. exists l name ≡ true) (sym k.same)
        (ground (arith, exists-append files k.news name)),
  )
  found files planned after k there m (name, e, inr a) = (name, e, one_there planned there a)
    where
      one_there :
          (planned : List SpoolFile)
          → All (λ f. exists after f.name ≡ true) planned
          → Any (λ f. f.name ≡ name) planned
          → exists after name ≡ true
      one_there (f ∷ planned) (t, ts) (inl e) = subst (λ n. exists after n ≡ true) e t
      one_there (f ∷ planned) (t, ts) (inr a) = one_there planned ts a
      one_there [] ts a = absurd a

  plan_one-Planned :
      (files : List SpoolFile) (message : NatsEnvelope) (name : String) (b : Bool)
      (rest : Result (List SpoolFile)) (planned : List SpoolFile)
      → exists files name ≡ b
      → filename message ≡ ok name
      → plan_one config filename wrapper_of outcome b message name rest ≡ ok planned
      → Planned files planned message
        × (others : List SpoolFile) × (rest ≡ ok others)
        × ((m : NatsEnvelope) → Planned files others m → Planned files planned m)
  unfolding Planned
  plan_one-Planned files message name true rest planned e n h =
      let (others, r, more) = duplicate config.duplicate_policy rest h in
      ((name, n, inl e), others, r, more)
    where
      duplicate :
          (p : SpoolDuplicatePolicy) (rest : Result (List SpoolFile))
          → on_duplicate config filename wrapper_of outcome p rest ≡ ok planned
          → (others : List SpoolFile) × (rest ≡ ok others)
            × ((m : NatsEnvelope) → Planned files others m → Planned files planned m)
      duplicate skip_existing rest h = (planned, h, λ m p. p)
      duplicate fail_existing rest h = cc
  plan_one-Planned files message name false rest planned e n h =
      let (w, _, k) = bind-ok (wrapper_of message) _ planned h in
      let (others, r, made) = bind-ok rest _ planned k in
      let same = returned made in
      (
        (name, n, inr (subst (Any (λ f. f.name ≡ name)) same (inl refl))),
        others,
        r,
        λ m p.
            subst (λ l. Planned files l m) same
              (Planned-more files others (record { name = name; wrapper = w }) m p),
      )
    where
      returned : {xs ys : List SpoolFile} → ok xs ≡ ok ys → xs ≡ ys
      returned e = cc

  plan_records-Planned :
      (files : List SpoolFile) (messages : List NatsEnvelope) (planned : List SpoolFile)
      → plan_records config filename wrapper_of outcome files messages ≡ ok planned
      → All (Planned files planned) messages
  unfolding plan_records
  plan_records-Planned files [] planned h = tt
  plan_records-Planned files (message ∷ messages) planned h =
      let (name, n, k) = bind-ok (filename message) _ planned h in
      let (first, others, e, more) =
        plan_one-Planned files message name (exists files name) _ planned refl n k in
      (first, All-weaken _ _ messages more (plan_records-Planned files messages others e))

  -- Whatever a write does, raising or not, the directory keeps the files that it had, in their order,
  -- gets new ones after them, and stays within the limits of the configuration if it was.
  pub write_batch_sync-Keeps :
      (files : List SpoolFile) (messages : List NatsEnvelope)
      → Within config files
      → Keeps files (write_batch_sync config filename wrapper_of outcome files messages).0
  unfolding write_batch_sync
  write_batch_sync-Keeps files messages w =
      planned_or_not (plan_records config filename wrapper_of outcome files messages)
    where
      planned_or_not :
          (plan : Result (List SpoolFile))
          → Keeps files (if_planned config filename wrapper_of outcome files plan).0
      planned_or_not (err e) = Keeps-refl files w
      planned_or_not (ok planned) = (write_planned-Settles files planned w).keeps

  pub write_batch-Keeps :
      (files : List SpoolFile) (messages : List NatsEnvelope)
      → Within config files
      → Keeps files (write_batch config filename wrapper_of outcome files messages).0
  write_batch-Keeps files [] w = Keeps-refl files w
  write_batch-Keeps files (message ∷ messages) w =
      write_batch_sync-Keeps files (message ∷ messages) w

  -- If a write into a directory within its limits returns without an error, every message of the
  -- batch has a name, and a file of that name is in the directory.
  pub write_batch_sync-exists :
      (files : List SpoolFile) (messages : List NatsEnvelope)
      → Within config files
      → (write_batch_sync config filename wrapper_of outcome files messages).1 ≡ ok tt
      → All
          (λ m.
            (name : String) × (filename m ≡ ok name)
            × (exists (write_batch_sync config filename wrapper_of outcome files messages).0 name
                ≡ true))
          messages
  unfolding write_batch_sync
  write_batch_sync-exists files messages w h =
      go (plan_records config filename wrapper_of outcome files messages) refl h
    where
      go :
          (plan : Result (List SpoolFile))
          → plan_records config filename wrapper_of outcome files messages ≡ plan
          → (if_planned config filename wrapper_of outcome files plan).1 ≡ ok tt
          → All
              (λ m.
                (name : String) × (filename m ≡ ok name)
                × (exists (if_planned config filename wrapper_of outcome files plan).0 name ≡ true))
              messages
      go (err e) q h = cc
      go (ok planned) q h =
          let s = write_planned-Settles files planned w in
          All-weaken _ _ messages
            (λ m p.
              found files planned (write_planned config filename wrapper_of outcome files planned).0
                s.keeps (s.there h) m p)
            (plan_records-Planned files messages planned q)

  pub write_batch-exists :
      (files : List SpoolFile) (messages : List NatsEnvelope)
      → Within config files
      → (write_batch config filename wrapper_of outcome files messages).1 ≡ ok tt
      → All
          (λ m.
            (name : String) × (filename m ≡ ok name)
            × (exists (write_batch config filename wrapper_of outcome files messages).0 name
                ≡ true))
          messages
  write_batch-exists files [] w h = tt
  write_batch-exists files (message ∷ messages) w h =
      write_batch_sync-exists files (message ∷ messages) w h
