-- ===== src/Runner/Spooled/Durable.antt =====
-- Proofs about core/runner.py with spool/sink.py: where the envelopes of acknowledged messages are.
use nats_sinks.Common.{
  ◌≡◌, refl, sym, subst, ◌∙◌, ◌⊎◌, inl, inr, true, List, [], ◌∷◌, ◌++◌, Option, none, some, String,
  All, Any, arith,
}
use nats_sinks.Errors.{Result, ok, err}
use nats_sinks.Envelope.{NatsEnvelope}
use nats_sinks.Priority.Lossless.{Weighted}
use nats_sinks.Spool.{SpoolSinkConfig, Wrapper, SpoolFile, FileOutcome, exists, write_batch}
use nats_sinks.Spool.Limits.{exists-append}
use nats_sinks.Spool.Writes.{Within, Keeps, Keeps-refl, write_batch-Keeps, write_batch-exists}
use nats_sinks.Runner.Exec.{RawMessage, Event, committed, dlq_published, History, Outside}
use nats_sinks.Runner.Batch.{Setup}
use nats_sinks.Runner.Batch.Derived.{Derived}
use nats_sinks.Runner.Intake.{Fetch, run_pull}
use nats_sinks.Runner.Traced.{Acknowledges, Traced, run_pull-Traced}
use nats_sinks.Runner.Spooled.{error_of, written_by, after_event, files_after, spool_write}

both-at : {A : Type 0} (P Q : A → Type 0) (xs : List A) → Any P xs → All Q xs → (x : A) × P x × Q x
both-at P Q [] h k = elim h [ ]
both-at P Q (x ∷ xs) (inl h) (k, ks) = (x, h, k)
both-at P Q (x ∷ xs) (inr h) (k, ks) = both-at P Q xs h ks

error_of-none : (r : Result (Unit {0})) → error_of r ≡ none → r ≡ ok tt
error_of-none (ok done) h = refl
error_of-none (err e) h = cc

module _ (config : SpoolSinkConfig) (filename : NatsEnvelope → Result String)
    (wrapper_of : NatsEnvelope → Result Wrapper)
    (outcome : List SpoolFile → SpoolFile → FileOutcome) (initial : List SpoolFile)
    (fits : Within config initial) where
  -- The directory after a history.
  abbrev files : History → List SpoolFile
  files = files_after config filename wrapper_of outcome initial

  after_event-Keeps :
      (w : Option (List NatsEnvelope)) (before : List SpoolFile)
      → Within config before
      → Keeps config filename wrapper_of outcome before
          (after_event config filename wrapper_of outcome initial w before)
  after_event-Keeps none before fit = Keeps-refl config filename wrapper_of outcome before fit
  after_event-Keeps (some envelopes) before fit =
      write_batch-Keeps config filename wrapper_of outcome before envelopes fit

  files_after-Within : (h : History) → Within config (files h)
  unfolding files_after
  files_after-Within [] = fits
  files_after-Within (event ∷ h) =
      (after_event-Keeps (written_by event) (files h) (files_after-Within h)).within

  -- A file stays.
  exists-files_after :
      (later h : History) (name : String)
      → exists (files h) name ≡ true
      → exists (files (later ++ h)) name ≡ true
  unfolding files_after
  exists-files_after [] h name e = e
  exists-files_after (event ∷ later) h name e =
      let k =
        after_event-Keeps (written_by event) (files (later ++ h))
          (files_after-Within (later ++ h)) in
      let behind = exists-files_after later h name e in
      subst (λ l. exists l name ≡ true) (sym k.same)
        (ground (arith, exists-append (files (later ++ h)) k.news name, behind))

  -- An envelope of the message is a dead letter, or there is a file of its name.
  abbrev pub Kept : Setup → RawMessage → History → List SpoolFile → Type 0
  Kept setup m h directory =
      (e : NatsEnvelope) × Derived setup m e
      × (Any (λ event. event ≡ dlq_published e) h
          ⊎ ((name : String) × (filename e ≡ ok name) × (exists directory name ≡ true)))

  module _ (outside : Outside) (setup : Setup)
      (spooled : (h : History) (envelopes : List NatsEnvelope)
        → outside.write_batch h envelopes
          ≡ spool_write config filename wrapper_of outcome initial h envelopes) where
    -- A commit leaves a file for every envelope.
    files_after-committed :
        (envelopes : List NatsEnvelope) (h : History)
        → outside.write_batch h envelopes ≡ none
        → All
            (λ e.
              (name : String) × (filename e ≡ ok name)
              × (exists (files (committed envelopes ∷ h)) name ≡ true))
            envelopes
    unfolding files_after spool_write
    files_after-committed envelopes h said =
        write_batch-exists config filename wrapper_of outcome (files h) envelopes
          (files_after-Within h)
          (error_of-none (write_batch config filename wrapper_of outcome (files h) envelopes).1
            (sym (spooled h envelopes) ∙ said))

    Traced-Kept :
        (m : RawMessage) (h : History) → Traced outside setup m h → Kept setup m h (files h)
    Traced-Kept m h (e, derived, inl buried) = (e, derived, inl buried)
    Traced-Kept m h (e, derived, inr c) =
        let (x, same, (name, named, filed)) =
          both-at (λ x. x ≡ e) _ c.sent c.has_envelope
            (files_after-committed c.sent c.before c.returned) in
        (
          e,
          derived,
          inr (
            name,
            subst (λ v. filename v ≡ ok name) same named,
            subst (λ l. exists (files l) name ≡ true) (sym c.same)
                (exists-files_after c.newer (committed c.sent ∷ c.before) name filed),
          ),
        )

    Kept-still :
        (m : RawMessage) (dead later h : History)
        → Kept setup m dead (files h)
        → Kept setup m dead (files (later ++ h))
    Kept-still m dead later h (e, derived, inl buried) = (e, derived, inl buried)
    Kept-still m dead later h (e, derived, inr (name, named, filed)) =
        (e, derived, inr (name, named, exists-files_after later h name filed))

    -- A runner whose sink is the spool, with a directory within the limits of its configuration at
    -- the start and lanes of weights one or more, whatever the client, the server and the file
    -- system answer: if a message is acknowledged in a pull run of any fetches, plainly or with
    -- confirmation, then an envelope of that message was published as a dead letter before, or has
    -- a name whose file is in the directory, both at the acknowledgement and at the end of the run.
    pub run_pull-Kept :
        (fetches : List Fetch) (m : RawMessage) (event : Event) (later earlier : History)
        → Weighted setup.priority_lanes.lanes
        → Acknowledges m event
        → (run_pull outside setup fetches []).1 ≡ later ++ event ∷ earlier
        → Kept setup m earlier (files earlier)
          × Kept setup m earlier (files (run_pull outside setup fetches []).1)
    run_pull-Kept fetches m event later earlier weighted acked split =
        let kept =
          Traced-Kept m earlier
            (run_pull-Traced outside setup fetches m event later earlier weighted acked split) in
        (
          kept,
          subst (λ h. Kept setup m earlier (files h)) (sym split)
              (Kept-still m earlier later (event ∷ earlier)
                (Kept-still m earlier (event ∷ []) earlier kept)),
        )
