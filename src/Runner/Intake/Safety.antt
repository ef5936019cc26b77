-- ===== src/Runner/Intake/Safety.antt =====
-- Proofs about core/runner.py: whole runs of the pull loop and of the push loop.
use nats_sinks.Common.{false, ◌≡◌, refl, subst, List, [], ◌∷◌, ◌++◌, Option, none, some}
use nats_sinks.Errors.{ok}
use nats_sinks.Envelope.{NatsEnvelope}
use nats_sinks.Priority.Lossless.{Weighted}
use nats_sinks.Runner.Exec.{RawMessage, Event, History, pure, ◌>>◌, Outside}
use nats_sinks.Runner.Exec.Safely.{
  Extends, Extends-refl, Safely, Safely-pure, Safely-ensure, Safely-if, Safely-bind, Safely-then,
}
use nats_sinks.Runner.Exec.Ledger.{Keeps, Justified, Safe, Safe-nil, Justified-at}
use nats_sinks.Runner.Message.Safety.{Safely-nak_all}
use nats_sinks.Runner.Batch.{Setup, process_raw_batch}
use nats_sinks.Runner.Batch.Cleared.{IsVouched, delivery_terms}
use nats_sinks.Runner.Batch.Pipeline.{Safely-process_raw_batch}
use nats_sinks.Runner.Intake.{
  Intake, IntakeConfig, put_nowait, next_push_batch, Fetch, timed_out, fetched, PushStep,
  called_back, wants_batch, request_stop, run_pull, reject_push_message, after_put, put_into,
  handle_push_message, process_next, take_from, push_step, run_push,
}
use nats_sinks.Runner.Intake.Queue.{Bounded, put_nowait-Bounded, next_push_batch-Bounded}

module _ (outside : Outside) (setup : Setup) (trusted : NatsEnvelope → Type 0)
    (vouched : IsVouched trusted setup) (weighted : Weighted setup.priority_lanes.lanes) where
  Safely-run_pull :
      {start : History} (fetches : List Fetch)
      → Keeps (delivery_terms trusted setup outside) start (run_pull outside setup fetches)
  unfolding run_pull
  Safely-run_pull [] = Safely-pure tt
  Safely-run_pull (timed_out ∷ fetches) = Safely-run_pull fetches
  Safely-run_pull (fetched messages ∷ fetches) =
      Safely-then _ _ (Safely-process_raw_batch outside setup trusted vouched weighted messages)
        (λ _. Safely-run_pull fetches)

  module _ (config : IntakeConfig) where
    -- The queue of the intake is within the limit of the configuration.
    abbrev Within : Intake → History → Type 0
    Within intake h = Bounded config.pending_msgs_limit intake.queue

    Safely-reject_push_message :
        {start : History} (m : RawMessage)
        → Keeps
            (delivery_terms trusted setup outside)
            start
            (reject_push_message outside setup config m)
    unfolding reject_push_message
    Safely-reject_push_message m =
        Safely-if config.nak_on_overflow _ _
          (λ _. Safely-nak_all (delivery_terms trusted setup outside) (m ∷ []))
          (λ _. Safely-pure tt)

    Safely-rejected :
        {start : History} (intake : Intake) (m : RawMessage)
        → Bounded config.pending_msgs_limit intake.queue
        → Safely
            (Safe (delivery_terms trusted setup outside))
            start
            (reject_push_message outside setup config m >> pure intake)
            Within
    Safely-rejected intake m b =
        Safely-then _ _ (Safely-reject_push_message m) (λ _. Safely-ensure intake (λ h x. b))

    Safely-handle_push_message :
        {start : History} (intake : Intake) (m : RawMessage)
        → Bounded config.pending_msgs_limit intake.queue
        → Safely
            (Safe (delivery_terms trusted setup outside))
            start
            (handle_push_message outside setup config intake m)
            Within
    unfolding handle_push_message
    Safely-handle_push_message {start} intake m b =
        Safely-if intake.accepting _ _ (λ _. put intake.queue) (λ _. Safely-rejected intake m b)
      where
        stored :
            (queue : List RawMessage) (out : Option (List RawMessage))
            → put_nowait config.pending_msgs_limit m queue ≡ out
            → Safely
                (Safe (delivery_terms trusted setup outside))
                start
                (after_put outside setup config intake m out)
                Within
        stored queue none e = Safely-rejected intake m b
        stored queue (some out) e =
            Safely-ensure _ (λ h x. put_nowait-Bounded config.pending_msgs_limit m queue out e)

        put :
            (queue : Option (List RawMessage))
            → Safely
                (Safe (delivery_terms trusted setup outside))
                start
                (put_into outside setup config intake m queue)
                Within
        put none = Safely-rejected intake m b
        put (some queue) = stored queue (put_nowait config.pending_msgs_limit m queue) refl

    Safely-take_from :
        {start : History} (intake : Intake) (queue : Option (List RawMessage))
        → Bounded config.pending_msgs_limit intake.queue
        → Bounded config.pending_msgs_limit queue
        → Safely
            (Safe (delivery_terms trusted setup outside))
            start
            (take_from outside setup config intake queue)
            Within
    Safely-take_from intake none b q = Safely-ensure intake (λ h x. b)
    Safely-take_from {start} intake (some queue) b q =
        next (next_push_batch config.batch_size queue) refl
      where
        next :
            (taken : Option (List RawMessage × List RawMessage))
            → next_push_batch config.batch_size queue ≡ taken
            → Safely
                (Safe (delivery_terms trusted setup outside))
                start
                (process_next outside setup config intake taken)
                Within
        next none e = Safely-ensure intake (λ h x. b)
        next (some (batch, rest)) e =
            Safely-then _ _ (Safely-process_raw_batch outside setup trusted vouched weighted batch)
              λ _. Safely-ensure _ (λ h x.
                next_push_batch-Bounded config.pending_msgs_limit config.batch_size queue batch rest
                  q e)

    Safely-run_push :
        {start : History} (intake : Intake) (steps : List PushStep)
        → Bounded config.pending_msgs_limit intake.queue
        → Safely
            (Safe (delivery_terms trusted setup outside))
            start
            (run_push outside setup config intake steps)
            Within
    unfolding run_push push_step
    Safely-run_push intake [] b = Safely-ensure intake (λ h x. b)
    Safely-run_push intake (called_back m ∷ steps) b =
        Safely-bind _ _ (Safely-handle_push_message intake m b)
          λ next now x q. Safely-run_push next steps q
    Safely-run_push intake (wants_batch ∷ steps) b =
        Safely-bind _ _ (Safely-take_from intake intake.queue b b)
          λ next now x q. Safely-run_push next steps q
    Safely-run_push intake (request_stop ∷ steps) b =
        Safely-bind _ _ (Safely-ensure (record intake { accepting = false }) (λ h x. b))
          λ next now x q. Safely-run_push next steps q

    -- For every configuration whose lanes have weights of one or more and whose authenticator lets
    -- trusted envelopes through only, whatever the sink and the client answer: from a safe history
    -- and a queue within its limit, a push run of any steps, with its callbacks between its batches,
    -- ends, also by an error, in a safe history; and if it returns, its queue is within the limit.
    pub run_push-Safe :
        (intake : Intake) (steps : List PushStep) (before : History)
        → Safe (delivery_terms trusted setup outside) before
        → Bounded config.pending_msgs_limit intake.queue
        → Safe
            (delivery_terms trusted setup outside)
            (run_push outside setup config intake steps before).1
          × ((next : Intake)
              → (run_push outside setup config intake steps before).0 ≡ ok next
              → Bounded config.pending_msgs_limit next.queue)
    run_push-Safe intake steps before s b =
        let ends =
          (Safely-run_push {start = before} intake steps b).from before (Extends-refl before) s in
        (ends.kept, ends.ensured)

  -- For every configuration whose lanes have weights of one or more and whose authenticator lets
  -- trusted envelopes through only, whatever the sink, the client and the server answer: a batch
  -- that starts in a safe history ends, also by an error, in a safe history that has all that
  -- happened before.
  pub process_raw_batch-Safe :
      (messages : List RawMessage) (before : History)
      → Safe (delivery_terms trusted setup outside) before
      → Safe
          (delivery_terms trusted setup outside)
          (process_raw_batch outside setup messages before).1
        × Extends before (process_raw_batch outside setup messages before).1
  process_raw_batch-Safe messages before s =
      let ends =
        (Safely-process_raw_batch outside setup trusted vouched weighted {start = before}
            messages).from
          before (Extends-refl before) s in
      (ends.kept, ends.extends)

  -- The history of a pull run is safe.
  pub run_pull-Safe :
      (fetches : List Fetch)
      → Safe (delivery_terms trusted setup outside) (run_pull outside setup fetches []).1
  run_pull-Safe fetches =
      ((Safely-run_pull {start = []} fetches).from [] (Extends-refl [])
        (Safe-nil (delivery_terms trusted setup outside))).kept

  -- For every configuration whose lanes have weights of one or more and whose authenticator lets
  -- trusted envelopes through only, whatever the sink, the client and the server answer: in the
  -- history of a pull run of any fetches, each acknowledgement of a message, plain or confirmed,
  -- comes after a commit of the sink or a dead letter with an envelope of that message, and each
  -- terminal acknowledgement after such a dead letter; a commit is one that the sink answered
  -- without an error, a dead letter one whose publication returned; and the sink is called only with
  -- envelopes that passed every gate that is on.
  pub run_pull-commit_first :
      (fetches : List Fetch) (event : Event) (later earlier : History)
      → (run_pull outside setup fetches []).1 ≡ later ++ event ∷ earlier
      → Justified (delivery_terms trusted setup outside) event earlier
  run_pull-commit_first fetches event later earlier split =
      Justified-at (delivery_terms trusted setup outside) event later earlier
        (subst (Safe (delivery_terms trusted setup outside)) split (run_pull-Safe fetches))
