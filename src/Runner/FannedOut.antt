-- ===== src/Runner/FannedOut.antt =====
-- core/runner.py with core/fanout_sink.py: a runner whose sink is the fan-out, with its proofs.
use nats_sinks.Common.{
  ℕ, ◌≡◌, refl, subst, ◌⊎◌, inl, inr, List, [], ◌∷◌, ◌++◌, Option, none, some, String, PythonText,
  Any, All,
}
use nats_sinks.Errors.{Error, ok}
use nats_sinks.Envelope.{NatsEnvelope}
use nats_sinks.Priority.Lossless.{Weighted}
use nats_sinks.Routing.{select_route_targets}
use nats_sinks.AckGate.{Tasks}
use nats_sinks.Fanout.{SelectedTarget, select_targets}
use nats_sinks.Fanout.Sink.{
  FanoutSink, FanoutOutcome, wrote, failed_with, write_cancelled, never_ends, operations_of,
  write_batch,
}
use nats_sinks.Fanout.Writes.{Stored, write_batch-Stored}
use nats_sinks.Runner.Exec.{RawMessage, Event, dlq_published, History, Outside}
use nats_sinks.Runner.Batch.{Setup}
use nats_sinks.Runner.Batch.Derived.{Derived}
use nats_sinks.Runner.Intake.{Fetch, run_pull}
use nats_sinks.Runner.Traced.{Acknowledges, CommittedIn, Traced, run_pull-Traced}

-- The runner gets what the write ends with; one that is cancelled or never ends does not come back
-- without an error.
abbrev pub Answers : FanoutOutcome → Option Error → Type 0
Answers wrote answer = answer ≡ none
Answers (failed_with e) answer = answer ≡ some e
Answers write_cancelled answer = ¬ (answer ≡ none)
Answers never_ends answer = ¬ (answer ≡ none)

wrote_if_none :
    (outcome : FanoutOutcome) (answer : Option Error)
    → Answers outcome answer
    → answer ≡ none
    → outcome ≡ wrote
wrote_if_none wrote answer a h = refl
wrote_if_none (failed_with e) answer a h = cc
wrote_if_none write_cancelled answer a h = absurd (a h)
wrote_if_none never_ends answer a h = absurd (a h)

All-at : {A : Type 0} (P : A → Type 0) (a : A) (xs : List A) → Any (λ x. x ≡ a) xs → All P xs → P a
All-at P a [] h k = elim h [ ]
All-at P a (x ∷ xs) (inl h) (k, ks) = subst P h k
All-at P a (x ∷ xs) (inr h) (k, ks) = All-at P a xs h ks

module _ (python : PythonText) (sink : FanoutSink)
    (run : History → List (String × List NatsEnvelope) → Tasks) (started : History → ℕ) where
  -- `FanoutSink.write_batch` as the runner's sink: the tasks of a write, and the time at which it
  -- starts, may be others each time.
  abbrev fanout_write : History → List NatsEnvelope → FanoutOutcome
  fanout_write h envelopes = write_batch python (run h) (started h) sink envelopes

  -- In the history there is a batch with the envelope that the runner's sink committed, and for
  -- every target that the envelope selects, an operation of that write's groups gives the envelope
  -- to its sink, and the gate over the tasks of these operations returned; if the target is
  -- required, the task of its sink was awaited and succeeded.
  pub record Copied (outside : Outside) (e : NatsEnvelope) (h : History) : Type 0 where
    pub commit : CommittedIn outside e h
    pub groups : List SelectedTarget
    pub grouped : select_targets python sink.routing commit.sent ≡ ok groups
    pub copies :
        All
          (λ t.
            Any
              (Stored python (run commit.before) (started commit.before) groups t e)
              (operations_of groups))
          (select_route_targets python e sink.routing).target_policies

  module _ (outside : Outside) (setup : Setup)
      (answers : (h : History) (envelopes : List NatsEnvelope)
        → Answers (fanout_write h envelopes) (outside.write_batch h envelopes)) where
    CommittedIn-Copied :
        (e : NatsEnvelope) (h : History) → CommittedIn outside e h → Copied outside e h
    CommittedIn-Copied e h c =
        let (groups, grouped, copies) =
          write_batch-Stored python (run c.before) (started c.before) sink c.sent
            (wrote_if_none _ _ (answers c.before c.sent) c.returned) in
        record {
          commit = c;
          groups = groups;
          grouped = grouped;
          copies =
              All-at
                (λ m.
                  All
                    (λ t.
                      Any (Stored python (run c.before) (started c.before) groups t m)
                        (operations_of groups))
                    (select_route_targets python m sink.routing).target_policies)
                e c.sent c.has_envelope copies;
        }

    Traced-Copied :
        (m : RawMessage) (h : History)
        → Traced outside setup m h
        → (e : NatsEnvelope) × Derived setup m e
          × (Any (λ event. event ≡ dlq_published e) h ⊎ Copied outside e h)
    Traced-Copied m h (e, derived, inl buried) = (e, derived, inl buried)
    Traced-Copied m h (e, derived, inr c) = (e, derived, inr (CommittedIn-Copied e h c))

    -- A runner whose sink is the fan-out, with lanes of weights one or more, whatever the tasks of the
    -- children's writes, the client and the server answer: if a message is acknowledged in a pull run
    -- of any fetches, plainly or with confirmation, then before that an envelope of the message was
    -- published as a dead letter, or was in a batch that the fan-out wrote without an error. That
    -- write had, for every target that the envelope selects, an operation that writes the envelope to
    -- its sink; and if the target is required, this operation's task was awaited and succeeded.
    pub run_pull-Copied :
        (fetches : List Fetch) (m : RawMessage) (event : Event) (later earlier : History)
        → Weighted setup.priority_lanes.lanes
        → Acknowledges m event
        → (run_pull outside setup fetches []).1 ≡ later ++ event ∷ earlier
        → (e : NatsEnvelope) × Derived setup m e
          × (Any (λ event. event ≡ dlq_published e) earlier ⊎ Copied outside e earlier)
    run_pull-Copied fetches m event later earlier weighted acked split =
        Traced-Copied m earlier
          (run_pull-Traced outside setup fetches m event later earlier weighted acked split)
