-- ===== src/Runner/Batch/Safety.antt =====
-- Proofs about core/runner.py: the gates of `process_raw_batch` and what surrounds the sink.
use mathlib.Core.List.Permᴰ.{Permᴰ}
use nats_sinks.Common.{
  ℕ, Bool, true, false, ◌≡◌, refl, inl, not, List, [], ◌∷◌, Option, none, some, All, All₂, is_empty,
}
use nats_sinks.Errors.{Error, is_permanent, Result, ok, collect_from}
use nats_sinks.Envelope.{NatsEnvelope}
use nats_sinks.Metrics.{Metric}
use nats_sinks.Gate.{Evaluation, has_rejections}
use nats_sinks.Runner.Exec.{
  RawMessage, sink_called, committed, write_raised, History, Exec, Outside,
}
use nats_sinks.Runner.Exec.Safely.{
  Safely, AnyResult, Ends, Ends-emit, Safely-answer, Safely-pure, Safely-emit, Safely-if,
  Safely-then, Safely-lift,
}
use nats_sinks.Runner.Exec.Ledger.{
  Stored, Safe, Safe-cons, Safely-update, Safely-update_if, Safely-update_all,
}
use nats_sinks.Runner.Message.Safety.{Safely-heartbeat}
use nats_sinks.Runner.Settle.Safety.{
  Covered, Safely-ack_all, Safely-handle_permanent_failure, Safely-handle_policy_rejections,
  Safely-handle_temporary_failure,
}
use nats_sinks.Runner.Batch.{
  Setup, GateMetrics, count_gate, Stage, permanent_failure, policy_rejections, temporary_failure,
  settle_rejections, handle_stage_error, acknowledge, after_write, write_to_sink,
}
use nats_sinks.Runner.Batch.Cleared.{Cleared, LetsThrough, delivery_terms}
use nats_sinks.Runner.Batch.Derived.{Derived, collect_from-All₂, pick-All₂, All₂→Any, Any-perm}

module _ (outside : Outside) (setup : Setup) (trusted : NatsEnvelope → Type 0) where
  -- Messages beside an envelope of their own.
  abbrev Paired : List RawMessage → List NatsEnvelope → Type 0
  Paired = All₂ (Derived setup)

  -- The batch is safe under way from here.
  abbrev pub SafeBatch : {A : Type 0} → History → Exec A → Type 0
  SafeBatch start m = Safely (Safe (delivery_terms trusted setup outside)) start m AnyResult

  -- A stage that is safe for all messages that stand beside an envelope of their own.
  abbrev pub SafeStage : Stage → Type 0
  SafeStage next =
      (start : History) (messages : List RawMessage) (envelopes : List NatsEnvelope)
      → Paired messages envelopes
      → SafeBatch start (next messages envelopes)

  -- The same for envelopes that are all good.
  abbrev pub GatedStage : (NatsEnvelope → Type 0) → Stage → Type 0
  GatedStage Good next =
      (start : History) (messages : List RawMessage) (envelopes : List NatsEnvelope)
      → Paired messages envelopes
      → All Good envelopes
      → SafeBatch start (next messages envelopes)

  -- Replacing every envelope by one of the same message keeps them so.
  pub Paired-collect :
      (f : ℕ → NatsEnvelope → Result NatsEnvelope)
      → ((m : RawMessage) (n : ℕ) (e e' : NatsEnvelope)
          → f n e ≡ ok e'
          → Derived setup m e
          → Derived setup m e')
      → (n : ℕ) (messages : List RawMessage) (envelopes out : List NatsEnvelope)
      → collect_from f n envelopes ≡ ok out
      → Paired messages envelopes
      → Paired messages out
  Paired-collect f keep n messages envelopes out h p = compose messages envelopes out p (
      collect_from-All₂ (λ e e'. (m : RawMessage) → Derived setup m e → Derived setup m e') f
        (λ k e e' q m d. keep m k e e' q d) n envelopes out h)
    where
      compose :
          (ms : List RawMessage) (es os : List NatsEnvelope)
          → Paired ms es
          → All₂ (λ e e'. (m : RawMessage) → Derived setup m e → Derived setup m e') es os
          → Paired ms os
      compose [] [] [] p q = tt
      compose [] [] (o ∷ os) p q = absurd q
      compose [] (e ∷ es) os p q = absurd p
      compose (m ∷ ms) [] os p q = absurd p
      compose (m ∷ ms) (e ∷ es) [] p q = absurd q
      compose (m ∷ ms) (e ∷ es) (o ∷ os) (d, p) (k, q) = (k m d, compose ms es os p q)

  pub covered :
      (messages : List RawMessage) (envelopes : List NatsEnvelope)
      → Paired messages envelopes
      → Covered (Derived setup) messages envelopes
  covered messages envelopes p = All₂→Any (Derived setup) messages envelopes p

  pub Covered-by_perm :
      (messages : List RawMessage) {envelopes out : List NatsEnvelope}
      → Permᴰ out envelopes
      → Covered (Derived setup) messages envelopes
      → Covered (Derived setup) messages out
  Covered-by_perm [] p c = tt
  Covered-by_perm (m ∷ messages) p (c, cs) =
      (Any-perm (Derived setup m) p c, Covered-by_perm messages p cs)

  pub Safely-permanent_failure :
      {start : History} (messages : List RawMessage) (envelopes : List NatsEnvelope)
      → Covered (Derived setup) messages envelopes
      → SafeBatch start (permanent_failure outside setup messages envelopes)
  Safely-permanent_failure =
      Safely-handle_permanent_failure (delivery_terms trusted setup outside) setup.delivery
        setup.dead_letter

  Safely-policy_rejections : SafeStage (policy_rejections outside setup)
  Safely-policy_rejections start messages envelopes p =
      Safely-handle_policy_rejections (delivery_terms trusted setup outside) setup.delivery
        setup.dead_letter messages envelopes (covered messages envelopes p)

  pub Safely-temporary_failure :
      {start : History} (metric : Metric) (messages : List RawMessage)
      → SafeBatch start (temporary_failure outside setup metric messages)
  Safely-temporary_failure =
      Safely-handle_temporary_failure (delivery_terms trusted setup outside) setup.delivery
        setup.dead_letter

  pub Safely-count_gate :
      {V : Type 0} {start : History} (metrics : GateMetrics) (evaluation : Evaluation V)
      → SafeBatch start (count_gate metrics evaluation)
  unfolding count_gate
  Safely-count_gate metrics evaluation =
      Safely-then _ _ (Safely-update_if (delivery_terms trusted setup outside) _ _) λ _.
        Safely-then _ _ (Safely-update_if (delivery_terms trusted setup outside) _ _) λ _.
          Safely-then _ _ (Safely-update_if (delivery_terms trusted setup outside) _ _)
            λ _. Safely-update_if (delivery_terms trusted setup outside) _ _

  -- A gate that settles what it rejects is safe if what follows it is safe for what it lets through.
  pub Safely-settle_rejections :
      {V : Type 0} {Good : NatsEnvelope → Type 0} (evaluation : Evaluation V) (next : Stage)
      → GatedStage Good next
      → (start : History) (messages : List RawMessage) (envelopes : List NatsEnvelope)
      → Paired messages envelopes
      → LetsThrough Good evaluation envelopes
      → SafeBatch start (settle_rejections outside setup evaluation next messages envelopes)
  unfolding settle_rejections
  Safely-settle_rejections evaluation next safe start messages envelopes p lets =
      Safely-if (not (has_rejections evaluation)) _ _
        (λ h. safe start messages envelopes p (lets.whole (none_rejected _ h)))
        λ _. Safely-lift _ _ λ rm h1. Safely-lift _ _ λ re h2.
          Safely-then _ _
            (Safely-policy_rejections start rm re (
              pick-All₂ (Derived setup) evaluation.rejected_indexes messages envelopes rm re p h1
                h2))
            λ _. Safely-lift _ _ λ am h3. Safely-lift _ _ λ ae h4.
              Safely-if (is_empty am) _ _ (λ _. Safely-pure tt)
                (λ _.
                  safe start am ae
                    (pick-All₂ (Derived setup) evaluation.accepted_indexes messages envelopes am ae
                      p h3 h4)
                    (lets.picked ae h4))
    where
      none_rejected : (b : Bool) → not b ≡ true → b ≡ false
      none_rejected true h = cc
      none_rejected false h = refl

  pub Safely-handle_stage_error :
      (metric : Metric) (e : Error) → SafeStage (handle_stage_error outside setup metric e)
  unfolding handle_stage_error
  Safely-handle_stage_error metric e start messages envelopes p =
      Safely-if (is_permanent e) _ _ (λ _. Safely-policy_rejections start messages envelopes p)
        (λ _. Safely-temporary_failure metric messages)

  -- Once the sink has committed the envelopes, their messages may be acknowledged.
  Safely-acknowledge :
      {start : History} (messages : List RawMessage) (envelopes : List NatsEnvelope)
      → All (λ m. Stored (delivery_terms trusted setup outside) m start) messages
      → SafeBatch start (acknowledge outside setup messages envelopes)
  unfolding acknowledge
  Safely-acknowledge messages envelopes stored =
      Safely-then _ _ (Safely-update (delivery_terms trusted setup outside) _) λ _.
        Safely-then _ _ (Safely-update (delivery_terms trusted setup outside) _) λ _.
          Safely-then _ _ (Safely-update (delivery_terms trusted setup outside) _) λ _.
            Safely-then _ _ (Safely-update_all (delivery_terms trusted setup outside) _) λ _.
              Safely-then _ _
                (Safely-ack_all (delivery_terms trusted setup outside) setup.delivery
                  setup.dead_letter messages stored)
                λ _. Safely-then _ _ (Safely-update (delivery_terms trusted setup outside) _) λ _.
                  Safely-then _ _ (Safely-update (delivery_terms trusted setup outside) _)
                    λ _. Safely-update (delivery_terms trusted setup outside) _

  -- What the sink answered decides: its commit is recorded in the history in which it answered.
  Ends-after_write :
      (h : History) (outcome : Option Error) (messages : List RawMessage)
      (envelopes : List NatsEnvelope)
      → outside.write_batch h envelopes ≡ outcome
      → Safe (delivery_terms trusted setup outside) h
      → Covered (Derived setup) messages envelopes
      → Ends
          (Safe (delivery_terms trusted setup outside))
          AnyResult
          h
          (after_write outside setup outcome messages envelopes h).0
          (after_write outside setup outcome messages envelopes h).1
  Ends-after_write h none messages envelopes said i c =
      Ends-emit (committed envelopes) _ h
        (Safe-cons (delivery_terms trusted setup outside) (committed envelopes) h said i)
        (Safely-acknowledge messages envelopes (stored messages c))
    where
      stored :
          (ms : List RawMessage)
          → Covered (Derived setup) ms envelopes
          → All (λ m. Stored (delivery_terms trusted setup outside) m (committed envelopes ∷ h)) ms
      stored [] h = tt
      stored (m ∷ ms) (h, hs) = (inl h, stored ms hs)
  Ends-after_write h (some e) messages envelopes said i c =
      Ends-emit (write_raised envelopes) _ h
        (Safe-cons (delivery_terms trusted setup outside) (write_raised envelopes) h tt i)
        (Safely-if (is_permanent e) _ _ (λ _. Safely-permanent_failure messages envelopes c)
          (λ _. Safely-temporary_failure _ messages))

  pub Safely-write_to_sink :
      {start : History} (messages : List RawMessage) (envelopes : List NatsEnvelope)
      → Covered (Derived setup) messages envelopes
      → All (Cleared trusted setup) envelopes
      → SafeBatch start (write_to_sink outside setup messages envelopes)
  unfolding write_to_sink
  Safely-write_to_sink messages envelopes c clear =
      Safely-then _ _ (Safely-update (delivery_terms trusted setup outside) _) λ _.
        Safely-then _ _ (Safely-update (delivery_terms trusted setup outside) _) λ _.
          Safely-then _ _
            (Safely-emit (sink_called envelopes) λ h x i.
              Safe-cons (delivery_terms trusted setup outside) (sink_called envelopes) h clear i)
            λ _.
              Safely-then _ _
                (Safely-heartbeat (delivery_terms trusted setup outside) setup.delivery.in_progress
                  messages)
                λ _.
                  Safely-answer (λ h. outside.write_batch h envelopes) _
                    λ h i outcome said. Ends-after_write h outcome messages envelopes said i c
