-- ===== src/Runner/Settle/Safety.antt =====
-- Proofs about core/runner.py: the failure handlers, `_publish_dlq`, `_ack_all` and `_term_all`.
use nats_sinks.Common.{
  ℕ, suc, ◌≡◌, ◌∙◌, refl, inl, inr, not, List, [], ◌∷◌, Option, none, some, String, All, Any,
  length,
}
use nats_sinks.Errors.{Result, ok, err}
use nats_sinks.Envelope.{NatsEnvelope}
use nats_sinks.Metrics.{Metric}
use nats_sinks.Runner.Exec.{RawMessage, dlq_published, History, Exec}
use nats_sinks.Runner.Exec.Safely.{
  Extends, Safely, Safely-pure, Safely-ensure, Safely-raise, Safely-weaken, Safely-forget,
  Safely-if, Safely-bind, Safely-then, Safely-attempt, Safely-answer, Ends-answered, Ends-emit,
}
use nats_sinks.Runner.Exec.Ledger.{
  Keeps, Terms, Stored, Buried, Safe, Safe-cons, Buried-later, Buried→Stored, Safely-update,
}
use nats_sinks.Runner.Message.{delivery_attempt_for_batch, ack_one, term_one}
use nats_sinks.Runner.Message.Safety.{Safely-ack_one, Safely-term_one, Safely-nak_all}
use nats_sinks.Runner.Settle.{
  DeadLetterConfig, DeliveryConfig, settle_each, report_unsettled, ack_all, term_all, publish_each,
  report_publish, publish_to, publish_dlq, settle_published, should_retry, after_one,
  dead_letter_batch, handle_permanent_failure, handle_policy_rejections, handle_temporary_failure,
}

-- Every message has an envelope among those.
abbrev pub Covered :
    (RawMessage → NatsEnvelope → Type 0) → List RawMessage → List NatsEnvelope → Type 0
Covered derived messages envelopes = All (λ m. Any (derived m) envelopes) messages

All-map :
    {A : Type 0} {P Q : A → Type 0} → ((a : A) → P a → Q a) → (as' : List A) → All P as' → All Q as'
All-map f [] h = tt
All-map f (a ∷ as') (h, hs) = (f a h, All-map f as' hs)

module _ (terms : Terms) (delivery : DeliveryConfig) (dead_letter : DeadLetterConfig) where
  Safely-after_one :
      {start : History} (rest : Exec (Result (Unit {0}) × ℕ)) (done : ℕ)
      (outcome : Result (Unit {0}))
      → Keeps terms start rest
      → Keeps terms start (after_one terms.outside delivery dead_letter rest done outcome)
  Safely-after_one rest done (ok _) h = h
  Safely-after_one rest done (err e) h = Safely-pure _

  Safely-settle_each :
      {start : History} (one : RawMessage → Exec (Unit {0})) (done : ℕ) (messages : List RawMessage)
      → All (λ m. Keeps terms start (one m)) messages
      → Keeps terms start (settle_each terms.outside delivery dead_letter one done messages)
  unfolding settle_each
  Safely-settle_each one done [] hs = Safely-pure _
  Safely-settle_each one done (m ∷ messages) (h, hs) =
      Safely-then _ _ (Safely-forget (Safely-attempt (one m) h))
        (λ outcome. Safely-after_one _ done outcome (Safely-settle_each one (suc done) messages hs))

  Safely-report_unsettled :
      {start : History} (errors : Metric) (size : ℕ) (outcome : Result (Unit {0}) × ℕ)
      → Keeps terms start (report_unsettled terms.outside delivery dead_letter errors size outcome)
  Safely-report_unsettled errors size (ok _, done) = Safely-pure tt
  Safely-report_unsettled errors size (err e, done) =
      Safely-then _ _ (Safely-update terms _) (λ _. Safely-raise _)

  -- Messages that are stored may be acknowledged.
  pub Safely-ack_all :
      {start : History} (messages : List RawMessage)
      → All (λ m. Stored terms m start) messages
      → Keeps terms start (ack_all terms.outside delivery dead_letter messages)
  unfolding ack_all
  Safely-ack_all messages hs =
      Safely-then _ _
        (Safely-settle_each (ack_one terms.outside delivery.ack_confirmation) 0 messages
          (All-map (λ m s. Safely-ack_one terms delivery.ack_confirmation m s) messages hs))
        (λ outcome. Safely-report_unsettled _ _ outcome)

  Safely-term_all :
      {start : History} (messages : List RawMessage)
      → All (λ m. Buried terms m start) messages
      → Keeps terms start (term_all terms.outside delivery dead_letter messages)
  unfolding term_all
  Safely-term_all messages hs =
      Safely-then _ _
        (Safely-if delivery.ack_confirmation.enabled _ _ (λ _. Safely-update terms _)
          (λ _. Safely-pure tt))
        (λ _.
          Safely-then _ _
            (Safely-settle_each (term_one terms.outside) 0 messages
              (All-map (λ m s. Safely-term_one terms m s) messages hs))
            (λ outcome. Safely-report_unsettled _ _ outcome))

  -- After the loop every message with an envelope in it is a dead letter.
  Safely-publish_each :
      {start : History} (envelopes : List NatsEnvelope)
      → Safely
          (Safe terms)
          start
          (publish_each terms.outside delivery dead_letter envelopes)
          (λ _ h. (m : RawMessage) → Any (terms.derived m) envelopes → Buried terms m h)
  unfolding publish_each
  Safely-publish_each [] = Safely-ensure tt (λ h x m a. absurd a)
  Safely-publish_each (e ∷ envelopes) =
      Safely-answer (λ h. terms.outside.publish h e) _
        λ h i reply said. Ends-answered reply _ h i λ returned.
          Ends-emit (dlq_published e) _ h (Safe-cons terms (dlq_published e) h (said ∙ returned) i)
            (Safely-weaken (Safely-publish_each envelopes) λ _ last y buried m a. elim a [
              | inl d ↦ Buried-later terms m y (inl d)
              | inr d ↦ buried m d
            ])

  Safely-report_publish :
      {start : History} {Q : History → Type 0} (size : ℕ) (outcome : Result (Unit {0}))
      → ((a : Unit {0}) → outcome ≡ ok a → (h : History) → Extends start h → Q h)
      → Safely
          (Safe terms)
          start
          (report_publish terms.outside delivery dead_letter size outcome)
          (λ _. Q)
  Safely-report_publish size (ok _) q = Safely-ensure tt (λ h x. q _ refl h x)
  Safely-report_publish size (err e) q =
      Safely-then _ _ (Safely-update terms _) (λ _. Safely-raise _)

  Safely-publish_to :
      {start : History} (subject : Option String) (envelopes : List NatsEnvelope)
      → Safely
          (Safe terms)
          start
          (publish_to terms.outside delivery dead_letter subject envelopes)
          (λ _ h. (m : RawMessage) → Any (terms.derived m) envelopes → Buried terms m h)
  Safely-publish_to none envelopes = Safely-raise _
  Safely-publish_to (some subject) envelopes =
      Safely-bind _ _ (Safely-attempt _ (Safely-publish_each envelopes)) λ outcome now x q.
        Safely-report_publish (length envelopes) outcome
          (λ a e h y m d. Buried-later terms m y (q a e m d))

  Safely-publish_dlq :
      {start : History} (envelopes : List NatsEnvelope)
      → Safely
          (Safe terms)
          start
          (publish_dlq terms.outside delivery dead_letter envelopes)
          (λ _ h. (m : RawMessage) → Any (terms.derived m) envelopes → Buried terms m h)
  unfolding publish_dlq
  Safely-publish_dlq envelopes =
      Safely-if dead_letter.has_jetstream _ _ (λ _. Safely-publish_to dead_letter.subject envelopes)
        (λ _. Safely-raise _)

  Safely-settle_published :
      {start : History} (messages : List RawMessage)
      → All (λ m. Buried terms m start) messages
      → Keeps terms start (settle_published terms.outside delivery dead_letter messages)
  unfolding settle_published
  Safely-settle_published {start} messages hs =
      Safely-if dead_letter.ack_term_after_publish _ _
        (λ _. Safely-then _ _ (Safely-term_all messages hs) (λ _. Safely-update terms _))
        (λ _.
          Safely-then _ _
            (Safely-then _ _
              (Safely-ack_all messages (All-map (λ m b. Buried→Stored terms m start b) messages hs))
              (λ _. Safely-update terms _))
            (λ _. Safely-update terms _))

  Safely-dead_letter_batch :
      {start : History} (messages : List RawMessage) (envelopes : List NatsEnvelope)
      → Covered terms.derived messages envelopes
      → Keeps terms start (dead_letter_batch terms.outside delivery dead_letter messages envelopes)
  unfolding dead_letter_batch
  Safely-dead_letter_batch messages envelopes covered =
      Safely-if (not dead_letter.enabled) _ _ (λ _. Safely-pure tt)
        λ _. Safely-bind _ _ (Safely-publish_dlq envelopes) λ _ now x buried.
          Safely-then _ _ (Safely-update terms _)
            (λ _. Safely-settle_published messages (All-map (λ m a. buried m a) messages covered))

  pub Safely-handle_permanent_failure :
      {start : History} (messages : List RawMessage) (envelopes : List NatsEnvelope)
      → Covered terms.derived messages envelopes
      → Keeps terms start
          (handle_permanent_failure terms.outside delivery dead_letter messages envelopes)
  unfolding handle_permanent_failure
  Safely-handle_permanent_failure messages envelopes covered =
      Safely-then _ _ (Safely-update terms _) λ _.
        Safely-then _ _ (Safely-update terms _)
          λ _. Safely-dead_letter_batch messages envelopes covered

  pub Safely-handle_policy_rejections :
      {start : History} (messages : List RawMessage) (envelopes : List NatsEnvelope)
      → Covered terms.derived messages envelopes
      → Keeps terms start
          (handle_policy_rejections terms.outside delivery dead_letter messages envelopes)
  unfolding handle_policy_rejections
  Safely-handle_policy_rejections messages envelopes covered =
      Safely-then _ _ (Safely-update terms _)
        λ _. Safely-dead_letter_batch messages envelopes covered

  -- A temporary failure may always be handled: it acknowledges nothing.
  pub Safely-handle_temporary_failure :
      {start : History} (error_metric : Metric) (messages : List RawMessage)
      → Keeps terms start
          (handle_temporary_failure terms.outside delivery dead_letter error_metric messages)
  unfolding handle_temporary_failure
  Safely-handle_temporary_failure error_metric messages =
      Safely-then _ _ (Safely-update terms _) λ _. Safely-then _ _ (Safely-update terms _) λ _.
        Safely-if (not (should_retry delivery.max_retries (delivery_attempt_for_batch messages))) _
          _ (λ _. Safely-pure tt)
          λ _. Safely-then _ _ (Safely-update terms _) λ _.
            Safely-if delivery.nak_on_temporary_failure _ _ (λ _. Safely-nak_all terms messages)
              (λ _. Safely-pure tt)
