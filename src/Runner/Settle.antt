-- ===== src/Runner/Settle.antt =====
-- core/runner.py: how a batch ends that does not reach the sink, or that the sink took or refused.
pub mod Safety
pub mod Progress
pub mod Temporary
use nats_sinks.Common.{
  ℕ, zero, suc, ◌+◌, ◌-◌, max, Bool, true, false, not, List, [], ◌∷◌, Option, none, some, String,
  length, leb, if◌then◌else◌,
}
use nats_sinks.Errors.{Error, ack_error, dead_letter_error, unexpected, Result, ok, err}
use nats_sinks.Envelope.{NatsEnvelope}
use nats_sinks.Metrics.{
  Metric, Update, increment, gauge, observe, dlq_publish_errors, ack_errors, term_errors,
  ack_confirmation_unsupported, messages_failed, sink_write_errors, retry_backoff_delay,
  messages_dlq, message_term_seconds, message_ack_seconds, messages_acked,
}
use nats_sinks.Runner.Exec.{
  RawMessage, Event, dlq_published, History, Exec, pure, raise, emit, ask, attempt, continue, ◌>>=◌,
  ◌>>◌, update, Reply, Outside, answered,
}
use nats_sinks.Runner.Message.{
  AckConfirmationConfig, InProgressConfig, delivery_attempt_for_batch, ack_one, term_one, nak_all,
}

-- `DeadLetterConfig`, and whether the runner has a JetStream context.
pub record DeadLetterConfig : Type 0 where
  pub enabled : Bool
  pub has_jetstream : Bool
  pub subject : Option String
  pub ack_term_after_publish : Bool

pub record DeliveryConfig : Type 0 where
  pub max_retries : ℕ
  pub nak_on_temporary_failure : Bool
  pub ack_confirmation : AckConfirmationConfig
  pub in_progress : InProgressConfig

-- `RetryPolicy.should_retry`
abbrev pub should_retry : ℕ → ℕ → Bool
should_retry max_retries tries = leb (max tries 1) max_retries

module _ (outside : Outside) (delivery : DeliveryConfig) (dead_letter : DeadLetterConfig) where
  -- An error ends the loop.
  abbrev pub after_one :
      Exec (Result (Unit {0}) × ℕ) → ℕ → Result (Unit {0}) → Exec (Result (Unit {0}) × ℕ)
  after_one rest done (ok _) = rest
  after_one rest done (err e) = pure (err e, done)

  -- A loop that settles the messages in turn, with the number that succeeded before an error.
  unfoldable pub settle_each :
      (RawMessage → Exec (Unit {0})) → ℕ → List RawMessage → Exec (Result (Unit {0}) × ℕ)
  settle_each one done [] = pure (ok tt, done)
  settle_each one done (m ∷ messages) = do
    outcome ← attempt (one m)
    after_one (settle_each one (suc done) messages) done outcome

  -- The handler of `_ack_all` and `_term_all`: `max(len(raw_messages) - done, 1)` may be unsettled.
  abbrev pub report_unsettled : Metric → ℕ → Result (Unit {0}) × ℕ → Exec (Unit {0})
  report_unsettled errors size (ok _, done) = pure tt
  report_unsettled errors size (err e, done) = do
    update (increment errors (max (size - done) 1))
    raise ack_error

  unfoldable pub ack_all : List RawMessage → Exec (Unit {0})
  ack_all messages = do
    outcome ← settle_each (ack_one outside delivery.ack_confirmation) 0 messages
    report_unsettled ack_errors (length messages) outcome

  pub term_all : List RawMessage → Exec (Unit {0})
  term_all messages = do
    if delivery.ack_confirmation.enabled
        then update (increment ack_confirmation_unsupported (length messages))
        else pure tt
    outcome ← settle_each (term_one outside) 0 messages
    report_unsettled term_errors (length messages) outcome

  -- The loop of `_publish_dlq`.
  pub publish_each : List NatsEnvelope → Exec (Unit {0})
  publish_each [] = pure tt
  publish_each (e ∷ envelopes) = do
    reply ← ask λ h. outside.publish h e
    answered reply
    emit (dlq_published e)
    publish_each envelopes

  abbrev pub report_publish : ℕ → Result (Unit {0}) → Exec (Unit {0})
  report_publish size (ok _) = pure tt
  report_publish size (err e) = do
    update (increment dlq_publish_errors size)
    raise dead_letter_error

  abbrev pub publish_to : Option String → List NatsEnvelope → Exec (Unit {0})
  publish_to none envelopes = raise dead_letter_error
  publish_to (some subject) envelopes = do
    outcome ← attempt (publish_each envelopes)
    report_publish (length envelopes) outcome

  pub publish_dlq : List NatsEnvelope → Exec (Unit {0})
  publish_dlq envelopes =
      if dead_letter.has_jetstream
      then publish_to dead_letter.subject envelopes
      else raise dead_letter_error

  -- The settlement after a publication: a terminal acknowledgement or an ordinary one.
  pub settle_published : List RawMessage → Exec (Unit {0})
  settle_published messages =
      if dead_letter.ack_term_after_publish
      then (term_all messages >> update (observe message_term_seconds))
      else (ack_all messages
          >> update (observe message_ack_seconds)
          >> update (increment messages_acked (length messages)))

  -- What both handlers of permanent failures do once they have counted.
  pub dead_letter_batch : List RawMessage → List NatsEnvelope → Exec (Unit {0})
  dead_letter_batch messages envelopes = if not dead_letter.enabled then pure tt else do
    publish_dlq envelopes
    update (increment messages_dlq (length envelopes))
    settle_published messages

  pub handle_permanent_failure : List RawMessage → List NatsEnvelope → Exec (Unit {0})
  handle_permanent_failure messages envelopes = do
    update (increment messages_failed (length messages))
    update (increment sink_write_errors (length messages))
    dead_letter_batch messages envelopes

  pub handle_policy_rejections : List RawMessage → List NatsEnvelope → Exec (Unit {0})
  handle_policy_rejections messages envelopes = do
    update (increment messages_failed (length messages))
    dead_letter_batch messages envelopes

  -- With the metric of the context, `error_metric`.
  pub handle_temporary_failure : Metric → List RawMessage → Exec (Unit {0})
  handle_temporary_failure error_metric messages = do
    update (increment messages_failed (length messages))
    update (increment error_metric (length messages))
    if not (should_retry delivery.max_retries (delivery_attempt_for_batch messages))
        then pure tt
        else do
          update (observe retry_backoff_delay)
          if delivery.nak_on_temporary_failure then nak_all outside messages else pure tt
