-- ===== src/Runner/Settle/Temporary.antt =====
-- Proofs about core/runner.py: `_handle_temporary_failure`.
use nats_sinks.Common.{
  ◌≡◌, refl, ap, ◌∙◌, Bool, true, false, not, List, [], ◌∷◌, length, if◌then◌else◌,
}
use nats_sinks.Errors.{ok}
use nats_sinks.Metrics.{Metric, increment, observe, messages_failed, retry_backoff_delay}
use nats_sinks.Runner.Exec.{
  RawMessage, metric, History, Exec, pure, attempt, continue, ◌>>=◌, ◌>>◌, update, Outside,
}
use nats_sinks.Runner.Message.{delivery_attempt_for_batch, nak_delayed, nak_one, nak_all}
use nats_sinks.Runner.Settle.{
  DeadLetterConfig, DeliveryConfig, should_retry, handle_temporary_failure,
}

module _ (outside : Outside) where
  nak_one-returns : (m : RawMessage) (h : History) → (nak_one outside m h).0 ≡ ok tt
  unfolding nak_one ◌>>=◌
  nak_one-returns m h = either (not m.has_nak)
    where
      either :
          (b : Bool)
          → ((if b then pure tt else (attempt (nak_delayed outside m) >>= λ outcome. pure tt)) h).0
            ≡ ok tt
      either true = refl
      either false = refl

  nak_all-returns :
      (messages : List RawMessage) (h : History) → (nak_all outside messages h).0 ≡ ok tt
  unfolding nak_all ◌>>=◌
  nak_all-returns [] h = refl
  nak_all-returns (m ∷ messages) h =
      ap (λ r. (continue r (λ _. nak_all outside messages) (nak_one outside m h).1).0)
        (nak_one-returns m h)
      ∙ nak_all-returns messages (nak_one outside m h).1

module _ (outside : Outside) (delivery : DeliveryConfig) (dead_letter : DeadLetterConfig) where
  -- What follows the counting of a temporary failure, by whether the budget allows a retry and
  -- whether the messages are to be negatively acknowledged.
  abbrev retry_step : Bool → Bool → List RawMessage → Exec (Unit {0})
  retry_step retry nak messages =
      if not retry
      then pure tt
      else (update (observe retry_backoff_delay)
          >> (if nak then nak_all outside messages else pure tt))

  -- Whatever the client answers, the handling of a temporary failure returns. When the delivery
  -- attempt of the batch is beyond the retry budget, all it does is count the messages twice.
  pub handle_temporary_failure-returns :
      (error_metric : Metric) (messages : List RawMessage) (h : History)
      → ((handle_temporary_failure outside delivery dead_letter error_metric messages h).0 ≡ ok tt)
        × (should_retry delivery.max_retries (delivery_attempt_for_batch messages) ≡ false
            → (handle_temporary_failure outside delivery dead_letter error_metric messages h).1
              ≡ metric (increment error_metric (length messages))
                ∷ metric (increment messages_failed (length messages))
                ∷ h)
  unfolding handle_temporary_failure ◌>>=◌
  handle_temporary_failure-returns error_metric messages h =
      by_cases (should_retry delivery.max_retries (delivery_attempt_for_batch messages))
        delivery.nak_on_temporary_failure
        (metric (increment error_metric (length messages))
          ∷ metric (increment messages_failed (length messages))
          ∷ h)
    where
      by_cases :
          (retry nak : Bool) (g : History)
          → ((retry_step retry nak messages g).0 ≡ ok tt)
            × (retry ≡ false → (retry_step retry nak messages g).1 ≡ g)
      by_cases false nak g = (refl, λ e. refl)
      by_cases true true g = (nak_all-returns outside messages _, λ e. cc)
      by_cases true false g = (refl, λ e. cc)
