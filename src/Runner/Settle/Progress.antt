-- ===== src/Runner/Settle/Progress.antt =====
-- Proofs about core/runner.py: `_ack_all` with a client whose calls return.
use nats_sinks.Common.{ℕ, suc, ◌+◌, ◌≡◌, refl, ap, ◌∙◌, false, List, [], ◌∷◌, length, arith}
use nats_sinks.Errors.{ok}
use nats_sinks.Runner.Exec.{RawMessage, ack_called, History, ◌>>=◌, replied, Outside}
use nats_sinks.Runner.Message.{ack_one}
use nats_sinks.Runner.Settle.{DeadLetterConfig, DeliveryConfig, settle_each, ack_all}

-- The history after plain acknowledgements of all messages, in their order.
abbrev pub acks_after : List RawMessage → History → History
acks_after [] h = h
acks_after (m ∷ messages) h = acks_after messages (ack_called m ∷ h)

module _ (outside : Outside) (delivery : DeliveryConfig) (dead_letter : DeadLetterConfig)
    (plain : delivery.ack_confirmation.enabled ≡ false)
    (replies : (h : History) (m : RawMessage) → outside.ack h m ≡ replied) where
  ack_one-replied :
      (m : RawMessage) (h : History)
      → ack_one outside delivery.ack_confirmation m h ≡ (ok tt, ack_called m ∷ h)
  unfolding ack_one ◌>>=◌
  ack_one-replied m h = rw (plain, replies h m) refl

  settle_each-replied :
      (done : ℕ) (messages : List RawMessage) (h : History)
      → settle_each outside delivery dead_letter
          (ack_one outside delivery.ack_confirmation)
          done
          messages
          h
        ≡ (ok (ok tt, done + length messages), acks_after messages h)
  unfolding settle_each ◌>>=◌
  settle_each-replied done [] h = ap (λ n. (ok (ok tt, n), h)) (omega arith)
  settle_each-replied done (m ∷ messages) h = rw (ack_one-replied m h) (
      settle_each-replied (suc done) messages (ack_called m ∷ h)
      ∙ ap (λ n. (ok (ok tt, n), acks_after messages (ack_called m ∷ h))) (omega arith))

  pub ack_all-replied :
      (messages : List RawMessage) (h : History)
      → ack_all outside delivery dead_letter messages h ≡ (ok tt, acks_after messages h)
  unfolding ack_all ◌>>=◌
  ack_all-replied messages h = rw (settle_each-replied 0 messages h) refl
