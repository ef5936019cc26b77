-- ===== src/Runner/Message/Safety.antt =====
-- Proofs about core/runner.py, message by message: `_ack_one`, `_term_all`, `_nak_all` and heartbeats.
use nats_sinks.Common.{ℕ, zero, suc, false, not, List, [], ◌∷◌}
use nats_sinks.Runner.Exec.{
  RawMessage, ack_called, ack_sync_called, term_called, nak_called, in_progress_called, History,
  emit, Reply, replied, timed_out, type_error, raised,
}
use nats_sinks.Runner.Exec.Safely.{
  Safely-pure, Safely-raise, Safely-emit, Safely-if, Safely-then, Safely-asked, Safely-attempt,
}
use nats_sinks.Runner.Exec.Ledger.{
  Keeps, Terms, Stored, Buried, Safe-cons, Stored-later, Buried-later, Safely-update,
  Safely-update_if, Safely-answered,
}
use nats_sinks.Runner.Message.{
  AckConfirmationConfig, InProgressConfig, plain_ack, confirmed_ack, report_confirmation, ack_one,
  term_one, nak_again, nak_delayed, nak_one, nak_all, in_progress_one, in_progress_each,
  send_in_progress_once, run_in_progress_heartbeat, heartbeat,
}

module _ (terms : Terms) {start : History} where
  Safely-plain_ack :
      (m : RawMessage) → Stored terms m start → Keeps terms start (plain_ack terms.outside m)
  Safely-plain_ack m s =
      Safely-asked (λ h. terms.outside.ack h m) _
        λ h.
          Safely-then (emit (ack_called m)) _
            (Safely-emit (ack_called m)
              λ h x i. Safe-cons terms (ack_called m) h (Stored-later terms m x s) i)
            (λ _. Safely-answered terms (terms.outside.ack h m))

  Safely-report_confirmation :
      (reply : Reply) → Keeps terms start (report_confirmation terms.outside reply)
  Safely-report_confirmation replied =
      Safely-then _ _ (Safely-update terms _) (λ _. Safely-update terms _)
  Safely-report_confirmation timed_out =
      Safely-then _ _ (Safely-update terms _)
        (λ _. Safely-then _ _ (Safely-update terms _) (λ _. Safely-raise _))
  Safely-report_confirmation type_error =
      Safely-then _ _ (Safely-update terms _)
        (λ _. Safely-then _ _ (Safely-update terms _) (λ _. Safely-raise _))
  Safely-report_confirmation (raised e) =
      Safely-then _ _ (Safely-update terms _)
        (λ _. Safely-then _ _ (Safely-update terms _) (λ _. Safely-raise _))

  Safely-confirmed_ack :
      (m : RawMessage) → Stored terms m start → Keeps terms start (confirmed_ack terms.outside m)
  Safely-confirmed_ack m s = Safely-then _ _ (Safely-update terms _) λ _.
      Safely-asked (λ h. terms.outside.ack_sync h m) _
        λ h.
          Safely-then _ _
            (Safely-emit (ack_sync_called m)
              λ h x i. Safe-cons terms (ack_sync_called m) h (Stored-later terms m x s) i)
            (λ _. Safely-report_confirmation (terms.outside.ack_sync h m))

  -- A stored message may be acknowledged in each of the three ways.
  pub Safely-ack_one :
      (config : AckConfirmationConfig) (m : RawMessage)
      → Stored terms m start
      → Keeps terms start (ack_one terms.outside config m)
  unfolding ack_one
  Safely-ack_one config m s =
      Safely-if (not config.enabled) _ _ (λ _. Safely-plain_ack m s)
        (λ _.
          Safely-if m.has_ack_sync _ _ (λ _. Safely-confirmed_ack m s)
            (λ _. Safely-then _ _ (Safely-update terms _) (λ _.
              Safely-if config.standard_ack _ _ (λ _. Safely-plain_ack m s) (λ _. Safely-raise _))))

  -- A message that is a dead letter may be terminated.
  pub Safely-term_one :
      (m : RawMessage) → Buried terms m start → Keeps terms start (term_one terms.outside m)
  unfolding term_one
  Safely-term_one m s =
      Safely-if (not m.has_term) _ _ (λ _. Safely-raise _)
        λ _.
          Safely-asked (λ h. terms.outside.term h m) _
            λ h.
              Safely-then _ _
                (Safely-emit (term_called m)
                  λ h x i. Safe-cons terms (term_called m) h (Buried-later terms m x s) i)
                (λ _.
                  Safely-then _ _ (Safely-answered terms (terms.outside.term h m))
                    (λ _. Safely-update terms _))

  Safely-nak_called : (m : RawMessage) → Keeps terms start (emit (nak_called m))
  Safely-nak_called m = Safely-emit (nak_called m) λ h x i. Safe-cons terms (nak_called m) h tt i

  Safely-nak_again :
      (m : RawMessage) (reply : Reply) → Keeps terms start (nak_again terms.outside m reply)
  Safely-nak_again m type_error =
      Safely-asked (λ h. terms.outside.nak h m) _
        λ h.
          Safely-then _ _ (Safely-nak_called m) (λ _. Safely-answered terms (terms.outside.nak h m))
  Safely-nak_again m replied = Safely-pure tt
  Safely-nak_again m timed_out = Safely-raise _
  Safely-nak_again m (raised e) = Safely-raise e

  Safely-nak_one : (m : RawMessage) → Keeps terms start (nak_one terms.outside m)
  unfolding nak_one
  Safely-nak_one m =
      Safely-if (not m.has_nak) _ _ (λ _. Safely-pure tt)
        λ _.
          Safely-then _ _
            (Safely-attempt (nak_delayed terms.outside m) (
              Safely-asked (λ h. terms.outside.nak_with_delay h m) _
                λ h. Safely-then _ _ (Safely-nak_called m) λ _.
                  Safely-then _ _ (Safely-nak_again m (terms.outside.nak_with_delay h m))
                    (λ _. Safely-update terms _)))
            (λ _. Safely-pure tt)

  pub Safely-nak_all :
      (messages : List RawMessage) → Keeps terms start (nak_all terms.outside messages)
  unfolding nak_all
  Safely-nak_all [] = Safely-pure tt
  Safely-nak_all (m ∷ messages) = Safely-then _ _ (Safely-nak_one m) (λ _. Safely-nak_all messages)

  Safely-in_progress_one : (m : RawMessage) → Keeps terms start (in_progress_one terms.outside m)
  unfolding in_progress_one
  Safely-in_progress_one m = Safely-then _ _ (Safely-update terms _) λ _.
      Safely-if (not m.has_in_progress) _ _ (λ _. Safely-pure false)
        λ _.
          Safely-asked (λ h. terms.outside.in_progress h m) _
            λ h.
              Safely-then _ _
                (Safely-emit (in_progress_called m)
                  λ h x i. Safe-cons terms (in_progress_called m) h tt i)
                (λ _. Safely-pure _)

  Safely-in_progress_each :
      (successes failures : ℕ) (messages : List RawMessage)
      → Keeps terms start (in_progress_each terms.outside successes failures messages)
  unfolding in_progress_each
  Safely-in_progress_each successes failures [] = Safely-pure (successes, failures)
  Safely-in_progress_each successes failures (m ∷ messages) =
      Safely-then _ _ (Safely-in_progress_one m) λ sent.
        Safely-if sent _ _ (λ _. Safely-in_progress_each (suc successes) failures messages)
          (λ _. Safely-in_progress_each successes (suc failures) messages)

  Safely-send_in_progress_once :
      (messages : List RawMessage)
      → Keeps terms start (send_in_progress_once terms.outside messages)
  unfolding send_in_progress_once
  Safely-send_in_progress_once messages =
      Safely-then _ _ (Safely-in_progress_each 0 0 messages) λ counts.
        Safely-then _ _ (Safely-update terms _) λ _.
          Safely-then _ _ (Safely-update_if terms _ _)
            λ _. Safely-then _ _ (Safely-update_if terms _ _) (λ _. Safely-pure _)

  Safely-run_in_progress_heartbeat :
      (left wakes : ℕ) (messages : List RawMessage)
      → Keeps terms start (run_in_progress_heartbeat terms.outside left wakes messages)
  unfolding run_in_progress_heartbeat
  Safely-run_in_progress_heartbeat zero wakes messages = Safely-update terms _
  Safely-run_in_progress_heartbeat (suc left) zero messages = Safely-pure tt
  Safely-run_in_progress_heartbeat (suc left) (suc wakes) messages =
      Safely-asked terms.outside.stop_requested _ λ h.
        Safely-then _ _
          (Safely-if (terms.outside.stop_requested h) _ _ (λ _. Safely-pure false)
            (λ _. Safely-send_in_progress_once messages))
          λ alive.
            Safely-if alive _ _ (λ _. Safely-run_in_progress_heartbeat left wakes messages)
              (λ _. Safely-pure tt)

  pub Safely-heartbeat :
      (config : InProgressConfig) (messages : List RawMessage)
      → Keeps terms start (heartbeat terms.outside config messages)
  unfolding heartbeat
  Safely-heartbeat config messages =
      Safely-if (not config.enabled) _ _ (λ _. Safely-pure tt)
        λ _. Safely-then _ _ (Safely-update terms _) λ _. Safely-asked terms.outside.wakes _ λ h.
          Safely-then _ _
            (Safely-run_in_progress_heartbeat config.max_heartbeats (terms.outside.wakes h)
              messages)
            (λ _. Safely-update terms _)
