-- ===== src/Runner/Message.antt =====
-- core/runner.py: what the runner does with the messages of a batch one by one: delivery attempts,
-- acknowledgements, negative and terminal ones, and progress heartbeats.
pub mod Safety
use nats_sinks.Common.{
  ℕ, zero, suc, ◌+◌, ◌-◌, max, Bool, true, false, not, ◌&&◌, ◌||◌, List, [], ◌∷◌, Option, none,
  some, ℤ, pos, negsuc, length, ltb, leb, ◌==◌, if◌then◌else◌,
}
use nats_sinks.Errors.{Error, ack_error, unexpected, Result, ok, err}
use nats_sinks.Metrics.{
  Update, increment, gauge, observe, ack_confirmation_seconds, ack_confirmation_successes,
  ack_confirmation_failures, ack_confirmation_timeouts, ack_confirmation_unsupported,
  ack_confirmation_attempts, messages_nacked, messages_terminated, in_progress_attempts,
  in_progress_successes, in_progress_failures, in_progress_seconds, in_progress_active,
  in_progress_max_reached,
}
use nats_sinks.Runner.Exec.{
  Delivered, missing, unreadable, delivered, RawMessage, Event, ack_called, ack_sync_called,
  term_called, nak_called, in_progress_called, metric, History, Exec, pure, raise, emit, ask,
  attempt, continue, ◌>>=◌, ◌>>◌, update, update_if, Reply, replied, timed_out, type_error, raised,
  Outside, answered,
}

-- `AckConfirmationConfig`, with `unsupported_action == "standard_ack"`.
pub record AckConfirmationConfig : Type 0 where
  pub enabled : Bool
  pub standard_ack : Bool

pub record InProgressConfig : Type 0 where
  pub enabled : Bool
  pub max_heartbeats : ℕ

-- `_delivery_attempt_for_message`
pub delivery_attempt_for_message : Delivered → ℕ
delivery_attempt_for_message missing = 1
delivery_attempt_for_message unreadable = 1
delivery_attempt_for_message (delivered (pos n)) = max n 1
delivery_attempt_for_message (delivered (negsuc n)) = 1

-- `max(attempts)`, of a list with a first element
pub highest : ℕ → List RawMessage → ℕ
highest best [] = best
highest best (m ∷ messages) =
    highest (max best (delivery_attempt_for_message m.num_delivered)) messages

pub delivery_attempt_for_batch : List RawMessage → ℕ
delivery_attempt_for_batch [] = 1
delivery_attempt_for_batch (m ∷ messages) =
    highest (delivery_attempt_for_message m.num_delivered) messages

module _ (outside : Outside) where
  abbrev pub plain_ack : RawMessage → Exec (Unit {0})
  plain_ack m = do reply ← ask λ h. outside.ack h m; emit (ack_called m); answered reply

  -- The handlers of `_ack_one` around `ack_sync`.
  abbrev pub report_confirmation : Reply → Exec (Unit {0})
  report_confirmation replied = do
    update (observe ack_confirmation_seconds)
    update (increment ack_confirmation_successes 1)
  report_confirmation timed_out = do
    update (observe ack_confirmation_seconds)
    update (increment ack_confirmation_timeouts 1)
    raise unexpected
  report_confirmation type_error = do
    update (observe ack_confirmation_seconds)
    update (increment ack_confirmation_failures 1)
    raise unexpected
  report_confirmation (raised e) = do
    update (observe ack_confirmation_seconds)
    update (increment ack_confirmation_failures 1)
    raise e

  abbrev pub confirmed_ack : RawMessage → Exec (Unit {0})
  confirmed_ack m = do
    update (increment ack_confirmation_attempts 1)
    reply ← ask λ h. outside.ack_sync h m
    emit (ack_sync_called m)
    report_confirmation reply

  -- A client without `ack_sync`.
  abbrev pub unsupported_ack : Bool → RawMessage → Exec (Unit {0})
  unsupported_ack standard m = do
    update (increment ack_confirmation_unsupported 1)
    if standard then plain_ack m else raise ack_error

  unfoldable pub ack_one : AckConfirmationConfig → RawMessage → Exec (Unit {0})
  ack_one config m =
      if not config.enabled
      then plain_ack m
      else if m.has_ack_sync
      then confirmed_ack m
      else unsupported_ack config.standard_ack m

  -- The body of the loop of `_term_all`.
  pub term_one : RawMessage → Exec (Unit {0})
  term_one m = if not m.has_term then raise unexpected else do
    reply ← ask λ h. outside.term h m
    emit (term_called m)
    answered reply
    update (increment messages_terminated 1)

  -- `nak(delay=delay)`, and `nak()` for a client that takes no delay.
  abbrev pub nak_again : RawMessage → Reply → Exec (Unit {0})
  nak_again m type_error = do reply ← ask λ h. outside.nak h m; emit (nak_called m); answered reply
  nak_again m reply = answered reply

  abbrev pub nak_delayed : RawMessage → Exec (Unit {0})
  nak_delayed m = do
    reply ← ask λ h. outside.nak_with_delay h m
    emit (nak_called m)
    nak_again m reply
    update (increment messages_nacked 1)

  -- The body of the loop of `_nak_all`, which logs an error and goes on.
  unfoldable pub nak_one : RawMessage → Exec (Unit {0})
  nak_one m = if not m.has_nak then pure tt else do outcome ← attempt (nak_delayed m); pure tt

  unfoldable pub nak_all : List RawMessage → Exec (Unit {0})
  nak_all [] = pure tt
  nak_all (m ∷ messages) = do nak_one m; nak_all messages

  -- One heartbeat of one message: whether it succeeded.
  abbrev pub heartbeat_sent : Reply → Bool
  heartbeat_sent replied = true
  heartbeat_sent _ = false

  abbrev pub heartbeat_one : RawMessage → Exec Bool
  heartbeat_one m = do
    reply ← ask λ h. outside.in_progress h m
    emit (in_progress_called m)
    pure (heartbeat_sent reply)

  pub in_progress_one : RawMessage → Exec Bool
  in_progress_one m = do
    update (increment in_progress_attempts 1)
    if not m.has_in_progress then pure false else heartbeat_one m

  -- The loop of `_send_in_progress_once`, with its successes and failures.
  pub in_progress_each : ℕ → ℕ → List RawMessage → Exec (ℕ × ℕ)
  in_progress_each successes failures [] = pure (successes, failures)
  in_progress_each successes failures (m ∷ messages) = do
    sent ← in_progress_one m
    if sent
        then in_progress_each (suc successes) failures messages
        else in_progress_each successes (suc failures) messages

  pub send_in_progress_once : List RawMessage → Exec Bool
  send_in_progress_once messages = do
    (successes, failures) ← in_progress_each 0 0 messages
    update (observe in_progress_seconds)
    update_if (ltb 0 successes) (increment in_progress_successes successes)
    update_if (ltb 0 failures) (increment in_progress_failures failures)
    pure (failures == 0)

  -- The loop of `_run_in_progress_heartbeat`: `left` heartbeats may still be sent, and the interval
  -- ends `wakes` times more before the write is over. After the last one it does not wait again.
  pub run_in_progress_heartbeat : ℕ → ℕ → List RawMessage → Exec (Unit {0})
  run_in_progress_heartbeat zero wakes messages = update (increment in_progress_max_reached 1)
  run_in_progress_heartbeat (suc left) zero messages = pure tt
  run_in_progress_heartbeat (suc left) (suc wakes) messages = do
    stop ← ask outside.stop_requested
    alive ← if stop then pure false else send_in_progress_once messages
    if alive then run_in_progress_heartbeat left wakes messages else pure tt

  -- `_start_in_progress_heartbeat` to `_stop_in_progress_heartbeat`.
  unfoldable pub heartbeat : InProgressConfig → List RawMessage → Exec (Unit {0})
  heartbeat config messages = if not config.enabled then pure tt else do
    update (gauge in_progress_active 1)
    wakes ← ask outside.wakes
    run_in_progress_heartbeat config.max_heartbeats wakes messages
    update (gauge in_progress_active 0)
