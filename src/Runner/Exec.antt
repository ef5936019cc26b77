-- ===== src/Runner/Exec.antt =====
-- The actions of core/runner.py: what it does to the world is a history of events, the newest first,
-- and an action may raise. The world outside is asked for its answers: they may depend on all that
-- happened before. Cancellation is not modelled.
pub mod Safely
pub mod Ledger
use nats_sinks.Common.{ℕ, Bool, true, false, List, [], ◌∷◌, Option, none, some, ℤ}
use nats_sinks.Errors.{Error, unexpected, Result, ok, err}
use nats_sinks.Envelope.{NatsEnvelope}
use nats_sinks.Metrics.{Metric, Update, increment}

-- `msg.metadata.num_delivered`: missing, not readable as a number, or a number.
pub data Delivered : Type 0 where
  missing unreadable : Delivered
  delivered : ℤ → Delivered

-- A message object of the client, with the methods that it has besides `ack`.
pub record RawMessage : Type 0 where
  pub token : ℕ
  pub num_delivered : Delivered
  pub has_ack_sync : Bool
  pub has_term : Bool
  pub has_nak : Bool
  pub has_in_progress : Bool

-- What the runner does that others can see. A settlement of a message is recorded when it is
-- called, a write of the sink when it has ended, and a publication when it has succeeded.
pub data Event : Type 0 where
  sink_called committed write_raised : List NatsEnvelope → Event
  dlq_published : NatsEnvelope → Event
  ack_called ack_sync_called term_called nak_called in_progress_called : RawMessage → Event
  metric : Update → Event

abbrev pub History : Type 0
History = List Event

abbrev pub Exec : Type 0 → Type 0
Exec A = History → Result A × History

unfoldable pub pure : {A : Type 0} → A → Exec A
pure a h = (ok a, h)

unfoldable pub raise : {A : Type 0} → Error → Exec A
raise e h = (err e, h)

unfoldable pub lift : {A : Type 0} → Result A → Exec A
lift r h = (r, h)

unfoldable pub emit : Event → Exec (Unit {0})
emit event h = (ok tt, event ∷ h)

-- An answer of the world outside.
unfoldable pub ask : {A : Type 0} → (History → A) → Exec A
ask answer h = (ok (answer h), h)

-- `try`: the outcome as a value.
unfoldable pub attempt : {A : Type 0} → Exec A → Exec (Result A)
attempt m h = let (r, h') = m h in (ok r, h')

abbrev pub continue : {A B : Type 0} → Result A → (A → Exec B) → Exec B
continue (ok a) f h = f a h
continue (err e) f h = (err e, h)

infixl 10 ◌>>=◌ ◌>>◌
unfoldable pub ◌>>=◌ : {A B : Type 0} → Exec A → (A → Exec B) → Exec B
unfolding pure raise lift emit ask attempt
◌>>=◌ m f h = let (r, h') = m h in continue r f h'

abbrev pub ◌>>◌ : {A B : Type 0} → Exec A → Exec B → Exec B
m >> k = m >>= λ _. k

-- `increment_metric`, `set_metric_value` and `observe_metric` of the runner's recorder.
abbrev pub update : Update → Exec (Unit {0})
update u = emit (metric u)

-- `if count: increment_metric(…)`
abbrev pub update_if : Bool → Update → Exec (Unit {0})
update_if true u = update u
update_if false u = pure tt

unfoldable pub update_all : List Update → Exec (Unit {0})
update_all [] = pure tt
update_all (u ∷ updates) = do update u; update_all updates

-- How a call of the client ended: it returned, or it raised `TimeoutError`, `TypeError` or another.
pub data Reply : Type 0 where
  replied timed_out type_error : Reply
  raised : Error → Reply

-- The answers of the sink, the client and the clock.
pub record Outside : Type 0 where
  pub write_batch : History → List NatsEnvelope → Option Error
  pub publish : History → NatsEnvelope → Reply
  pub ack : History → RawMessage → Reply
  pub ack_sync : History → RawMessage → Reply
  pub term : History → RawMessage → Reply
  pub nak_with_delay : History → RawMessage → Reply
  pub nak : History → RawMessage → Reply
  pub in_progress : History → RawMessage → Reply
  pub wakes : History → ℕ  -- heartbeat intervals that pass while the sink writes
  pub stop_requested : History → Bool

-- A reply as an action.
abbrev pub answered : Reply → Exec (Unit {0})
answered replied = pure tt
answered timed_out = raise unexpected
answered type_error = raise unexpected
answered (raised e) = raise e
