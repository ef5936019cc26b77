-- ===== src/Runner/Intake.antt =====
-- core/runner.py: the pull loop and the push loop, with the bounded queue between the client's
-- callback and the loop. What the server delivers and when is given as a sequence of steps.
pub mod Safety
pub mod Queue
use nats_sinks.Common.{
  ℕ, zero, suc, Bool, true, false, not, ◌||◌, List, [], ◌∷◌, ◌++◌, Option, none, some, length, ltb,
  leb, is_empty, if◌then◌else◌,
}
use nats_sinks.Errors.{Result, ok, err}
use nats_sinks.Metrics.{Update}
use nats_sinks.Runner.Exec.{RawMessage, History, Exec, pure, raise, ◌>>=◌, ◌>>◌, Outside}
use nats_sinks.Runner.Message.{nak_all}
use nats_sinks.Runner.Batch.{Setup, process_raw_batch}

-- `_push_queue` and `_push_accepting`.
pub record Intake : Type 0 where
  pub queue : Option (List RawMessage)
  pub accepting : Bool

-- `asyncio.Queue.put_nowait` of a queue of at most `limit` messages: `none` is `QueueFull`.
pub put_nowait : ℕ → RawMessage → List RawMessage → Option (List RawMessage)
put_nowait limit m queue = if leb limit (length queue) then none else some (queue ++ m ∷ [])

-- The `while` of `_next_push_batch`: at most `room` more messages, and those left behind.
pub get_nowait : ℕ → List RawMessage → List RawMessage × List RawMessage
get_nowait zero queue = ([], queue)
get_nowait (suc room) [] = ([], [])
get_nowait (suc room) (m ∷ queue) = let (batch, rest) = get_nowait room queue in (m ∷ batch, rest)

-- The first message is waited for: an empty queue is a timeout.
pub next_push_batch : ℕ → List RawMessage → Option (List RawMessage × List RawMessage)
next_push_batch batch_size [] = none
next_push_batch batch_size (first ∷ queue) =
    let (batch, rest) = get_nowait (Prim.Native.Nat.pred batch_size) queue in
    some (first ∷ batch, rest)

-- `PushConsumerConfig`, and `delivery.batch_size`.
pub record IntakeConfig : Type 0 where
  pub pending_msgs_limit : ℕ
  pub nak_on_overflow : Bool
  pub batch_size : ℕ

-- What a fetch of the pull subscription gives.
pub data Fetch : Type 0 where
  timed_out : Fetch
  fetched : List RawMessage → Fetch

-- What happens next to a push runner: the client calls back, the loop asks for a batch and processes
-- it, or a stop is requested. A callback that runs while a batch is processed stands behind the
-- batch: it changes the queue in the same way, but its nak comes later in the history than it does.
pub data PushStep : Type 0 where
  called_back : RawMessage → PushStep
  wants_batch request_stop : PushStep

module _ (outside : Outside) (setup : Setup) where
  -- The `while` of `_run_pull_consumer_loop`, until it is stopped or raises.
  unfoldable pub run_pull : List Fetch → Exec (Unit {0})
  run_pull [] = pure tt
  run_pull (timed_out ∷ fetches) = run_pull fetches
  run_pull (fetched messages ∷ fetches) = do
    process_raw_batch outside setup messages
    run_pull fetches

  module _ (config : IntakeConfig) where
    pub reject_push_message : RawMessage → Exec (Unit {0})
    reject_push_message m = if config.nak_on_overflow then nak_all outside (m ∷ []) else pure tt

    -- A full queue rejects the message.
    abbrev pub after_put : Intake → RawMessage → Option (List RawMessage) → Exec Intake
    after_put intake m none = reject_push_message m >> pure intake
    after_put intake m (some queue) = pure (record intake { queue = some queue })

    abbrev pub put_into : Intake → RawMessage → Option (List RawMessage) → Exec Intake
    put_into intake m none = reject_push_message m >> pure intake
    put_into intake m (some queue) =
        after_put intake m (put_nowait config.pending_msgs_limit m queue)

    pub handle_push_message : Intake → RawMessage → Exec Intake
    handle_push_message intake m =
        if intake.accepting
        then put_into intake m intake.queue
        else (reject_push_message m >> pure intake)

    abbrev pub process_next : Intake → Option (List RawMessage × List RawMessage) → Exec Intake
    process_next intake none = pure intake
    process_next intake (some (batch, rest)) = do
      process_raw_batch outside setup batch
      pure (record intake { queue = some rest })

    abbrev pub take_from : Intake → Option (List RawMessage) → Exec Intake
    take_from intake none = pure intake
    take_from intake (some queue) = process_next intake (next_push_batch config.batch_size queue)

    pub push_step : Intake → PushStep → Exec Intake
    push_step intake (called_back m) = handle_push_message intake m
    push_step intake wants_batch = take_from intake intake.queue
    push_step intake request_stop = pure (record intake { accepting = false })

    pub run_push : Intake → List PushStep → Exec Intake
    run_push intake [] = pure intake
    run_push intake (step ∷ steps) = do next ← push_step intake step; run_push next steps
