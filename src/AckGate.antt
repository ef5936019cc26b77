-- ===== src/AckGate.antt =====
-- core/ack_gate.py: when a fan-out write may be acknowledged. Times are microseconds of the event
-- loop's clock. The loop and the tasks on it are a parameter.
pub mod Required
pub mod Optional
pub mod Raises
use nats_sinks.Common.{
  ℕ, ◌+◌, ◌-◌, ◌*◌, ◌/◌, ◌≤◌, ◌≡◌, min, Bool, true, false, not, ◌&&◌, List, [], ◌∷◌, map, Option,
  none, some, String, all, any, filter_by, contains_text, if◌then◌else◌,
}
use nats_sinks.Errors.{Error}
use nats_sinks.Routing.{RouteTargetConfig}

-- How a task ends. TimeoutError stands apart, because the code catches it by its class; a
-- cancellation is no `Exception`.
pub data TaskEnd : Type 0 where
  succeeded : TaskEnd
  raised : Error → TaskEnd
  raised_timeout : TaskEnd
  cancelled : TaskEnd

-- The tasks of one run of the gate, by the name of their sink.
pub record Tasks : Type 0 where
  -- `task.done()` at a time
  pub is_done : ℕ → String → Bool
  -- `await task` from a time on: when and how it ends, `none` if it never does.
  pub awaited : ℕ → String → Option (ℕ × TaskEnd)
  -- `asyncio.wait_for(task, timeout)`: how the task ended, `none` if the time ran out first.
  pub wait_for : ℕ → String → ℕ → ℕ × Option TaskEnd

-- What the documentation of asyncio says of them, for tasks that end within `grace` once they are
-- cancelled.
pub record IsPrompt (grace : ℕ) (tasks : Tasks) : Type 0 where
  -- Awaiting a task that is done takes no time.
  pub done_at_once :
      (t : ℕ) (sink : String)
      → tasks.is_done t sink ≡ true
      → (end : TaskEnd) × (tasks.awaited t sink ≡ some (t, end))
  -- At its deadline `wait_for` cancels the task, and then it waits until the task has ended.
  pub by_deadline : (t : ℕ) (sink : String) (w : ℕ) → (tasks.wait_for t sink w).0 ≤ t + w + grace
  -- A task whose end `wait_for` returned is done, with that end.
  pub ended :
      (t : ℕ) (sink : String) (w : ℕ) (end : TaskEnd)
      → (tasks.wait_for t sink w).1 ≡ some end
      → tasks.awaited (tasks.wait_for t sink w).0 sink ≡ some ((tasks.wait_for t sink w).0, end)

pub data FanoutTargetStatus : Type 0 where
  committed failed timed_out : FanoutTargetStatus

pub record FanoutTargetResult : Type 0 where
  pub sink : String
  pub required : Bool
  pub status : FanoutTargetStatus
  pub error_type : Option TaskEnd

pub record FanoutAckGateResult : Type 0 where
  pub required : List FanoutTargetResult
  pub optional : List FanoutTargetResult

abbrev pub has_status : FanoutTargetStatus → FanoutTargetStatus → Bool
has_status committed committed = true
has_status failed failed = true
has_status timed_out timed_out = true
has_status _ _ = false

abbrev pub sinks_with : FanoutTargetStatus → List FanoutTargetResult → List String
sinks_with status results = map (λ r. r.sink) (filter_by (λ r. has_status r.status status) results)

abbrev pub required_committed : FanoutAckGateResult → List String
required_committed result = sinks_with committed result.required

abbrev pub optional_committed : FanoutAckGateResult → List String
optional_committed result = sinks_with committed result.optional

abbrev pub optional_failed : FanoutAckGateResult → List String
optional_failed result = sinks_with failed result.optional

abbrev pub optional_timed_out : FanoutAckGateResult → List String
optional_timed_out result = sinks_with timed_out result.optional

-- What the gate may raise: ValueError, FanoutRequiredSinkError, or what a task raised.
pub data GateError : Type 0 where
  missing_operation unresolved_wait : GateError
  required_sink_error : String → TaskEnd → GateError
  task_error : TaskEnd → GateError

-- A part of the gate returns or raises at a time, or waits for ever.
pub data Waiting {ℓ} (V : Type ℓ) : Type ℓ where
  returns : ℕ → V → Waiting V
  raises : ℕ → GateError → Waiting V
  waits : Waiting V

module _ {ℓ κ} {V : Type ℓ} {W : Type κ} where
  abbrev pub then_at : Waiting V → (ℕ → V → Waiting W) → Waiting W
  then_at (returns t v) next = next t v
  then_at (raises t e) next = raises t e
  then_at waits next = waits

-- One round of a loop over the targets, which passes over those that are not its concern.
abbrev pub take_if {ℓ} :
    {V : Type ℓ} → Bool → Waiting V → (ℕ → Waiting (List V)) → ℕ → Waiting (List V)
take_if true one later t = then_at one λ t' v. then_at (later t') λ t'' vs. returns t'' (v ∷ vs)
take_if false one later t = later t

-- The test for missing operations, made before a task is.
abbrev pub has_operations {ℓ} : {V : Type ℓ} → Bool → ℕ → Waiting V → Waiting V
has_operations true started run = run
has_operations false started run = raises started missing_operation

abbrev pub optional_result :
    RouteTargetConfig → FanoutTargetStatus → Option TaskEnd → FanoutTargetResult
optional_result target status error_type = record {
  sink = target.sink;
  required = false;
  status = status;
  error_type = error_type;
}

-- The wait in microseconds: `wait_ms`, capped by what is left of `timeout_ms`.
abbrev pub bounded_wait : ℕ → ℕ → ℕ → ℕ → ℕ
bounded_wait wait_ms timeout_ms started t = min wait_ms (timeout_ms - (t - started) / 1000) * 1000

module _ (tasks : Tasks) where
  -- `await task` of a required target.
  abbrev pub required_end : RouteTargetConfig → Option (ℕ × TaskEnd) → Waiting FanoutTargetResult
  required_end target none = waits
  required_end target (some (t, succeeded)) =
      returns t
        (record { sink = target.sink; required = true; status = committed; error_type = none })
  required_end target (some (t, cancelled)) = raises t (task_error cancelled)
  required_end target (some (t, end)) = raises t (required_sink_error target.sink end)

  unfoldable pub await_required : ℕ → List RouteTargetConfig → Waiting (List FanoutTargetResult)
  await_required t [] = returns t []
  await_required t (target ∷ targets) =
      take_if target.required (required_end target (tasks.awaited t target.sink))
        (λ t'. await_required t' targets) t

  -- The last `await task` of `_observe_optional_target`.
  abbrev pub optional_end : RouteTargetConfig → Option (ℕ × TaskEnd) → Waiting FanoutTargetResult
  optional_end target none = waits
  optional_end target (some (t, succeeded)) = returns t (optional_result target committed none)
  optional_end target (some (t, cancelled)) = returns t (optional_result target timed_out none)
  optional_end target (some (t, end)) = returns t (optional_result target failed (some end))

  -- After `wait_for`: only TimeoutError is caught, by the time running out or from the task.
  abbrev pub after_wait : RouteTargetConfig → ℕ → Option TaskEnd → Waiting FanoutTargetResult
  after_wait target t none = returns t (optional_result target timed_out none)
  after_wait target t (some raised_timeout) = returns t (optional_result target timed_out none)
  after_wait target t (some (raised e)) = raises t (task_error (raised e))
  after_wait target t (some cancelled) = raises t (task_error cancelled)
  after_wait target t (some succeeded) = optional_end target (tasks.awaited t target.sink)

  abbrev pub observe_resolved :
      RouteTargetConfig → ℕ → ℕ → Option ℕ → Option ℕ → Waiting FanoutTargetResult
  observe_resolved target started t (some wait_ms) (some timeout_ms) =
      if tasks.is_done t target.sink
      then optional_end target (tasks.awaited t target.sink)
      else after_wait target
          (tasks.wait_for t target.sink (bounded_wait wait_ms timeout_ms started t)).0
          (tasks.wait_for t target.sink (bounded_wait wait_ms timeout_ms started t)).1
  observe_resolved target started t _ _ = raises t unresolved_wait

  unfoldable pub observe_optional_target : RouteTargetConfig → ℕ → ℕ → Waiting FanoutTargetResult
  observe_optional_target target started t =
      observe_resolved target started t target.minimum_wait_ms target.timeout_ms

  unfoldable pub observe_optional :
      ℕ → ℕ → List RouteTargetConfig → Waiting (List FanoutTargetResult)
  observe_optional started t [] = returns t []
  observe_optional started t (target ∷ targets) =
      take_if (not target.required) (observe_optional_target target started t)
        (λ t'. observe_optional started t' targets) t

  -- `_cancel_pending`: the sinks whose tasks are cancelled at a time.
  abbrev pub cancel_pending : List RouteTargetConfig → ℕ → List String
  cancel_pending targets t =
      filter_by (λ sink. not (tasks.is_done t sink)) (map (λ target. target.sink) targets)

  -- The gate from the time at which its tasks are scheduled.
  unfoldable pub wait_for_fanout_ack_gate :
      List String → List RouteTargetConfig → ℕ → Waiting FanoutAckGateResult
  wait_for_fanout_ack_gate operations targets started =
      has_operations (all (λ target. contains_text operations target.sink) targets) started (
        then_at (await_required started targets) λ t required.
          then_at (observe_optional started t targets)
            λ t' optional. returns t' (record { required = required; optional = optional }))

  -- What its `finally` cancels: nothing when no task was made, or when it waits for ever.
  unfoldable pub cancelled_by_gate :
      List RouteTargetConfig → Waiting FanoutAckGateResult → List String
  cancelled_by_gate targets (returns t result) = cancel_pending targets t
  cancelled_by_gate targets (raises t missing_operation) = []
  cancelled_by_gate targets (raises t e) = cancel_pending targets t
  cancelled_by_gate targets waits = []
