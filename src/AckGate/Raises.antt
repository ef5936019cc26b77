-- ===== src/AckGate/Raises.antt =====
-- Proofs about core/ack_gate.py: what the gate raises, and why.
use nats_sinks.Common.{
  ℕ, ◌≡◌, ◌≢◌, refl, ◌⊎◌, inl, inr, Bool, true, false, not, List, [], ◌∷◌, Option, none, some,
  String, Any, all, contains_text, Bool-cases, arith,
}
use nats_sinks.Routing.{RouteTargetConfig}
use nats_sinks.AckGate.{
  TaskEnd, succeeded, raised, raised_timeout, cancelled, Tasks, GateError, missing_operation,
  unresolved_wait, required_sink_error, task_error, Waiting, returns, raises, waits, then_at,
  take_if, has_operations, required_end, await_required, optional_end, after_wait, bounded_wait,
  observe_resolved, observe_optional_target, observe_optional, wait_for_fanout_ack_gate,
}

-- What the call raises, if it does, has the property.
pub RaisesOnly {ℓ} : {V : Type ℓ} → (GateError → Type 0) → Waiting V → Type 0
RaisesOnly P (raises t e) = P e
RaisesOnly P _ = Unit

then_at-RaisesOnly {ℓ κ} :
    {V : Type ℓ} {W : Type κ} (P : GateError → Type 0) (one : Waiting V) (next : ℕ → V → Waiting W)
    → RaisesOnly P one
    → ((t : ℕ) (v : V) → RaisesOnly P (next t v))
    → RaisesOnly P (then_at one next)
unfolding RaisesOnly
then_at-RaisesOnly P (returns t v) next h k = k t v
then_at-RaisesOnly P (raises t e) next h k = h
then_at-RaisesOnly P waits next h k = tt

take_if-RaisesOnly {ℓ} :
    {V : Type ℓ} (P : GateError → Type 0) (b : Bool) (one : Waiting V)
    (later : ℕ → Waiting (List V)) (t : ℕ)
    → (b ≡ true → RaisesOnly P one)
    → ((t' : ℕ) → RaisesOnly P (later t'))
    → RaisesOnly P (take_if b one later t)
unfolding RaisesOnly
take_if-RaisesOnly P true one later t h k =
    then_at-RaisesOnly P one (λ t' v. then_at (later t') λ t'' vs. returns t'' (v ∷ vs)) (h refl)
      λ t' v. then_at-RaisesOnly P (later t') (λ t'' vs. returns t'' (v ∷ vs)) (k t') λ t'' vs. tt
take_if-RaisesOnly P false one later t h k = k t

RaisesOnly-weaken {ℓ} :
    {V : Type ℓ} (P Q : GateError → Type 0) (call : Waiting V)
    → ((e : GateError) → P e → Q e)
    → RaisesOnly P call
    → RaisesOnly Q call
unfolding RaisesOnly
RaisesOnly-weaken P Q (returns t v) f h = tt
RaisesOnly-weaken P Q (raises t e) f h = f e h
RaisesOnly-weaken P Q waits f h = tt

true≢false : true ≡ false → ⊥
true≢false e = cc

module _ (tasks : Tasks) where
  -- A required target is behind an error if its operation, once awaited, ended without success.
  pub BehindRequired : GateError → RouteTargetConfig → Type 0
  BehindRequired (required_sink_error sink end) target =
      (target.sink ≡ sink)
      × (end ≢ succeeded)
      × (t t' : ℕ) × (tasks.awaited t sink ≡ some (t', end))
  BehindRequired (task_error end) target =
      (end ≡ cancelled) × (t t' : ℕ) × (tasks.awaited t target.sink ≡ some (t', cancelled))
  BehindRequired _ target = ⊥

  -- An optional target is behind an error if it lacks a wait, or if its operation ended while the
  -- gate waited for it, with the error.
  pub BehindOptional : GateError → RouteTargetConfig → Type 0
  BehindOptional unresolved_wait target =
      (target.minimum_wait_ms ≡ none) ⊎ (target.timeout_ms ≡ none)
  BehindOptional (task_error end) target =
      (t w : ℕ) × ((tasks.wait_for t target.sink w).1 ≡ some end)
  BehindOptional _ target = ⊥

  pub IsBehind : List String → GateError → RouteTargetConfig → Type 0
  IsBehind operations missing_operation target = contains_text operations target.sink ≡ false
  IsBehind operations e target =
      ((target.required ≡ true) × BehindRequired e target)
      ⊎ ((target.required ≡ false) × BehindOptional e target)

  IsBehind-required :
      (operations : List String) (e : GateError) (target : RouteTargetConfig)
      → target.required ≡ true
      → BehindRequired e target
      → IsBehind operations e target
  unfolding IsBehind BehindRequired
  IsBehind-required operations missing_operation target r h = absurd h
  IsBehind-required operations unresolved_wait target r h = absurd h
  IsBehind-required operations (required_sink_error sink end) target r h = inl (r, h)
  IsBehind-required operations (task_error end) target r h = inl (r, h)

  IsBehind-optional :
      (operations : List String) (e : GateError) (target : RouteTargetConfig)
      → target.required ≡ false
      → BehindOptional e target
      → IsBehind operations e target
  unfolding IsBehind BehindOptional
  IsBehind-optional operations missing_operation target r h = absurd h
  IsBehind-optional operations unresolved_wait target r h = inr (r, h)
  IsBehind-optional operations (required_sink_error sink end) target r h = absurd h
  IsBehind-optional operations (task_error end) target r h = inr (r, h)

  required_end-RaisesOnly :
      (target : RouteTargetConfig) (t : ℕ) (found : Option (ℕ × TaskEnd))
      → tasks.awaited t target.sink ≡ found
      → RaisesOnly (λ e. BehindRequired e target) (required_end tasks target found)
  unfolding RaisesOnly BehindRequired
  required_end-RaisesOnly target t none e = tt
  required_end-RaisesOnly target t (some (t', succeeded)) e = tt
  required_end-RaisesOnly target t (some (t', cancelled)) e = (refl, t, t', e)
  required_end-RaisesOnly target t (some (t', raised x)) e = (refl, (λ s. cc), t, t', e)
  required_end-RaisesOnly target t (some (t', raised_timeout)) e = (refl, (λ s. cc), t, t', e)

  optional_end-RaisesOnly :
      (P : GateError → Type 0) (target : RouteTargetConfig) (found : Option (ℕ × TaskEnd))
      → RaisesOnly P (optional_end tasks target found)
  unfolding RaisesOnly
  optional_end-RaisesOnly P target none = tt
  optional_end-RaisesOnly P target (some (t, succeeded)) = tt
  optional_end-RaisesOnly P target (some (t, cancelled)) = tt
  optional_end-RaisesOnly P target (some (t, raised x)) = tt
  optional_end-RaisesOnly P target (some (t, raised_timeout)) = tt

  after_wait-RaisesOnly :
      (target : RouteTargetConfig) (t w t' : ℕ) (found : Option TaskEnd)
      → (tasks.wait_for t target.sink w).1 ≡ found
      → RaisesOnly (λ e. BehindOptional e target) (after_wait tasks target t' found)
  unfolding RaisesOnly BehindOptional
  after_wait-RaisesOnly target t w t' none e = tt
  after_wait-RaisesOnly target t w t' (some raised_timeout) e = tt
  after_wait-RaisesOnly target t w t' (some (raised x)) e = (t, w, e)
  after_wait-RaisesOnly target t w t' (some cancelled) e = (t, w, e)
  after_wait-RaisesOnly target t w t' (some succeeded) e =
      optional_end-RaisesOnly _ target (tasks.awaited t' target.sink)

  observe_resolved-RaisesOnly :
      (target : RouteTargetConfig) (started t : ℕ) (wait_ms timeout_ms : Option ℕ)
      → target.minimum_wait_ms ≡ wait_ms
      → target.timeout_ms ≡ timeout_ms
      → RaisesOnly
          (λ e. BehindOptional e target)
          (observe_resolved tasks target started t wait_ms timeout_ms)
  unfolding BehindOptional RaisesOnly
  observe_resolved-RaisesOnly target started t (some w) (some m) p q =
      elim (Bool-cases (tasks.is_done t target.sink)) [
        | inl d ↦ rw d (optional_end-RaisesOnly _ target (tasks.awaited t target.sink))
        | inr d ↦ rw d (
            after_wait-RaisesOnly target t (bounded_wait w m started t)
              (tasks.wait_for t target.sink (bounded_wait w m started t)).0 _ refl)
      ]
  observe_resolved-RaisesOnly target started t none m p q = inl p
  observe_resolved-RaisesOnly target started t (some w) none p q = inr q

  await_required-RaisesOnly :
      (operations : List String) (targets : List RouteTargetConfig) (t : ℕ)
      → RaisesOnly (λ e. Any (IsBehind operations e) targets) (await_required tasks t targets)
  unfolding await_required RaisesOnly
  await_required-RaisesOnly operations [] t = tt
  await_required-RaisesOnly operations (target ∷ targets) t =
      take_if-RaisesOnly _ target.required (required_end tasks target (tasks.awaited t target.sink))
        (λ t'. await_required tasks t' targets) t
        (λ r.
          RaisesOnly-weaken _ _ (required_end tasks target (tasks.awaited t target.sink))
            (λ e b. inl (IsBehind-required operations e target r b))
            (required_end-RaisesOnly target t (tasks.awaited t target.sink) refl))
        (λ t'.
          RaisesOnly-weaken _ _ (await_required tasks t' targets) (λ e b. inr b)
            (await_required-RaisesOnly operations targets t'))

  observe_optional-RaisesOnly :
      (operations : List String) (targets : List RouteTargetConfig) (started t : ℕ)
      → RaisesOnly
          (λ e. Any (IsBehind operations e) targets)
          (observe_optional tasks started t targets)
  unfolding observe_optional observe_optional_target RaisesOnly
  observe_optional-RaisesOnly operations [] started t = tt
  observe_optional-RaisesOnly operations (target ∷ targets) started t =
      take_if-RaisesOnly _ (not target.required) (observe_optional_target tasks target started t)
        (λ t'. observe_optional tasks started t' targets) t
        (λ o.
          RaisesOnly-weaken _ _ (observe_optional_target tasks target started t)
            (λ e b. inl (IsBehind-optional operations e target (ground arith) b))
            (observe_resolved-RaisesOnly target started t target.minimum_wait_ms target.timeout_ms
              refl refl))
        (λ t'.
          RaisesOnly-weaken _ _ (observe_optional tasks started t' targets) (λ e b. inr b)
            (observe_optional-RaisesOnly operations targets started t'))

  missing-IsBehind :
      (operations : List String) (targets : List RouteTargetConfig)
      → all (λ target. contains_text operations target.sink) targets ≡ false
      → Any (IsBehind operations missing_operation) targets
  unfolding IsBehind
  missing-IsBehind operations [] h = absurd (true≢false h)
  missing-IsBehind operations (target ∷ targets) h =
      elim (Bool-cases (contains_text operations target.sink)) [
        | inl y ↦ inr (missing-IsBehind operations targets (ground (arith, y)))
        | inr n ↦ inl n
      ]

  has_operations-RaisesOnly {ℓ} :
      {V : Type ℓ} (P : GateError → Type 0) (b : Bool) (started : ℕ) (run : Waiting V)
      → (b ≡ false → P missing_operation)
      → RaisesOnly P run
      → RaisesOnly P (has_operations b started run)
  unfolding RaisesOnly
  has_operations-RaisesOnly P true started run m h = h
  has_operations-RaisesOnly P false started run m h = m refl

  -- Whatever the gate raises, a selected target is behind it: it has no operation; or it is required
  -- and its awaited operation ended without success; or it is optional and lacks a wait, or its
  -- operation ended with the raised error while the gate was waiting for it.
  pub wait_for_fanout_ack_gate-RaisesOnly :
      (operations : List String) (targets : List RouteTargetConfig) (started : ℕ)
      → RaisesOnly
          (λ e. Any (IsBehind operations e) targets)
          (wait_for_fanout_ack_gate tasks operations targets started)
  unfolding wait_for_fanout_ack_gate RaisesOnly
  wait_for_fanout_ack_gate-RaisesOnly operations targets started =
      has_operations-RaisesOnly _ (all (λ target. contains_text operations target.sink) targets)
        started _ (missing-IsBehind operations targets)
        (then_at-RaisesOnly _ (await_required tasks started targets) _
          (await_required-RaisesOnly operations targets started)
          (λ t required.
            then_at-RaisesOnly _ (observe_optional tasks started t targets)
              (λ t' optional. returns t' (record { required = required; optional = optional }))
              (observe_optional-RaisesOnly operations targets started t) (λ t' optional. tt)))
