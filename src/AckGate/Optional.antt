-- ===== src/AckGate/Optional.antt =====
-- Proofs about core/ack_gate.py: the optional targets, and what the gate raises.
use nats_sinks.Common.{
  ℕ, ◌+◌, ◌*◌, ◌≤◌, ◌≡◌, refl, subst, sym, max, inl, inr, Bool, true, false, not, List, [], ◌∷◌,
  Option, none, some, String, All, all, contains_text, Bool-cases, arith,
}
use nats_sinks.Routing.{RouteTargetConfig}
use nats_sinks.AckGate.{
  TaskEnd, succeeded, raised, raised_timeout, cancelled, Tasks, IsPrompt, FanoutTargetResult,
  Waiting, returns, raises, waits, then_at, take_if, await_required, optional_end, after_wait,
  bounded_wait, observe_resolved, observe_optional_target, observe_optional,
  wait_for_fanout_ack_gate,
}

-- The call ends, and does so at `n` or before.
pub EndsBy {ℓ} : {V : Type ℓ} → ℕ → Waiting V → Type 0
EndsBy n (returns t v) = t ≤ n
EndsBy n (raises t e) = t ≤ n
EndsBy n waits = ⊥

-- An optional target has its two waits, with a timeout of `limit` at most.
abbrev pub HasWaits : ℕ → Option ℕ → Option ℕ → Type 0
HasWaits limit (some wait_ms) (some timeout_ms) = timeout_ms ≤ limit
HasWaits limit _ _ = ⊥

abbrev pub IsResolved : ℕ → RouteTargetConfig → Type 0
IsResolved limit target =
    target.required ≡ false → HasWaits limit target.minimum_wait_ms target.timeout_ms

abbrev unless_required : Bool → ℕ → ℕ → ℕ
unless_required true grace rest = rest
unless_required false grace rest = grace + rest

-- How long cancelling the optional targets may take, one after the other.
pub cancellations : ℕ → List RouteTargetConfig → ℕ
cancellations grace [] = 0
cancellations grace (target ∷ targets) =
    unless_required target.required grace (cancellations grace targets)

then_at-EndsBy {ℓ κ} :
    {V : Type ℓ} {W : Type κ} (n last : ℕ) (one : Waiting V) (next : ℕ → V → Waiting W)
    → n ≤ last
    → EndsBy n one
    → ((t : ℕ) (v : V) → t ≤ n → EndsBy last (next t v))
    → EndsBy last (then_at one next)
unfolding EndsBy
then_at-EndsBy n last (returns t v) next m h k = k t v h
then_at-EndsBy n last (raises t e) next m h k = omega (arith, m, h)
then_at-EndsBy n last waits next m h k = absurd h

take-EndsBy {ℓ} :
    {V : Type ℓ} (n last : ℕ) (one : Waiting V) (later : ℕ → Waiting (List V)) (t : ℕ)
    → n ≤ last
    → EndsBy n one
    → ((t' : ℕ) → t' ≤ n → EndsBy last (later t'))
    → EndsBy last (take_if true one later t)
unfolding EndsBy
take-EndsBy n last one later t m h k =
    then_at-EndsBy n last one (λ t' v. then_at (later t') λ t'' vs. returns t'' (v ∷ vs)) m h
      λ t' v q.
        then_at-EndsBy last last (later t') (λ t'' vs. returns t'' (v ∷ vs)) (omega arith) (k t' q)
          λ t'' vs r. r

module _ (grace : ℕ) (tasks : Tasks) (prompt : IsPrompt grace tasks) where
  optional_end-EndsBy :
      (n : ℕ) (target : RouteTargetConfig) (t : ℕ) (end : TaskEnd) (found : Option (ℕ × TaskEnd))
      → t ≤ n
      → found ≡ some (t, end)
      → EndsBy n (optional_end tasks target found)
  unfolding EndsBy
  optional_end-EndsBy n target t end found h e =
      subst (λ f. EndsBy n (optional_end tasks target f)) (sym e) (by_end end)
    where
      by_end : (end : TaskEnd) → EndsBy n (optional_end tasks target (some (t, end)))
      by_end succeeded = h
      by_end cancelled = h
      by_end (raised _) = h
      by_end raised_timeout = h

  after_wait-EndsBy :
      (n : ℕ) (target : RouteTargetConfig) (t : ℕ) (found : Option TaskEnd)
      → t ≤ n
      → ((end : TaskEnd) → found ≡ some end → tasks.awaited t target.sink ≡ some (t, end))
      → EndsBy n (after_wait tasks target t found)
  unfolding EndsBy
  after_wait-EndsBy n target t none h k = h
  after_wait-EndsBy n target t (some raised_timeout) h k = h
  after_wait-EndsBy n target t (some (raised e)) h k = h
  after_wait-EndsBy n target t (some cancelled) h k = h
  after_wait-EndsBy n target t (some succeeded) h k =
      optional_end-EndsBy n target t succeeded (tasks.awaited t target.sink) h (k succeeded refl)

  observe_resolved-EndsBy :
      (n limit : ℕ) (target : RouteTargetConfig) (started t : ℕ) (wait_ms timeout_ms : Option ℕ)
      → started + limit * 1000 + 999 ≤ n
      → t ≤ n
      → HasWaits limit wait_ms timeout_ms
      → EndsBy (n + grace) (observe_resolved tasks target started t wait_ms timeout_ms)
  observe_resolved-EndsBy n limit target started t (some w) (some m) b h r =
      elim (Bool-cases (tasks.is_done t target.sink)) [
        | inl d ↦
            let (end, e) = prompt.done_at_once t target.sink d in
            rw d (
              optional_end-EndsBy (n + grace) target t end (tasks.awaited t target.sink)
                (omega (arith, h)) e)
        | inr d ↦ rw d (
            after_wait-EndsBy (n + grace) target
              (tasks.wait_for t target.sink (bounded_wait w m started t)).0
              (tasks.wait_for t target.sink (bounded_wait w m started t)).1
              (omega (arith, prompt.by_deadline t target.sink (bounded_wait w m started t)))
              (prompt.ended t target.sink (bounded_wait w m started t)))
      ]
  observe_resolved-EndsBy n limit target started t none m b h r = absurd r
  observe_resolved-EndsBy n limit target started t (some w) none b h r = absurd r

  observe_optional-EndsBy :
      (n limit started t : ℕ) (targets : List RouteTargetConfig)
      → started + limit * 1000 + 999 ≤ n
      → t ≤ n
      → All (IsResolved limit) targets
      → EndsBy (n + cancellations grace targets) (observe_optional tasks started t targets)
  unfolding observe_optional observe_optional_target EndsBy cancellations
  observe_optional-EndsBy n limit started t [] b h r = omega (arith, h)
  observe_optional-EndsBy n limit started t (target ∷ targets) b h (r, rs) =
      by_required target.required r (observe_optional-EndsBy n limit started t targets b h rs)
        λ t' p. observe_optional-EndsBy (n + grace) limit started t' targets (omega (arith, b)) p rs
    where
      by_required :
          (required : Bool)
          → (required ≡ false → HasWaits limit target.minimum_wait_ms target.timeout_ms)
          → EndsBy (n + cancellations grace targets) (observe_optional tasks started t targets)
          → ((t' : ℕ)
              → t' ≤ n + grace
              → EndsBy
                  (n + grace + cancellations grace targets)
                  (observe_optional tasks started t' targets))
          → EndsBy (n + unless_required required grace (cancellations grace targets)) (
              take_if
                (not required)
                (observe_resolved tasks target started t target.minimum_wait_ms target.timeout_ms)
                (λ t'. observe_optional tasks started t' targets)
                t)
      by_required true o now later = now
      by_required false o now later =
          take-EndsBy (n + grace) (n + (grace + cancellations grace targets))
            (observe_resolved tasks target started t target.minimum_wait_ms target.timeout_ms)
            (λ t'. observe_optional tasks started t' targets) t (omega arith)
            (observe_resolved-EndsBy n limit target started t target.minimum_wait_ms
              target.timeout_ms b h (o refl))
            (λ t' p.
              subst (λ last. EndsBy last (observe_optional tasks started t' targets)) (omega arith)
                (later t' p))

  -- When every selected target has an operation and every optional one has its two waits, with a
  -- timeout of `limit_ms` at most, and a task that is cancelled ends within `grace`, then a gate
  -- whose required targets have all committed at the time `t` ends, even if an optional task never
  -- ends by itself. It does so by `t` or, if that is later, within a millisecond of `limit_ms` after
  -- its start, and `grace` for each optional target.
  pub wait_for_fanout_ack_gate-EndsBy :
      (operations : List String) (targets : List RouteTargetConfig) (limit_ms started t : ℕ)
      (results : List FanoutTargetResult)
      → all (λ target. contains_text operations target.sink) targets ≡ true
      → All (IsResolved limit_ms) targets
      → await_required tasks started targets ≡ returns t results
      → EndsBy
          (max t (started + limit_ms * 1000 + 999) + cancellations grace targets)
          (wait_for_fanout_ack_gate tasks operations targets started)
  unfolding wait_for_fanout_ack_gate EndsBy
  wait_for_fanout_ack_gate-EndsBy operations targets limit_ms started t results known resolved e =
      let last = max t (started + limit_ms * 1000 + 999) + cancellations grace targets in
      rw (known, e)
        (then_at-EndsBy last last (observe_optional tasks started t targets)
          (λ t' optional. returns t' (record { required = results; optional = optional }))
          (omega arith)
          (observe_optional-EndsBy (max t (started + limit_ms * 1000 + 999)) limit_ms started t
            targets (omega arith) (omega arith) resolved)
          (λ t' optional q. q))
