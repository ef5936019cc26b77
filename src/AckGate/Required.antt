-- ===== src/AckGate/Required.antt =====
-- Proofs about core/ack_gate.py: the required targets.
use nats_sinks.Common.{
  ℕ, ◌≡◌, refl, ap, sym, ◌∙◌, ◌⊎◌, inl, inr, Bool, true, false, List, [], ◌∷◌, map, Option, none,
  some, String, All, filter_by, if◌then◌else◌,
}
use nats_sinks.Routing.{RouteTargetConfig}
use nats_sinks.AckGate.{
  TaskEnd, succeeded, raised, raised_timeout, cancelled, Tasks, committed, FanoutTargetResult,
  FanoutAckGateResult, has_status, required_committed, sinks_with, Waiting, returns, raises, waits,
  then_at, take_if, has_operations, required_end, await_required, observe_optional,
  wait_for_fanout_ack_gate,
}

module _ {ℓ κ} {V : Type ℓ} {W : Type κ} where
  pub then_at-returns :
      (one : Waiting V) (next : ℕ → V → Waiting W) (t : ℕ) (w : W)
      → then_at one next ≡ returns t w
      → (t1 : ℕ) × (v : V) × (one ≡ returns t1 v) × (next t1 v ≡ returns t w)
  then_at-returns (returns t1 v) next t w h = (t1, v, refl, h)
  then_at-returns (raises t1 e) next t w h = cc
  then_at-returns waits next t w h = cc

pub returns_inj {ℓ} :
    {V : Type ℓ} {t t' : ℕ} {v v' : V} → returns t v ≡ returns t' v' → (t ≡ t') × (v ≡ v')
returns_inj e = (cc, cc)

-- A round of a loop that returned.
pub take_if-returns {ℓ} :
    {V : Type ℓ} (b : Bool) (one : Waiting V) (later : ℕ → Waiting (List V)) (t t' : ℕ)
    (vs : List V)
    → take_if b one later t ≡ returns t' vs
    → ((b ≡ true)
        × (t1 : ℕ) × (v : V) × (rest : List V) × (one ≡ returns t1 v)
        × (later t1 ≡ returns t' rest)
        × (vs ≡ v ∷ rest))
      ⊎ ((b ≡ false) × (later t ≡ returns t' vs))
take_if-returns false one later t t' vs h = inr (refl, h)
take_if-returns true one later t t' vs h =
    let (t1, v, e, k) = then_at-returns one _ t' vs h in
    let (t2, rest, e', k') = then_at-returns (later t1) _ t' vs k in
    let (same, listed) = returns_inj k' in
    inl (refl, t1, v, rest, e, e' ∙ ap (λ t. returns t rest) same, sym listed)

true≢false : true ≡ false → ⊥
true≢false e = cc

has_operations-returns {ℓ} :
    {V : Type ℓ} (b : Bool) (started : ℕ) (run : Waiting V) (t : ℕ) (v : V)
    → has_operations b started run ≡ returns t v
    → run ≡ returns t v
has_operations-returns true started run t v h = h
has_operations-returns false started run t v h = cc

module _ (tasks : Tasks) where
  -- The operation of a sink was awaited and succeeded.
  pub Succeeded : String → Type 0
  Succeeded sink = (t t' : ℕ) × (tasks.awaited t sink ≡ some (t', succeeded))

  abbrev pub IsSettled : RouteTargetConfig → Type 0
  IsSettled target = target.required ≡ true → Succeeded target.sink

  required_end-returns :
      (target : RouteTargetConfig) (end : Option (ℕ × TaskEnd)) (t : ℕ) (r : FanoutTargetResult)
      → required_end tasks target end ≡ returns t r
      → (end ≡ some (t, succeeded)) × (r.sink ≡ target.sink) × (r.status ≡ committed)
  required_end-returns target none t r h = cc
  required_end-returns target (some (t', succeeded)) t r h =
      let (same, made) = returns_inj h in
      (
        ap (λ t. some (t, succeeded)) same,
        sym (ap (λ r. r.sink) made),
        sym (ap (λ r. r.status) made),
      )
  required_end-returns target (some (t', cancelled)) t r h = cc
  required_end-returns target (some (t', raised e)) t r h = cc
  required_end-returns target (some (t', raised_timeout)) t r h = cc

  sinks_with-cons :
      (r : FanoutTargetResult) (results : List FanoutTargetResult)
      → r.status ≡ committed
      → sinks_with committed (r ∷ results) ≡ r.sink ∷ sinks_with committed results
  sinks_with-cons r results e =
      ap
        (λ s.
          let rest = filter_by (λ r. has_status r.status committed) results in
          map (λ (r : FanoutTargetResult). r.sink)
            (if has_status s committed then r ∷ rest else rest))
        e

  abbrev pub required_sinks : List RouteTargetConfig → List String
  required_sinks targets =
      map (λ (target : RouteTargetConfig). target.sink)
        (filter_by (λ target. target.required) targets)

  required_sinks-cons :
      (target : RouteTargetConfig) (targets : List RouteTargetConfig) (b : Bool)
      → target.required ≡ b
      → required_sinks (target ∷ targets)
        ≡ (if b then target.sink ∷ required_sinks targets else required_sinks targets)
  required_sinks-cons target targets b e =
      ap
        (λ b.
          let rest = filter_by (λ (target : RouteTargetConfig). target.required) targets in
          map (λ (target : RouteTargetConfig). target.sink) (if b then target ∷ rest else rest))
        e
      ∙ either b
    where
      either :
          (b : Bool)
          → map
              (λ (target : RouteTargetConfig). target.sink)
              (if b
                then target ∷ filter_by (λ (target : RouteTargetConfig). target.required) targets
                else filter_by (λ (target : RouteTargetConfig). target.required) targets)
            ≡ (if b then target.sink ∷ required_sinks targets else required_sinks targets)
      either true = refl
      either false = refl

  -- A loop over the required targets that returned has awaited each of them, with success, and its
  -- results are theirs.
  await_required-Settled :
      (targets : List RouteTargetConfig) (t t' : ℕ) (results : List FanoutTargetResult)
      → await_required tasks t targets ≡ returns t' results
      → All IsSettled targets × (sinks_with committed results ≡ required_sinks targets)
  unfolding await_required Succeeded
  await_required-Settled [] t t' results h = (tt, ap (sinks_with committed) (sym (returns_inj h).1))
  await_required-Settled (target ∷ targets) t t' results h =
      elim (take_if-returns target.required
        (required_end tasks target (tasks.awaited t target.sink))
        (λ t'. await_required tasks t' targets) t t' results h) [
          | inl (need, t1, r, rest, e, k, made) ↦
              let (settled, sinks) = await_required-Settled targets t1 t' rest k in
              let (end, same, status) =
                required_end-returns target (tasks.awaited t target.sink) t1 r e in
              (
                ((λ _. (t, t1, end)), settled),
                ap (sinks_with committed) made
                    ∙ sinks_with-cons r rest status
                    ∙ ap (λ s. s ∷ sinks_with committed rest) same
                    ∙ ap (◌∷◌ target.sink) sinks
                    ∙ sym (required_sinks-cons target targets true need),
              )
          | inr (need, k) ↦
              let (settled, sinks) = await_required-Settled targets t t' results k in
              (
                ((λ required. absurd (true≢false (sym required ∙ need))), settled),
                sinks ∙ sym (required_sinks-cons target targets false need),
              )
        ]

  -- If the gate releases, the operation of every required target was awaited and succeeded, and
  -- `required_committed` of the result lists exactly the required targets, in their order.
  pub wait_for_fanout_ack_gate-required :
      (operations : List String) (targets : List RouteTargetConfig) (started t : ℕ)
      (result : FanoutAckGateResult)
      → wait_for_fanout_ack_gate tasks operations targets started ≡ returns t result
      → All (λ target. target.required ≡ true → Succeeded target.sink) targets
        × (required_committed result
            ≡ map (λ target. target.sink) (filter_by (λ target. target.required) targets))
  unfolding wait_for_fanout_ack_gate
  wait_for_fanout_ack_gate-required operations targets started t result h =
      let (t1, required, e, k) =
        then_at-returns (await_required tasks started targets) _ t result
          (has_operations-returns _ started _ t result h) in
      let (t2, optional, _, made) =
        then_at-returns (observe_optional tasks started t1 targets)
          (λ t' optional. returns t' (record { required = required; optional = optional })) t result
          k in
      let (settled, sinks) = await_required-Settled targets started t1 required e in
      (
        settled,
        ap required_committed
              (sym (returns_inj {v = record { required = required; optional = optional }} made).1)
            ∙ sinks,
      )
