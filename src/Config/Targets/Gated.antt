-- ===== src/Config/Targets/Gated.antt =====
-- Proofs about core/config.py with core/fanout_sink.py and core/ack_gate.py: the groups of a batch
-- under an accepted routing policy, and the gate that they pass.
use nats_sinks.Common.{
  ℕ, ◌+◌, ◌*◌, ◌≤◌, ◌≡◌, refl, sym, subst, max, Bool, true, false, ◌||◌, List, [], ◌∷◌, Option,
  none, some, String, PythonText, All, All-weaken, all, arith, contains_text, str_eq, str_eq_refl,
  or_else, if◌then◌else◌,
}
use nats_sinks.Errors.{Result, ok, err, unexpected, bind-ok, ok_inj}
use nats_sinks.Envelope.{NatsEnvelope}
use nats_sinks.Routing.{RouteTargetConfig, RoutingMatchPolicyConfig, select_route_targets}
use nats_sinks.AckGate.{
  Tasks, IsPrompt, FanoutTargetResult, returns, await_required, wait_for_fanout_ack_gate,
}
use nats_sinks.AckGate.Optional.{
  EndsBy, cancellations, HasWaits, IsResolved, wait_for_fanout_ack_gate-EndsBy,
}
use nats_sinks.Fanout.{
  SelectedTarget, merged_policy, merge_target_policy, join_group, keep_group, add_target,
  add_targets, handle_no_route, select_targets_from, select_targets,
}
use nats_sinks.Fanout.Sink.{sinks_of, policies_of}
use nats_sinks.Config.Targets.{RoutingFields, routing_policy}
use nats_sinks.Config.Targets.Ready.{IsReady, Targets}
use nats_sinks.Config.Targets.Selected.{routing_policy-IsReady, select_route_targets-All}

abbrev Gated : SelectedTarget → Type 0
Gated group = IsResolved 300_000 group.policy

IsReady-IsResolved : (t : RouteTargetConfig) → IsReady t → IsResolved 300_000 t
IsReady-IsResolved t r o =
    let (w, m, e, k, _, bound) = r.waits o in
    subst (λ x. HasWaits 300_000 x t.timeout_ms) (sym e)
      (subst (λ x. HasWaits 300_000 (some w) x) (sym k) bound)

true≢false : true ≡ false → ⊥
true≢false e = cc

timeout-le : (wait timeout : Option ℕ) → HasWaits 300_000 wait timeout → or_else timeout 0 ≤ 300_000
timeout-le (some w) (some m) h = h
timeout-le none m h = absurd h
timeout-le (some w) none h = absurd h

merged_policy-IsResolved :
    (left right : RouteTargetConfig)
    → IsResolved 300_000 left
    → IsResolved 300_000 right
    → IsResolved 300_000 (merged_policy left right)
unfolding merged_policy
merged_policy-IsResolved left right l r = go (left.required || right.required) refl
  where
    go :
        (b : Bool)
        → (left.required || right.required) ≡ b
        → IsResolved 300_000 (
            if b
            then record {
              sink = left.sink;
              required = true;
              minimum_wait_ms = none;
              timeout_ms = none;
            }
            else record {
              sink = left.sink;
              required = false;
              minimum_wait_ms =
                  some (max (or_else left.minimum_wait_ms 0) (or_else right.minimum_wait_ms 0));
              timeout_ms = some (max (or_else left.timeout_ms 0) (or_else right.timeout_ms 0));
            })
    go true e o = absurd (true≢false o)
    go false e o = omega (
      arith,
      timeout-le left.minimum_wait_ms left.timeout_ms (l (ground arith)),
      timeout-le right.minimum_wait_ms right.timeout_ms (r (ground arith)),
    )

merge_target_policy-IsResolved :
    (left right out : RouteTargetConfig)
    → merge_target_policy left right ≡ ok out
    → IsResolved 300_000 left
    → IsResolved 300_000 right
    → IsResolved 300_000 out
unfolding merge_target_policy
merge_target_policy-IsResolved left right out h l r = go (str_eq left.sink right.sink) h
  where
    go :
        (b : Bool)
        → (if b then ok (merged_policy left right) else err unexpected) ≡ ok out
        → IsResolved 300_000 out
    go true h = subst (IsResolved 300_000) (ok_inj h) (merged_policy-IsResolved left right l r)
    go false h = cc

join_group-Gated :
    (group : SelectedTarget) (groups : List SelectedTarget) (t : RouteTargetConfig)
    (message : NatsEnvelope) (out : List SelectedTarget)
    → join_group group groups t message ≡ ok out
    → All Gated (group ∷ groups)
    → IsResolved 300_000 t
    → All Gated out
unfolding join_group
join_group-Gated group groups t message out h (g, gs) r =
    let (policy, e, made) = bind-ok (merge_target_policy group.policy t) _ out h in
    subst (All Gated) (ok_inj made) (merge_target_policy-IsResolved group.policy t policy e g r, gs)

add_target-Gated :
    (groups : List SelectedTarget) (t : RouteTargetConfig) (message : NatsEnvelope)
    (out : List SelectedTarget)
    → add_target groups t message ≡ ok out
    → All Gated groups
    → IsResolved 300_000 t
    → All Gated out
unfolding add_target
add_target-Gated [] t message out h g r = subst (All Gated) (ok_inj h) (r, tt)
add_target-Gated (group ∷ groups) t message out h (g, gs) r =
    go (str_eq group.policy.sink t.sink) (add_target groups t message)
      (λ rest e. add_target-Gated groups t message rest e gs r) h
  where
    go :
        (b : Bool) (later : Result (List SelectedTarget))
        → ((rest : List SelectedTarget) → later ≡ ok rest → All Gated rest)
        → (if b then join_group group groups t message else keep_group group later) ≡ ok out
        → All Gated out
    go true later k h = join_group-Gated group groups t message out h (g, gs) r
    go false later k h =
        let (rest, e, made) = bind-ok later _ out h in subst (All Gated) (ok_inj made) (g, k rest e)

add_targets-Gated :
    (groups : List SelectedTarget) (ts : List RouteTargetConfig) (message : NatsEnvelope)
    (out : List SelectedTarget)
    → add_targets groups ts message ≡ ok out
    → All Gated groups
    → All (IsResolved 300_000) ts
    → All Gated out
unfolding add_targets
add_targets-Gated groups [] message out h g r = subst (All Gated) (ok_inj h) g
add_targets-Gated groups (t ∷ ts) message out h g (r, rs) =
    let (next, e, k) = bind-ok (add_target groups t message) _ out h in
    add_targets-Gated next ts message out k (add_target-Gated groups t message next e g r) rs

module _ (python : PythonText) (routing : RoutingMatchPolicyConfig) where
  select_targets_from-Gated :
      (groups : List SelectedTarget) (messages : List NatsEnvelope) (out : List SelectedTarget)
      → All IsReady routing.default_targets
      → All (Targets IsReady) routing.routes
      → select_targets_from python routing groups messages ≡ ok out
      → All Gated groups
      → All Gated out
  unfolding select_targets_from
  select_targets_from-Gated groups [] out d r h g = subst (All Gated) (ok_inj h) g
  select_targets_from-Gated groups (message ∷ messages) out d r h g =
      let (_, _, h1) =
        bind-ok (handle_no_route (select_route_targets python message routing).action) _ out h in
      let (next, e, k) =
        bind-ok
          (add_targets groups (select_route_targets python message routing).target_policies message)
          _ out h1 in
      select_targets_from-Gated next messages out d r k (
        add_targets-Gated groups (select_route_targets python message routing).target_policies
          message next e g
          (All-weaken IsReady (IsResolved 300_000)
            (select_route_targets python message routing).target_policies IsReady-IsResolved
            (select_route_targets-All python IsReady message routing d r)))

policies-IsResolved :
    (groups : List SelectedTarget)
    → All Gated groups
    → All (IsResolved 300_000) (policies_of groups)
policies-IsResolved [] h = tt
policies-IsResolved (g ∷ groups) (h, hs) = (h, policies-IsResolved groups hs)

contains-more :
    (name : String) (names : List String) (targets : List RouteTargetConfig)
    → all (λ t. contains_text names t.sink) targets ≡ true
    → all (λ t. contains_text (name ∷ names) t.sink) targets ≡ true
contains-more name names [] h = refl
contains-more name names (t ∷ targets) h = ground (arith, contains-more name names targets)

operations_known :
    (groups : List SelectedTarget)
    → all (λ t. contains_text (sinks_of groups) t.sink) (policies_of groups) ≡ true
operations_known [] = refl
operations_known (g ∷ groups) = ground (
  arith,
  str_eq_refl g.policy.sink,
  contains-more g.policy.sink (sinks_of groups) (policies_of groups) (operations_known groups),
)

-- Under an enabled routing policy that the validators accept, if a write that is cancelled ends
-- within `grace`, the gate of any batch that is grouped ends once its required writes have committed:
-- by that time `t` or, if that is later, within a millisecond of five minutes after its start, and
-- `grace` for each optional target, even if an optional write never ends by itself.
pub routing_policy-EndsBy :
    (python : PythonText) (fields : RoutingFields) (routing : RoutingMatchPolicyConfig)
    (messages : List NatsEnvelope) (groups : List SelectedTarget) (grace : ℕ) (tasks : Tasks)
    (started t : ℕ) (results : List FanoutTargetResult)
    → fields.enabled ≡ true
    → routing_policy fields ≡ ok routing
    → select_targets python routing messages ≡ ok groups
    → IsPrompt grace tasks
    → await_required tasks started (policies_of groups) ≡ returns t results
    → EndsBy
        (max t (started + 300_000 * 1000 + 999) + cancellations grace (policies_of groups))
        (wait_for_fanout_ack_gate tasks (sinks_of groups) (policies_of groups) started)
unfolding select_targets
routing_policy-EndsBy python fields routing messages groups grace tasks started t results on
      accepted s p r =
    let (ready, routes_ready) = routing_policy-IsReady fields routing on accepted in
    wait_for_fanout_ack_gate-EndsBy grace tasks p (sinks_of groups) (policies_of groups) 300_000
      started t results (operations_known groups)
      (policies-IsResolved groups
        (select_targets_from-Gated python routing [] messages groups ready routes_ready s tt))
      r
