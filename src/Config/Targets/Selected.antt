-- ===== src/Config/Targets/Selected.antt =====
-- Proofs about core/config.py with core/routing_policy.py, core/fanout_sink.py and core/ack_gate.py:
-- what an accepted routing policy gives to the gate.
use nats_sinks.Common.{
  ◌≡◌, ap, subst, inl, inr, Bool, true, false, not, ◌&&◌, List, [], ◌∷◌, ◌++◌, String, PythonText,
  is_empty, All, length, ltb, if◌then◌else◌, Bool-cases,
}
use nats_sinks.Errors.{ok, unexpected, bind-ok, raise_if-ok, ok_inj}
use nats_sinks.Envelope.{NatsEnvelope}
use nats_sinks.Routing.{
  RouteTargetConfig, RoutePolicyRouteConfig, RoutingMode, all_routes, first_route, NoMatch,
  disabled, rejects, uses_default_route, ignores, RoutingMatchPolicyConfig, has_target,
  append_targets, route_matches_envelope, select_from, without_match, selection_of,
  select_route_targets,
}
use nats_sinks.Config.Targets.{
  SinkType, RoutingFields, default_targets_of, collect_routes, uses_default, resolve_targets,
  resolve_routes, apply_ack_gate_defaults, routing_policy,
}
use nats_sinks.Config.Targets.Ready.{
  IsShaped, IsReady, Targets, default_targets_of-IsShaped, collect_routes-IsShaped,
  resolve_targets-IsReady, resolve_routes-IsReady,
}

applied-IsReady :
    (skips : Bool) (types : List (String × SinkType)) (defaults : List RouteTargetConfig)
    (routes : List RoutePolicyRouteConfig)
    (pair : List RouteTargetConfig × List RoutePolicyRouteConfig)
    → skips ≡ false
    → apply_ack_gate_defaults skips types defaults routes ≡ ok pair
    → All IsShaped defaults
    → All (Targets IsShaped) routes
    → All IsReady pair.0 × All (Targets IsReady) pair.1
applied-IsReady true types defaults routes pair off h d r = cc
applied-IsReady false types defaults routes pair off h d r =
    let (defaults', e, h1) = bind-ok (resolve_targets types defaults) _ pair h in
    let (routes', k, made) = bind-ok (resolve_routes types routes) _ pair h1 in
    subst (λ p. All IsReady p.0 × All (Targets IsReady) p.1) (ok_inj made)
      (
        resolve_targets-IsReady types defaults defaults' d e,
        resolve_routes-IsReady types routes routes' r k,
      )

-- If the validators accept an enabled routing policy, every default target and every target of a
-- route is ready for the gate: a required one has no waits, and an optional one has both, the wait no
-- longer than the timeout and the timeout of five minutes at most.
pub routing_policy-IsReady :
    (fields : RoutingFields) (policy : RoutingMatchPolicyConfig)
    → fields.enabled ≡ true
    → routing_policy fields ≡ ok policy
    → All IsReady policy.default_targets × All (Targets IsReady) policy.routes
unfolding routing_policy
routing_policy-IsReady fields policy on h =
    let (defaults, d, h1) = bind-ok (default_targets_of fields.default_targets) _ policy h in
    let (routes, r, h2) = bind-ok (collect_routes [] fields.routes) _ policy h1 in
    let (_, h3) = raise_if-ok (ltb 128 (length routes)) unexpected _ policy h2 in
    let (_, h4) = raise_if-ok (fields.enabled && is_empty routes) unexpected _ policy h3 in
    let (_, h5) =
      raise_if-ok (uses_default fields.no_match && is_empty defaults) unexpected _ policy h4 in
    let (_, h6) =
      raise_if-ok (not (uses_default fields.no_match) && not (is_empty defaults)) unexpected _
        policy h5 in
    let (pair, e, made) =
      bind-ok
        (apply_ack_gate_defaults (not fields.enabled && is_empty defaults) fields.target_sink_types
          defaults routes)
        _ policy h6 in
    let (ready, routes_ready) =
      applied-IsReady (not fields.enabled && is_empty defaults) fields.target_sink_types defaults
        routes pair (ap (λ b. not b && is_empty defaults) on) e
        (default_targets_of-IsShaped fields.default_targets defaults d)
        (collect_routes-IsShaped [] fields.routes routes r) in
    (
      subst (λ (p : RoutingMatchPolicyConfig). All IsReady p.default_targets) (ok_inj made) ready,
      subst (λ (p : RoutingMatchPolicyConfig). All (Targets IsReady) p.routes) (ok_inj made)
          routes_ready,
    )

-- What holds of every configured target holds of every selected one.
append_targets-All :
    (P : RouteTargetConfig → Type 0) (existing targets : List RouteTargetConfig)
    → All P existing
    → All P targets
    → All P (append_targets existing targets)
unfolding append_targets
append_targets-All P existing [] e t = e
append_targets-All P existing (target ∷ targets) e (t, ts) =
    elim (Bool-cases (has_target existing target.sink)) [
      | inl h ↦ rw h (append_targets-All P existing targets e ts)
      | inr h ↦ rw h (append_targets-All P (existing ++ target ∷ []) targets (snoc existing e) ts)
    ]
  where
    snoc : (existing : List RouteTargetConfig) → All P existing → All P (existing ++ target ∷ [])
    snoc [] e = (t, tt)
    snoc (x ∷ existing) (e, es) = (e, snoc existing es)

module _ (python : PythonText) (P : RouteTargetConfig → Type 0) where
  select_from-All :
      (mode : RoutingMode) (envelope : NatsEnvelope) (routes : List RoutePolicyRouteConfig)
      (names : List String) (targets : List RouteTargetConfig)
      → All (Targets P) routes
      → All P targets
      → All P (select_from python mode envelope routes names targets).1
  unfolding select_from
  select_from-All mode envelope [] names targets r t = t
  select_from-All all_routes envelope (route ∷ routes) names targets (r, rs) t =
      elim (Bool-cases (route_matches_envelope python route envelope)) [
        | inl h ↦ rw h (
            select_from-All all_routes envelope routes (names ++ route.name ∷ [])
              (append_targets targets route.targets) rs
              (append_targets-All P targets route.targets t r))
        | inr h ↦ rw h (select_from-All all_routes envelope routes names targets rs t)
      ]
  select_from-All first_route envelope (route ∷ routes) names targets (r, rs) t =
      elim (Bool-cases (route_matches_envelope python route envelope)) [
        | inl h ↦ rw h (append_targets-All P targets route.targets t r)
        | inr h ↦ rw h (select_from-All first_route envelope routes names targets rs t)
      ]

  selection_of-All :
      (policy : RoutingMatchPolicyConfig) (found : List String × List RouteTargetConfig)
      → All P policy.default_targets
      → All P found.1
      → All P (selection_of python policy found).target_policies
  unfolding without_match
  selection_of-All policy (n ∷ names, targets) d t = t
  selection_of-All policy ([], targets) d t = by_action policy.no_match
    where
      by_action :
          (action : NoMatch)
          → All P (without_match python action policy.default_targets).target_policies
      by_action rejects = tt
      by_action uses_default_route = d
      by_action ignores = tt

  pub select_route_targets-All :
      (envelope : NatsEnvelope) (policy : RoutingMatchPolicyConfig)
      → All P policy.default_targets
      → All (Targets P) policy.routes
      → All P (select_route_targets python envelope policy).target_policies
  unfolding select_route_targets
  select_route_targets-All envelope policy d r = either policy.enabled
    where
      either :
          (b : Bool)
          → All P
              (if b
                then selection_of python policy
                    (select_from python policy.mode envelope policy.routes [] [])
                else record {
                  matched_routes = [];
                  action = disabled;
                  target_policies = [];
                }).target_policies
      either true =
          selection_of-All policy (select_from python policy.mode envelope policy.routes [] []) d
            (select_from-All policy.mode envelope policy.routes [] [] r tt)
      either false = tt
