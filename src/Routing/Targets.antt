-- ===== src/Routing/Targets.antt =====
-- Proofs about core/routing_policy.py: the targets of a selection.
use nats_sinks.Common.{
  any, is_empty, if_true, sym, ◌⊎◌, ◌≡◌, refl, subst, ◌∙◌, inl, inr, Bool, true, false, ◌||◌, ◌&&◌,
  List, [], ◌∷◌, ◌++◌, String, PythonText, str_eq, eq_iff, str_eq→eq, arith, Bool-cases,
  if◌then◌else◌,
}
use nats_sinks.Envelope.{NatsEnvelope}
use nats_sinks.Routing.{
  RouteTargetConfig, RoutePolicyRouteConfig, RoutingMode, first_route, all_routes,
  RoutingMatchPolicyConfig, RouteSelection, matched, has_target, append_targets,
  route_matches_envelope, select_from, selection_of, select_route_targets,
}

-- No sink stands twice.
pub IsDistinct : List RouteTargetConfig → Type 0
IsDistinct [] = Unit
IsDistinct (t ∷ targets) = (has_target targets t.sink ≡ false) × IsDistinct targets

has_target-append :
    (xs ys : List RouteTargetConfig) (sink : String)
    → has_target (xs ++ ys) sink ≡ (has_target xs sink || has_target ys sink)
unfolding has_target
has_target-append [] ys sink = refl
has_target-append (x ∷ xs) ys sink = ground (arith, has_target-append xs ys sink)

IsDistinct-append :
    (xs : List RouteTargetConfig) (t : RouteTargetConfig)
    → IsDistinct xs
    → has_target xs t.sink ≡ false
    → IsDistinct (xs ++ t ∷ [])
unfolding has_target IsDistinct
IsDistinct-append [] t d h = (refl, tt)
IsDistinct-append (x ∷ xs) t (f, d) h = (
  ground (arith, has_target-append xs (t ∷ []) x.sink, eq_iff x.sink t.sink, eq_iff t.sink x.sink),
  IsDistinct-append xs t d (ground arith),
)

append_targets-IsDistinct :
    (existing targets : List RouteTargetConfig)
    → IsDistinct existing
    → IsDistinct (append_targets existing targets)
unfolding append_targets
append_targets-IsDistinct existing [] d = d
append_targets-IsDistinct existing (t ∷ targets) d =
    elim (Bool-cases (has_target existing t.sink)) [
      | inl h ↦ rw h (append_targets-IsDistinct existing targets d)
      | inr h ↦ rw h (
          append_targets-IsDistinct (existing ++ t ∷ []) targets (IsDistinct-append existing t d h))
    ]

-- Appending has the sinks of both lists, and no others.
append_targets-has_target :
    (existing targets : List RouteTargetConfig) (sink : String)
    → has_target (append_targets existing targets) sink
      ≡ (has_target existing sink || has_target targets sink)
unfolding append_targets has_target
append_targets-has_target existing [] sink = ground arith
append_targets-has_target existing (t ∷ targets) sink =
    elim (Bool-cases (has_target existing t.sink)) [
      | inl h ↦ rw h (
          append_targets-has_target existing targets sink ∙ elim (Bool-cases (str_eq t.sink sink)) [
            | inl e ↦ rw e (
                ground
                  (arith, subst (λ s. has_target existing s ≡ true) (str_eq→eq t.sink sink e) h))
            | inr n ↦ rw n refl
          ])
      | inr h ↦ rw h (
          append_targets-has_target (existing ++ t ∷ []) targets sink
          ∙ ground (arith, has_target-append existing (t ∷ []) sink))
    ]

is_empty-snoc : {A : Type 0} (xs : List A) (x : A) → is_empty (xs ++ x ∷ []) ≡ false
is_empty-snoc [] x = refl
is_empty-snoc (y ∷ xs) x = refl

or_false : (b : Bool) → b ≡ (b || false)
or_false true = refl
or_false false = refl

module _ (python : PythonText) where
  -- The sinks that a mode wants: those of every matching route, or of the first one only.
  pub wanted : RoutingMode → NatsEnvelope → List RoutePolicyRouteConfig → String → Bool
  wanted mode envelope [] sink = false
  wanted all_routes envelope (route ∷ routes) sink =
      (route_matches_envelope python route envelope && has_target route.targets sink)
      || wanted all_routes envelope routes sink
  wanted first_route envelope (route ∷ routes) sink =
      let later = wanted first_route envelope routes sink in
      if route_matches_envelope python route envelope then has_target route.targets sink else later

  -- What the loop over the routes makes of the targets before it.
  pub record Collects (mode : RoutingMode) (envelope : NatsEnvelope)
      (routes : List RoutePolicyRouteConfig) (before after : List RouteTargetConfig) : Type 0 where
    pub once : IsDistinct before → IsDistinct after
    pub exactly :
        (sink : String)
        → has_target after sink ≡ (has_target before sink || wanted mode envelope routes sink)

  select_from-Collects :
      (mode : RoutingMode) (envelope : NatsEnvelope) (routes : List RoutePolicyRouteConfig)
      (names : List String) (targets : List RouteTargetConfig)
      → Collects mode envelope routes targets
          (select_from python mode envelope routes names targets).1
  unfolding select_from wanted
  select_from-Collects mode envelope [] names targets = record {
    once = λ d. d;
    exactly = λ sink. or_false (has_target targets sink);
  }
  select_from-Collects all_routes envelope (route ∷ routes) names targets =
      elim (Bool-cases (route_matches_envelope python route envelope)) [
        | inl h ↦
            let c =
              select_from-Collects all_routes envelope routes (names ++ route.name ∷ [])
                (append_targets targets route.targets) in
            record {
              once = λ d. rw h (c.once (append_targets-IsDistinct targets route.targets d));
              exactly = λ sink. rw h (
                  c.exactly sink
                  ∙ ground (arith, append_targets-has_target targets route.targets sink));
            }
        | inr h ↦
            let c = select_from-Collects all_routes envelope routes names targets in
            record { once = λ d. rw h (c.once d); exactly = λ sink. rw h (c.exactly sink) }
      ]
  select_from-Collects first_route envelope (route ∷ routes) names targets =
      elim (Bool-cases (route_matches_envelope python route envelope)) [
        | inl h ↦ record {
          once = λ d. rw h (append_targets-IsDistinct targets route.targets d);
          exactly = λ sink. rw h (append_targets-has_target targets route.targets sink);
        }
        | inr h ↦
            let c = select_from-Collects first_route envelope routes names targets in
            record { once = λ d. rw h (c.once d); exactly = λ sink. rw h (c.exactly sink) }
      ]

  -- A matching route gives its name to the selection.
  select_from-matches :
      (mode : RoutingMode) (envelope : NatsEnvelope) (routes : List RoutePolicyRouteConfig)
      (names : List String) (targets : List RouteTargetConfig)
      → (is_empty names ≡ false)
        ⊎ (any (λ route. route_matches_envelope python route envelope) routes ≡ true)
      → is_empty (select_from python mode envelope routes names targets).0 ≡ false
  unfolding select_from
  select_from-matches mode envelope [] names targets (inl h) = h
  select_from-matches mode envelope [] names targets (inr h) = cc
  select_from-matches all_routes envelope (route ∷ routes) names targets m =
      elim (Bool-cases (route_matches_envelope python route envelope)) [
        | inl h ↦ rw h (
            select_from-matches all_routes envelope routes (names ++ route.name ∷ [])
              (append_targets targets route.targets) (inl (is_empty-snoc names route.name)))
        | inr h ↦ rw h (
            select_from-matches all_routes envelope routes names targets
              (elim m [ inl n ↦ inl n | inr a ↦ inr (ground (arith, a, h)) ]))
      ]
  select_from-matches first_route envelope (route ∷ routes) names targets m =
      elim (Bool-cases (route_matches_envelope python route envelope)) [
        | inl h ↦ rw h (is_empty-snoc names route.name)
        | inr h ↦ rw h (
            select_from-matches first_route envelope routes names targets
              (elim m [ inl n ↦ inl n | inr a ↦ inr (ground (arith, a, h)) ]))
      ]

  -- Under an enabled policy, an envelope that some route matches is matched. It selects, in the mode
  -- `all`, every sink that is a target of a matching route, in the mode `first` every one of the
  -- first matching route, and no other sink; and it selects each once.
  pub select_route_targets-matched :
      (envelope : NatsEnvelope) (policy : RoutingMatchPolicyConfig)
      → policy.enabled ≡ true
      → any (λ route. route_matches_envelope python route envelope) policy.routes ≡ true
      → ((select_route_targets python envelope policy).action ≡ matched)
        × IsDistinct (select_route_targets python envelope policy).target_policies
        × ((sink : String)
            → has_target (select_route_targets python envelope policy).target_policies sink
              ≡ wanted policy.mode envelope policy.routes sink)
  unfolding select_route_targets IsDistinct wanted has_target
  select_route_targets-matched envelope policy on some_match =
      subst
        (λ (s : RouteSelection).
          (s.action ≡ matched)
          × IsDistinct s.target_policies
          × ((sink : String)
              → has_target s.target_policies sink ≡ wanted policy.mode envelope policy.routes sink))
        (sym (if_true policy.enabled _ _ on))
        (selected (select_from python policy.mode envelope policy.routes [] [])
          (select_from-Collects policy.mode envelope policy.routes [] [])
          (select_from-matches policy.mode envelope policy.routes [] [] (inr some_match)))
    where
      selected :
          (found : List String × List RouteTargetConfig)
          → Collects policy.mode envelope policy.routes [] found.1
          → is_empty found.0 ≡ false
          → ((selection_of python policy found).action ≡ matched)
            × IsDistinct (selection_of python policy found).target_policies
            × ((sink : String)
                → has_target (selection_of python policy found).target_policies sink
                  ≡ wanted policy.mode envelope policy.routes sink)
      selected ([], targets) c e = cc
      selected (n ∷ names, targets) c e = (refl, c.once tt, λ sink. c.exactly sink)
