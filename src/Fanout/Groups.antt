-- ===== src/Fanout/Groups.antt =====
-- Proofs about core/fanout_sink.py: the groups of `_select_targets`.
use nats_sinks.Common.{
  ◌≡◌, refl, subst, ◌∙◌, inl, inr, true, ◌||◌, List, [], ◌∷◌, ◌++◌, PythonText, str_eq, str_eq→eq,
  Any, All, Bool-cases, arith, if◌then◌else◌,
}
use nats_sinks.Errors.{unexpected, ok, err, bind-ok}
use nats_sinks.Envelope.{NatsEnvelope}
use nats_sinks.Routing.{RouteTargetConfig, RoutingMatchPolicyConfig, select_route_targets}
use nats_sinks.Fanout.{
  SelectedTarget, merged_policy, merge_target_policy, join_group, keep_group, add_target,
  add_targets, handle_no_route, select_targets_from, select_targets,
}

-- The group writes the message to the sink of the target, as a required one if the target is.
pub record Serves (target : RouteTargetConfig) (message : NatsEnvelope) (group : SelectedTarget)
    : Type 0 where
  pub same_sink : group.policy.sink ≡ target.sink
  pub has_message : Any (λ m. m ≡ message) group.messages
  pub stays_required : target.required ≡ true → group.policy.required ≡ true

-- A policy merged from two of one sink has that sink, and is required if one of them is.
merge-inv :
    (left right out : RouteTargetConfig)
    → merge_target_policy left right ≡ ok out
    → (out.sink ≡ left.sink) × (out.required ≡ (left.required || right.required))
unfolding merge_target_policy merged_policy
merge-inv left right out h = elim (Bool-cases (str_eq left.sink right.sink)) [
  | inr n ↦ absurd (
      refused
        (subst (λ b. (if b then ok (merged_policy left right) else err unexpected) ≡ ok out) n h))
  | inl e ↦
      let same =
        returned (
          subst (λ b. (if b then ok (merged_policy left right) else err unexpected) ≡ ok out) e
            h) in
      subst (λ p. (p.sink ≡ left.sink) × (p.required ≡ (left.required || right.required))) same
        (elim (Bool-cases (left.required || right.required)) [
          | inl r ↦ rw r (refl, refl)
          | inr r ↦ rw r (refl, refl)
        ])
]
  where
    refused : err unexpected ≡ ok out → ⊥
    refused q = cc

    returned : {p : RouteTargetConfig} → ok p ≡ ok out → p ≡ out
    returned q = cc

Any-snoc : {A : Type 0} (P : A → Type 0) (xs : List A) (a : A) → Any P xs → Any P (xs ++ a ∷ [])
Any-snoc P (x ∷ xs) a (inl h) = inl h
Any-snoc P (x ∷ xs) a (inr h) = inr (Any-snoc P xs a h)
Any-snoc P [] a h = absurd h

Any-last : {A : Type 0} (xs : List A) (a : A) → Any (λ x. x ≡ a) (xs ++ a ∷ [])
Any-last [] a = inl refl
Any-last (x ∷ xs) a = inr (Any-last xs a)

returned_list : {A : Type 0} {p q : A} → ok p ≡ ok q → p ≡ q
returned_list e = cc

-- What joining a group does to what the groups serve.
join_group-Serves :
    (group : SelectedTarget) (groups : List SelectedTarget) (target : RouteTargetConfig)
    (message : NatsEnvelope) (out : List SelectedTarget)
    → group.policy.sink ≡ target.sink
    → join_group group groups target message ≡ ok out
    → Any (Serves target message) out
      × ((t : RouteTargetConfig) (m : NatsEnvelope)
          → Any (Serves t m) (group ∷ groups)
          → Any (Serves t m) out)
unfolding join_group
join_group-Serves group groups target message out same h =
    let (policy, q, k) = bind-ok (merge_target_policy group.policy target) _ out h in
    let (sink, need) = merge-inv group.policy target policy q in
    let e = returned_list k in
    (
      subst (Any (Serves target message)) e (
          inl (record {
            same_sink = sink ∙ same;
            has_message = Any-last group.messages message;
            stays_required = λ r. need ∙ ground arith;
          })),
      λ t m a. subst (Any (Serves t m)) e (elim a [
        | inl s ↦ inl (record {
          same_sink = sink ∙ s.same_sink;
          has_message = Any-snoc (λ x. x ≡ m) group.messages message s.has_message;
          stays_required = λ r. need ∙ ground (arith, s.stays_required r);
        })
        | inr b ↦ inr b
      ]),
    )

add_target-Serves :
    (groups : List SelectedTarget) (target : RouteTargetConfig) (message : NatsEnvelope)
    (out : List SelectedTarget)
    → add_target groups target message ≡ ok out
    → Any (Serves target message) out
      × ((t : RouteTargetConfig) (m : NatsEnvelope)
          → Any (Serves t m) groups
          → Any (Serves t m) out)
unfolding add_target
add_target-Serves [] target message out h = (
  subst (Any (Serves target message)) (returned_list h)
      (inl (record { same_sink = refl; has_message = inl refl; stays_required = λ r. r })),
  λ t m a. absurd a,
)
add_target-Serves (group ∷ groups) target message out h =
    elim (Bool-cases (str_eq group.policy.sink target.sink)) [
      | inl e ↦
          join_group-Serves group groups target message out
            (str_eq→eq group.policy.sink target.sink e)
            (subst
              (λ b.
                (if b
                  then join_group group groups target message
                  else keep_group group (add_target groups target message))
                ≡ ok out)
              e h)
      | inr n ↦
          let (rest, q, k) = bind-ok (add_target groups target message) _ out (
            subst
              (λ b.
                (if b
                  then join_group group groups target message
                  else keep_group group (add_target groups target message))
                ≡ ok out)
              n h) in
          let (served, kept) = add_target-Serves groups target message rest q in
          (
            subst (Any (Serves target message)) (returned_list k) (inr served),
            λ t m a.
                subst (Any (Serves t m)) (returned_list k)
                  (elim a [ inl s ↦ inl s | inr b ↦ inr (kept t m b) ]),
          )
    ]

add_targets-Serves :
    (groups : List SelectedTarget) (targets : List RouteTargetConfig) (message : NatsEnvelope)
    (out : List SelectedTarget)
    → add_targets groups targets message ≡ ok out
    → All (λ t. Any (Serves t message) out) targets
      × ((t : RouteTargetConfig) (m : NatsEnvelope)
          → Any (Serves t m) groups
          → Any (Serves t m) out)
unfolding add_targets
add_targets-Serves groups [] message out h =
    (tt, λ t m a. subst (Any (Serves t m)) (returned_list h) a)
add_targets-Serves groups (target ∷ targets) message out h =
    let (next, q, k) = bind-ok (add_target groups target message) _ out h in
    let (served, kept) = add_target-Serves groups target message next q in
    let (others, later) = add_targets-Serves next targets message out k in
    ((later target message served, others), λ t m a. later t m (kept t m a))

-- A target can always be added: only policies of one sink are merged.
add_target-returns :
    (groups : List SelectedTarget) (target : RouteTargetConfig) (message : NatsEnvelope)
    → (out : List SelectedTarget) × (add_target groups target message ≡ ok out)
unfolding add_target join_group merge_target_policy
add_target-returns [] target message = (_, refl)
add_target-returns (group ∷ groups) target message =
    elim (Bool-cases (str_eq group.policy.sink target.sink)) [
      | inl e ↦ (
        record {
          policy = merged_policy group.policy target;
          messages = group.messages ++ message ∷ [];
        }
            ∷ groups,
        rw e refl,
      )
      | inr n ↦
          let (rest, q) = add_target-returns groups target message in (group ∷ rest, rw (n, q) refl)
    ]

add_targets-returns :
    (groups : List SelectedTarget) (targets : List RouteTargetConfig) (message : NatsEnvelope)
    → (out : List SelectedTarget) × (add_targets groups targets message ≡ ok out)
unfolding add_targets
add_targets-returns groups [] message = (groups, refl)
add_targets-returns groups (target ∷ targets) message =
    let (next, e) = add_target-returns groups target message in
    let (out, k) = add_targets-returns next targets message in (out, rw e k)

module _ (python : PythonText) (routing : RoutingMatchPolicyConfig) where
  select_targets_from-Serves :
      (groups : List SelectedTarget) (messages : List NatsEnvelope) (out : List SelectedTarget)
      → select_targets_from python routing groups messages ≡ ok out
      → All
          (λ m.
            All (λ t. Any (Serves t m) out) (select_route_targets python m routing).target_policies)
          messages
        × ((t : RouteTargetConfig) (m : NatsEnvelope)
            → Any (Serves t m) groups
            → Any (Serves t m) out)
  unfolding select_targets_from
  select_targets_from-Serves groups [] out h =
      (tt, λ t m a. subst (Any (Serves t m)) (returned_list h) a)
  select_targets_from-Serves groups (message ∷ messages) out h =
      let (_, _, h1) =
        bind-ok (handle_no_route (select_route_targets python message routing).action) _ out h in
      let (next, q, k) =
        bind-ok
          (add_targets groups (select_route_targets python message routing).target_policies message)
          _ out h1 in
      let (served, kept) =
        add_targets-Serves groups (select_route_targets python message routing).target_policies
          message next q in
      let (others, later) = select_targets_from-Serves next messages out k in
      (
        (
          All-later next out message later
              (select_route_targets python message routing).target_policies served,
          others,
        ),
        λ t m a. later t m (kept t m a),
      )
    where
      All-later :
          (before after : List SelectedTarget) (m : NatsEnvelope)
          → ((t : RouteTargetConfig) (m : NatsEnvelope)
              → Any (Serves t m) before
              → Any (Serves t m) after)
          → (targets : List RouteTargetConfig) → All (λ t. Any (Serves t m) before) targets
          → All (λ t. Any (Serves t m) after) targets
      All-later before after m f [] a = tt
      All-later before after m f (t ∷ targets) (a, as') =
          (f t m a, All-later before after m f targets as')

  select_targets_from-returns :
      (groups : List SelectedTarget) (messages : List NatsEnvelope)
      → All (λ m. handle_no_route (select_route_targets python m routing).action ≡ ok tt) messages
      → (out : List SelectedTarget) × (select_targets_from python routing groups messages ≡ ok out)
  unfolding select_targets_from
  select_targets_from-returns groups [] h = (groups, refl)
  select_targets_from-returns groups (message ∷ messages) (h, hs) =
      let (next, e) =
        add_targets-returns groups (select_route_targets python message routing).target_policies
          message in
      let (out, k) = select_targets_from-returns next messages hs in (out, rw (h, e) k)

  -- What the groups of a batch that was grouped serve.
  pub select_targets-served :
      (messages : List NatsEnvelope) (groups : List SelectedTarget)
      → select_targets python routing messages ≡ ok groups
      → All
          (λ m.
            All
              (λ t. Any (Serves t m) groups)
              (select_route_targets python m routing).target_policies)
          messages
  unfolding select_targets
  select_targets-served messages groups e = (select_targets_from-Serves [] messages groups e).0

  -- If no message of a batch meets a no-match action that raises, the batch is grouped, and then for
  -- every message and every target that it selects there is a group of that sink that holds the
  -- message, and the merged policy of the group is required if the target is, whatever the other
  -- messages select.
  pub select_targets-Serves :
      (messages : List NatsEnvelope)
      → All (λ m. handle_no_route (select_route_targets python m routing).action ≡ ok tt) messages
      → (groups : List SelectedTarget) × (select_targets python routing messages ≡ ok groups)
        × All
            (λ m.
              All
                (λ t. Any (Serves t m) groups)
                (select_route_targets python m routing).target_policies)
            messages
  unfolding select_targets
  select_targets-Serves messages routed =
      let (groups, e) = select_targets_from-returns [] messages routed in
      (groups, e, (select_targets_from-Serves [] messages groups e).0)
