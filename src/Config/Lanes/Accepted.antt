-- ===== src/Config/Lanes/Accepted.antt =====
-- Proofs about core/config.py: the lanes that the validators accept.
use nats_sinks.Common.{
  ℕ, ◌≤◌, ◌≡◌, refl, ap, sym, subst, inl, inr, Bool, true, false, not, ◌||◌, List, [], ◌∷◌, some,
  String, PythonText, ℤ, pos, negsuc, All, Any, arith, ltb, char_count, contains_text, str_eq,
  str_eq→eq, Bool-cases, if◌then◌else◌,
}
use nats_sinks.Errors.{ok, err, unexpected, bind-ok, raise_if-ok, ok_inj}
use nats_sinks.Priority.{Lane, PriorityLanesConfig, priority_lane_name}
use nats_sinks.Config.Lanes.{
  LaneFields, LanesFields, check_weight, validate_lane_name, normalize_priorities, priority_lane,
  priority_lanes, assign_priorities, check_lanes, validate_lane_policy, priority_lanes_config,
}

abbrev HasWeight : Lane → Type 0
HasWeight lane = (1 ≤ lane.weight) × (lane.weight ≤ 100)

check_weight-bounds : (z : ℤ) (n : ℕ) → check_weight z ≡ ok n → (1 ≤ n) × (n ≤ 100)
check_weight-bounds (negsuc m) n h = cc
check_weight-bounds (pos m) n h = go (ltb m 1 || ltb 100 m) refl h
  where
    go :
        (b : Bool)
        → (ltb m 1 || ltb 100 m) ≡ b
        → (if b then err unexpected else ok m) ≡ ok n
        → (1 ≤ n) × (n ≤ 100)
    go true e h = cc
    go false e h = subst (λ n. (1 ≤ n) × (n ≤ 100)) (ok_inj h) (ground arith, ground arith)

priority_lanes-HasWeight :
    (python : PythonText) (fields : List LaneFields) (lanes : List Lane)
    → priority_lanes python fields ≡ ok lanes
    → All HasWeight lanes
unfolding priority_lanes priority_lane
priority_lanes-HasWeight python [] lanes h = subst (All HasWeight) (ok_inj h) tt
priority_lanes-HasWeight python (f ∷ fields) lanes h =
    let (lane, e, h1) = bind-ok (priority_lane python f) _ lanes h in
    let (name, _, e1) = bind-ok (validate_lane_name python f.name) _ lane e in
    let (priorities, _, e2) = bind-ok (normalize_priorities python f.priorities) _ lane e1 in
    let (weight, w, made) = bind-ok (check_weight f.weight) _ lane e2 in
    let (rest, k, all_made) = bind-ok (priority_lanes python fields) _ lanes h1 in
    subst (All HasWeight) (ok_inj all_made) (
      subst HasWeight (ok_inj made) (check_weight-bounds f.weight weight w),
      priority_lanes-HasWeight python fields rest k,
    )

-- The priorities that a lane adds are new, and all are kept.
assign_priorities-new :
    (longest : ℕ) (assigned priorities next : List String)
    → assign_priorities longest assigned priorities ≡ ok next
    → ((p : String) → contains_text assigned p ≡ true → contains_text next p ≡ true)
      × ((p : String) → contains_text priorities p ≡ true → contains_text assigned p ≡ false)
      × ((p : String) → contains_text priorities p ≡ true → contains_text next p ≡ true)
unfolding assign_priorities
assign_priorities-new longest assigned [] next h =
    (λ p q. subst (λ l. contains_text l p ≡ true) (ok_inj h) q, λ p q. cc, λ p q. cc)
assign_priorities-new longest assigned (x ∷ priorities) next h =
    let (_, h1) = raise_if-ok (ltb longest (char_count x)) unexpected _ next h in
    let (fresh, h2) = raise_if-ok (contains_text assigned x) unexpected _ next h1 in
    let (kept, new, put) = assign_priorities-new longest (x ∷ assigned) priorities next h2 in
    (
      λ p q. kept p (ground arith),
      λ p q. elim (Bool-cases (str_eq x p)) [
        | inl e ↦ subst (λ p. contains_text assigned p ≡ false) (str_eq→eq x p e) fresh
        | inr n ↦ ground (arith, new p)
      ],
      λ p q. elim (Bool-cases (str_eq x p)) [
        | inl e ↦ kept p (ground arith)
        | inr n ↦ put p (ground arith)
      ],
    )

contradiction : (b : Bool) → b ≡ true → b ≡ false → ⊥
contradiction true h k = cc
contradiction false h k = cc

check_lanes-own_lane :
    (longest : ℕ) (names assigned : List String) (lanes : List Lane) (out : List String)
    → check_lanes longest names assigned lanes ≡ ok out
    → (lane : Lane) (p : String) → Any (λ l. l ≡ lane) lanes
    → contains_text lane.priorities p ≡ true
    → (contains_text assigned p ≡ false) × (priority_lane_name p lanes ≡ some lane.name)
unfolding check_lanes priority_lane_name
check_lanes-own_lane longest names assigned [] out h lane p a q = absurd a
check_lanes-own_lane longest names assigned (l ∷ lanes) out h lane p a q =
    let (_, h1) = raise_if-ok (contains_text names l.name) unexpected _ out h in
    let (next, e, h2) = bind-ok (assign_priorities longest assigned l.priorities) _ out h1 in
    let (kept, new, put) = assign_priorities-new longest assigned l.priorities next e in
    elim a [
      | inl same ↦
          let r = subst (λ (l : Lane). contains_text l.priorities p ≡ true) (sym same) q in
          (new p r, rw r (ap (λ (l : Lane). some l.name) same))
      | inr later ↦
          let (absent, found) =
            check_lanes-own_lane longest (l.name ∷ names) next lanes out h2 lane p later q in
          (
            elim (Bool-cases (contains_text assigned p)) [
              | inl t ↦ absurd (contradiction (contains_text next p) (kept p t) absent)
              | inr f ↦ f
            ],
            elim (Bool-cases (contains_text l.priorities p)) [
              | inl t ↦ absurd (contradiction (contains_text next p) (put p t) absent)
              | inr f ↦ rw f found
            ],
          )
    ]

check_lanes-names :
    (longest : ℕ) (names assigned : List String) (lanes : List Lane) (out : List String)
    (name : String)
    → check_lanes longest names assigned lanes ≡ ok out
    → contains_text out name ≡ true
    → contains_text names name ≡ false
    → Any (λ l. l.name ≡ name) lanes
unfolding check_lanes
check_lanes-names longest names assigned [] out name h t f = absurd (
    contradiction (contains_text names name)
      (subst (λ l. contains_text l name ≡ true) (sym (ok_inj h)) t) f)
check_lanes-names longest names assigned (l ∷ lanes) out name h t f =
    let (_, h1) = raise_if-ok (contains_text names l.name) unexpected _ out h in
    let (next, e, h2) = bind-ok (assign_priorities longest assigned l.priorities) _ out h1 in
    elim (Bool-cases (str_eq l.name name)) [
      | inl e ↦ inl (str_eq→eq l.name name e)
      | inr n ↦
          inr (check_lanes-names longest (l.name ∷ names) next lanes out name h2 t (ground arith))
    ]

-- A lane configuration that scheduling can rely on: every lane has a weight between 1 and 100, the
-- default lane is one of the lanes, and a priority that a lane lists leads to that lane.
pub record IsAccepted (config : PriorityLanesConfig) : Type 0 where
  pub weights : All (λ lane. (1 ≤ lane.weight) × (lane.weight ≤ 100)) config.lanes
  pub has_default : Any (λ lane. lane.name ≡ config.default_lane) config.lanes
  pub own_lane :
      (lane : Lane) (priority : String)
      → Any (λ l. l ≡ lane) config.lanes
      → contains_text lane.priorities priority ≡ true
      → priority_lane_name priority config.lanes ≡ some lane.name

-- Lanes that the validators accept have weights between 1 and 100, the default lane is one of them,
-- and each priority that one of them lists leads to that lane and to no other.
pub priority_lanes_config-IsAccepted :
    (python : PythonText) (fields : LanesFields) (config : PriorityLanesConfig)
    → priority_lanes_config python fields ≡ ok config
    → IsAccepted config
unfolding priority_lanes_config validate_lane_policy
priority_lanes_config-IsAccepted python fields config h =
    let (default_lane, _, h0) =
      bind-ok (validate_lane_name python fields.default_lane) _ config h in
    let (_, h1) =
      raise_if-ok
        (ltb fields.max_priority_value_length 1 || ltb 256 fields.max_priority_value_length)
        unexpected _ config h0 in
    let (lanes, e, h2) = bind-ok (priority_lanes python fields.lanes) _ config h1 in
    let (names, k, h3) =
      bind-ok (check_lanes fields.max_priority_value_length [] [] lanes) _ config h2 in
    let (known, made) =
      raise_if-ok (not (contains_text names default_lane)) unexpected _ config h3 in
    subst IsAccepted (ok_inj made) (record {
      weights = priority_lanes-HasWeight python fields.lanes lanes e;
      has_default =
          check_lanes-names fields.max_priority_value_length [] [] lanes names default_lane k
            (ground arith) refl;
      own_lane = λ lane p a q.
          (check_lanes-own_lane fields.max_priority_value_length [] [] lanes names k lane p a q).1;
    })
