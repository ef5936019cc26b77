-- ===== src/Config/Targets/Ready.antt =====
-- Proofs about core/config.py: the targets of a routing policy that the validators accept.
use nats_sinks.Common.{
  ℕ, ◌≤◌, ◌≡◌, refl, sym, subst, ◌∙◌, Bool, true, false, not, ◌&&◌, ◌||◌, ltb, List, [], ◌∷◌,
  Option, none, some, String, pos, negsuc, is_some, All, arith, contains_text, if◌then◌else◌,
}
use nats_sinks.Errors.{ok, err, unexpected, bind-ok, raise_if-ok, ok_inj}
use nats_sinks.Routing.{RouteTargetConfig, RoutePolicyRouteConfig}
use nats_sinks.Config.Targets.{
  max_wait_ms, max_timeout_ms, normalize_routing_name, WaitValue, no_wait, milliseconds, other_wait,
  validate_fanout_wait_ms, TargetFields, TargetItem, by_name, by_fields, other_item, TargetsValue,
  one_target, many_targets, other_targets, below, has_bad_shape, route_target, target_of_item,
  collect_targets, normalize_route_target_configs, SinkType, default_waits, sink_type_of,
  or_default, resolve_optional, resolve_target, resolve_targets, resolve_routes, RouteFields,
  default_targets_of, collect_routes, coherence, file, http, mysql, oracle, oracle_nosql, s3, spool,
}

-- An optional number of `n` at most.
abbrev AtMost : ℕ → Option ℕ → Type 0
AtMost n none = Unit
AtMost n (some m) = m ≤ n

-- A target as its own validators leave it.
pub record IsShaped (target : RouteTargetConfig) : Type 0 where
  pub bounded : AtMost max_timeout_ms target.timeout_ms
  pub shape : has_bad_shape target ≡ false

-- A target that the gate can work with: a required one has no waits, and an optional one has both,
-- the wait no longer than the timeout and the timeout of five minutes at most.
pub record IsReady (target : RouteTargetConfig) : Type 0 where
  pub no_waits :
      target.required ≡ true → (target.minimum_wait_ms ≡ none) × (target.timeout_ms ≡ none)
  pub waits :
      target.required ≡ false
      → (wait timeout : ℕ) × (target.minimum_wait_ms ≡ some wait)
        × (target.timeout_ms ≡ some timeout)
        × (wait ≤ timeout)
        × (timeout ≤ 300_000)

validate_fanout_wait_ms-AtMost :
    (n : ℕ) (value : WaitValue) (out : Option ℕ)
    → validate_fanout_wait_ms n value ≡ ok out
    → AtMost n out
unfolding validate_fanout_wait_ms
validate_fanout_wait_ms-AtMost n no_wait out h = subst (AtMost n) (ok_inj h) tt
validate_fanout_wait_ms-AtMost n (milliseconds (pos m)) out h = go (ltb n m) refl h
  where
    go :
        (b : Bool)
        → ltb n m ≡ b
        → (if b then err unexpected else ok (some m)) ≡ ok out
        → AtMost n out
    go true e h = cc
    go false e h = subst (AtMost n) (ok_inj h) (ground arith)
validate_fanout_wait_ms-AtMost n (milliseconds (negsuc m)) out h = cc
validate_fanout_wait_ms-AtMost n other_wait out h = cc

route_target-IsShaped :
    (fields : TargetFields) (t : RouteTargetConfig) → route_target fields ≡ ok t → IsShaped t
unfolding route_target
route_target-IsShaped fields t h =
    let (sink, _, h1) = bind-ok (normalize_routing_name fields.sink) _ t h in
    let (wait, _, h2) =
      bind-ok (validate_fanout_wait_ms max_wait_ms fields.minimum_wait_ms) _ t h1 in
    let (timeout, e, h3) =
      bind-ok (validate_fanout_wait_ms max_timeout_ms fields.timeout_ms) _ t h2 in
    let (good, made) = raise_if-ok _ unexpected _ t h3 in
    subst IsShaped (ok_inj made) (record {
      bounded = validate_fanout_wait_ms-AtMost max_timeout_ms fields.timeout_ms timeout e;
      shape = good;
    })

target_of_item-IsShaped :
    (item : TargetItem) (t : RouteTargetConfig) → target_of_item item ≡ ok t → IsShaped t
target_of_item-IsShaped (by_name sink) t h = route_target-IsShaped _ t h
target_of_item-IsShaped (by_fields fields) t h = route_target-IsShaped fields t h
target_of_item-IsShaped other_item t h = cc

collect_targets-IsShaped :
    (seen : List String) (items : List TargetItem) (ts : List RouteTargetConfig)
    → collect_targets seen items ≡ ok ts
    → All IsShaped ts
unfolding collect_targets
collect_targets-IsShaped seen [] ts h = subst (All IsShaped) (ok_inj h) tt
collect_targets-IsShaped seen (item ∷ items) ts h =
    let (t, e, h1) = bind-ok (target_of_item item) _ ts h in
    let (_, h2) = raise_if-ok (contains_text seen t.sink) unexpected _ ts h1 in
    let (rest, k, made) = bind-ok (collect_targets (t.sink ∷ seen) items) _ ts h2 in
    subst (All IsShaped) (ok_inj made)
      (target_of_item-IsShaped item t e, collect_targets-IsShaped (t.sink ∷ seen) items rest k)

normalize_route_target_configs-IsShaped :
    (value : TargetsValue) (ts : List RouteTargetConfig)
    → normalize_route_target_configs value ≡ ok ts
    → All IsShaped ts
unfolding normalize_route_target_configs
normalize_route_target_configs-IsShaped (one_target item) ts h =
    collect_targets-IsShaped [] (item ∷ []) ts h
normalize_route_target_configs-IsShaped (many_targets raw) ts h =
    collect_targets-IsShaped [] raw ts (raise_if-ok _ unexpected _ ts h).1
normalize_route_target_configs-IsShaped other_targets ts h = cc

true≢false : true ≡ false → ⊥
true≢false e = cc

shape-required :
    (r : Bool) (wait timeout : Option ℕ)
    → r ≡ true
    → (if r then is_some wait || is_some timeout else below timeout wait) ≡ false
    → (wait ≡ none) × (timeout ≡ none)
shape-required true none none e h = (refl, refl)
shape-required true none (some m) e h = cc
shape-required true (some w) timeout e h = cc
shape-required false wait timeout e h = absurd (true≢false (sym e))

shape-optional :
    (r : Bool) (wait timeout : Option ℕ)
    → r ≡ false
    → (if r then is_some wait || is_some timeout else below timeout wait) ≡ false
    → not (is_some wait && is_some timeout) ≡ false
    → AtMost 300_000 timeout
    → (w m : ℕ) × (wait ≡ some w) × (timeout ≡ some m) × (w ≤ m) × (m ≤ 300_000)
shape-optional true wait timeout e h k b = absurd (true≢false e)
shape-optional false none timeout e h k b = absurd (true≢false k)
shape-optional false (some w) none e h k b = absurd (true≢false k)
shape-optional false (some w) (some m) e h k b = (w, m, refl, refl, ground arith, b)

-- A required target with the right shape.
required-IsReady : (t : RouteTargetConfig) → IsShaped t → t.required ≡ true → IsReady t
required-IsReady t s r = record {
  no_waits = λ _. shape-required t.required t.minimum_wait_ms t.timeout_ms r s.shape;
  waits = λ o. absurd (true≢false (sym r ∙ o));
}

optional-IsReady :
    (t : RouteTargetConfig)
    → t.required ≡ false
    → ((w m : ℕ) × (t.minimum_wait_ms ≡ some w) × (t.timeout_ms ≡ some m) × (w ≤ m) × (m ≤ 300_000))
    → IsReady t
optional-IsReady t o waits = record {
  no_waits = λ r. absurd (true≢false (sym r ∙ o));
  waits = λ _. waits;
}

default_timeout-le : (type : SinkType) → (default_waits type).1 ≤ 300_000
default_timeout-le coherence = omega arith
default_timeout-le file = omega arith
default_timeout-le http = omega arith
default_timeout-le mysql = omega arith
default_timeout-le oracle = omega arith
default_timeout-le oracle_nosql = omega arith
default_timeout-le s3 = omega arith
default_timeout-le spool = omega arith

or_default-le : (o : Option ℕ) (d : ℕ) → AtMost 300_000 o → d ≤ 300_000 → or_default o d ≤ 300_000
or_default-le none d a h = h
or_default-le (some n) d a h = a

resolve_optional-IsReady :
    (type : Option SinkType) (t t' : RouteTargetConfig)
    → IsShaped t
    → t.required ≡ false
    → resolve_optional t type ≡ ok t'
    → IsReady t'
resolve_optional-IsReady none t t' s o h =
    let (both, made) = raise_if-ok _ unexpected _ t' h in
    subst IsReady (ok_inj made) (
      optional-IsReady t o
        (shape-optional t.required t.minimum_wait_ms t.timeout_ms o s.shape both s.bounded))
resolve_optional-IsReady (some type) t t' s o h =
    let wait = or_default t.minimum_wait_ms (default_waits type).0 in
    let timeout = or_default t.timeout_ms (default_waits type).1 in
    let (fits, made) =
      raise_if-ok (ltb timeout wait) unexpected
        (ok (record t { minimum_wait_ms = some wait; timeout_ms = some timeout })) t' h in
    subst IsReady (ok_inj made) (
      optional-IsReady _ o (
        wait,
        timeout,
        refl,
        refl,
        ground arith,
        or_default-le t.timeout_ms (default_waits type).1 s.bounded (default_timeout-le type),
      ))

resolve_target-IsReady :
    (types : List (String × SinkType)) (t t' : RouteTargetConfig)
    → IsShaped t
    → resolve_target types t ≡ ok t'
    → IsReady t'
resolve_target-IsReady types t t' s h = go t.required refl h
  where
    go :
        (b : Bool)
        → t.required ≡ b
        → (if b then ok t else resolve_optional t (sink_type_of types t.sink)) ≡ ok t'
        → IsReady t'
    go true r h = subst IsReady (ok_inj h) (required-IsReady t s r)
    go false o h = resolve_optional-IsReady (sink_type_of types t.sink) t t' s o h

pub resolve_targets-IsReady :
    (types : List (String × SinkType)) (ts ts' : List RouteTargetConfig)
    → All IsShaped ts
    → resolve_targets types ts ≡ ok ts'
    → All IsReady ts'
unfolding resolve_targets
resolve_targets-IsReady types [] ts' s h = subst (All IsReady) (ok_inj h) tt
resolve_targets-IsReady types (t ∷ ts) ts' (s, ss) h =
    let (t', e, h1) = bind-ok (resolve_target types t) _ ts' h in
    let (rest, k, made) = bind-ok (resolve_targets types ts) _ ts' h1 in
    subst (All IsReady) (ok_inj made)
      (resolve_target-IsReady types t t' s e, resolve_targets-IsReady types ts rest ss k)

abbrev pub Targets : (RouteTargetConfig → Type 0) → RoutePolicyRouteConfig → Type 0
Targets P route = All P route.targets

pub resolve_routes-IsReady :
    (types : List (String × SinkType)) (rs rs' : List RoutePolicyRouteConfig)
    → All (Targets IsShaped) rs
    → resolve_routes types rs ≡ ok rs'
    → All (Targets IsReady) rs'
unfolding resolve_routes
resolve_routes-IsReady types [] rs' s h = subst (All (Targets IsReady)) (ok_inj h) tt
resolve_routes-IsReady types (r ∷ rs) rs' (s, ss) h =
    let (ts, e, h1) = bind-ok (resolve_targets types r.targets) _ rs' h in
    let (rest, k, made) = bind-ok (resolve_routes types rs) _ rs' h1 in
    subst (All (Targets IsReady)) (ok_inj made)
      (resolve_targets-IsReady types r.targets ts s e, resolve_routes-IsReady types rs rest ss k)

pub collect_routes-IsShaped :
    (seen : List String) (fields : List RouteFields) (rs : List RoutePolicyRouteConfig)
    → collect_routes seen fields ≡ ok rs
    → All (Targets IsShaped) rs
unfolding collect_routes
collect_routes-IsShaped seen [] rs h = subst (All (Targets IsShaped)) (ok_inj h) tt
collect_routes-IsShaped seen (f ∷ fields) rs h =
    let (name, _, h1) = bind-ok (normalize_routing_name f.name) _ rs h in
    let (ts, e, h2) = bind-ok (normalize_route_target_configs f.targets) _ rs h1 in
    let (_, h3) = raise_if-ok (contains_text seen name) unexpected _ rs h2 in
    let (rest, k, made) = bind-ok (collect_routes (name ∷ seen) fields) _ rs h3 in
    subst (All (Targets IsShaped)) (ok_inj made) (
      normalize_route_target_configs-IsShaped f.targets ts e,
      collect_routes-IsShaped (name ∷ seen) fields rest k,
    )

pub default_targets_of-IsShaped :
    (value : Option TargetsValue) (ts : List RouteTargetConfig)
    → default_targets_of value ≡ ok ts
    → All IsShaped ts
default_targets_of-IsShaped none ts h = subst (All IsShaped) (ok_inj h) tt
default_targets_of-IsShaped (some value) ts h = normalize_route_target_configs-IsShaped value ts h
