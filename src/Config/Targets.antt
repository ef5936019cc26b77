-- ===== src/Config/Targets.antt =====
-- core/config.py: the targets of a routing policy, their wait settings and the defaults of these.
pub mod Ready
pub mod Selected
pub mod Gated
use Prim.Native.Char.{Char, code}
use nats_sinks.Common.{
  ℕ, ◌+◌, Bool, true, false, not, ◌&&◌, ◌||◌, List, [], ◌∷◌, map, Option, none, some, String, ℤ,
  pos, negsuc, str_eq, strip, ltb, leb, ◌==◌, length, is_empty, is_some, char_count, contains_text,
  if◌then◌else◌,
}
use nats_sinks.Errors.{Result, ok, err, raise_if, ◌>>=◌, ◌>>◌, unexpected}
use nats_sinks.Routing.{
  RouteTargetConfig, RouteMatchConfig, RoutePolicyRouteConfig, RoutingMode, NoMatch, rejects,
  uses_default_route, ignores, RoutingMatchPolicyConfig,
}
use nats_sinks.Config.{invalid}

abbrev pub max_wait_ms : ℕ
max_wait_ms = 60_000

abbrev pub max_timeout_ms : ℕ
max_timeout_ms = 300_000

abbrev pub is_letter : ℕ → Bool
is_letter c = (leb 65 c && leb c 90) || (leb 97 c && leb c 122)

-- `[A-Za-z0-9_.:-]`
abbrev pub is_name_char : ℕ → Bool
is_name_char c = is_letter c || (leb 48 c && leb c 58) || c == 95 || c == 46 || c == 45

abbrev pub all_name_chars : String → Bool
all_name_chars String.[] = true
all_name_chars (String.◌∷◌ c s) = is_name_char (code c) && all_name_chars s

-- `ROUTING_NAME_RE.fullmatch`
abbrev pub is_routing_name : String → Bool
is_routing_name String.[] = false
is_routing_name (String.◌∷◌ c s) = is_letter (code c) && all_name_chars s && leb (char_count s) 127

-- No character of an accepted name is a control character or a blank.
abbrev pub normalize_routing_name : String → Result String
normalize_routing_name value =
    raise_if (not (str_eq (strip value) value) || not (is_routing_name value)) unexpected
    >> ok value

-- A wait setting: none, an integer, or any other value (a bool among them).
pub data WaitValue : Type 0 where
  no_wait : WaitValue
  milliseconds : ℤ → WaitValue
  other_wait : WaitValue

unfoldable pub validate_fanout_wait_ms : ℕ → WaitValue → Result (Option ℕ)
validate_fanout_wait_ms maximum no_wait = ok none
validate_fanout_wait_ms maximum (milliseconds (pos n)) =
    if ltb maximum n then invalid else ok (some n)
validate_fanout_wait_ms maximum (milliseconds (negsuc n)) = invalid
validate_fanout_wait_ms maximum other_wait = invalid

-- A target as it is configured, by its fields or by its name alone.
pub record TargetFields : Type 0 where
  pub sink : String
  pub required : Bool
  pub minimum_wait_ms : WaitValue
  pub timeout_ms : WaitValue

pub data TargetItem : Type 0 where
  by_name : String → TargetItem
  by_fields : TargetFields → TargetItem
  other_item : TargetItem

pub data TargetsValue : Type 0 where
  one_target : TargetItem → TargetsValue
  many_targets : List TargetItem → TargetsValue
  other_targets : TargetsValue

abbrev pub below : Option ℕ → Option ℕ → Bool
below (some timeout) (some wait) = ltb timeout wait
below _ _ = false

-- `validate_ack_gate_shape`
abbrev pub has_bad_shape : RouteTargetConfig → Bool
has_bad_shape target =
    if target.required
    then is_some target.minimum_wait_ms || is_some target.timeout_ms
    else below target.timeout_ms target.minimum_wait_ms

unfoldable pub route_target : TargetFields → Result RouteTargetConfig
route_target fields = do
  sink ← normalize_routing_name fields.sink
  wait ← validate_fanout_wait_ms max_wait_ms fields.minimum_wait_ms
  timeout ← validate_fanout_wait_ms max_timeout_ms fields.timeout_ms
  let target : RouteTargetConfig = record {
    sink = sink;
    required = fields.required;
    minimum_wait_ms = wait;
    timeout_ms = timeout;
  } in
      raise_if (has_bad_shape target) unexpected >> ok target

abbrev pub target_of_item : TargetItem → Result RouteTargetConfig
target_of_item (by_name sink) =
    route_target
      (record { sink = sink; required = true; minimum_wait_ms = no_wait; timeout_ms = no_wait })
target_of_item (by_fields fields) = route_target fields
target_of_item other_item = invalid

-- The loop, with the sinks that were seen.
unfoldable pub collect_targets : List String → List TargetItem → Result (List RouteTargetConfig)
collect_targets seen [] = ok []
collect_targets seen (item ∷ items) = do
  target ← target_of_item item
  raise_if (contains_text seen target.sink) unexpected
  rest ← collect_targets (target.sink ∷ seen) items
  ok (target ∷ rest)

unfoldable pub normalize_route_target_configs : TargetsValue → Result (List RouteTargetConfig)
normalize_route_target_configs (one_target item) = collect_targets [] (item ∷ [])
normalize_route_target_configs (many_targets raw) =
    raise_if (is_empty raw || ltb 64 (length raw)) unexpected >> collect_targets [] raw
normalize_route_target_configs other_targets = invalid

pub data SinkType : Type 0 where
  coherence file http mysql oracle oracle_nosql s3 spool : SinkType

-- `FANOUT_OPTIONAL_ACK_DEFAULTS`: the wait and the timeout.
abbrev pub default_waits : SinkType → ℕ × ℕ
default_waits file = (100, 1_000)
default_waits spool = (100, 1_000)
default_waits _ = (1_000, 5_000)

abbrev pub sink_type_of : List (String × SinkType) → String → Option SinkType
sink_type_of [] sink = none
sink_type_of ((name, type) ∷ types) sink =
    if str_eq name sink then some type else sink_type_of types sink

abbrev pub or_default : Option ℕ → ℕ → ℕ
or_default none d = d
or_default (some n) d = n

abbrev pub resolved : RouteTargetConfig → ℕ → ℕ → Result RouteTargetConfig
resolved target wait timeout =
    raise_if (ltb timeout wait) unexpected
    >> ok (record target { minimum_wait_ms = some wait; timeout_ms = some timeout })

-- One round of `_apply_ack_gate_defaults` for an optional target.
abbrev pub resolve_optional : RouteTargetConfig → Option SinkType → Result RouteTargetConfig
resolve_optional target none =
    raise_if (not (is_some target.minimum_wait_ms && is_some target.timeout_ms)) unexpected
    >> ok target
resolve_optional target (some type) =
    resolved target (or_default target.minimum_wait_ms (default_waits type).0)
      (or_default target.timeout_ms (default_waits type).1)

abbrev pub resolve_target : List (String × SinkType) → RouteTargetConfig → Result RouteTargetConfig
resolve_target types target =
    if target.required then ok target else resolve_optional target (sink_type_of types target.sink)

unfoldable pub resolve_targets :
    List (String × SinkType) → List RouteTargetConfig → Result (List RouteTargetConfig)
resolve_targets types [] = ok []
resolve_targets types (target ∷ targets) = do
  t ← resolve_target types target
  ts ← resolve_targets types targets
  ok (t ∷ ts)

unfoldable pub resolve_routes :
    List (String × SinkType) → List RoutePolicyRouteConfig → Result (List RoutePolicyRouteConfig)
resolve_routes types [] = ok []
resolve_routes types (route ∷ routes) = do
  targets ← resolve_targets types route.targets
  rest ← resolve_routes types routes
  ok (record route { targets = targets } ∷ rest)

-- A policy and its routes as they are configured; a match stands as its own validators leave it.
pub record RouteFields : Type 0 where
  pub name : String
  pub route_match : RouteMatchConfig
  pub targets : TargetsValue

pub record RoutingFields : Type 0 where
  pub enabled : Bool
  pub mode : RoutingMode
  pub no_match : NoMatch
  pub target_sink_types : List (String × SinkType)
  pub default_targets : Option TargetsValue
  pub routes : List RouteFields

abbrev pub default_targets_of : Option TargetsValue → Result (List RouteTargetConfig)
default_targets_of none = ok []
default_targets_of (some value) = normalize_route_target_configs value

-- The routes, and `validate_routes` with the names that were seen.
unfoldable pub collect_routes :
    List String → List RouteFields → Result (List RoutePolicyRouteConfig)
collect_routes seen [] = ok []
collect_routes seen (route ∷ routes) = do
  name ← normalize_routing_name route.name
  targets ← normalize_route_target_configs route.targets
  raise_if (contains_text seen name) unexpected
  rest ← collect_routes (name ∷ seen) routes
  ok (record { name = name; route_match = route.route_match; targets = targets } ∷ rest)

abbrev pub uses_default : NoMatch → Bool
uses_default uses_default_route = true
uses_default _ = false

-- `_apply_ack_gate_defaults`
abbrev pub apply_ack_gate_defaults :
    Bool
    → List (String × SinkType)
    → List RouteTargetConfig
    → List RoutePolicyRouteConfig
    → Result (List RouteTargetConfig × List RoutePolicyRouteConfig)
apply_ack_gate_defaults skips types defaults routes = if skips then ok (defaults, routes) else (do
  defaults' ← resolve_targets types defaults
  routes' ← resolve_routes types routes
  ok (defaults', routes'))

unfoldable pub routing_policy : RoutingFields → Result RoutingMatchPolicyConfig
routing_policy fields = do
  defaults ← default_targets_of fields.default_targets
  routes ← collect_routes [] fields.routes
  raise_if (ltb 128 (length routes)) unexpected
  raise_if (fields.enabled && is_empty routes) unexpected
  raise_if (uses_default fields.no_match && is_empty defaults) unexpected
  raise_if (not (uses_default fields.no_match) && not (is_empty defaults)) unexpected
  (defaults', routes') ←
      apply_ack_gate_defaults (not fields.enabled && is_empty defaults) fields.target_sink_types
        defaults routes
  ok (record {
    enabled = fields.enabled;
    mode = fields.mode;
    no_match = fields.no_match;
    default_targets = defaults';
    routes = routes';
  })
