-- ===== src/Routing.antt =====
-- core/routing_policy.py: which targets an envelope selects, with the classes of core/config.py.
pub mod Targets
use nats_sinks.Common.{
  ℕ, Bool, true, false, not, ◌&&◌, ◌||◌, List, [], ◌∷◌, ◌++◌, Option, none, some, String,
  PythonText, str_eq, any, all, is_empty, if◌then◌else◌,
}
use nats_sinks.Subjects.{text, matches_subject}
use nats_sinks.Metadata.{Headers, case_insensitive_header}
use nats_sinks.Envelope.{NatsEnvelope}

pub record RouteTargetConfig : Type 0 where
  pub sink : String
  pub required : Bool
  pub minimum_wait_ms : Option ℕ
  pub timeout_ms : Option ℕ

pub record RouteHeaderMatchConfig : Type 0 where
  pub name : String
  pub values : List String

pub record RouteMatchConfig : Type 0 where
  pub subject : Option String
  pub priority : List String
  pub classification : List String
  pub labels_all : List String
  pub labels_any : List String
  pub labels_none : List String
  pub headers : List RouteHeaderMatchConfig

pub record RoutePolicyRouteConfig : Type 0 where
  pub name : String
  pub route_match : RouteMatchConfig
  pub targets : List RouteTargetConfig

pub data RoutingMode : Type 0 where
  first_route all_routes : RoutingMode

pub data NoMatch : Type 0 where
  rejects uses_default_route ignores : NoMatch

pub record RoutingMatchPolicyConfig : Type 0 where
  pub enabled : Bool
  pub mode : RoutingMode
  pub no_match : NoMatch
  pub default_targets : List RouteTargetConfig
  pub routes : List RoutePolicyRouteConfig

-- `NoMatchAction`
pub data RouteAction : Type 0 where
  disabled matched rejected default_route ignored : RouteAction

-- `targets` of the source are the sinks of `target_policies`.
pub record RouteSelection : Type 0 where
  pub matched_routes : List String
  pub action : RouteAction
  pub target_policies : List RouteTargetConfig

abbrev pub is_member : List String → String → Bool
is_member values value = any (str_eq value) values

unfoldable pub metadata_value_matches : List String → Option String → Bool
metadata_value_matches [] actual = true
metadata_value_matches (v ∷ configured) none = false
metadata_value_matches (v ∷ configured) (some actual) = is_member (v ∷ configured) actual

abbrev pub labels_match : RouteMatchConfig → List String → Bool
labels_match m labels =
    all (is_member labels) m.labels_all
    && (is_empty m.labels_any || any (is_member labels) m.labels_any)
    && not (any (is_member labels) m.labels_none)

pub header_matches : Option String → List String → Bool
header_matches none values = false
header_matches (some actual) values = is_member values actual

unfoldable pub subject_matches : Option String → String → Bool
subject_matches none subject = true
subject_matches (some pattern) subject = matches_subject (text pattern) (text subject)

-- The names of `existing_names` are the sinks of the policies.
unfoldable pub has_target : List RouteTargetConfig → String → Bool
has_target [] sink = false
has_target (t ∷ targets) sink = str_eq t.sink sink || has_target targets sink

unfoldable pub append_targets :
    List RouteTargetConfig → List RouteTargetConfig → List RouteTargetConfig
append_targets existing [] = existing
append_targets existing (t ∷ targets) =
    append_targets (if has_target existing t.sink then existing else existing ++ t ∷ []) targets

module _ (python : PythonText) where
  unfoldable pub headers_match : List RouteHeaderMatchConfig → Headers → Bool
  headers_match [] headers = true
  headers_match (h ∷ matches) headers =
      header_matches (case_insensitive_header python headers h.name) h.values
      && headers_match matches headers

  unfoldable pub route_matches_envelope : RoutePolicyRouteConfig → NatsEnvelope → Bool
  route_matches_envelope route envelope =
      subject_matches route.route_match.subject envelope.subject
      && metadata_value_matches route.route_match.priority envelope.priority
      && metadata_value_matches route.route_match.classification envelope.classification
      && labels_match route.route_match envelope.labels
      && headers_match route.route_match.headers envelope.headers

  -- The loop over the routes, which ends at the first match in the mode `first`.
  unfoldable pub select_from :
      RoutingMode
      → NatsEnvelope
      → List RoutePolicyRouteConfig
      → List String
      → List RouteTargetConfig
      → List String × List RouteTargetConfig
  select_from mode envelope [] names targets = (names, targets)
  select_from all_routes envelope (route ∷ routes) names targets =
      if route_matches_envelope route envelope
      then select_from all_routes envelope routes (names ++ route.name ∷ [])
          (append_targets targets route.targets)
      else select_from all_routes envelope routes names targets
  select_from first_route envelope (route ∷ routes) names targets =
      if route_matches_envelope route envelope
      then (names ++ route.name ∷ [], append_targets targets route.targets)
      else select_from first_route envelope routes names targets

  unfoldable pub without_match : NoMatch → List RouteTargetConfig → RouteSelection
  without_match rejects targets = record {
    matched_routes = [];
    action = rejected;
    target_policies = [];
  }
  without_match uses_default_route targets = record {
    matched_routes = [];
    action = default_route;
    target_policies = targets;
  }
  without_match ignores targets = record {
    matched_routes = [];
    action = ignored;
    target_policies = [];
  }

  abbrev pub selection_of :
      RoutingMatchPolicyConfig → List String × List RouteTargetConfig → RouteSelection
  selection_of policy ([], targets) = without_match policy.no_match policy.default_targets
  selection_of policy (n ∷ names, targets) = record {
    matched_routes = n ∷ names;
    action = matched;
    target_policies = targets;
  }

  unfoldable pub select_route_targets : NatsEnvelope → RoutingMatchPolicyConfig → RouteSelection
  select_route_targets envelope policy =
      if policy.enabled
      then selection_of policy (select_from policy.mode envelope policy.routes [] [])
      else record { matched_routes = []; action = disabled; target_policies = [] }
