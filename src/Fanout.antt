-- ===== src/Fanout.antt =====
-- core/fanout_sink.py: how a batch is grouped by the child sinks that its messages select. The
-- metrics of the grouping and the writes behind the gate are not modelled.
pub mod Groups
pub mod Sink
pub mod Children
pub mod Writes
use nats_sinks.Common.{
  ℕ, max, Bool, true, false, ◌||◌, List, [], ◌∷◌, ◌++◌, Option, none, some, or_else, PythonText,
  str_eq, if◌then◌else◌,
}
use nats_sinks.Errors.{
  Error, configuration_error, permanent_sink_error, unexpected, Result, ok, err, ◌>>=◌, ◌>>◌,
}
use nats_sinks.Envelope.{NatsEnvelope}
use nats_sinks.Routing.{
  RouteTargetConfig, RouteAction, disabled, rejected, RouteSelection, RoutingMatchPolicyConfig,
  select_route_targets,
}

pub record SelectedTarget : Type 0 where
  pub policy : RouteTargetConfig
  pub messages : List NatsEnvelope

-- The policy that `_merge_target_policy` makes of two for one sink.
unfoldable pub merged_policy : RouteTargetConfig → RouteTargetConfig → RouteTargetConfig
merged_policy left right =
    if left.required || right.required
    then record { sink = left.sink; required = true; minimum_wait_ms = none; timeout_ms = none }
    else record {
      sink = left.sink;
      required = false;
      minimum_wait_ms =
          some (max (or_else left.minimum_wait_ms 0) (or_else right.minimum_wait_ms 0));
      timeout_ms = some (max (or_else left.timeout_ms 0) (or_else right.timeout_ms 0));
    }

-- The policies have passed the validators of `RouteTargetConfig`, which the code runs once more on the
-- merged one; that second run is left out.
unfoldable pub merge_target_policy :
    RouteTargetConfig → RouteTargetConfig → Result RouteTargetConfig
merge_target_policy left right =
    if str_eq left.sink right.sink then ok (merged_policy left right) else err unexpected

-- A sink that has a group: the policies are merged and the message is appended.
unfoldable pub join_group :
    SelectedTarget
    → List SelectedTarget
    → RouteTargetConfig
    → NatsEnvelope
    → Result (List SelectedTarget)
join_group group groups target message = do
  policy ← merge_target_policy group.policy target
  ok (record { policy = policy; messages = group.messages ++ message ∷ [] } ∷ groups)

abbrev pub keep_group : SelectedTarget → Result (List SelectedTarget) → Result (List SelectedTarget)
keep_group group later = do rest ← later; ok (group ∷ rest)

-- The three mappings of the source are one list, in the order of `ordered_targets`.
unfoldable pub add_target :
    List SelectedTarget → RouteTargetConfig → NatsEnvelope → Result (List SelectedTarget)
add_target [] target message = ok (record { policy = target; messages = message ∷ [] } ∷ [])
add_target (group ∷ groups) target message =
    let later = add_target groups target message in
    if str_eq group.policy.sink target.sink
    then join_group group groups target message
    else keep_group group later

unfoldable pub add_targets :
    List SelectedTarget → List RouteTargetConfig → NatsEnvelope → Result (List SelectedTarget)
add_targets groups [] message = ok groups
add_targets groups (target ∷ targets) message = do
  next ← add_target groups target message
  add_targets next targets message

unfoldable pub handle_no_route : RouteAction → Result (Unit {0})
handle_no_route rejected = err permanent_sink_error
handle_no_route disabled = err configuration_error
handle_no_route _ = ok tt

module _ (python : PythonText) (routing : RoutingMatchPolicyConfig) where
  unfoldable pub select_targets_from :
      List SelectedTarget → List NatsEnvelope → Result (List SelectedTarget)
  select_targets_from groups [] = ok groups
  select_targets_from groups (message ∷ messages) = do
    handle_no_route (select_route_targets python message routing).action
    next ← add_targets groups (select_route_targets python message routing).target_policies message
    select_targets_from next messages

  unfoldable pub select_targets : List NatsEnvelope → Result (List SelectedTarget)
  select_targets messages = select_targets_from [] messages
