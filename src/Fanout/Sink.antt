-- ===== src/Fanout/Sink.antt =====
-- core/fanout_sink.py: the sink that writes a batch to child sinks behind the gate, and the life
-- cycle of its children. The children's calls, and the tasks that run their writes, are parameters.
use nats_sinks.Common.{
  ℕ, Bool, true, false, not, List, [], ◌∷◌, ◌++◌, map, String, PythonText, all, is_empty,
  contains_text, if◌then◌else◌,
}
use nats_sinks.Errors.{
  Error, configuration_error, temporary_sink_error, unexpected, Result, ok, err, raise_if, ◌>>◌,
}
use nats_sinks.Envelope.{NatsEnvelope}
use nats_sinks.Routing.{RouteTargetConfig, RoutePolicyRouteConfig, RoutingMatchPolicyConfig}
use nats_sinks.AckGate.{
  raised, cancelled, Tasks, FanoutAckGateResult, GateError, required_sink_error, task_error,
  Waiting, returns, raises, waits, wait_for_fanout_ack_gate,
}
use nats_sinks.Fanout.{SelectedTarget, select_targets}

-- The children by their names.
pub record FanoutSink : Type 0 where
  pub children : List String
  pub routing : RoutingMatchPolicyConfig

-- `_all_route_targets`
unfoldable pub targets_of_routes : List RoutePolicyRouteConfig → List RouteTargetConfig
targets_of_routes [] = []
targets_of_routes (route ∷ routes) = route.targets ++ targets_of_routes routes

unfoldable pub all_route_targets : RoutingMatchPolicyConfig → List RouteTargetConfig
all_route_targets routing = routing.default_targets ++ targets_of_routes routing.routes

-- The names that are not seen yet, in order.
unfoldable pub new_names : List String → List RouteTargetConfig → List String
new_names seen [] = []
new_names seen (target ∷ targets) =
    if contains_text seen target.sink
    then new_names seen targets
    else target.sink ∷ new_names (target.sink ∷ seen) targets

unfoldable pub target_names : RoutingMatchPolicyConfig → List String
target_names routing = new_names [] (all_route_targets routing)

-- `FanoutSink(children=..., routing=...)`
unfoldable pub fanout_sink : List String → RoutingMatchPolicyConfig → Result FanoutSink
fanout_sink children routing =
    raise_if (is_empty children) configuration_error
    >> (raise_if (not routing.enabled) configuration_error
        >> (raise_if (is_empty (target_names routing)) configuration_error
            >> (raise_if (not (all (contains_text children) (target_names routing)))
                  configuration_error
                >> ok (record { children = children; routing = routing }))))

-- A write returns, raises, is cancelled, or never ends.
pub data FanoutOutcome : Type 0 where
  wrote : FanoutOutcome
  failed_with : Error → FanoutOutcome
  write_cancelled never_ends : FanoutOutcome

unfoldable pub gate_error : GateError → FanoutOutcome
gate_error (required_sink_error sink end) = failed_with temporary_sink_error
gate_error (task_error (raised e)) = failed_with e
gate_error (task_error cancelled) = write_cancelled
gate_error _ = failed_with unexpected

abbrev pub after_gate : Waiting FanoutAckGateResult → FanoutOutcome
after_gate (returns t result) = wrote
after_gate (raises t e) = gate_error e
after_gate waits = never_ends

-- A name that is no child is a KeyError.
abbrev pub with_children : Bool → FanoutOutcome → FanoutOutcome
with_children true outcome = outcome
with_children false outcome = failed_with unexpected

-- One operation for each group: the write of its messages to its sink.
abbrev pub operations_of : List SelectedTarget → List (String × List NatsEnvelope)
operations_of groups = map (λ g. (g.policy.sink, g.messages)) groups

abbrev pub sinks_of : List SelectedTarget → List String
sinks_of groups = map (λ (g : SelectedTarget). g.policy.sink) groups

abbrev pub policies_of : List SelectedTarget → List RouteTargetConfig
policies_of groups = map (λ (g : SelectedTarget). g.policy) groups

module _ (python : PythonText) (run : List (String × List NatsEnvelope) → Tasks) (started : ℕ) where
  abbrev pub write_groups : FanoutSink → Result (List SelectedTarget) → FanoutOutcome
  write_groups sink (err e) = failed_with e
  write_groups sink (ok []) = wrote
  write_groups sink (ok (g ∷ groups)) =
      with_children (all (contains_text sink.children) (sinks_of (g ∷ groups))) (
        after_gate (
          wait_for_fanout_ack_gate (run (operations_of (g ∷ groups))) (sinks_of (g ∷ groups))
            (policies_of (g ∷ groups)) started))

  unfoldable pub write_batch : FanoutSink → List NatsEnvelope → FanoutOutcome
  write_batch sink [] = wrote
  write_batch sink (m ∷ messages) =
      write_groups sink (select_targets python sink.routing (m ∷ messages))
