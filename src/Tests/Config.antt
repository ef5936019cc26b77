-- ===== src/Tests/Config.antt =====
-- The theorems about the configuration and the mapped messages, applied to sample values.
use nats_sinks.Common.{
  Option, String, ◌+◌, ◌*◌, refl, max, true, false, List, [], ◌∷◌, none, some, pos, All, strip,
}
use nats_sinks.Errors.{Result, ok}
use nats_sinks.Metadata.{Headers, shows, normalise_metadata_value}
use nats_sinks.Envelope.{Fields, NatsEnvelope}
use nats_sinks.Priority.{PriorityLanesConfig, contains_control_character, reject_message}
use nats_sinks.Subjects.{matches_subject, match_tokens}
use nats_sinks.Routing.{
  RoutingMatchPolicyConfig, all_routes, rejects, select_route_targets, select_from, append_targets,
  has_target, route_matches_envelope, headers_match, subject_matches, metadata_value_matches,
}
use nats_sinks.AckGate.{FanoutTargetResult, committed, await_required, wait_for_fanout_ack_gate}
use nats_sinks.AckGate.Optional.{EndsBy, cancellations}
use nats_sinks.Fanout.{
  SelectedTarget, select_targets, select_targets_from, handle_no_route, add_targets, add_target,
}
use nats_sinks.Fanout.Sink.{sinks_of, policies_of}
use nats_sinks.Config.Targets.{
  by_name, by_fields, milliseconds, no_wait, many_targets, spool, RoutingFields, routing_policy,
  collect_routes, normalize_route_target_configs, collect_targets, route_target,
  validate_fanout_wait_ms, resolve_targets, resolve_routes,
}
use nats_sinks.Config.Targets.Ready.{IsReady, Targets}
use nats_sinks.Config.Targets.Selected.{routing_policy-IsReady}
use nats_sinks.Config.Targets.Gated.{routing_policy-EndsBy}
use nats_sinks.Config.Lanes.{
  LanesFields, one_priority, many_priorities, priority_lanes_config, validate_lane_name,
  add_priorities, normalize_priorities, priority_lane, priority_lanes, assign_priorities,
  check_lanes, validate_lane_policy,
}
use nats_sinks.Config.Lanes.Accepted.{IsAccepted, priority_lanes_config-IsAccepted}
use nats_sinks.Consumer.{
  unset, text, integer, raw, Rendering, ClientMessage, header_items, MessageMetadataConfig,
}
use nats_sinks.Fixtures.{plain_text, envelope, copied_to, slow_audit}
use nats_sinks.Tests.Fanout.{slow_audit-IsPrompt}

abbrev two_lane_fields : LanesFields
two_lane_fields = record {
  enabled = true;
  default_lane = " slow ";
  unknown_priority_action = reject_message;
  max_priority_value_length = 16;
  lanes =
      record { name = "quick"; priorities = one_priority (shows " high "); weight = pos 2 }
      ∷ record { name = "slow"; priorities = many_priorities (shows "low" ∷ []); weight = pos 1 }
      ∷ [];
}

abbrev accepted_lanes : PriorityLanesConfig
accepted_lanes = record {
  enabled = true;
  default_lane = "slow";
  unknown_priority_action = reject_message;
  max_priority_value_length = 16;
  lanes =
      record { name = "quick"; priorities = "high" ∷ []; weight = 2 }
      ∷ record { name = "slow"; priorities = "low" ∷ []; weight = 1 }
      ∷ [];
}

priority_lanes_config-IsAccepted_example : IsAccepted accepted_lanes
unfolding priority_lanes_config validate_lane_name add_priorities normalize_priorities priority_lane
    priority_lanes assign_priorities check_lanes validate_lane_policy normalise_metadata_value strip
    contains_control_character
priority_lanes_config-IsAccepted_example =
    priority_lanes_config-IsAccepted plain_text two_lane_fields accepted_lanes refl

-- One route, to a required store and to an optional audit whose waits are the defaults of a spool.
abbrev audited_route : RoutingFields
audited_route = record {
  enabled = true;
  mode = all_routes;
  no_match = rejects;
  target_sink_types = ("audit", spool) ∷ [];
  default_targets = none;
  routes =
      record {
        name = "new";
        route_match = record {
          subject = some "orders.>";
          priority = [];
          classification = [];
          labels_all = [];
          labels_any = [];
          labels_none = [];
          headers = [];
        };
        targets = many_targets (
            by_name "store"
            ∷ by_fields (record {
              sink = "audit";
              required = false;
              minimum_wait_ms = no_wait;
              timeout_ms = milliseconds (pos 500);
            })
            ∷ []);
      }
      ∷ [];
}

abbrev audited_policy : RoutingMatchPolicyConfig
audited_policy = record {
  enabled = true;
  mode = all_routes;
  no_match = rejects;
  default_targets = [];
  routes =
      record {
        name = "new";
        route_match = record {
          subject = some "orders.>";
          priority = [];
          classification = [];
          labels_all = [];
          labels_any = [];
          labels_none = [];
          headers = [];
        };
        targets =
            copied_to "store" true
            ∷ record {
              sink = "audit";
              required = false;
              minimum_wait_ms = some 100;
              timeout_ms = some 500;
            }
            ∷ [];
      }
      ∷ [];
}

abbrev new_orders : List NatsEnvelope
new_orders = envelope "orders.new" none (1 ∷ []) ∷ []

abbrev two_groups : List SelectedTarget
two_groups =
    record { policy = copied_to "store" true; messages = new_orders }
    ∷ record {
      policy = record {
        sink = "audit";
        required = false;
        minimum_wait_ms = some 100;
        timeout_ms = some 500;
      };
      messages = new_orders;
    }
    ∷ []

routing_policy-IsReady_example :
    All IsReady audited_policy.default_targets × All (Targets IsReady) audited_policy.routes
unfolding routing_policy collect_routes normalize_route_target_configs collect_targets route_target
    validate_fanout_wait_ms resolve_targets resolve_routes strip
routing_policy-IsReady_example = routing_policy-IsReady audited_route audited_policy refl refl

abbrev store_committed : List FanoutTargetResult
store_committed =
    record { sink = "store"; required = true; status = committed; error_type = none } ∷ []

routing_policy-EndsBy_example :
    EndsBy
      (max 0 (0 + 300_000 * 1000 + 999) + cancellations 5 (policies_of two_groups))
      (wait_for_fanout_ack_gate slow_audit (sinks_of two_groups) (policies_of two_groups) 0)
unfolding routing_policy collect_routes normalize_route_target_configs collect_targets route_target
    validate_fanout_wait_ms resolve_targets resolve_routes strip select_route_targets select_from
    append_targets has_target route_matches_envelope headers_match subject_matches
    metadata_value_matches matches_subject match_tokens select_targets select_targets_from
    handle_no_route add_targets add_target await_required
routing_policy-EndsBy_example =
    routing_policy-EndsBy plain_text audited_route audited_policy new_orders two_groups 5 slow_audit
      0 0 store_committed refl refl refl slow_audit-IsPrompt refl

abbrev rendering : Rendering
rendering = record {
  python = plain_text;
  shown = λ value. some "?";
  int_of_bytes = λ bytes. none;
  bytes_of = λ value. none;
}

abbrev defaults : MessageMetadataConfig
defaults = record {
  priority_header = "Priority";
  priority_default = some "normal";
  classification_header = "Classification";
  classification_default = none;
  labels_header = "Labels";
  labels_default = "blue" ∷ [];
  rules =
      record {
        subject = "orders.>";
        priority = some (some " high ");
        classification = none;
        labels = none;
      }
      ∷ [];
}

-- A message without a reply, whose sequence is told by `metadata.stream_sequence` alone.
abbrev client_message : ClientMessage
client_message = record {
  subject = text "orders.new";
  data_bytes = raw (1 ∷ 2 ∷ []);
  headers = header_items ((text "Trace", text "a") ∷ (text "Empty", unset) ∷ []);
  reply = unset;
  sequence_stream = unset;
  sequence_consumer = unset;
  stream_sequence = integer (pos 7);
  consumer_sequence = unset;
  num_delivered = integer (pos 2);
  num_pending = unset;
  timestamp = unset;
  stream = text "ORDERS";
  consumer = text "";
  domain = unset;
}

abbrev no_mission : Headers → String → Result (Option Fields)
no_mission headers subject = ok none

abbrev no_security :
    Headers → String → Option String → Option String → List String → Result (Option Fields)
no_security headers subject priority classification labels = ok none
