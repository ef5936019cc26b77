-- ===== src/Fixtures.antt =====
-- Sample values of the parameters and the data: a small deployment that stores two messages.
use nats_sinks.Common.{
  zero, suc, Bool, if◌then◌else◌, ℕ, ◌+◌, true, false, List, [], ◌∷◌, Option, none, some, String,
  pos, PythonText, length, str_eq, not,
}
use nats_sinks.Errors.{Error, temporary_sink_error, Result, ok}
use nats_sinks.AckGate.{Tasks, TaskEnd, succeeded}
use nats_sinks.Fanout.Children.{ChildCalls}
use nats_sinks.Spool.{SpoolSinkConfig, skip_existing, by_priority, Wrapper, SpoolFile}
use nats_sinks.Metadata.{Headers}
use nats_sinks.Envelope.{Fields, NatsEnvelope}
use nats_sinks.Policy.{PreSinkPolicyRuleConfig, PreSinkPolicyConfig, reject}
use nats_sinks.SizePolicy.{SizePolicyConfig}
use nats_sinks.Priority.{PriorityLanesConfig, reject_message}
use nats_sinks.Routing.{
  RouteTargetConfig, RoutePolicyRouteConfig, RoutingMatchPolicyConfig, all_routes, rejects,
}
use nats_sinks.Runner.Exec.{History, RawMessage, delivered, Outside, replied}
use nats_sinks.Runner.Batch.{Setup}

abbrev pub plain_text : PythonText
plain_text = record { lower = λ s. s; casefold = λ s. s; int = λ s. some (pos 3) }

abbrev pub sample_headers : Headers
sample_headers = ("Nats-Msg-Size", "3") ∷ ("Trace", "a") ∷ []

abbrev pub envelope : String → Option String → List ℕ → NatsEnvelope
envelope subject priority payload = record {
  subject = subject;
  payload = payload;
  headers = sample_headers;
  stream = some "ORDERS";
  consumer = some "writer";
  stream_sequence = some 7;
  consumer_sequence = some 3;
  timestamp = none;
  message_id = none;
  redelivered = some false;
  pending = some 1;
  priority = priority;
  classification = none;
  labels = "fast" ∷ "blue" ∷ [];
  mission_metadata = none;
  security_labels = none;
  custody = none;
  reply = none;
  domain = none;
  payload_present = true;
  payload_omitted = false;
  payload_omitted_reason = none;
  original_payload_size_bytes = none;
  payload_size_header_malformed = false;
  received_at = 100;
}

abbrev pub three_envelopes : List NatsEnvelope
three_envelopes =
    envelope "orders.new" (some "low") (1 ∷ 2 ∷ [])
    ∷ envelope "orders.new" (some "high") (3 ∷ [])
    ∷ envelope "orders.old" none (4 ∷ 5 ∷ 6 ∷ 7 ∷ [])
    ∷ []

abbrev pub two_lanes : PriorityLanesConfig
two_lanes = record {
  enabled = true;
  default_lane = "slow";
  unknown_priority_action = reject_message;
  max_priority_value_length = 16;
  lanes =
      record { name = "quick"; priorities = "high" ∷ []; weight = 2 }
      ∷ record { name = "slow"; priorities = "low" ∷ []; weight = 1 }
      ∷ [];
}

abbrev pub labelled_rule : PreSinkPolicyRuleConfig
labelled_rule = record {
  subject = "orders.new";
  require_priority = true;
  require_classification = false;
  required_labels = "blue" ∷ [];
  require_mission_metadata = false;
  require_encrypted_payload = false;
  max_payload_bytes = some 2;
  allowed_mission_metadata_keys = none;
}

abbrev pub labelled_policy : PreSinkPolicyConfig
labelled_policy = record {
  enabled = true;
  unmatched_subject_action = reject;
  rules = labelled_rule ∷ [];
}

abbrev pub small_sizes : SizePolicyConfig
small_sizes = record {
  enabled = true;
  max_payload_bytes = 3;
  max_header_count = 4;
  max_header_name_bytes = 20;
  max_header_value_bytes = 8;
  max_headers_bytes = 64;
  max_label_count = 2;
  max_label_bytes = 4;
  max_labels_bytes = 8;
  max_mission_metadata_bytes = 0;
  max_standard_metadata_bytes = 50;
  max_normalized_record_bytes = 60;
  max_batch_messages = 10;
}

abbrev pub fields_size : Fields → Result ℕ
fields_size fields = ok 2

abbrev pub metadata_size : NatsEnvelope → Result ℕ
metadata_size e = ok (10 + length e.labels)

abbrev pub message : ℕ → RawMessage
message n = record {
  token = n;
  num_delivered = delivered (pos 1);
  has_ack_sync = true;
  has_term = true;
  has_nak = true;
  has_in_progress = true;
}

-- A sink that commits and a client whose calls return.
abbrev pub willing : Outside
willing = record {
  write_batch = λ h envelopes. none;
  publish = λ h e. replied;
  ack = λ h m. replied;
  ack_sync = λ h m. replied;
  term = λ h m. replied;
  nak_with_delay = λ h m. replied;
  nak = λ h m. replied;
  in_progress = λ h m. replied;
  wakes = λ h. 1;
  stop_requested = λ h. false;
}

abbrev pub deployment : Setup
deployment = record {
  python = plain_text;
  normalize = λ n m. ok (record (envelope "orders.new" none (m.token ∷ [])) { received_at = n });
  normalize_fallback = λ n m. ok (envelope "orders.new" none (m.token ∷ []));
  authenticate = none;
  encrypt = some λ n e. ok (record e { payload = n ∷ e.payload });
  custody = none;
  is_encrypted = λ payload. ok true;
  fields_size = fields_size;
  metadata_size = metadata_size;
  freshness = λ envelopes. [];
  size_policy = record small_sizes { enabled = false };
  pre_sink_policy = record labelled_policy { enabled = false };
  priority_lanes = record two_lanes { enabled = false };
  delivery = record {
    max_retries = 5;
    nak_on_temporary_failure = true;
    ack_confirmation = record { enabled = false; standard_ack = false };
    in_progress = record { enabled = false; max_heartbeats = 2 };
  };
  dead_letter = record {
    enabled = true;
    has_jetstream = true;
    subject = some "dlq";
    ack_term_after_publish = false;
  };
}

abbrev pub copied_to : String → Bool → RouteTargetConfig
copied_to sink required =
    if required
    then record { sink = sink; required = true; minimum_wait_ms = none; timeout_ms = none }
    else record { sink = sink; required = false; minimum_wait_ms = some 10; timeout_ms = some 50 }

abbrev pub route_for : String → String → List RouteTargetConfig → RoutePolicyRouteConfig
route_for name subject targets = record {
  name = name;
  route_match = record {
    subject = some subject;
    priority = [];
    classification = [];
    labels_all = "blue" ∷ [];
    labels_any = [];
    labels_none = "secret" ∷ [];
    headers = [];
  };
  targets = targets;
}

-- Two routes that overlap: `audit` is optional for the new orders and required for all.
abbrev pub two_routes : RoutingMatchPolicyConfig
two_routes = record {
  enabled = true;
  mode = all_routes;
  no_match = rejects;
  default_targets = [];
  routes =
      route_for "new" "orders.new" (copied_to "store" true ∷ copied_to "audit" false ∷ [])
      ∷ route_for "any" "orders.>" (copied_to "audit" true ∷ [])
      ∷ [];
}

abbrev pub end_of : Bool → ℕ → Option (ℕ × TaskEnd)
end_of true t = none
end_of false t = some (t, succeeded)

abbrev pub wait_of : Bool → ℕ → ℕ → ℕ × Option TaskEnd
wait_of true t w = (t + w, none)
wait_of false t w = (t, some succeeded)

-- The write of `audit` never ends; all others are done.
abbrev pub slow_audit : Tasks
slow_audit = record {
  is_done = λ t sink. not (str_eq sink "audit");
  awaited = λ t sink. end_of (str_eq sink "audit") t;
  wait_for = λ t sink w. wait_of (str_eq sink "audit") t w;
}

abbrev pub store_and_audit : List RouteTargetConfig
store_and_audit = copied_to "store" true ∷ copied_to "audit" false ∷ []

abbrev pub short_time : String → Option Error
short_time name = if str_eq name "b" then some temporary_sink_error else none

-- Three children, of which `b` neither starts nor stops.
abbrev pub calls : ChildCalls
calls = record {
  start = short_time;
  stop = short_time;
  healthcheck = λ name. none;
  ensure_schema = λ name. none;
  flush = λ name. none;
}

abbrev pub small_spool : SpoolSinkConfig
small_spool = record {
  max_records = 3;
  max_bytes = 100;
  duplicate_policy = skip_existing;
  drain_ordering = by_priority;
  delete_after_replay = true;
}

abbrev pub wrapper_of : NatsEnvelope → Result Wrapper
wrapper_of e = ok (record {
  size = 10;
  is_readable = true;
  priority_rank = length e.payload;
  spooled_at_epoch_ns = e.received_at;
  loaded = ok e;
})

abbrev pub spool_file : String → NatsEnvelope → SpoolFile
spool_file name e = record {
  name = name;
  wrapper = record {
    size = 10;
    is_readable = true;
    priority_rank = length e.payload;
    spooled_at_epoch_ns = e.received_at;
    loaded = ok e;
  };
}

abbrev pub two_files : List SpoolFile
two_files =
    spool_file "x" (envelope "orders.new" none (1 ∷ 2 ∷ []))
    ∷ spool_file "y" (envelope "orders.old" none (3 ∷ []))
    ∷ []

-- The newest events of a history, and those behind them.
abbrev pub first_events : ℕ → History → History
first_events zero h = []
first_events (suc n) [] = []
first_events (suc n) (e ∷ h) = e ∷ first_events n h

abbrev pub older_events : ℕ → History → History
older_events zero h = h
older_events (suc n) [] = []
older_events (suc n) (e ∷ h) = older_events n h
