-- ===== src/SizePolicy.antt =====
-- core/size_policy.py: the gate that bounds bodies, headers, labels and metadata, with the class
-- of its limits in core/config.py. The size of a rendered JSON value, which may be one that JSON has
-- no number for, is a parameter.
pub mod Laws
use nats_sinks.Common.{
  ℕ, ◌+◌, max, Bool, List, [], ◌∷◌, ◌++◌, Option, none, some, String, length, ltb, map, utf8_size,
  if◌then◌else◌,
}
use nats_sinks.Errors.{Result, ok, ◌>>=◌}
use nats_sinks.Metadata.{Headers}
use nats_sinks.Envelope.{Fields, NatsEnvelope}
use nats_sinks.Gate.{Evaluation, accept_all, evaluate_from}

pub record SizePolicyConfig : Type 0 where
  pub enabled : Bool
  pub max_payload_bytes : ℕ
  pub max_header_count : ℕ
  pub max_header_name_bytes : ℕ
  pub max_header_value_bytes : ℕ
  pub max_headers_bytes : ℕ
  pub max_label_count : ℕ
  pub max_label_bytes : ℕ
  pub max_labels_bytes : ℕ
  pub max_mission_metadata_bytes : ℕ
  pub max_standard_metadata_bytes : ℕ
  pub max_normalized_record_bytes : ℕ
  pub max_batch_messages : ℕ

pub data Reason : Type 0 where
  batch_message_count_too_large payload_too_large header_count_too_large : Reason
  header_name_too_large header_value_too_large headers_too_large : Reason
  label_count_too_large label_too_large labels_too_large : Reason
  mission_metadata_too_large standard_metadata_too_large normalized_record_too_large : Reason

pub record SizePolicyViolation : Type 0 where
  pub index : ℕ
  pub subject : String
  pub reason : Reason
  pub actual : ℕ
  pub limit : ℕ

-- The maxima and the total of `_header_sizes`.
pub record HeaderSizes : Type 0 where
  pub max_name : ℕ
  pub max_value : ℕ
  pub total : ℕ

unfoldable pub header_sizes_from : HeaderSizes → Headers → HeaderSizes
header_sizes_from sizes [] = sizes
header_sizes_from sizes ((name, value) ∷ headers) =
    header_sizes_from
      (record {
        max_name = max sizes.max_name (utf8_size name);
        max_value = max sizes.max_value (utf8_size value);
        total = sizes.total + (utf8_size name + utf8_size value);
      })
      headers

abbrev pub header_sizes : Headers → HeaderSizes
header_sizes headers = header_sizes_from (record { max_name = 0; max_value = 0; total = 0 }) headers

-- `max(sizes, default=0)` and `sum(sizes)`
unfoldable pub largest : List ℕ → ℕ
largest [] = 0
largest (n ∷ sizes) = max n (largest sizes)

unfoldable pub sum : List ℕ → ℕ
sum [] = 0
sum (n ∷ sizes) = n + sum sizes

-- `_append_if_over` in front of the later checks.
unfoldable pub append_if_over :
    ℕ → NatsEnvelope → Reason → ℕ → ℕ → List SizePolicyViolation → List SizePolicyViolation
append_if_over i envelope code size most rest =
    if ltb most size
    then record {
      index = i;
      subject = envelope.subject;
      reason = code;
      actual = size;
      limit = most;
    }
      ∷ rest
    else rest

module _ (fields_size : Fields → Result ℕ) (metadata_size : NatsEnvelope → Result ℕ) where
  -- `_json_size` of optional mission metadata.
  abbrev pub json_size : Option Fields → Result ℕ
  json_size none = ok 0
  json_size (some fields) = fields_size fields

  -- The checks, with the sizes of the mission metadata and of the standard metadata.
  unfoldable pub sized_violations :
      ℕ → NatsEnvelope → SizePolicyConfig → ℕ → ℕ → List SizePolicyViolation
  sized_violations i envelope config mission standard =
      let headers = header_sizes envelope.headers in
      let labels = map utf8_size envelope.labels in
      append_if_over i envelope payload_too_large (length envelope.payload) config.max_payload_bytes
        (append_if_over i envelope header_count_too_large (length envelope.headers)
          config.max_header_count
          (append_if_over i envelope header_name_too_large headers.max_name
            config.max_header_name_bytes
            (append_if_over i envelope header_value_too_large headers.max_value
              config.max_header_value_bytes
              (append_if_over i envelope headers_too_large headers.total config.max_headers_bytes (
                append_if_over i envelope label_count_too_large (length envelope.labels)
                  config.max_label_count
                  (append_if_over i envelope label_too_large (largest labels) config.max_label_bytes
                    (append_if_over i envelope labels_too_large (sum labels) config.max_labels_bytes
                      (append_if_over i envelope mission_metadata_too_large mission
                        config.max_mission_metadata_bytes
                        (append_if_over i envelope standard_metadata_too_large standard
                          config.max_standard_metadata_bytes
                          (append_if_over i envelope normalized_record_too_large
                            (length envelope.payload + standard) config.max_normalized_record_bytes
                            []))))))))))

  -- Only the two sizes of rendered values may raise.
  unfoldable pub violations_for_envelope :
      ℕ → NatsEnvelope → SizePolicyConfig → Result (List SizePolicyViolation)
  violations_for_envelope i envelope config = do
    mission ← json_size envelope.mission_metadata
    standard ← metadata_size envelope
    ok (sized_violations i envelope config mission standard)

  -- The body of the loop, which counts the batch as a violation of each of its envelopes.
  unfoldable pub violations_in_batch :
      SizePolicyConfig → ℕ → ℕ → NatsEnvelope → Result (List SizePolicyViolation)
  violations_in_batch config batch_size i envelope = do
    found ← violations_for_envelope i envelope config
    ok (
        append_if_over i envelope batch_message_count_too_large batch_size config.max_batch_messages
          found)

  unfoldable pub evaluate_size_policy :
      List NatsEnvelope → SizePolicyConfig → Result (Evaluation SizePolicyViolation)
  evaluate_size_policy envelopes config =
      if config.enabled
      then evaluate_from (violations_in_batch config (length envelopes)) 0 envelopes
      else ok (accept_all envelopes)
