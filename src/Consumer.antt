-- ===== src/Consumer.antt =====
-- core/consumer.py: the envelope that a client's message is mapped to, with the defaults for metadata
-- of core/config.py. A message is whatever reading its attributes gives.
pub mod Laws
use nats_sinks.Common.{
  ℕ, ◌≡◌, Bool, true, false, not, ◌&&◌, ◌||◌, List, [], ◌∷◌, Option, none, some, String, ℤ, pos,
  negsuc, PythonText, ltb, is_blank, is_empty, ◌==◌, length, if◌then◌else◌,
}
use nats_sinks.Errors.{Error, Result, ok, err, ◌>>=◌}
use nats_sinks.Subjects.{matches_subject}
use nats_sinks.Subjects as Subjects
use nats_sinks.Metadata.{
  Headers, LabelsValue, items, shows_all, resolve_metadata_field, resolve_metadata_labels,
}
use nats_sinks.Envelope.{Fields, NatsEnvelope, put_header, post_init}

-- What reading an attribute gives: nothing, since there is none or reading it raises; None; or a
-- value. Of any other object only its truth is known here, and whether asking for it raises.
pub data Attribute : Type 0 where
  unset nothing : Attribute
  flag : Bool → Attribute
  integer : ℤ → Attribute
  text : String → Attribute
  raw : List ℕ → Attribute
  moment : ℕ → Attribute
  object : ℕ → Result Bool → Attribute

-- What the interpreter makes of values: `str`, where it does not raise, `int` of bytes, and `bytes`.
pub record Rendering : Type 0 where
  pub python : PythonText
  pub shown : Attribute → Option String
  pub int_of_bytes : List ℕ → Option ℤ
  pub bytes_of : Attribute → Option (List ℕ)

-- The items that iterating over the headers gives, or what `items()` of a mapping raises.
pub data HeadersValue : Type 0 where
  no_headers : HeadersValue
  header_items : List (Attribute × Attribute) → HeadersValue
  items_raise : Error → HeadersValue

pub record ClientMessage : Type 0 where
  pub subject : Attribute
  pub data_bytes : Attribute
  pub headers : HeadersValue
  pub reply : Attribute
  pub sequence_stream : Attribute
  pub sequence_consumer : Attribute
  pub stream_sequence : Attribute
  pub consumer_sequence : Attribute
  pub num_delivered : Attribute
  pub num_pending : Attribute
  pub timestamp : Attribute
  pub stream : Attribute
  pub consumer : Attribute
  pub domain : Attribute

-- `MessageMetadataRuleConfig`: `none` for a default that the rule does not set.
pub record MessageMetadataRuleConfig : Type 0 where
  pub subject : String
  pub priority : Option (Option String)
  pub classification : Option (Option String)
  pub labels : Option (List String)

pub record MessageMetadataConfig : Type 0 where
  pub priority_header : String
  pub priority_default : Option String
  pub classification_header : String
  pub classification_default : Option String
  pub labels_header : String
  pub labels_default : List String
  pub rules : List MessageMetadataRuleConfig

-- The first rule that sets the default and covers the subject.
unfoldable pub default_for_subject {ℓ} :
    {A : Type ℓ}
    → (MessageMetadataRuleConfig → Option A)
    → A
    → List MessageMetadataRuleConfig
    → String
    → A
default_for_subject set default [] subject = default
default_for_subject set default (rule ∷ rules) subject =
    let rest = default_for_subject set default rules subject in
    elim (set rule) [
      | none ↦ rest
      | some value ↦
          if matches_subject (Subjects.text rule.subject) (Subjects.text subject)
          then value
          else rest
    ]

abbrev pub priority_default_for_subject : MessageMetadataConfig → String → Option String
priority_default_for_subject config =
    default_for_subject (λ rule. rule.priority) config.priority_default config.rules

abbrev pub classification_default_for_subject : MessageMetadataConfig → String → Option String
classification_default_for_subject config =
    default_for_subject (λ rule. rule.classification) config.classification_default config.rules

abbrev pub labels_default_for_subject : MessageMetadataConfig → String → List String
labels_default_for_subject config =
    default_for_subject (λ rule. rule.labels) config.labels_default config.rules

-- `bool(value)`
abbrev pub is_truthy : Attribute → Result Bool
is_truthy unset = ok false
is_truthy nothing = ok false
is_truthy (flag b) = ok b
is_truthy (integer (pos n)) = ok (not (n == 0))
is_truthy (integer (negsuc n)) = ok true
is_truthy (text s) = ok (not (is_blank s))
is_truthy (raw bytes) = ok (not (is_empty bytes))
is_truthy (moment t) = ok true
is_truthy (object id truth) = truth

-- `nested or direct`
abbrev pub or_attribute : Attribute → Attribute → Result Attribute
or_attribute nested direct = do truth ← is_truthy nested; ok (if truth then nested else direct)

abbrev not_negative : Option ℤ → Option ℕ
not_negative none = none
not_negative (some (pos n)) = some n
not_negative (some (negsuc n)) = none

abbrev pub moment_or_none : Attribute → Option ℕ
moment_or_none (moment t) = some t
moment_or_none _ = none

-- `None if delivered is None or delivered <= 0 else delivered > 1`
abbrev pub redelivered_of : Option ℕ → Option Bool
redelivered_of none = none
redelivered_of (some n) = if n == 0 then none else some (ltb 1 n)

module _ (rendering : Rendering) where
  unfoldable pub as_int : Attribute → Option ℕ
  as_int (integer z) = not_negative (some z)
  as_int (text s) = not_negative (rendering.python.int s)
  as_int (raw bytes) = not_negative (rendering.int_of_bytes bytes)
  as_int _ = none

  abbrev or_empty : Option String → String
  or_empty none = ""
  or_empty (some s) = s

  -- `_safe_text`, where an attribute that is not set counts as its default "".
  unfoldable pub safe_text : Attribute → String
  safe_text unset = ""
  safe_text (text s) = s
  safe_text value = or_empty (rendering.shown value)

  abbrev none_if_empty : String → Option String
  none_if_empty s = if is_blank s then none else some s

  unfoldable pub safe_optional_text : Attribute → Option String
  safe_optional_text unset = none
  safe_optional_text nothing = none
  safe_optional_text value = none_if_empty (safe_text value)

  abbrev bytes_or_empty : Option (List ℕ) → List ℕ
  bytes_or_empty none = []
  bytes_or_empty (some bytes) = bytes

  unfoldable pub safe_bytes : Attribute → List ℕ
  safe_bytes unset = []
  safe_bytes nothing = []
  safe_bytes (raw bytes) = bytes
  safe_bytes value = bytes_or_empty (rendering.bytes_of value)

  abbrev is_none : Attribute → Bool
  is_none unset = true
  is_none nothing = true
  is_none _ = false

  -- One round of the loop of `_headers`.
  abbrev pub add_header : Headers → Attribute → Attribute → Headers
  add_header headers key value =
      if is_none value || is_blank (safe_text key)
      then headers
      else put_header (safe_text key) (safe_text value) headers

  unfoldable pub headers_from : Headers → List (Attribute × Attribute) → Headers
  headers_from headers [] = headers
  headers_from headers ((key, value) ∷ rest) = headers_from (add_header headers key value) rest

  unfoldable pub headers_of : HeadersValue → Result Headers
  headers_of no_headers = ok []
  headers_of (header_items pairs) = ok (headers_from [] pairs)
  headers_of (items_raise e) = err e

  module _ (config : MessageMetadataConfig) (mission : Headers → String → Result (Option Fields))
      (security : Headers
        → String
        → Option String
        → Option String
        → List String
        → Result (Option Fields)) where
    abbrev pub priority_of : Headers → ClientMessage → Option String
    priority_of headers m =
        resolve_metadata_field rendering.python headers config.priority_header
          (priority_default_for_subject config (safe_text m.subject))

    abbrev pub classification_of : Headers → ClientMessage → Option String
    classification_of headers m =
        resolve_metadata_field rendering.python headers config.classification_header
          (classification_default_for_subject config (safe_text m.subject))

    abbrev pub labels_of : Headers → ClientMessage → List String
    labels_of headers m =
        resolve_metadata_labels rendering.python headers config.labels_header
          (items (shows_all (labels_default_for_subject config (safe_text m.subject))))

    -- The fields that are read from the message, before the constructor normalises them.
    abbrev pub arguments :
        ℕ
        → ClientMessage
        → Headers
        → Attribute
        → Attribute
        → Option Fields
        → Option Fields
        → NatsEnvelope
    arguments now m headers stream_sequence consumer_sequence mission_metadata security_labels =
        record {
          subject = safe_text m.subject;
          payload = safe_bytes m.data_bytes;
          headers = headers;
          stream = safe_optional_text m.stream;
          consumer = safe_optional_text m.consumer;
          stream_sequence = as_int stream_sequence;
          consumer_sequence = as_int consumer_sequence;
          timestamp = moment_or_none m.timestamp;
          message_id = none;
          redelivered = redelivered_of (as_int m.num_delivered);
          pending = as_int m.num_pending;
          priority = priority_of headers m;
          classification = classification_of headers m;
          labels = labels_of headers m;
          mission_metadata = mission_metadata;
          security_labels = security_labels;
          custody = none;
          reply = safe_optional_text m.reply;
          domain = safe_optional_text m.domain;
          payload_present = true;
          payload_omitted = false;
          payload_omitted_reason = none;
          original_payload_size_bytes = none;
          payload_size_header_malformed = false;
          received_at = now;
        }

    unfoldable pub envelope_from_nats_message : ℕ → ClientMessage → Result NatsEnvelope
    envelope_from_nats_message now m = do
      headers ← headers_of m.headers
      stream_sequence ← or_attribute m.sequence_stream m.stream_sequence
      consumer_sequence ← or_attribute m.sequence_consumer m.consumer_sequence
      mission_metadata ← mission headers (safe_text m.subject)
      security_labels ←
          security headers (safe_text m.subject) (priority_of headers m)
            (classification_of headers m) (labels_of headers m)
      ok (
          post_init rendering.python (
            arguments now m headers stream_sequence consumer_sequence mission_metadata
              security_labels))
