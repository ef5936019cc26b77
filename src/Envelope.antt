-- ===== src/Envelope.antt =====
-- core/envelope.py: the immutable envelope that sinks receive, as its constructor normalises it.
-- Times are epoch nanoseconds. Frozen mappings are values, so freezing and thawing change nothing.
pub mod Laws
use nats_sinks.Common.{
  ℕ, Bool, true, false, not, ◌&&◌, ◌||◌, List, [], ◌∷◌, Option, none, some, String, ℤ, pos,
  is_negative, PythonText, str_eq, is_blank, is_some, is_empty, length, strip, ◌==◌, if◌then◌else◌,
}
use nats_sinks.Errors.{Result, ok, err, validation_error}
use nats_sinks.Metadata.{
  Headers, Value, shows, items, shows_all, value_of, contains_ascii_control_characters,
  normalise_metadata_value, normalise_labels_value, case_insensitive_header,
}

-- JSON values, a number by its rendering.
mutual
  pub data Json : Type 0 where
    null : Json
    bool : Bool → Json
    number : String → Json
    text : String → Json
    array : Items → Json
    object : Fields → Json

  pub data Items : Type 0 where
    nil : Items
    cons : Json → Items → Items

  pub data Fields : Type 0 where
    end : Fields
    field : String → Json → Fields → Fields

pub record NatsEnvelope : Type 0 where
  pub subject : String
  pub payload : List ℕ  -- the source's `data`
  pub headers : Headers
  pub stream : Option String
  pub consumer : Option String
  pub stream_sequence : Option ℕ
  pub consumer_sequence : Option ℕ
  pub timestamp : Option ℕ
  pub message_id : Option String
  pub redelivered : Option Bool
  pub pending : Option ℕ
  pub priority : Option String
  pub classification : Option String
  pub labels : List String
  pub mission_metadata : Option Fields
  pub security_labels : Option Fields
  pub custody : Option Fields
  pub reply : Option String
  pub domain : Option String
  pub payload_present : Bool
  pub payload_omitted : Bool
  pub payload_omitted_reason : Option String
  pub original_payload_size_bytes : Option ℤ
  pub payload_size_header_malformed : Bool
  pub received_at : ℕ

-- `normalised[key] = value`: a key that is there keeps its place.
pub put_header : String → String → Headers → Headers
put_header key value [] = (key, value) ∷ []
put_header key value ((k, v) ∷ headers) =
    let rest = put_header key value headers in
    if str_eq k key then (k, value) ∷ headers else (k, v) ∷ rest

-- The loop of `_normalise_headers` over headers that are texts.
normalise_headers_from : Headers → Headers → Headers
normalise_headers_from done [] = done
normalise_headers_from done ((key, value) ∷ headers) =
    normalise_headers_from
      (if is_blank (strip key) || contains_ascii_control_characters (strip key)
        then done
        else put_header (strip key) value done)
      headers

unfoldable pub normalise_headers : Headers → Headers
unfolding normalise_headers_from put_header
normalise_headers headers = normalise_headers_from [] headers

-- `left or right` of two optional texts.
abbrev pub or_text : Option String → Option String → Option String
or_text none right = right
or_text (some s) right = if is_blank s then right else some s

-- The five fields that `_normalize_payload_presence` reads and sets.
pub record Presence : Type 0 where
  pub present : Bool
  pub omitted : Bool
  pub reason : Option String
  pub size : Option ℤ
  pub malformed : Bool

abbrev headers_only_reason : Option String
headers_only_reason = some "headers_only"

-- A negative size is dropped and reported.
drop_negative : Presence → Presence
drop_negative p = elim p.size [
  | none ↦ p
  | some n ↦ if is_negative n then record p { size = none; malformed = true } else p
]

-- `if size_header is not None and not malformed and data_size == 0 … elif original_size is None …`
apply_size_header : Bool → Option ℤ → Bool → ℕ → Presence → Presence
apply_size_header present_header parsed bad data_size p =
    if present_header && not bad && data_size == 0
    then record p {
      present = false;
      omitted = true;
      reason = or_text p.reason headers_only_reason;
      size = parsed;
    }
    else if is_some p.size
    then p
    else record p { size = if is_some parsed then parsed else some (pos data_size) }

settle_reason : Presence → Presence
settle_reason p =
    if p.omitted
    then record p { present = false; reason = or_text p.reason headers_only_reason }
    else if p.present
    then record p { reason = none }
    else p

module _ (python : PythonText) where
  -- `_case_insensitive_header`, which compares by `casefold`.
  casefold_header : Headers → String → Option String
  casefold_header [] name = none
  casefold_header ((key, value) ∷ headers) name =
      if str_eq (python.casefold key) (python.casefold name)
      then some value
      else casefold_header headers name

  parse_nats_msg_size : Option String → Option ℤ × Bool
  parse_nats_msg_size none = (none, false)
  parse_nats_msg_size (some value) = elim (python.int (strip value)) [
    | none ↦ (none, true)
    | some size ↦ if is_negative size then (none, true) else (some size, false)
  ]

  unfoldable pub normalise_payload_presence : Headers → List ℕ → Presence → Presence
  unfolding drop_negative apply_size_header settle_reason casefold_header parse_nats_msg_size
  normalise_payload_presence headers payload p =
      let size_header = casefold_header headers "Nats-Msg-Size" in
      let (parsed, bad) = parse_nats_msg_size size_header in
      let start = record p {
        reason = normalise_metadata_value (value_of p.reason);
        malformed = p.malformed || bad;
      } in
      settle_reason
        (apply_size_header (is_some size_header) parsed bad (length payload) (drop_negative start))

  resolve_message_id : Headers → Option String → Option String
  resolve_message_id headers (some id) = some id
  resolve_message_id headers none =
      or_text
        (or_text (case_insensitive_header python headers "Nats-Msg-Id")
          (case_insensitive_header python headers "Nats-Message-Id"))
        (case_insensitive_header python headers "message-id")

  abbrev pub presence_of : NatsEnvelope → Presence
  presence_of e = record {
    present = e.payload_present;
    omitted = e.payload_omitted;
    reason = e.payload_omitted_reason;
    size = e.original_payload_size_bytes;
    malformed = e.payload_size_header_malformed;
  }

  -- `__post_init__`: what the constructor, and `replace`, make of the fields that they are given.
  unfoldable pub post_init : NatsEnvelope → NatsEnvelope
  unfolding resolve_message_id
  post_init e =
      let headers = normalise_headers e.headers in
      let p = normalise_payload_presence headers e.payload (presence_of e) in
      record e {
        headers = headers;
        payload_present = p.present;
        payload_omitted = p.omitted;
        payload_omitted_reason = p.reason;
        original_payload_size_bytes = p.size;
        payload_size_header_malformed = p.malformed;
        message_id = resolve_message_id headers e.message_id;
        priority = normalise_metadata_value (value_of e.priority);
        classification = normalise_metadata_value (value_of e.classification);
        labels = normalise_labels_value (items (shows_all e.labels));
      }

-- The text of the key, `stream-sequence:…`, `message-id:…` or `payload-sha256:…`, by its parts.
pub data IdempotencyKey : Type 0 where
  by_stream_sequence : String → ℕ → IdempotencyKey
  by_message_id : String → IdempotencyKey
  by_payload : String → String → IdempotencyKey

abbrev pub is_truthy : Option String → Bool
is_truthy none = false
is_truthy (some s) = not (is_blank s)

-- `sha256` is the hexadecimal digest of `hashlib`.
module _ (sha256 : List ℕ → String) where
  key_by_payload : NatsEnvelope → Result IdempotencyKey
  key_by_payload e =
      if e.payload_omitted
      then err validation_error
      else ok (by_payload e.subject (sha256 e.payload))

  key_by_message_id : NatsEnvelope → Option String → Result IdempotencyKey
  key_by_message_id e none = key_by_payload e
  key_by_message_id e (some id) = if is_blank id then key_by_payload e else ok (by_message_id id)

  key_by_stream : NatsEnvelope → Option String → Option ℕ → Result IdempotencyKey
  key_by_stream e (some stream) (some sequence) =
      if is_blank stream
      then key_by_message_id e e.message_id
      else ok (by_stream_sequence stream sequence)
  key_by_stream e _ _ = key_by_message_id e e.message_id

  unfoldable pub idempotency_key : NatsEnvelope → Result IdempotencyKey
  unfolding key_by_stream key_by_message_id key_by_payload
  idempotency_key e = key_by_stream e e.stream e.stream_sequence
