-- ===== src/Spool/Record.antt =====
-- spool/record.py: the record that one envelope is stored as, its wrapper, and the way back. A record
-- is a JSON object. The rendering of numbers, base64, hashes, times and the cipher are parameters.
pub mod Laws
use nats_sinks.Common.{
  ℕ, ◌≡◌, Bool, true, false, not, ◌||◌, List, [], ◌∷◌, Option, none, some, String, ℤ, pos,
  PythonText, str_eq, is_blank, strip, append, if◌then◌else◌,
}
use nats_sinks.Errors.{Result, ok, err, ◌>>=◌, ◌>>◌, raise_if, serialization_error}
use nats_sinks.Metadata.{Headers, items, shows_all, labels_to_storage_string}
use nats_sinks.Envelope.{
  Json, null, bool, number, text, array, object, Items, nil, cons, Fields, end, field, NatsEnvelope,
  IdempotencyKey, by_stream_sequence, by_message_id, by_payload, idempotency_key,
}

pub record Codecs : Type 0 where
  -- `str` of an integer; the integer that a JSON number is, if it is one; `number == integer`.
  pub render : ℤ → String
  pub as_int : String → Option ℤ
  pub equals : String → ℤ → Bool
  -- `str` of a JSON value that is no text.
  pub shown : Json → String
  pub b64_encode : List ℕ → String
  -- `none`: the text is not valid base64.
  pub b64_decode : String → Option (List ℕ)
  -- `datetime.timestamp()`, `x * 1_000_000_000`, `int(x)`, `n / 1_000_000_000` and
  -- `datetime.fromtimestamp(x, tz=UTC)`; the floating point numbers between stand by their bits.
  pub timestamp : ℕ → ℕ
  pub times_billion : ℕ → ℕ
  pub truncate : ℕ → ℤ
  pub over_billion : ℤ → ℕ
  pub fromtimestamp : ℕ → ℕ
  pub sha256 : List ℕ → String
  pub sha256_text : String → String

-- The laws that the way back relies on.
pub record AreInverse (codecs : Codecs) : Type 0 where
  pub int_again : (n : ℤ) → codecs.as_int (codecs.render n) ≡ some n
  pub equal_again : (n : ℤ) → codecs.equals (codecs.render n) n ≡ true
  pub bytes_again : (b : List ℕ) → codecs.b64_decode (codecs.b64_encode b) ≡ some b

-- The conversion of a time in `_datetime_to_epoch_ns`, and the one in `_epoch_ns_to_datetime`.
abbrev pub to_epoch : Codecs → ℕ → ℤ
to_epoch codecs t = codecs.truncate (codecs.times_billion (codecs.timestamp t))

abbrev pub from_epoch : Codecs → ℤ → ℕ
from_epoch codecs n = codecs.fromtimestamp (codecs.over_billion n)

-- `record.get(key)`: `None` for a missing key.
abbrev pub get : Fields → String → Json
get end key = null
get (field name value fields) key = if str_eq name key then value else get fields key

abbrev pub optional_text : Option String → Json
optional_text none = null
optional_text (some s) = text s

abbrev pub optional_object : Option Fields → Json
optional_object none = null
optional_object (some f) = object f

abbrev pub optional_flag : Option Bool → Json
optional_flag none = null
optional_flag (some b) = bool b

abbrev pub texts : List String → Items
texts [] = nil
texts (s ∷ ss) = cons (text s) (texts ss)

abbrev pub header_fields : Headers → Fields
header_fields [] = end
header_fields ((key, value) ∷ headers) = field key (text value) (header_fields headers)

abbrev default_priority_rank : ℕ
default_priority_rank = 6

abbrev rank_of : String → ℕ
rank_of priority =
    if str_eq priority "flash"
    then 0
    else if str_eq priority "immediate"
    then 1
    else if str_eq priority "urgent"
    then 2
    else if str_eq priority "high"
    then 3
    else if str_eq priority "routine" || str_eq priority "normal" || str_eq priority "medium"
    then 5
    else if str_eq priority "low"
    then 7
    else if str_eq priority "deferred"
    then 9
    else default_priority_rank

abbrev pub priority_rank : PythonText → Option String → ℕ
priority_rank python none = default_priority_rank
priority_rank python (some priority) = rank_of (python.casefold (strip priority))

abbrev pub record_schema : String
record_schema = "nats_sinks.spool.record.v1"

abbrev pub wrapper_schema : String
wrapper_schema = "nats_sinks.spool.wrapper.v1"

-- The arguments with which a replay calls `NatsEnvelope`. Security labels are not among them.
pub record EnvelopeArguments : Type 0 where
  pub subject : String
  pub payload : List ℕ
  pub headers : Headers
  pub stream : Option String
  pub consumer : Option String
  pub stream_sequence : Option ℤ
  pub consumer_sequence : Option ℤ
  pub timestamp : Option ℕ
  pub message_id : Option String
  pub redelivered : Option Bool
  pub pending : Option ℤ
  pub priority : Option String
  pub classification : Option String
  pub labels : List String
  pub mission_metadata : Option Fields
  pub custody : Option Fields
  pub reply : Option String
  pub domain : Option String
  pub received_at : ℕ

module _ (python : PythonText) (codecs : Codecs) where
  abbrev pub optional_number : Option ℕ → Json
  optional_number none = null
  optional_number (some n) = number (codecs.render (pos n))

  abbrev pub datetime_to_epoch_ns : Option ℕ → Json
  datetime_to_epoch_ns none = null
  datetime_to_epoch_ns (some t) = number (codecs.render (to_epoch codecs t))

  -- The text that `idempotency_key` returns.
  abbrev pub key_text : IdempotencyKey → String
  key_text (by_stream_sequence stream sequence) =
      append "stream-sequence:" (append stream (append ":" (codecs.render (pos sequence))))
  key_text (by_message_id id) = append "message-id:" id
  key_text (by_payload subject digest) =
      append "payload-sha256:" (append subject (append ":" digest))

  unfoldable pub envelope_fields : NatsEnvelope → Fields
  envelope_fields e = field "subject" (text e.subject) (
      field "data_b64" (text (codecs.b64_encode e.payload)) (
        field "headers" (object (header_fields e.headers)) (
          field "stream" (optional_text e.stream) (
            field "consumer" (optional_text e.consumer) (
              field "stream_sequence" (optional_number e.stream_sequence) (
                field "consumer_sequence" (optional_number e.consumer_sequence) (
                  field "timestamp_epoch_ns" (datetime_to_epoch_ns e.timestamp) (
                    field "message_id" (optional_text e.message_id) (
                      field "redelivered" (optional_flag e.redelivered) (
                        field "pending" (optional_number e.pending) (
                          field "priority" (optional_text e.priority) (
                            field "classification" (optional_text e.classification) (
                              field "labels" (array (texts e.labels)) (
                                field "labels_string"
                                  (optional_text
                                    (labels_to_storage_string (items (shows_all e.labels))))
                                  (field "mission_metadata" (optional_object e.mission_metadata) (
                                    field "custody" (optional_object e.custody) (
                                      field "reply" (optional_text e.reply) (
                                        field "domain" (optional_text e.domain) (
                                          field "received_at_epoch_ns"
                                            (datetime_to_epoch_ns (some e.received_at))
                                            end)))))))))))))))))))

  -- `preview` is the normalized payload, which may raise; `metadata` is null if it is not included.
  unfoldable pub build_plain_record :
      (NatsEnvelope → Result Json) → (NatsEnvelope → Json) → ℕ → NatsEnvelope → Result Fields
  build_plain_record preview metadata spooled_at e = do
    payload ← preview e
    key ← idempotency_key codecs.sha256 e
    ok (
        field "schema" (text record_schema) (
          field "schema_version" (number (codecs.render (pos 1))) (
            field "spooled_at_epoch_ns" (datetime_to_epoch_ns (some spooled_at)) (
              field "idempotency_key" (text (key_text key)) (
                field "envelope" (object (envelope_fields e))
                  (field "payload_preview" payload (field "metadata" (metadata e) end)))))))

  abbrev pub is_text : Json → Option String
  is_text (text s) = some s
  is_text _ = none

  abbrev priority_of : Json → Option String
  priority_of (object envelope) = is_text (get envelope "priority")
  priority_of _ = none

  -- `encrypted` tells whether records are encrypted; `seal` renders and encrypts one.
  abbrev pub wrapper_with : Bool → (Fields → Fields) → Fields → String → Fields
  wrapper_with encrypted seal record' key = field "schema" (text wrapper_schema) (
      field "schema_version" (number (codecs.render (pos 1))) (
        field "encrypted" (bool encrypted) (
          field "idempotency_key_sha256" (text (codecs.sha256_text key)) (
            field "priority_rank"
              (number
                (codecs.render (pos (priority_rank python (priority_of (get record' "envelope"))))))
              (field "spooled_at_epoch_ns" (get record' "spooled_at_epoch_ns") (
                if encrypted
                then field "encrypted_record" (object (seal record')) end
                else field "record" (object record') end))))))

  abbrev pub wrap_key : Bool → (Fields → Fields) → Fields → Option String → Result Fields
  wrap_key encrypted seal record' none = err serialization_error
  wrap_key encrypted seal record' (some key) =
      if is_blank key then err serialization_error else ok (wrapper_with encrypted seal record' key)

  unfoldable pub wrap_record : Bool → (Fields → Fields) → Fields → Result Fields
  wrap_record encrypted seal record' =
      wrap_key encrypted seal record' (is_text (get record' "idempotency_key"))

  abbrev pub is_schema : Json → String → Bool
  is_schema (text s) schema = str_eq s schema
  is_schema _ schema = false

  -- `value == 1`, which holds of True.
  abbrev pub is_first_version : Json → Bool
  is_first_version (number n) = codecs.equals n (pos 1)
  is_first_version (bool b) = b
  is_first_version _ = false

  abbrev as_object : Json → Result Fields
  as_object (object fields) = ok fields
  as_object _ = err serialization_error

  -- `unseal` decrypts and loads a record, or raises.
  abbrev loaded_record : (Fields → Result Fields) → Fields → Json → Result Fields
  loaded_record unseal wrapper (bool true) = as_object (get wrapper "encrypted_record") >>= unseal
  loaded_record unseal wrapper (bool false) = as_object (get wrapper "record")
  loaded_record unseal wrapper _ = err serialization_error

  unfoldable pub unwrap_record : (Fields → Result Fields) → Fields → Result Fields
  unwrap_record unseal wrapper = do
    raise_if (not (is_schema (get wrapper "schema") wrapper_schema)) serialization_error
    raise_if (not (is_first_version (get wrapper "schema_version"))) serialization_error
    record' ← loaded_record unseal wrapper (get wrapper "encrypted")
    raise_if (not (is_schema (get record' "schema") record_schema)) serialization_error
    raise_if (not (is_first_version (get record' "schema_version"))) serialization_error
    ok record'

  -- `_optional_str`, `_optional_int`, `_optional_bool` and `_optional_mapping`. A bool is an integer.
  abbrev pub optional_str : Json → Result (Option String)
  optional_str null = ok none
  optional_str (text s) = ok (some s)
  optional_str _ = err serialization_error

  abbrev integer_or_error : Option ℤ → Result (Option ℤ)
  integer_or_error none = err serialization_error
  integer_or_error (some n) = ok (some n)

  abbrev pub optional_int : Json → Result (Option ℤ)
  optional_int null = ok none
  optional_int (number n) = integer_or_error (codecs.as_int n)
  optional_int (bool true) = ok (some (pos 1))
  optional_int (bool false) = ok (some (pos 0))
  optional_int _ = err serialization_error

  abbrev pub optional_bool : Json → Result (Option Bool)
  optional_bool null = ok none
  optional_bool (bool b) = ok (some b)
  optional_bool _ = err serialization_error

  abbrev pub optional_mapping : Json → Result (Option Fields)
  optional_mapping null = ok none
  optional_mapping (object f) = ok (some f)
  optional_mapping _ = err serialization_error

  abbrev time_or_none : Option ℤ → Option ℕ
  time_or_none none = none
  time_or_none (some n) = some (from_epoch codecs n)

  abbrev pub epoch_ns_to_datetime : Json → Result (Option ℕ)
  epoch_ns_to_datetime value = do n ← optional_int value; ok (time_or_none n)

  abbrev bytes_or_error : Option (List ℕ) → Result (List ℕ)
  bytes_or_error none = err serialization_error
  bytes_or_error (some b) = ok b

  abbrev pub b64_decode : Json → Result (List ℕ)
  b64_decode (text s) = bytes_or_error (codecs.b64_decode s)
  b64_decode _ = err serialization_error

  -- `str(value)`
  abbrev str_of : Json → String
  str_of (text s) = s
  str_of value = codecs.shown value

  abbrev pub str_items : Items → List String
  str_items nil = []
  str_items (cons value rest) = str_of value ∷ str_items rest

  abbrev pub str_fields : Fields → Headers
  str_fields end = []
  str_fields (field key value rest) = (key, str_of value) ∷ str_fields rest

  abbrev pub non_empty_subject : Json → Result String
  non_empty_subject (text s) = if is_blank s then err serialization_error else ok s
  non_empty_subject _ = err serialization_error

  abbrev pub labels_of : Json → Result (List String)
  labels_of null = ok []
  labels_of (array values) = ok (str_items values)
  labels_of _ = err serialization_error

  abbrev now_if_none : ℕ → Option ℕ → ℕ
  now_if_none now none = now
  now_if_none now (some t) = t

  unfoldable pub envelope_from_plain_record : ℕ → Fields → Result EnvelopeArguments
  envelope_from_plain_record now record' = do
    e ← as_object (get record' "envelope")
    subject ← non_empty_subject (get e "subject")
    headers ← as_object (get e "headers")
    labels ← labels_of (get e "labels")
    payload ← b64_decode (get e "data_b64")
    stream ← optional_str (get e "stream")
    consumer ← optional_str (get e "consumer")
    stream_sequence ← optional_int (get e "stream_sequence")
    consumer_sequence ← optional_int (get e "consumer_sequence")
    timestamp ← epoch_ns_to_datetime (get e "timestamp_epoch_ns")
    message_id ← optional_str (get e "message_id")
    redelivered ← optional_bool (get e "redelivered")
    pending ← optional_int (get e "pending")
    priority ← optional_str (get e "priority")
    classification ← optional_str (get e "classification")
    mission_metadata ← optional_mapping (get e "mission_metadata")
    custody ← optional_mapping (get e "custody")
    reply ← optional_str (get e "reply")
    domain ← optional_str (get e "domain")
    received_at ← epoch_ns_to_datetime (get e "received_at_epoch_ns")
    ok (record {
      subject = subject;
      payload = payload;
      headers = str_fields headers;
      stream = stream;
      consumer = consumer;
      stream_sequence = stream_sequence;
      consumer_sequence = consumer_sequence;
      timestamp = timestamp;
      message_id = message_id;
      redelivered = redelivered;
      pending = pending;
      priority = priority;
      classification = classification;
      labels = labels;
      mission_metadata = mission_metadata;
      custody = custody;
      reply = reply;
      domain = domain;
      received_at = now_if_none now received_at;
    })
