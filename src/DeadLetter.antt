-- ===== src/DeadLetter.antt =====
-- core/dlq.py: the document that is published for a message that failed for good. The rendering of
-- numbers, times and JSON, base64 and the hash are parameters.
pub mod Laws
use nats_sinks.Common.{
  ℕ, Bool, true, false, ◌&&◌, List, [], ◌∷◌, Option, none, some, String, PythonText, pos, str_eq,
  length, if◌then◌else◌, ℤ,
}
use nats_sinks.Errors.{Error, Result, ok, err, validation_error, ◌>>=◌}
use nats_sinks.Metadata.{Headers}
use nats_sinks.Envelope.{
  Json, null, bool, number, text, array, object, Fields, end, field, NatsEnvelope, or_text,
  idempotency_key,
}
use nats_sinks.Spool.Record.{
  Codecs, optional_text, optional_flag, texts, header_fields, optional_number, key_text,
}
use nats_sinks.Authenticity.{put_field}

-- What is included, and the texts that the error and the timestamp are rendered to.
pub record Inclusion : Type 0 where
  pub include_payload : Bool
  pub include_headers : Bool
  pub include_error : Bool

pub record ErrorText : Type 0 where
  pub type_name : String
  pub message : String

module _ (python : PythonText) (codecs : Codecs) (isoformat : ℕ → String) where
  abbrev pub after_key : Result String → Result (Option String × Option String)
  after_key (ok key) = ok (some key, none)
  after_key (err validation_error) = ok (none, some "payload_omitted")
  after_key (err raised) = err raised

  abbrev pub safe_idempotency_key : NatsEnvelope → Result (Option String × Option String)
  safe_idempotency_key e =
      after_key (idempotency_key codecs.sha256 e >>= λ key. ok (key_text python codecs key))

  abbrev size_header : Headers → Option String
  size_header [] = none
  size_header ((key, value) ∷ headers) =
      if str_eq (python.casefold key) "nats-msg-size" then some value else size_header headers

  abbrev optional_integer : Option ℤ → Json
  optional_integer none = null
  optional_integer (some z) = number (codecs.render z)

  abbrev payload_fields : NatsEnvelope → Fields
  payload_fields e = field "present" (bool e.payload_present) (
      field "omitted" (bool e.payload_omitted) (
        field "omitted_reason" (optional_text e.payload_omitted_reason) (
          field "original_size_bytes" (optional_integer e.original_payload_size_bytes) (
            field "delivered_size_bytes" (number (codecs.render (pos (length e.payload)))) (
              field "nats_msg_size_header" (optional_text (size_header e.headers)) (
                field "nats_msg_size_header_malformed" (bool e.payload_size_header_malformed)
                  end))))))

  abbrev pub base_fields : NatsEnvelope → Option String × Option String → Fields
  base_fields e (key, reason) = field "subject" (text e.subject) (
      field "stream" (optional_text e.stream) (
        field "consumer" (optional_text e.consumer) (
          field "stream_sequence" (optional_number python codecs e.stream_sequence) (
            field "consumer_sequence" (optional_number python codecs e.consumer_sequence) (
              field "message_id" (optional_text e.message_id) (
                field "priority" (optional_text e.priority) (
                  field "classification" (optional_text e.classification) (
                    field "labels" (array (texts e.labels)) (
                      field "redelivered" (optional_flag e.redelivered) (
                        field "pending" (optional_number python codecs e.pending) (
                          field "idempotency_key" (optional_text key) (
                            field "idempotency_key_unavailable_reason" (optional_text reason)
                              (field "payload" (object (payload_fields e)) end)))))))))))))

  abbrev pub add_error : Bool → ErrorText → Fields → Fields
  add_error include error body =
      if include
      then put_field "error" (text error.message)
          (put_field "error_type" (text error.type_name) body)
      else body

  abbrev pub add_timestamp : Option ℕ → Fields → Fields
  add_timestamp none body = body
  add_timestamp (some t) body = put_field "timestamp" (text (isoformat t)) body

  abbrev pub add_headers : Bool → NatsEnvelope → Fields → Fields
  add_headers include e body =
      if include then put_field "headers" (object (header_fields e.headers)) body else body

  abbrev pub add_payload : Bool → NatsEnvelope → Fields → Fields
  add_payload include e body =
      if include && e.payload_present
      then put_field "payload_base64" (text (codecs.b64_encode e.payload)) body
      else if include && e.payload_omitted
      then put_field "payload_unavailable_reason"
          (optional_text (or_text e.payload_omitted_reason (some "payload_omitted"))) body
      else body

  -- `build_dead_letter_payload`, before `json.dumps`.
  unfoldable pub build_dead_letter_payload : NatsEnvelope → ErrorText → Inclusion → Result Fields
  build_dead_letter_payload e error included = do
    key ← safe_idempotency_key e
    ok (
        add_payload included.include_payload e (
          add_headers included.include_headers e (
            add_timestamp e.timestamp
              (add_error included.include_error error (base_fields e key)))))
