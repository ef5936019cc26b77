-- ===== src/Spool/Record/Laws.antt =====
-- Proofs about spool/record.py: a record that is stored and read again.
use nats_sinks.Common.{ℕ, Option, none, some, String, ℤ, pos, PythonText}
use nats_sinks.Envelope.{Json, Fields, NatsEnvelope}
use nats_sinks.Spool.Record.{
  Codecs, AreInverse, to_epoch, from_epoch, EnvelopeArguments, datetime_to_epoch_ns,
  envelope_fields, record_schema,
}

abbrev pub maybe_pos : Option ℕ → Option ℤ
maybe_pos none = none
maybe_pos (some n) = some (pos n)

-- What the two conversions of a time, there and back by floating point numbers, make of it.
abbrev pub rounded : Codecs → ℕ → ℕ
rounded codecs t = from_epoch codecs (to_epoch codecs t)

abbrev pub rounded_or_none : Codecs → Option ℕ → Option ℕ
rounded_or_none codecs none = none
rounded_or_none codecs (some t) = some (rounded codecs t)

-- The envelope's fields that are stored, as arguments, with the times that come back.
abbrev pub arguments_of : Codecs → NatsEnvelope → EnvelopeArguments
arguments_of codecs e = record {
  subject = e.subject;
  payload = e.payload;
  headers = e.headers;
  stream = e.stream;
  consumer = e.consumer;
  stream_sequence = maybe_pos e.stream_sequence;
  consumer_sequence = maybe_pos e.consumer_sequence;
  timestamp = rounded_or_none codecs e.timestamp;
  message_id = e.message_id;
  redelivered = e.redelivered;
  pending = maybe_pos e.pending;
  priority = e.priority;
  classification = e.classification;
  labels = e.labels;
  mission_metadata = e.mission_metadata;
  custody = e.custody;
  reply = e.reply;
  domain = e.domain;
  received_at = rounded codecs e.received_at;
}

module _ (python : PythonText) (codecs : Codecs) (inverse : AreInverse codecs) where
  -- A record that `build_plain_record` makes.
  abbrev built : ℕ → NatsEnvelope → String → Json → Json → Fields
  built spooled_at e key payload metadata = Fields.field "schema" (Json.text record_schema) (
      Fields.field "schema_version" (Json.number (codecs.render (pos 1))) (
        Fields.field "spooled_at_epoch_ns" (datetime_to_epoch_ns python codecs (some spooled_at)) (
          Fields.field "idempotency_key" (Json.text key) (
            Fields.field "envelope" (Json.object (envelope_fields python codecs e)) (
              Fields.field "payload_preview" payload
                (Fields.field "metadata" metadata Fields.end))))))
