-- ===== src/Consumer/Laws.antt =====
-- Proofs about core/consumer.py: the envelopes that messages are mapped to.
use nats_sinks.Common.{◌≡◌, List, Option, String}
use nats_sinks.Errors.{Error, Result, ok, err}
use nats_sinks.Metadata.{Headers, value_of, normalise_metadata_value}
use nats_sinks.Metadata.Laws.{IsClean}
use nats_sinks.Envelope.{Fields, NatsEnvelope, normalise_headers, presence_of}
use nats_sinks.Envelope.Laws.{IsSettled}
use nats_sinks.Consumer.{
  Attribute, Rendering, ClientMessage, MessageMetadataConfig, safe_text, safe_bytes, as_int,
  or_attribute, priority_of, classification_of, labels_of, headers_of,
}

module _ (rendering : Rendering) (config : MessageMetadataConfig)
    (mission : Headers → String → Result (Option Fields))
    (security : Headers
      → String
      → Option String
      → Option String
      → List String
      → Result (Option Fields)) where
  -- The labels that the message is mapped with are resolved from these headers.
  abbrev labelled_by : ClientMessage → Headers → Result (Option Fields)
  labelled_by m headers =
      security headers (safe_text rendering m.subject)
        (priority_of rendering config mission security headers m)
        (classification_of rendering config mission security headers m)
        (labels_of rendering config mission security headers m)

  -- An envelope that sinks can rely on, as one of the message.
  pub record Represents (m : ClientMessage) (e : NatsEnvelope) : Type 0 where
    pub same_subject : e.subject ≡ safe_text rendering m.subject
    pub same_payload : e.payload ≡ safe_bytes rendering m.data_bytes
    pub stream_sequence :
        (a : Attribute) × (or_attribute m.sequence_stream m.stream_sequence ≡ ok a)
        × (e.stream_sequence ≡ as_int rendering a)
    pub same_headers :
        (headers : Headers) × (headers_of rendering m.headers ≡ ok headers)
        × (e.headers ≡ normalise_headers headers)
    pub settled : IsSettled (presence_of rendering.python e)
    pub clean_labels : IsClean e.labels
    pub normal_priority : normalise_metadata_value (value_of e.priority) ≡ e.priority
    pub normal_classification :
        normalise_metadata_value (value_of e.classification) ≡ e.classification

  -- What the mapping of a message can raise, each where what comes before it returns.
  pub data Raises (m : ClientMessage) (raised : Error) : Type 0 where
    by_headers : headers_of rendering m.headers ≡ err raised → Raises m raised
    by_stream_sequence :
        or_attribute m.sequence_stream m.stream_sequence ≡ err raised → Raises m raised
    by_consumer_sequence :
        or_attribute m.sequence_consumer m.consumer_sequence ≡ err raised → Raises m raised
    by_mission :
        (headers : Headers)
        → headers_of rendering m.headers ≡ ok headers
        → mission headers (safe_text rendering m.subject) ≡ err raised
        → Raises m raised
    by_security :
        (headers : Headers)
        → headers_of rendering m.headers ≡ ok headers
        → labelled_by m headers ≡ err raised
        → Raises m raised
