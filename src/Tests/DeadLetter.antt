-- ===== src/Tests/DeadLetter.antt =====
-- The theorem about dead letter documents, applied to sample values.
use nats_sinks.Common.{◌≡◌, true, false, none, ◌∷◌, []}
use nats_sinks.Errors.{ok}
use nats_sinks.Envelope.{Fields}
use nats_sinks.DeadLetter.{Inclusion, ErrorText, build_dead_letter_payload}
use nats_sinks.DeadLetter.Laws.{Discloses, build_dead_letter_payload-Discloses}
use nats_sinks.Fixtures.{plain_text, envelope}
use nats_sinks.Tests.Spool.{codecs}

abbrev failure : ErrorText
failure = record { type_name = "PermanentSinkError"; message = "no such table" }

abbrev without_body : Inclusion
without_body = record { include_payload = false; include_headers = true; include_error = true }

build_dead_letter_payload-Discloses_example :
    (body : Fields) × (build_dead_letter_payload plain_text codecs
        (λ t. "2026-01-01T00:00:00+00:00")
        (envelope "orders.new" none (1 ∷ []))
        failure
        without_body
      ≡ ok body)
    × Discloses codecs (envelope "orders.new" none (1 ∷ [])) failure without_body body
build_dead_letter_payload-Discloses_example =
    build_dead_letter_payload-Discloses plain_text codecs (λ t. "2026-01-01T00:00:00+00:00")
      (envelope "orders.new" none (1 ∷ [])) failure without_body
