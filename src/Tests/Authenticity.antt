-- ===== src/Tests/Authenticity.antt =====
-- The theorem about signatures, applied to sample values.
use nats_sinks.Common.{
  ◌≡◌, refl, inl, true, false, List, [], ◌∷◌, some, none, String, strip, length, char_count,
}
use nats_sinks.Errors.{ok}
use nats_sinks.Envelope.{text, number, object, array, cons, nil, Fields, field, end, NatsEnvelope}
use nats_sinks.Metadata.{case_insensitive_header}
use nats_sinks.Policy.{reject}
use nats_sinks.Gate.{Evaluation}
use nats_sinks.Gate.Laws.{Splits}
use nats_sinks.Subjects.{matches_subject, match_tokens}
use nats_sinks.Authenticity.{
  MessageAuthenticityRuleConfig, MessageAuthenticityConfig, MessageAuthenticityViolation,
  signature_invalid, PreparedRule, Crypto, metadata_value, put_field, selected_metadata,
  canonical_document, canonical_bytes, normalized_header, normalized_algorithm, signature_bytes,
  verify_signature, by_signature, by_key_id, by_algorithm, violation_for_envelope, evaluate,
  prepare_rule, prepare_rules, evaluate_message_authenticity,
}
use nats_sinks.Authenticity.Laws.{IsAuthentic}
use nats_sinks.Authenticity.Batch.{evaluate_message_authenticity-Splits}
use nats_sinks.Fixtures.{plain_text, envelope}

-- A digest that adds the length of the key; a signature is read as its length.
abbrev pub toy_crypto : Crypto
toy_crypto = record {
  sha256 = λ payload. "digest";
  b64_decode = λ s. some (char_count s ∷ []);
  json_bytes = λ document. some (1 ∷ 2 ∷ []);
  hmac_sha256 = λ key material. length key ∷ [];
  is_public_key = λ key. false;
  ed25519_verify = λ key signature material. false;
  resolve_key = λ rule. ok (7 ∷ 7 ∷ 7 ∷ []);
}

abbrev orders_rule : MessageAuthenticityRuleConfig
orders_rule = record {
  subject = "orders.>";
  enabled = true;
  algorithm = "hmac-sha256";
  key_id = some "k1";
  signed_fields = "subject" ∷ "labels" ∷ [];
}

abbrev pub signed_only : MessageAuthenticityConfig
signed_only = record {
  enabled = true;
  unmatched_subject_action = reject;
  signature_header = "Signature";
  algorithm_header = "Algorithm";
  key_id_header = "Key-Id";
  rules = orders_rule ∷ [];
}

abbrev pub prepared_rules : List PreparedRule
prepared_rules = record { config = orders_rule; key = some (7 ∷ 7 ∷ 7 ∷ []) } ∷ []

abbrev pub signed_by : String → NatsEnvelope
signed_by signature = record (envelope "orders.new" none (1 ∷ [])) {
  headers = ("Algorithm", "hmac_sha256") ∷ ("Key-Id", " k1 ") ∷ ("Signature", signature) ∷ [];
}

evaluate_message_authenticity-Splits_example :
    (e : Evaluation MessageAuthenticityViolation) × (evaluate_message_authenticity plain_text
        toy_crypto
        (signed_by "abc" ∷ signed_by "ab" ∷ [])
        signed_only
      ≡ ok e)
    × Splits
        (IsAuthentic plain_text toy_crypto signed_only prepared_rules)
        e
        (signed_by "abc" ∷ signed_by "ab" ∷ [])
unfolding prepare_rules prepare_rule metadata_value
evaluate_message_authenticity-Splits_example =
    evaluate_message_authenticity-Splits plain_text toy_crypto signed_only
      (λ document. (1 ∷ 2 ∷ [], refl)) prepared_rules (signed_by "abc" ∷ signed_by "ab" ∷ []) refl
      refl
      (
        λ on. record {
          key = 7 ∷ 7 ∷ 7 ∷ [];
          id = "k1";
          has_key = refl;
          has_id = refl;
          supported = inl refl;
          fields = λ e. (refl, (refl, tt));
        },
        tt,
      )

-- The signature that the key gives is accepted, another is not.
signature_decides :
    evaluate_message_authenticity plain_text toy_crypto
      (signed_by "abc" ∷ signed_by "ab" ∷ [])
      signed_only
    ≡ ok (record {
      accepted_indexes = 0 ∷ [];
      rejected_indexes = 1 ∷ [];
      violations =
          record {
            index = 1;
            subject = "orders.new";
            rule_subject = "orders.>";
            reason = signature_invalid;
          }
          ∷ [];
    })
unfolding evaluate_message_authenticity prepare_rules prepare_rule evaluate violation_for_envelope
    by_algorithm by_key_id by_signature canonical_bytes canonical_document selected_metadata
    metadata_value put_field verify_signature signature_bytes normalized_header normalized_algorithm
    case_insensitive_header matches_subject match_tokens strip
signature_decides = refl

abbrev key_one : String
key_one = "k1"

abbrev order_document : Fields
order_document = field "schema" (text "nats_sinks.message_authenticity.v1") (
    field "version" (number "1") (
      field "algorithm" (text "hmac-sha256") (
        field "key_id" (text "k1") (
          field "payload_sha256" (text "digest") (
            field "metadata"
              (object (
                field "subject" (text "orders.new")
                  (field "labels" (array (cons (text "fast") (cons (text "blue") nil))) end)))
              end)))))
