-- ===== src/Tests/Gated.antt =====
-- The theorem about all gates together, applied to a runner that has each of them.
use nats_sinks.Common.{refl, List, [], ◌∷◌, some, All, strip, arith}
use nats_sinks.Errors.{ok, collect_from}
use nats_sinks.Envelope.{NatsEnvelope}
use nats_sinks.Metadata.{case_insensitive_header}
use nats_sinks.Subjects.{matches_subject, match_tokens}
use nats_sinks.Policy as Policy
use nats_sinks.SizePolicy as SizePolicy
use nats_sinks.Gate.{evaluate_from}
use nats_sinks.Policy.{evaluate_pre_sink_policy}
use nats_sinks.SizePolicy.{evaluate_size_policy}
use nats_sinks.Priority.{order_by_priority_lanes}
use nats_sinks.Authenticity.{
  metadata_value, put_field, selected_metadata, canonical_document, canonical_bytes,
  normalized_header, normalized_algorithm, signature_bytes, verify_signature, by_signature,
  by_key_id, by_algorithm, violation_for_envelope, evaluate, prepare_rule, prepare_rules,
}
use nats_sinks.Authenticity.Laws.{IsAuthentic}
use nats_sinks.Runner.Exec.{History, ◌>>=◌, update_all}
use nats_sinks.Runner.Message.{ack_one, heartbeat}
use nats_sinks.Runner.Settle.{ack_all, settle_each}
use nats_sinks.Runner.Batch.{
  Setup, count_gate, settle_rejections, acknowledge, write_to_sink, schedule_batch, attach_custody,
  policy_gate, size_gate, encrypt_payloads, authenticate_batch, map_batch, process_raw_batch,
}
use nats_sinks.Runner.Batch.Cleared.{Cleared}
use nats_sinks.Runner.Intake.{fetched, run_pull}
use nats_sinks.Runner.Authenticated.{evaluate_with, from_config}
use nats_sinks.Runner.Authenticated.Gated.{run_pull-Cleared}
use nats_sinks.Fixtures.{
  first_events, older_events, plain_text, small_sizes, labelled_policy, message, willing,
  deployment,
}
use nats_sinks.Tests.Authenticity.{toy_crypto, signed_only, prepared_rules, signed_by}

abbrev urgent : NatsEnvelope → NatsEnvelope
urgent e = record e { priority = some "high" }

-- Every gate is on, and the messages carry a signature that is right.
abbrev gated : Setup
gated = record deployment {
  normalize = λ n m. ok (urgent (signed_by "abc"));
  authenticate = some (evaluate_with plain_text toy_crypto signed_only prepared_rules);
  size_policy = record small_sizes { max_header_value_bytes = 20 };
  pre_sink_policy = labelled_policy;
}

abbrev gated_history : History
gated_history = (run_pull willing gated (fetched (message 1 ∷ []) ∷ []) []).1

-- The payload has been encrypted: a nonce stands before it.
abbrev sent : List NatsEnvelope
sent = record (urgent (signed_by "abc")) { payload = 5 ∷ 1 ∷ [] } ∷ []

run_pull-Cleared_example :
    All (Cleared (IsAuthentic plain_text toy_crypto signed_only prepared_rules) gated) sent
unfolding count_gate run_pull process_raw_batch map_batch authenticate_batch encrypt_payloads
    size_gate policy_gate settle_rejections attach_custody schedule_batch write_to_sink acknowledge
    ack_all settle_each ack_one heartbeat update_all evaluate_size_policy evaluate_pre_sink_policy
    order_by_priority_lanes ◌>>=◌ collect_from prepare_rules prepare_rule evaluate from_config
    violation_for_envelope by_algorithm by_key_id by_signature canonical_bytes canonical_document
    selected_metadata metadata_value put_field verify_signature signature_bytes normalized_header
    normalized_algorithm case_insensitive_header matches_subject match_tokens strip evaluate_from
    SizePolicy.violations_in_batch SizePolicy.violations_for_envelope SizePolicy.sized_violations
    SizePolicy.append_if_over SizePolicy.header_sizes_from SizePolicy.largest SizePolicy.sum
    Policy.violations_for_envelope Policy.violations_for_rule Policy.rule_violations
    Policy.violations_for_rules Policy.exceeds Policy.key_not_allowed
run_pull-Cleared_example =
    run_pull-Cleared plain_text toy_crypto signed_only prepared_rules gated willing
      (fetched (message 1 ∷ []) ∷ []) sent (first_events 8 gated_history)
      (older_events 9 gated_history) refl refl refl (omega arith, (omega arith, tt)) refl
