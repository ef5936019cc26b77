-- ===== src/Tests.antt =====
-- The theorems applied to sample values.
mod Fanout
mod Spool
mod Config
mod Authenticity
mod DeadLetter
mod Gated
mod Durable
mod FannedOut
use nats_sinks.Common.{
  Bool, String, All, Any, ℕ, zero, suc, ◌≤◌, ◌≡◌, refl, ◌↔◌, true, false, List, [], ◌∷◌, none, some,
  strip, length, arith,
}
use nats_sinks.Errors.{Result, ok, collect_from}
use nats_sinks.Envelope.{Presence, normalise_payload_presence}
use nats_sinks.Envelope.Laws.{IsSettled, normalise_payload_presence-IsSettled}
use nats_sinks.Metadata.{
  items, shows, joined, normalise_metadata_value, normalise_labels_value, labels_to_storage_string,
}
use nats_sinks.Metadata.Laws.{
  IsClean, normalise_labels_value-IsClean, normalise-labels_to_storage_string,
}
use nats_sinks.Subjects.{
  text, tokens_of, matches_subject, match_tokens, validate_subject_pattern,
  subject_pattern_is_subset,
}
use nats_sinks.Subjects.Matching.{Matches, matches_subject_iff}
use nats_sinks.Subjects.Subset.{subject_pattern_is_subset_sound}
use nats_sinks.Gate.{Evaluation}
use nats_sinks.Policy.{PolicyViolation, evaluate_pre_sink_policy, violations_for_rule}
use nats_sinks.Policy.Laws.{
  Allowed, Complies, violations_for_rule_iff, evaluate_pre_sink_policy-Splits,
}
use nats_sinks.SizePolicy.{SizePolicyViolation, evaluate_size_policy}
use nats_sinks.SizePolicy.Laws.{Fits, evaluate_size_policy-Splits}
use nats_sinks.Gate.Laws.{Splits}
use nats_sinks.Priority.{order_by_priority_lanes}
use nats_sinks.Priority.Lossless.{Orders, order_by_priority_lanes-Orders}
use nats_sinks.Runner.Exec.{RawMessage, ack_called, History, ◌>>=◌, update_all}
use nats_sinks.Runner.Exec.Safely.{Extends}
use nats_sinks.Runner.Exec.Ledger.{Justified, Safe, Safe-nil}
use nats_sinks.Runner.Message.{ack_one, heartbeat}
use nats_sinks.Runner.Settle.{ack_all, settle_each}
use nats_sinks.Runner.Batch.{
  settle_rejections, acknowledge, write_to_sink, schedule_batch, attach_custody, policy_gate,
  size_gate, encrypt_payloads, authenticate_batch, map_batch, process_raw_batch,
}
use nats_sinks.Runner.Batch.Cleared.{delivery_terms}
use nats_sinks.Runner.Intake.{
  Intake, IntakeConfig, Fetch, timed_out, fetched, PushStep, called_back, wants_batch,
  next_push_batch, run_pull, run_push,
}
use nats_sinks.Runner.Intake.Queue.{Takes, Bounded, Bounded-nil, next_push_batch-Takes}
use nats_sinks.Runner.Intake.Safety.{process_raw_batch-Safe, run_pull-commit_first, run_push-Safe}
use nats_sinks.Routing.{
  matched, select_route_targets, select_from, append_targets, has_target, route_matches_envelope,
  headers_match, subject_matches, metadata_value_matches,
}
use nats_sinks.Routing.Targets.{IsDistinct, wanted, select_route_targets-matched}
use nats_sinks.Fanout.{SelectedTarget, select_targets, handle_no_route}
use nats_sinks.Fanout.Groups.{Serves, select_targets-Serves}
use nats_sinks.Metrics.{
  increment, gauge, observe, last_sink_success, messages_acked, message_ack_seconds,
  messages_failed, sink_write_errors,
}
use nats_sinks.Runner.Message.{delivery_attempt_for_batch}
use nats_sinks.Runner.Settle.{should_retry, handle_temporary_failure}
use nats_sinks.Runner.Settle.Progress.{acks_after}
use nats_sinks.Runner.Settle.Temporary.{handle_temporary_failure-returns}
use nats_sinks.Runner.Batch.Progress.{stored_so_far, write_to_sink-acks_after}
use nats_sinks.Runner.Exec.{metric}
use nats_sinks.Fixtures.{
  first_events, older_events, copied_to, two_routes, plain_text, sample_headers, envelope,
  three_envelopes, two_lanes, labelled_rule, labelled_policy, small_sizes, fields_size,
  metadata_size, message, willing, deployment,
}

order_by_priority_lanes-Orders_example :
    Orders three_envelopes (order_by_priority_lanes plain_text three_envelopes two_lanes).0
order_by_priority_lanes-Orders_example =
    order_by_priority_lanes-Orders plain_text two_lanes three_envelopes
      (omega arith, (omega arith, tt))

-- No body is encrypted.
abbrev unencrypted : List ℕ → Result Bool
unencrypted payload = ok false

evaluate_pre_sink_policy-Splits_example :
    (out : Evaluation PolicyViolation) × (evaluate_pre_sink_policy unencrypted three_envelopes
        labelled_policy
      ≡ ok out)
    × Splits (Allowed unencrypted labelled_policy) out three_envelopes
evaluate_pre_sink_policy-Splits_example =
    evaluate_pre_sink_policy-Splits unencrypted three_envelopes labelled_policy refl
      ((false, refl), ((false, refl), ((false, refl), tt)))

violations_for_rule_iff_example :
    violations_for_rule unencrypted 0 (envelope "orders.new" none (1 ∷ [])) labelled_rule ≡ ok []
    ↔ Complies unencrypted (envelope "orders.new" none (1 ∷ [])) labelled_rule
violations_for_rule_iff_example =
    violations_for_rule_iff unencrypted 0 (envelope "orders.new" none (1 ∷ [])) labelled_rule

evaluate_size_policy-Splits_example :
    (out : Evaluation SizePolicyViolation) × (evaluate_size_policy fields_size metadata_size
        three_envelopes small_sizes
      ≡ ok out)
    × Splits
        (λ e.
          (length three_envelopes ≤ small_sizes.max_batch_messages)
          × Fits fields_size metadata_size small_sizes e)
        out
        three_envelopes
evaluate_size_policy-Splits_example =
    evaluate_size_policy-Splits fields_size metadata_size three_envelopes small_sizes refl
      ((0, 12, refl, refl), ((0, 12, refl, refl), ((0, 12, refl, refl), tt)))

abbrev two_fetches : List Fetch
two_fetches = timed_out ∷ fetched (message 1 ∷ message 2 ∷ []) ∷ []

abbrev stored_history : History
stored_history = (run_pull willing deployment two_fetches []).1

run_pull-commit_first_example :
    Justified
      (delivery_terms (λ e. Unit) deployment willing)
      (ack_called (message 1))
      (older_events 5 stored_history)
unfolding run_pull process_raw_batch map_batch authenticate_batch encrypt_payloads size_gate
    policy_gate settle_rejections attach_custody schedule_batch write_to_sink acknowledge ack_all
    settle_each ack_one heartbeat update_all evaluate_size_policy evaluate_pre_sink_policy
    order_by_priority_lanes ◌>>=◌ collect_from
run_pull-commit_first_example =
    run_pull-commit_first willing deployment (λ e. Unit) (λ evaluate batch e h. cc)
      (omega arith, (omega arith, tt)) two_fetches (ack_called (message 1))
      (first_events 4 stored_history) (older_events 5 stored_history) refl

process_raw_batch-Safe_example :
    Safe
      (delivery_terms (λ e. Unit) deployment willing)
      (process_raw_batch willing deployment (message 1 ∷ message 2 ∷ []) []).1
    × Extends [] (process_raw_batch willing deployment (message 1 ∷ message 2 ∷ []) []).1
process_raw_batch-Safe_example =
    process_raw_batch-Safe willing deployment (λ e. Unit) (λ evaluate batch e h. cc)
      (omega arith, (omega arith, tt)) (message 1 ∷ message 2 ∷ []) []
      (Safe-nil (delivery_terms (λ e. Unit) deployment willing))

next_push_batch-Takes_example :
    (batch rest : List RawMessage) × (next_push_batch 2 (message 1 ∷ message 2 ∷ message 3 ∷ [])
      ≡ some (batch, rest))
    × Takes 2 (message 1 ∷ message 2 ∷ message 3 ∷ []) batch rest
next_push_batch-Takes_example =
    next_push_batch-Takes 2 (message 1) (message 2 ∷ message 3 ∷ []) (omega arith)

matches_subject_iff_example :
    (matches_subject (text "orders.*.>") (text "orders.eu.new.1") ≡ true)
    ↔ Matches (tokens_of "orders.*.>") (tokens_of "orders.eu.new.1")
matches_subject_iff_example = matches_subject_iff "orders.*.>" "orders.eu.new.1"

abbrev unset_presence : Presence
unset_presence = record {
  present = true;
  omitted = false;
  reason = none;
  size = none;
  malformed = false;
}

normalise_payload_presence-IsSettled_example :
    IsSettled (normalise_payload_presence plain_text sample_headers [] unset_presence)
normalise_payload_presence-IsSettled_example =
    normalise_payload_presence-IsSettled plain_text sample_headers [] unset_presence

normalise_labels_value-IsClean_example :
    IsClean (normalise_labels_value (items (shows " a " ∷ shows "b" ∷ shows "a" ∷ [])))
normalise_labels_value-IsClean_example =
    normalise_labels_value-IsClean (items (shows " a " ∷ shows "b" ∷ shows "a" ∷ []))

subject_pattern_is_subset_sound_example :
    matches_subject (text "orders.>") (text "orders.eu.new") ≡ true
unfolding matches_subject subject_pattern_is_subset validate_subject_pattern strip match_tokens
subject_pattern_is_subset_sound_example =
    subject_pattern_is_subset_sound "orders.*.new" "orders.>" "orders.eu.new" refl refl

normalise-labels_to_storage_string_example :
    normalise_labels_value (joined "a;b")
    ≡ normalise_labels_value (items (shows "a" ∷ shows "b" ∷ []))
unfolding normalise_labels_value labels_to_storage_string normalise_metadata_value strip
normalise-labels_to_storage_string_example =
    normalise-labels_to_storage_string (items (shows "a" ∷ shows "b" ∷ [])) "a;b" (refl, (refl, tt))
      refl

select_route_targets-matched_example :
    ((select_route_targets plain_text (envelope "orders.new" none []) two_routes).action ≡ matched)
    × IsDistinct
        (select_route_targets plain_text (envelope "orders.new" none []) two_routes).target_policies
    × ((sink : String)
        → has_target
            (select_route_targets plain_text
              (envelope "orders.new" none [])
              two_routes).target_policies
            sink
          ≡ wanted plain_text two_routes.mode
              (envelope "orders.new" none [])
              two_routes.routes
              sink)
unfolding select_route_targets select_from route_matches_envelope headers_match subject_matches
    metadata_value_matches matches_subject match_tokens
select_route_targets-matched_example =
    select_route_targets-matched plain_text (envelope "orders.new" none []) two_routes refl refl

select_targets-Serves_example :
    (groups : List SelectedTarget) × (select_targets plain_text two_routes three_envelopes
      ≡ ok groups)
    × All
        (λ m.
          All
            (λ t. Any (Serves t m) groups)
            (select_route_targets plain_text m two_routes).target_policies)
        three_envelopes
unfolding handle_no_route select_route_targets select_from append_targets has_target
    route_matches_envelope headers_match subject_matches metadata_value_matches matches_subject
    match_tokens
select_targets-Serves_example =
    select_targets-Serves plain_text two_routes three_envelopes (refl, (refl, (refl, tt)))

-- An envelope that both routes match: the optional target of the first route stands for `audit`,
-- though the second route requires it.
overlap_downgrades :
    (select_route_targets plain_text (envelope "orders.new" none []) two_routes).target_policies
    ≡ copied_to "store" true ∷ copied_to "audit" false ∷ []
unfolding select_route_targets select_from append_targets has_target route_matches_envelope
    headers_match subject_matches metadata_value_matches matches_subject match_tokens
overlap_downgrades = refl

write_to_sink-acks_after_example :
    write_to_sink willing deployment (message 1 ∷ message 2 ∷ []) three_envelopes [] ≡ (
      ok tt,
      metric (gauge last_sink_success 0)
          ∷ metric (increment messages_acked 2)
          ∷ metric (observe message_ack_seconds)
          ∷ acks_after (message 1 ∷ message 2 ∷ []) (stored_so_far deployment three_envelopes []),
    )
write_to_sink-acks_after_example =
    write_to_sink-acks_after willing deployment refl refl (λ h envelopes. refl) (λ h m. refl)
      (message 1 ∷ message 2 ∷ []) three_envelopes []

handle_temporary_failure-returns_example :
    ((handle_temporary_failure willing deployment.delivery deployment.dead_letter sink_write_errors
        (message 1 ∷ [])
        []).0
      ≡ ok tt)
    × (should_retry deployment.delivery.max_retries (delivery_attempt_for_batch (message 1 ∷ []))
          ≡ false
        → (handle_temporary_failure willing deployment.delivery deployment.dead_letter
            sink_write_errors
            (message 1 ∷ [])
            []).1
          ≡ metric (increment sink_write_errors 1) ∷ metric (increment messages_failed 1) ∷ [])
handle_temporary_failure-returns_example =
    handle_temporary_failure-returns willing deployment.delivery deployment.dead_letter
      sink_write_errors (message 1 ∷ []) []
