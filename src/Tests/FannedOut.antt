-- ===== src/Tests/FannedOut.antt =====
-- The theorem about a runner whose sink is the fan-out, applied to two children.
use nats_sinks.Common.{
  ◌≡◌, refl, ◌⊎◌, inl, List, [], ◌∷◌, Option, none, some, String, ℕ, Any, arith,
}
use nats_sinks.Errors.{Error, unexpected, collect_from}
use nats_sinks.Envelope.{NatsEnvelope}
use nats_sinks.SizePolicy.{evaluate_size_policy}
use nats_sinks.Policy.{evaluate_pre_sink_policy}
use nats_sinks.Priority.{order_by_priority_lanes}
use nats_sinks.Subjects.{matches_subject, match_tokens}
use nats_sinks.Routing.{
  select_route_targets, select_from, append_targets, has_target, route_matches_envelope,
  headers_match, subject_matches, metadata_value_matches,
}
use nats_sinks.AckGate.{
  Tasks, observe_optional, observe_optional_target, await_required, wait_for_fanout_ack_gate,
}
use nats_sinks.Fanout.{
  select_targets, select_targets_from, handle_no_route, add_targets, add_target,
}
use nats_sinks.Fanout.Sink.{
  FanoutSink, FanoutOutcome, wrote, failed_with, write_cancelled, never_ends, write_batch,
}
use nats_sinks.Runner.Exec.{Outside, dlq_published, ack_called, History, ◌>>=◌, update_all}
use nats_sinks.Runner.Message.{ack_one, heartbeat}
use nats_sinks.Runner.Settle.{ack_all, settle_each}
use nats_sinks.Runner.Batch.{
  settle_rejections, acknowledge, write_to_sink, schedule_batch, attach_custody, policy_gate,
  size_gate, encrypt_payloads, authenticate_batch, map_batch, process_raw_batch,
}
use nats_sinks.Runner.Batch.Derived.{Derived}
use nats_sinks.Runner.Intake.{fetched, run_pull}
use nats_sinks.Runner.FannedOut.{Answers, Copied, run_pull-Copied}
use nats_sinks.Fixtures.{
  plain_text, two_routes, slow_audit, first_events, older_events, message, willing, deployment,
}

abbrev two_children : FanoutSink
two_children = record { children = "store" ∷ "audit" ∷ []; routing = two_routes }

abbrev answer_of : FanoutOutcome → Option Error
answer_of wrote = none
answer_of (failed_with e) = some e
answer_of write_cancelled = some unexpected
answer_of never_ends = some unexpected

answer_of-Answers : (outcome : FanoutOutcome) → Answers outcome (answer_of outcome)
answer_of-Answers wrote = refl
answer_of-Answers (failed_with e) = refl
answer_of-Answers write_cancelled = λ h. cc
answer_of-Answers never_ends = λ h. cc

abbrev always_slow : History → List (String × List NatsEnvelope) → Tasks
always_slow h operations = slow_audit

abbrev at_zero : History → ℕ
at_zero h = 0

abbrev fanning : Outside
fanning = record willing {
  write_batch = λ h envelopes.
      answer_of (write_batch plain_text (λ operations. slow_audit) 0 two_children envelopes);
}

abbrev fanned_history : History
fanned_history = (run_pull fanning deployment (fetched (message 1 ∷ []) ∷ []) []).1

run_pull-Copied_example :
    (e : NatsEnvelope) × Derived deployment (message 1) e
    × (Any (λ event. event ≡ dlq_published e) (older_events 4 fanned_history)
        ⊎ Copied plain_text two_children always_slow at_zero fanning e
            (older_events 4 fanned_history))
unfolding run_pull process_raw_batch map_batch authenticate_batch encrypt_payloads size_gate
    policy_gate settle_rejections attach_custody schedule_batch write_to_sink acknowledge ack_all
    settle_each ack_one heartbeat update_all evaluate_size_policy evaluate_pre_sink_policy
    order_by_priority_lanes ◌>>=◌ collect_from write_batch select_route_targets select_from
    append_targets has_target route_matches_envelope headers_match subject_matches
    metadata_value_matches matches_subject match_tokens wait_for_fanout_ack_gate await_required
    observe_optional observe_optional_target select_targets select_targets_from handle_no_route
    add_targets add_target
run_pull-Copied_example =
    run_pull-Copied plain_text two_children always_slow at_zero fanning deployment
      (λ h envelopes.
        answer_of-Answers
          (write_batch plain_text (λ operations. slow_audit) 0 two_children envelopes))
      (fetched (message 1 ∷ []) ∷ []) (message 1) (ack_called (message 1))
      (first_events 3 fanned_history) (older_events 4 fanned_history)
      (omega arith, (omega arith, tt)) (inl refl) refl
