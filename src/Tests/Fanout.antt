-- ===== src/Tests/Fanout.antt =====
-- The theorems about batches, the gate and the fan-out sink, applied to sample values.
use nats_sinks.Common.{
  ℕ, ◌+◌, ◌*◌, ◌≤◌, ◌≡◌, ◌↔◌, ◌⊎◌, refl, max, Bool, true, false, not, List, [], ◌∷◌, map, none,
  some, str_eq, All, Any, arith, sorted_texts, filter_by, if◌then◌else◌,
}
use nats_sinks.Errors.{ok, err, permanent_sink_error, temporary_sink_error}
use nats_sinks.Batching.{chunked}
use nats_sinks.Batching.Laws.{Batches, chunked-Batches}
use nats_sinks.Routing.{
  select_route_targets, select_from, append_targets, has_target, route_matches_envelope,
  headers_match, subject_matches, metadata_value_matches,
}
use nats_sinks.Subjects.{matches_subject, match_tokens}
use nats_sinks.AckGate.{
  TaskEnd, IsPrompt, succeeded, raised, task_error, returns, raises, FanoutAckGateResult, committed,
  timed_out, failed, required_committed, observe_optional, observe_optional_target, await_required,
  wait_for_fanout_ack_gate,
}
use nats_sinks.AckGate.Required.{Succeeded, wait_for_fanout_ack_gate-required}
use nats_sinks.AckGate.Optional.{EndsBy, cancellations, wait_for_fanout_ack_gate-EndsBy}
use nats_sinks.AckGate.Raises.{RaisesOnly, IsBehind, wait_for_fanout_ack_gate-RaisesOnly}
use nats_sinks.Fanout.{
  SelectedTarget, select_targets, select_targets_from, handle_no_route, add_targets, add_target,
}
use nats_sinks.Fanout.Sink.{FanoutSink, operations_of, write_batch}
use nats_sinks.Fanout.Writes.{Stored, write_batch-Stored}
use nats_sinks.Fanout.Children.{Starts, start, stop, stops, reversed_onto, start-Starts, stop-all}
use nats_sinks.Fixtures.{
  plain_text, two_routes, envelope, slow_audit, end_of, wait_of, store_and_audit, calls,
}

abbrev one_two_three : List ℕ
one_two_three = 1 ∷ 2 ∷ 3 ∷ []

chunked-Batches_example :
    (batches : List (List ℕ)) × (chunked one_two_three 2 ≡ ok batches)
    × Batches 2 one_two_three batches
chunked-Batches_example = chunked-Batches one_two_three 2 (omega arith)

pub slow_audit-IsPrompt : IsPrompt 5 slow_audit
slow_audit-IsPrompt = record {
  done_at_once = λ t sink h. (succeeded, done_at_once t (str_eq sink "audit") h);
  by_deadline = λ t sink w. by_deadline t w (str_eq sink "audit");
  ended = λ t sink w end. ended t w end (str_eq sink "audit");
}
  where
    done_at_once : (t : ℕ) (b : Bool) → not b ≡ true → end_of b t ≡ some (t, succeeded)
    done_at_once t true h = cc
    done_at_once t false h = refl

    by_deadline : (t w : ℕ) (b : Bool) → (wait_of b t w).0 ≤ t + w + 5
    by_deadline t w true = omega arith
    by_deadline t w false = omega arith

    ended :
        (t w : ℕ) (end : TaskEnd) (b : Bool)
        → (wait_of b t w).1 ≡ some end
        → end_of b (wait_of b t w).0 ≡ some ((wait_of b t w).0, end)
    ended t w end true h = cc
    ended t w end false h = cc

-- `audit` is given its ten milliseconds, and no more.
abbrev released : FanoutAckGateResult
released = record {
  required = record { sink = "store"; required = true; status = committed; error_type = none } ∷ [];
  optional =
      record { sink = "audit"; required = false; status = timed_out; error_type = none } ∷ [];
}

wait_for_fanout_ack_gate-required_example :
    All (λ target. target.required ≡ true → Succeeded slow_audit target.sink) store_and_audit
    × (required_committed released
        ≡ map (λ target. target.sink) (filter_by (λ target. target.required) store_and_audit))
unfolding wait_for_fanout_ack_gate await_required observe_optional observe_optional_target
wait_for_fanout_ack_gate-required_example =
    wait_for_fanout_ack_gate-required slow_audit ("store" ∷ "audit" ∷ []) store_and_audit 0 10_000
      released refl

wait_for_fanout_ack_gate-EndsBy_example :
    EndsBy
      (max 0 (0 + 50 * 1000 + 999) + cancellations 5 store_and_audit)
      (wait_for_fanout_ack_gate slow_audit ("store" ∷ "audit" ∷ []) store_and_audit 0)
unfolding await_required
wait_for_fanout_ack_gate-EndsBy_example =
    wait_for_fanout_ack_gate-EndsBy 5 slow_audit slow_audit-IsPrompt ("store" ∷ "audit" ∷ [])
      store_and_audit 50 0 0 released.required refl ((λ h. cc), ((λ h. omega arith), tt)) refl

wait_for_fanout_ack_gate-RaisesOnly_example :
    RaisesOnly
      (λ e. Any (IsBehind slow_audit ("store" ∷ []) e) store_and_audit)
      (wait_for_fanout_ack_gate slow_audit ("store" ∷ []) store_and_audit 0)
wait_for_fanout_ack_gate-RaisesOnly_example =
    wait_for_fanout_ack_gate-RaisesOnly slow_audit ("store" ∷ []) store_and_audit 0

start-Starts_example :
    Starts calls (sorted_texts ("c" ∷ "b" ∷ "a" ∷ [])) [] (start calls ("c" ∷ "b" ∷ "a" ∷ []))
start-Starts_example = start-Starts calls ("c" ∷ "b" ∷ "a" ∷ [])

stop-all_example :
    ((stop calls ("c" ∷ "b" ∷ "a" ∷ [])).1
      ≡ stops (reversed_onto (sorted_texts ("c" ∷ "b" ∷ "a" ∷ [])) []))
    × (((stop calls ("c" ∷ "b" ∷ "a" ∷ [])).0 ≡ ok tt)
        ⊎ ((stop calls ("c" ∷ "b" ∷ "a" ∷ [])).0 ≡ err temporary_sink_error))
    × ((stop calls ("c" ∷ "b" ∷ "a" ∷ [])).0 ≡ ok tt
        ↔ All
            (λ name. calls.stop name ≡ none)
            (reversed_onto (sorted_texts ("c" ∷ "b" ∷ "a" ∷ [])) []))
stop-all_example = stop-all calls ("c" ∷ "b" ∷ "a" ∷ [])

abbrev fanout : FanoutSink
fanout = record { children = "store" ∷ "audit" ∷ []; routing = two_routes }

write_batch-Stored_example :
    (groups : List SelectedTarget) × (select_targets plain_text two_routes
        (envelope "orders.new" none (1 ∷ []) ∷ [])
      ≡ ok groups)
    × All
        (λ m.
          All
            (λ t.
              Any
                (Stored plain_text (λ operations. slow_audit) 0 groups t m)
                (operations_of groups))
            (select_route_targets plain_text m two_routes).target_policies)
        (envelope "orders.new" none (1 ∷ []) ∷ [])
unfolding write_batch select_route_targets select_from append_targets has_target
    route_matches_envelope headers_match subject_matches metadata_value_matches matches_subject
    match_tokens wait_for_fanout_ack_gate await_required observe_optional observe_optional_target
    select_targets select_targets_from handle_no_route add_targets add_target
write_batch-Stored_example =
    write_batch-Stored plain_text (λ operations. slow_audit) 0 fanout
      (envelope "orders.new" none (1 ∷ []) ∷ []) refl

-- An optional operation that fails while the gate waits for it ends the gate with its error, though
-- one that has failed before is only reported.
optional_error_escapes :
    (wait_for_fanout_ack_gate
        (record slow_audit {
          wait_for = λ t sink w. (t + 1000, some (raised permanent_sink_error));
        })
        ("store" ∷ "audit" ∷ [])
        store_and_audit
        0
      ≡ raises 1000 (task_error (raised permanent_sink_error)))
    × (wait_for_fanout_ack_gate
          (record slow_audit {
            is_done = λ t sink. true;
            awaited = λ t sink.
                if str_eq sink "audit"
                then some (t, raised permanent_sink_error)
                else some (t, succeeded);
          })
          ("store" ∷ "audit" ∷ [])
          store_and_audit
          0
        ≡ returns 0 (record released {
          optional =
              record {
                sink = "audit";
                required = false;
                status = failed;
                error_type = some (raised permanent_sink_error);
              }
              ∷ [];
        }))
unfolding wait_for_fanout_ack_gate await_required observe_optional observe_optional_target
optional_error_escapes = (refl, refl)
