-- ===== src/Tests/Durable.antt =====
-- The theorem about a runner whose sink is the spool, applied to a small one.
use nats_sinks.Common.{refl, inl, List, [], ◌∷◌, arith}
use nats_sinks.Errors.{collect_from}
use nats_sinks.SizePolicy.{evaluate_size_policy}
use nats_sinks.Policy.{evaluate_pre_sink_policy}
use nats_sinks.Priority.{order_by_priority_lanes}
use nats_sinks.Spool.{
  SpoolFile, FileOutcome, lands, plan_records, write_wrapper, write_all, write_batch_sync,
}
use nats_sinks.Runner.Exec.{Outside, ack_called, History, ◌>>=◌, update_all}
use nats_sinks.Runner.Message.{ack_one, heartbeat}
use nats_sinks.Runner.Settle.{ack_all, settle_each}
use nats_sinks.Runner.Batch.{
  settle_rejections, acknowledge, write_to_sink, schedule_batch, attach_custody, policy_gate,
  size_gate, encrypt_payloads, authenticate_batch, map_batch, process_raw_batch,
}
use nats_sinks.Runner.Intake.{fetched, run_pull}
use nats_sinks.Runner.Spooled.{files_after, spool_write}
use nats_sinks.Runner.Spooled.Durable.{Kept, run_pull-Kept}
use nats_sinks.Fixtures.{
  first_events, older_events, message, willing, deployment, small_spool, wrapper_of, two_files,
}
use nats_sinks.Tests.Spool.{name_of}

abbrev every_lands : List SpoolFile → SpoolFile → FileOutcome
every_lands files file = lands

abbrev spooling : Outside
spooling = record willing {
  write_batch = spool_write small_spool name_of wrapper_of every_lands two_files;
}

abbrev spooled_history : History
spooled_history = (run_pull spooling deployment (fetched (message 1 ∷ []) ∷ []) []).1

abbrev files_of_run : History → List SpoolFile
files_of_run = files_after small_spool name_of wrapper_of every_lands two_files

run_pull-Kept_example :
    Kept small_spool name_of wrapper_of every_lands two_files
      (omega arith, omega arith)
      deployment
      (message 1)
      (older_events 4 spooled_history)
      (files_of_run (older_events 4 spooled_history))
    × Kept small_spool name_of wrapper_of every_lands two_files
        (omega arith, omega arith)
        deployment
        (message 1)
        (older_events 4 spooled_history)
        (files_of_run spooled_history)
unfolding run_pull process_raw_batch map_batch authenticate_batch encrypt_payloads size_gate
    policy_gate settle_rejections attach_custody schedule_batch write_to_sink acknowledge ack_all
    settle_each ack_one heartbeat update_all evaluate_size_policy evaluate_pre_sink_policy
    order_by_priority_lanes ◌>>=◌ collect_from spool_write files_after write_batch_sync plan_records
    write_all write_wrapper
run_pull-Kept_example =
    run_pull-Kept small_spool name_of wrapper_of every_lands two_files (omega arith, omega arith)
      spooling deployment (λ h envelopes. refl) (fetched (message 1 ∷ []) ∷ []) (message 1)
      (ack_called (message 1)) (first_events 3 spooled_history) (older_events 4 spooled_history)
      (omega arith, (omega arith, tt)) (inl refl) refl
