-- ===== src/Runner/Batch/Progress.antt =====
-- Proofs about core/runner.py: the end of `process_raw_batch` when the sink commits.
use nats_sinks.Common.{◌≡◌, refl, false, List, [], ◌∷◌, none, length}
use nats_sinks.Errors.{ok}
use nats_sinks.Envelope.{NatsEnvelope}
use nats_sinks.Metrics.{
  Update, increment, gauge, observe, messages_prepared, current_batch_messages,
  sink_batch_write_seconds, sink_batches_written, messages_written, message_ack_seconds,
  messages_acked, last_sink_success,
}
use nats_sinks.Runner.Exec.{
  RawMessage, sink_called, committed, metric, History, pure, ◌>>=◌, update_all, replied, Outside,
}
use nats_sinks.Runner.Message.{InProgressConfig, heartbeat}
use nats_sinks.Runner.Settle.Progress.{acks_after, ack_all-replied}
use nats_sinks.Runner.Batch.{Setup, acknowledge, write_to_sink}

abbrev pub updates_after : List Update → History → History
updates_after [] h = h
updates_after (u ∷ updates) h = updates_after updates (metric u ∷ h)

update_all-returns :
    (updates : List Update) (h : History) → update_all updates h ≡ (ok tt, updates_after updates h)
unfolding update_all ◌>>=◌
update_all-returns [] h = refl
update_all-returns (u ∷ updates) h = update_all-returns updates (metric u ∷ h)

heartbeat-off :
    (outside : Outside) (config : InProgressConfig) (messages : List RawMessage) (h : History)
    → config.enabled ≡ false
    → heartbeat outside config messages h ≡ (ok tt, h)
unfolding heartbeat pure
heartbeat-off outside config messages h off = rw off refl

-- What the sink's success leaves behind, up to the acknowledgements.
abbrev pub stored_so_far : Setup → List NatsEnvelope → History → History
stored_so_far setup envelopes h = updates_after (setup.freshness envelopes) (
    metric (increment messages_written (length envelopes))
    ∷ metric (increment sink_batches_written 1)
    ∷ metric (observe sink_batch_write_seconds)
    ∷ committed envelopes
    ∷ sink_called envelopes
    ∷ metric (gauge current_batch_messages (length envelopes))
    ∷ metric (increment messages_prepared (length envelopes))
    ∷ h)

module _ (outside : Outside) (setup : Setup)
    (plain : setup.delivery.ack_confirmation.enabled ≡ false)
    (quiet : setup.delivery.in_progress.enabled ≡ false)
    (commits : (h : History) (envelopes : List NatsEnvelope)
      → outside.write_batch h envelopes ≡ none)
    (replies : (h : History) (m : RawMessage) → outside.ack h m ≡ replied) where
  -- Without confirmation and heartbeats, if the sink commits every batch and every acknowledgement
  -- returns: the write returns, and its history is the call of the sink, the commit, and then an
  -- acknowledgement of every message in their order, with the metrics between them.
  pub write_to_sink-acks_after :
      (messages : List RawMessage) (envelopes : List NatsEnvelope) (h : History)
      → write_to_sink outside setup messages envelopes h ≡ (
        ok tt,
        metric (gauge last_sink_success 0)
            ∷ metric (increment messages_acked (length messages))
            ∷ metric (observe message_ack_seconds)
            ∷ acks_after messages (stored_so_far setup envelopes h),
      )
  unfolding write_to_sink acknowledge ◌>>=◌
  write_to_sink-acks_after messages envelopes h =
      rw
        (
          heartbeat-off outside setup.delivery.in_progress messages _ quiet,
          commits _ envelopes,
          update_all-returns (setup.freshness envelopes) _,
          ack_all-replied outside setup.delivery setup.dead_letter plain replies messages _,
        )
        refl
