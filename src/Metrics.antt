-- ===== src/Metrics.antt =====
-- core/metrics.py: the updates that the core makes of its metrics recorder. Times are not modelled:
-- an observed duration is an update with no value.

use nats_sinks.Common.{ℕ}

pub data Metric : Type 0 where
  messages_fetched batches_fetched message_mapping_seconds normalization_errors : Metric
  authenticity_messages_passed authenticity_batches_passed : Metric
  authenticity_messages_rejected authenticity_batches_rejected : Metric
  authenticity_evaluation_errors payload_encryption_errors : Metric
  size_policy_messages_passed size_policy_batches_passed : Metric
  size_policy_messages_rejected size_policy_batches_rejected size_policy_evaluation_errors : Metric
  policy_messages_passed policy_batches_passed : Metric
  policy_messages_rejected policy_batches_rejected policy_evaluation_errors : Metric
  priority_lane_batches priority_lane_messages priority_lanes_active : Metric
  priority_lane_defaulted priority_lane_rejected : Metric
  messages_prepared current_batch_messages sink_batch_write_seconds sink_batches_written : Metric
  messages_written messages_acked message_ack_seconds message_term_seconds : Metric
  last_sink_success messages_failed sink_write_errors retry_backoff_delay messages_dlq : Metric
  dlq_publish_errors ack_errors ack_confirmation_unsupported ack_confirmation_attempts : Metric
  ack_confirmation_seconds ack_confirmation_timeouts ack_confirmation_failures : Metric
  ack_confirmation_successes messages_terminated term_errors messages_nacked : Metric
  in_progress_active in_progress_attempts in_progress_successes in_progress_failures : Metric
  in_progress_seconds in_progress_max_reached event_freshness : Metric

-- `increment_metric`, `set_metric_value` and `observe_metric` of one metric.
pub data Update : Type 0 where
  increment : Metric → ℕ → Update
  gauge : Metric → ℕ → Update
  observe : Metric → Update
