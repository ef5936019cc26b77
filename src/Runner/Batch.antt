-- ===== src/Runner/Batch.antt =====
-- core/runner.py, `process_raw_batch`: a batch of messages on its way through mapping, authenticity,
-- encryption, the size gate, the policy gate, custody and scheduling to the sink.
-- The mapping, the authenticator, the encryptor and the custody hash are parameters.
pub mod Derived
pub mod Cleared
pub mod Safety
pub mod Pipeline
pub mod Progress
use nats_sinks.Common.{
  ℕ, zero, suc, Bool, true, false, not, List, [], ◌∷◌, Option, none, some, length, is_empty,
  PythonText, if◌then◌else◌,
}
use nats_sinks.Errors.{Error, is_permanent, is_sink_error, Result, ok, err, collect_from}
use nats_sinks.Envelope.{Fields, NatsEnvelope}
use nats_sinks.Metrics.{
  Metric, Update, increment, gauge, observe, messages_fetched, batches_fetched,
  message_mapping_seconds, normalization_errors, authenticity_messages_passed,
  authenticity_batches_passed, authenticity_messages_rejected, authenticity_batches_rejected,
  authenticity_evaluation_errors, payload_encryption_errors, size_policy_messages_passed,
  size_policy_batches_passed, size_policy_messages_rejected, size_policy_batches_rejected,
  size_policy_evaluation_errors, policy_messages_passed, policy_batches_passed,
  policy_messages_rejected, policy_batches_rejected, policy_evaluation_errors, messages_prepared,
  current_batch_messages, sink_write_errors, sink_batch_write_seconds, sink_batches_written,
  messages_written, message_ack_seconds, messages_acked, last_sink_success,
}
use nats_sinks.Gate.{Evaluation, has_rejections, pick}
use nats_sinks.Policy.{PreSinkPolicyConfig, PolicyViolation, evaluate_pre_sink_policy}
use nats_sinks.SizePolicy.{SizePolicyConfig, SizePolicyViolation, evaluate_size_policy}
use nats_sinks.Priority.{PriorityLanesConfig, order_by_priority_lanes}
use nats_sinks.Runner.Exec.{
  RawMessage, Event, sink_called, committed, write_raised, History, Exec, pure, raise, lift, emit,
  ask, attempt, continue, ◌>>=◌, ◌>>◌, update, update_if, update_all, Outside,
}
use nats_sinks.Runner.Message.{heartbeat}
use nats_sinks.Runner.Settle.{
  DeadLetterConfig, DeliveryConfig, ack_all, handle_permanent_failure, handle_policy_rejections,
  handle_temporary_failure,
}

-- What a `JetStreamSinkRunner` is made with. The first argument of `normalize` and `encrypt` stands
-- for what they draw afresh: the time of receipt and the nonce.
pub record Setup : Type 0 where
  pub python : PythonText
  pub normalize : ℕ → RawMessage → Result NatsEnvelope
  pub normalize_fallback : ℕ → RawMessage → Result NatsEnvelope
  pub authenticate : Option (List NatsEnvelope → Result (Evaluation (Unit {0})))
  pub encrypt : Option (ℕ → NatsEnvelope → Result NatsEnvelope)
  pub custody : Option (ℕ → NatsEnvelope → Result NatsEnvelope)
  pub is_encrypted : List ℕ → Result Bool
  pub fields_size : Fields → Result ℕ
  pub metadata_size : NatsEnvelope → Result ℕ
  pub freshness : List NatsEnvelope → List Update
  pub size_policy : SizePolicyConfig
  pub pre_sink_policy : PreSinkPolicyConfig
  pub priority_lanes : PriorityLanesConfig
  pub delivery : DeliveryConfig
  pub dead_letter : DeadLetterConfig

-- The four counters of a gate.
pub record GateMetrics : Type 0 where
  pub messages_passed : Metric
  pub batches_passed : Metric
  pub messages_rejected : Metric
  pub batches_rejected : Metric

abbrev authenticity_metrics : GateMetrics
authenticity_metrics = record {
  messages_passed = authenticity_messages_passed;
  batches_passed = authenticity_batches_passed;
  messages_rejected = authenticity_messages_rejected;
  batches_rejected = authenticity_batches_rejected;
}

abbrev size_policy_metrics : GateMetrics
size_policy_metrics = record {
  messages_passed = size_policy_messages_passed;
  batches_passed = size_policy_batches_passed;
  messages_rejected = size_policy_messages_rejected;
  batches_rejected = size_policy_batches_rejected;
}

abbrev policy_metrics : GateMetrics
policy_metrics = record {
  messages_passed = policy_messages_passed;
  batches_passed = policy_batches_passed;
  messages_rejected = policy_messages_rejected;
  batches_rejected = policy_batches_rejected;
}

unfoldable pub count_gate : {V : Type 0} → GateMetrics → Evaluation V → Exec (Unit {0})
count_gate metrics evaluation = do
  update_if (not (is_empty evaluation.accepted_indexes))
      (increment metrics.messages_passed (length evaluation.accepted_indexes))
  update_if (not (is_empty evaluation.accepted_indexes)) (increment metrics.batches_passed 1)
  update_if (has_rejections evaluation)
      (increment metrics.messages_rejected (length evaluation.rejected_indexes))
  update_if (has_rejections evaluation) (increment metrics.batches_rejected 1)

-- The messages of a batch that are still under way, with their envelopes.
abbrev pub Stage : Type 0
Stage = List RawMessage → List NatsEnvelope → Exec (Unit {0})

module _ (outside : Outside) (setup : Setup) where
  abbrev pub permanent_failure : Stage
  permanent_failure = handle_permanent_failure outside setup.delivery setup.dead_letter

  abbrev pub policy_rejections : Stage
  policy_rejections = handle_policy_rejections outside setup.delivery setup.dead_letter

  abbrev pub temporary_failure : Metric → List RawMessage → Exec (Unit {0})
  temporary_failure = handle_temporary_failure outside setup.delivery setup.dead_letter

  -- `if not raw_message_list: return`
  abbrev pub unless_empty : Stage → Stage
  unless_empty next messages envelopes =
      if is_empty messages then pure tt else next messages envelopes

  -- The part of a batch that a gate rejects is settled, the rest goes on.
  unfoldable pub settle_rejections : {V : Type 0} → Evaluation V → Stage → Stage
  settle_rejections evaluation next messages envelopes =
      if not (has_rejections evaluation) then next messages envelopes else do
        rejected ← lift (pick evaluation.rejected_indexes messages)
        rejected_envelopes ← lift (pick evaluation.rejected_indexes envelopes)
        policy_rejections rejected rejected_envelopes
        accepted ← lift (pick evaluation.accepted_indexes messages)
        accepted_envelopes ← lift (pick evaluation.accepted_indexes envelopes)
        unless_empty next accepted accepted_envelopes

  -- `except PermanentSinkError` and `except Exception` of the stages before the sink.
  pub handle_stage_error : Metric → Error → Stage
  handle_stage_error error_metric e messages envelopes =
      if is_permanent e
      then policy_rejections messages envelopes
      else temporary_failure error_metric messages

  -- What follows a write of the sink that returned.
  unfoldable pub acknowledge : Stage
  acknowledge messages envelopes = do
    update (observe sink_batch_write_seconds)
    update (increment sink_batches_written 1)
    update (increment messages_written (length envelopes))
    update_all (setup.freshness envelopes)
    ack_all outside setup.delivery setup.dead_letter messages
    update (observe message_ack_seconds)
    update (increment messages_acked (length messages))
    update (gauge last_sink_success 0)

  -- Every class of error that is not permanent ends in the same handler.
  abbrev pub after_write : Option Error → Stage
  after_write none messages envelopes = do
    emit (committed envelopes)
    acknowledge messages envelopes
  after_write (some e) messages envelopes =
      emit (write_raised envelopes)
      >> (if is_permanent e
          then permanent_failure messages envelopes
          else temporary_failure sink_write_errors messages)

  unfoldable pub write_to_sink : Stage
  write_to_sink messages envelopes = do
    update (increment messages_prepared (length envelopes))
    update (gauge current_batch_messages (length envelopes))
    emit (sink_called envelopes)
    heartbeat outside setup.delivery.in_progress messages
    outcome ← ask λ h. outside.write_batch h envelopes
    after_write outcome messages envelopes

  -- Scheduling: only a permanent error is caught.
  abbrev pub after_schedule :
      List RawMessage → List NatsEnvelope → Result (List NatsEnvelope) → Exec (Unit {0})
  after_schedule messages envelopes (ok ordered) = write_to_sink messages ordered
  after_schedule messages envelopes (err e) =
      if is_permanent e then permanent_failure messages envelopes else raise e

  unfoldable pub schedule_batch : Stage
  schedule_batch messages envelopes = do
    update_all (order_by_priority_lanes setup.python envelopes setup.priority_lanes).1
    after_schedule messages envelopes
        (order_by_priority_lanes setup.python envelopes setup.priority_lanes).0

  abbrev pub after_custody :
      List RawMessage → List NatsEnvelope → Result (List NatsEnvelope) → Exec (Unit {0})
  after_custody messages envelopes (ok attached) = schedule_batch messages attached
  after_custody messages envelopes (err e) =
      handle_stage_error normalization_errors e messages envelopes

  -- `attach_custody_metadata`
  unfoldable pub attach_custody : Stage
  attach_custody messages envelopes = elim setup.custody [
    | none ↦ schedule_batch messages envelopes
    | some compute ↦ after_custody messages envelopes (collect_from compute 0 envelopes)
  ]

  abbrev pub after_policy :
      List RawMessage → List NatsEnvelope → Result (Evaluation PolicyViolation) → Exec (Unit {0})
  after_policy messages envelopes (ok evaluation) =
      (if setup.pre_sink_policy.enabled then count_gate policy_metrics evaluation else pure tt)
      >> settle_rejections evaluation attach_custody messages envelopes
  after_policy messages envelopes (err e) =
      handle_stage_error policy_evaluation_errors e messages envelopes

  unfoldable pub policy_gate : Stage
  policy_gate messages envelopes =
      after_policy messages envelopes
        (evaluate_pre_sink_policy setup.is_encrypted envelopes setup.pre_sink_policy)

  abbrev pub after_size :
      List RawMessage
      → List NatsEnvelope
      → Result (Evaluation SizePolicyViolation)
      → Exec (Unit {0})
  after_size messages envelopes (ok evaluation) =
      (if setup.size_policy.enabled then count_gate size_policy_metrics evaluation else pure tt)
      >> settle_rejections evaluation policy_gate messages envelopes
  after_size messages envelopes (err e) =
      handle_stage_error size_policy_evaluation_errors e messages envelopes

  unfoldable pub size_gate : Stage
  size_gate messages envelopes =
      after_size messages envelopes
        (evaluate_size_policy setup.fields_size setup.metadata_size envelopes setup.size_policy)

  abbrev pub after_encryption : List RawMessage → Result (List NatsEnvelope) → Exec (Unit {0})
  after_encryption messages (ok encrypted) = size_gate messages encrypted
  after_encryption messages (err e) = temporary_failure payload_encryption_errors messages

  -- `encrypt_batch`, whose nonces depend on all that happened before.
  unfoldable pub encrypt_payloads : Stage
  encrypt_payloads messages envelopes = elim setup.encrypt [
    | none ↦ size_gate messages envelopes
    | some encrypt_envelope ↦ do
      encrypted ← ask λ h. collect_from encrypt_envelope (length h) envelopes
      after_encryption messages encrypted
  ]

  abbrev pub after_authentication :
      List RawMessage → List NatsEnvelope → Result (Evaluation (Unit {0})) → Exec (Unit {0})
  after_authentication messages envelopes (ok evaluation) =
      count_gate authenticity_metrics evaluation
      >> settle_rejections evaluation encrypt_payloads messages envelopes
  after_authentication messages envelopes (err e) =
      handle_stage_error authenticity_evaluation_errors e messages envelopes

  unfoldable pub authenticate_batch : Stage
  authenticate_batch messages envelopes = elim setup.authenticate [
    | none ↦ encrypt_payloads messages envelopes
    | some evaluate ↦ after_authentication messages envelopes (evaluate envelopes)
  ]

  -- Mapping without mission metadata and security labels, for the dead letters.
  abbrev pub after_fallback : List RawMessage → Result (List NatsEnvelope) → Exec (Unit {0})
  after_fallback messages (ok envelopes) = permanent_failure messages envelopes
  after_fallback messages (err e) = temporary_failure normalization_errors messages

  pub map_fallback : List RawMessage → Exec (Unit {0})
  map_fallback messages = do
    envelopes ← ask λ h. collect_from setup.normalize_fallback (length h) messages
    after_fallback messages envelopes

  abbrev pub after_mapping : List RawMessage → Result (List NatsEnvelope) → Exec (Unit {0})
  after_mapping messages (ok envelopes) = authenticate_batch messages envelopes
  after_mapping messages (err e) =
      if is_permanent e
      then map_fallback messages
      else temporary_failure normalization_errors messages

  unfoldable pub map_batch : List RawMessage → Exec (Unit {0})
  map_batch messages = do
    update (increment messages_fetched (length messages))
    update (increment batches_fetched 1)
    envelopes ← ask λ h. collect_from setup.normalize (length h) messages
    update (observe message_mapping_seconds)
    after_mapping messages envelopes

  unfoldable pub process_raw_batch : List RawMessage → Exec (Unit {0})
  process_raw_batch messages = if is_empty messages then pure tt else map_batch messages
