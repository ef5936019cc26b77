-- ===== src/Runner/Batch/Pipeline.antt =====
-- Proofs about core/runner.py: the stages of `process_raw_batch` one behind the other.
use nats_sinks.Common.{
  ℕ, inl, inr, All, All-weaken, ◌≡◌, refl, List, Option, none, some, length, is_empty,
}
use nats_sinks.Errors.{is_permanent, Result, ok, err, collect_from}
use nats_sinks.Envelope.{NatsEnvelope}
use nats_sinks.Gate.{Evaluation}
use nats_sinks.Policy.{PolicyViolation, evaluate_pre_sink_policy}
use nats_sinks.SizePolicy.{SizePolicyViolation, evaluate_size_policy}
use nats_sinks.Priority.Lossless.{Weighted, Orders, order_by_priority_lanes-Orders}
use nats_sinks.Runner.Exec.{RawMessage, History, ask, ◌>>=◌, Outside}
use nats_sinks.Runner.Exec.Safely.{Safely-pure, Safely-raise, Safely-if, Safely-then, Safely-asked}
use nats_sinks.Runner.Exec.Ledger.{Safely-update, Safely-update_all}
use nats_sinks.Runner.Settle.Safety.{Covered}
use nats_sinks.Runner.Batch.{
  Setup, after_schedule, schedule_batch, after_custody, attach_custody, after_policy, policy_gate,
  after_size, size_gate, after_encryption, encrypt_payloads, after_authentication,
  authenticate_batch, after_fallback, map_fallback, after_mapping, map_batch, process_raw_batch,
}
use nats_sinks.Runner.Batch.Derived.{
  Derived, mapped, mapped_fallback, encrypted, attached, collect_from-All₂,
}
use nats_sinks.Runner.Batch.Cleared.{
  Cleared, BeforeSize, Small, Permitted, Authentic, IsVouched, LetsThrough-both, LetsThrough-weaken,
  policy-LetsThrough, size_policy-LetsThrough, cleared, Becomes-same, Becomes-All, All-perm,
  All-every, delivery_terms,
}
use nats_sinks.Runner.Batch.Safety.{
  GatedStage, SafeStage, SafeBatch, Paired-collect, covered, Covered-by_perm,
  Safely-permanent_failure, Safely-temporary_failure, Safely-handle_stage_error, Safely-count_gate,
  Safely-settle_rejections, Safely-write_to_sink,
}

module _ (outside : Outside) (setup : Setup) (trusted : NatsEnvelope → Type 0)
    (vouched : IsVouched trusted setup) (weighted : Weighted setup.priority_lanes.lanes) where
  PermittedToo : NatsEnvelope → Type 0
  PermittedToo e = (BeforeSize trusted setup e × Small trusted setup e) × Permitted trusted setup e

  Safely-after_schedule :
      {start : History} (messages : List RawMessage) (envelopes : List NatsEnvelope)
      (outcome : Result (List NatsEnvelope))
      → Orders envelopes outcome
      → Covered (Derived setup) messages envelopes
      → All (Cleared trusted setup) envelopes
      → SafeBatch outside setup trusted start
          (after_schedule outside setup messages envelopes outcome)
  unfolding Orders
  Safely-after_schedule messages envelopes (ok ordered) perm c clear =
      Safely-write_to_sink outside setup trusted messages ordered
        (Covered-by_perm outside setup trusted messages perm c)
        (All-perm (Cleared trusted setup) perm clear)
  Safely-after_schedule messages envelopes (err e) perm c clear =
      Safely-if (is_permanent e) _ _
        (λ _. Safely-permanent_failure outside setup trusted messages envelopes c)
        (λ _. Safely-raise e)

  Safely-schedule_batch :
      GatedStage outside setup trusted (Cleared trusted setup) (schedule_batch outside setup)
  unfolding schedule_batch
  Safely-schedule_batch start messages envelopes p clear =
      Safely-then _ _ (Safely-update_all (delivery_terms trusted setup outside) _) λ _.
        Safely-after_schedule messages envelopes _
          (order_by_priority_lanes-Orders setup.python setup.priority_lanes envelopes weighted)
          (covered outside setup trusted messages envelopes p) clear

  Safely-attach_custody :
      GatedStage outside setup trusted PermittedToo (attach_custody outside setup)
  unfolding attach_custody PermittedToo
  Safely-attach_custody start messages envelopes p good = by_custody setup.custody refl
    where
      after :
          (f : ℕ → NatsEnvelope → Result NatsEnvelope) (outcome : Result (List NatsEnvelope))
          → setup.custody ≡ some f
          → collect_from f 0 envelopes ≡ outcome
          → SafeBatch outside setup trusted start
              (after_custody outside setup messages envelopes outcome)
      after f (ok out) h q =
          Safely-schedule_batch start messages out
            (Paired-collect outside setup trusted f (λ m n e e' k d. attached f n h k d) 0 messages
              envelopes out q p)
            (Becomes-All setup.custody PermittedToo (Cleared trusted setup) (cleared trusted setup)
              f 0 envelopes out h q good)
      after f (err e) h q =
          Safely-handle_stage_error outside setup trusted _ e start messages envelopes p

      by_custody :
          (custody : Option (ℕ → NatsEnvelope → Result NatsEnvelope))
          → setup.custody ≡ custody
          → SafeBatch outside setup trusted start (elim custody [
            | none ↦ schedule_batch outside setup messages envelopes
            | some compute ↦
                after_custody outside setup messages envelopes (collect_from compute 0 envelopes)
          ])
      by_custody none h = Safely-schedule_batch start messages envelopes p (
          All-weaken PermittedToo (Cleared trusted setup) envelopes
            (λ e g. cleared trusted setup e e g (Becomes-same setup.custody h e)) good)
      by_custody (some f) h = after f (collect_from f 0 envelopes) h refl

  Safely-policy_gate :
      GatedStage outside setup trusted
        (λ e. BeforeSize trusted setup e × Small trusted setup e)
        (policy_gate outside setup)
  unfolding policy_gate PermittedToo
  Safely-policy_gate start messages envelopes p good =
      after (evaluate_pre_sink_policy setup.is_encrypted envelopes setup.pre_sink_policy) refl
    where
      after :
          (outcome : Result (Evaluation PolicyViolation))
          → evaluate_pre_sink_policy setup.is_encrypted envelopes setup.pre_sink_policy ≡ outcome
          → SafeBatch outside setup trusted start
              (after_policy outside setup messages envelopes outcome)
      after (ok evaluation) q =
          Safely-then _ _
            (Safely-if setup.pre_sink_policy.enabled _ _
              (λ _. Safely-count_gate outside setup trusted _ _) (λ _. Safely-pure tt))
            λ _.
              Safely-settle_rejections outside setup trusted _ _ Safely-attach_custody start
                messages envelopes p
                (LetsThrough-both _ _ envelopes _ good
                  (policy-LetsThrough trusted setup envelopes evaluation q))
      after (err e) q =
          Safely-handle_stage_error outside setup trusted _ e start messages envelopes p

  Safely-size_gate :
      GatedStage outside setup trusted (BeforeSize trusted setup) (size_gate outside setup)
  unfolding size_gate
  Safely-size_gate start messages envelopes p good =
      after (evaluate_size_policy setup.fields_size setup.metadata_size envelopes setup.size_policy)
        refl
    where
      after :
          (outcome : Result (Evaluation SizePolicyViolation))
          → evaluate_size_policy setup.fields_size setup.metadata_size envelopes setup.size_policy
            ≡ outcome
          → SafeBatch outside setup trusted start
              (after_size outside setup messages envelopes outcome)
      after (ok evaluation) q =
          Safely-then _ _
            (Safely-if setup.size_policy.enabled _ _
              (λ _. Safely-count_gate outside setup trusted _ _) (λ _. Safely-pure tt))
            λ _.
              Safely-settle_rejections outside setup trusted _ _ Safely-policy_gate start messages
                envelopes p
                (LetsThrough-both _ _ envelopes _ good
                  (size_policy-LetsThrough trusted setup envelopes evaluation q))
      after (err e) q =
          Safely-handle_stage_error outside setup trusted _ e start messages envelopes p

  Safely-encrypt_payloads :
      GatedStage outside setup trusted (Authentic trusted setup) (encrypt_payloads outside setup)
  unfolding encrypt_payloads
  Safely-encrypt_payloads start messages envelopes p good = by_encryptor setup.encrypt refl
    where
      after :
          (f : ℕ → NatsEnvelope → Result NatsEnvelope) (n : ℕ)
          (outcome : Result (List NatsEnvelope))
          → setup.encrypt ≡ some f
          → collect_from f n envelopes ≡ outcome
          → SafeBatch outside setup trusted start (after_encryption outside setup messages outcome)
      after f n (ok out) h q =
          Safely-size_gate start messages out
            (Paired-collect outside setup trusted f (λ m k e e' r d. encrypted f k h r d) n messages
              envelopes out q p)
            (Becomes-All setup.encrypt (Authentic trusted setup) (BeforeSize trusted setup)
              (λ e e' g b. (e, g, b)) f n envelopes out h q good)
      after f n (err e) h q = Safely-temporary_failure outside setup trusted _ messages

      by_encryptor :
          (encrypt : Option (ℕ → NatsEnvelope → Result NatsEnvelope))
          → setup.encrypt ≡ encrypt
          → SafeBatch outside setup trusted start (elim encrypt [
            | none ↦ size_gate outside setup messages envelopes
            | some f ↦ (ask λ h. collect_from f (length h) envelopes) >>= λ e.
                after_encryption outside setup messages e
          ])
      by_encryptor none h = Safely-size_gate start messages envelopes p (
          All-weaken (Authentic trusted setup) (BeforeSize trusted setup) envelopes
            (λ e g. (e, g, Becomes-same setup.encrypt h e)) good)
      by_encryptor (some f) h =
          Safely-asked (λ w. collect_from f (length w) envelopes) _
            λ w. after f (length w) (collect_from f (length w) envelopes) h refl

  Safely-authenticate_batch : SafeStage outside setup trusted (authenticate_batch outside setup)
  unfolding authenticate_batch
  Safely-authenticate_batch start messages envelopes p = by_authenticator setup.authenticate refl
    where
      after :
          (evaluate : List NatsEnvelope → Result (Evaluation (Unit {0})))
          (outcome : Result (Evaluation (Unit {0})))
          → setup.authenticate ≡ some evaluate
          → evaluate envelopes ≡ outcome
          → SafeBatch outside setup trusted start
              (after_authentication outside setup messages envelopes outcome)
      after evaluate (ok evaluation) h q =
          Safely-then _ _ (Safely-count_gate outside setup trusted _ _) λ _.
            Safely-settle_rejections outside setup trusted _ _ Safely-encrypt_payloads start
              messages envelopes p
              (LetsThrough-weaken trusted evaluation envelopes (Authentic trusted setup)
                (λ e t. inr t) (vouched evaluate envelopes evaluation h q))
      after evaluate (err e) h q =
          Safely-handle_stage_error outside setup trusted _ e start messages envelopes p

      by_authenticator :
          (authenticate : Option (List NatsEnvelope → Result (Evaluation (Unit {0}))))
          → setup.authenticate ≡ authenticate
          → SafeBatch outside setup trusted start (elim authenticate [
            | none ↦ encrypt_payloads outside setup messages envelopes
            | some evaluate ↦
                after_authentication outside setup messages envelopes (evaluate envelopes)
          ])
      by_authenticator none h =
          Safely-encrypt_payloads start messages envelopes p
            (All-every (Authentic trusted setup) (λ e. inl h) envelopes)
      by_authenticator (some evaluate) h = after evaluate (evaluate envelopes) h refl

  Safely-map_fallback :
      {start : History} (messages : List RawMessage)
      → SafeBatch outside setup trusted start (map_fallback outside setup messages)
  unfolding map_fallback
  Safely-map_fallback {start} messages =
      Safely-asked (λ h. collect_from setup.normalize_fallback (length h) messages) _
        λ h. after (length h) (collect_from setup.normalize_fallback (length h) messages) refl
    where
      after :
          (n : ℕ) (outcome : Result (List NatsEnvelope))
          → collect_from setup.normalize_fallback n messages ≡ outcome
          → SafeBatch outside setup trusted start (after_fallback outside setup messages outcome)
      after n (ok envelopes) q = Safely-permanent_failure outside setup trusted messages envelopes (
          covered outside setup trusted messages envelopes (
            collect_from-All₂ (Derived setup) setup.normalize_fallback
              (λ k m e r. mapped_fallback k r) n messages envelopes q))
      after n (err e) q = Safely-temporary_failure outside setup trusted _ messages

  Safely-map_batch :
      {start : History} (messages : List RawMessage)
      → SafeBatch outside setup trusted start (map_batch outside setup messages)
  unfolding map_batch
  Safely-map_batch {start} messages =
      Safely-then _ _ (Safely-update (delivery_terms trusted setup outside) _) λ _.
        Safely-then _ _ (Safely-update (delivery_terms trusted setup outside) _) λ _.
          Safely-asked (λ h. collect_from setup.normalize (length h) messages) _
            λ h.
              Safely-then _ _ (Safely-update (delivery_terms trusted setup outside) _)
                λ _. after (length h) (collect_from setup.normalize (length h) messages) refl
    where
      after :
          (n : ℕ) (outcome : Result (List NatsEnvelope))
          → collect_from setup.normalize n messages ≡ outcome
          → SafeBatch outside setup trusted start (after_mapping outside setup messages outcome)
      after n (ok envelopes) q = Safely-authenticate_batch start messages envelopes (
          collect_from-All₂ (Derived setup) setup.normalize (λ k m e r. mapped k r) n messages
            envelopes q)
      after n (err e) q =
          Safely-if (is_permanent e) _ _ (λ _. Safely-map_fallback messages)
            (λ _. Safely-temporary_failure outside setup trusted _ messages)

  pub Safely-process_raw_batch :
      {start : History} (messages : List RawMessage)
      → SafeBatch outside setup trusted start (process_raw_batch outside setup messages)
  unfolding process_raw_batch
  Safely-process_raw_batch messages =
      Safely-if (is_empty messages) _ _ (λ _. Safely-pure tt) (λ _. Safely-map_batch messages)
