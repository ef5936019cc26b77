-- ===== src/Fanout/Writes.antt =====
-- Proofs about core/fanout_sink.py: what a write through the gate has done when it returns.
use nats_sinks.Common.{
  inl, inr, ℕ, ◌≡◌, refl, subst, Bool, true, false, List, [], ◌∷◌, String, PythonText, Any, All,
  All-map, All-weaken, Any-both, all, contains_text,
}
use nats_sinks.Errors.{Result, ok, err}
use nats_sinks.Envelope.{NatsEnvelope}
use nats_sinks.Routing.{RouteTargetConfig, select_route_targets}
use nats_sinks.AckGate.{
  Tasks, FanoutAckGateResult, GateError, Waiting, returns, raises, waits, wait_for_fanout_ack_gate,
  required_sink_error, task_error, succeeded, raised, raised_timeout, cancelled, missing_operation,
  unresolved_wait,
}
use nats_sinks.AckGate.Required.{Succeeded, wait_for_fanout_ack_gate-required}
use nats_sinks.Fanout.{SelectedTarget, select_targets, select_targets_from}
use nats_sinks.Fanout.Groups.{Serves, select_targets-served}
use nats_sinks.Fanout.Sink.{
  FanoutSink, FanoutOutcome, wrote, with_children, after_gate, gate_error, operations_of, sinks_of,
  policies_of, write_groups, write_batch,
}

module _ (python : PythonText) (run : List (String × List NatsEnvelope) → Tasks) (started : ℕ) where
  -- The operation is a write to the target's sink of messages with this one among them. The gate
  -- over the tasks of all the operations returned; and if the target is required, the task of its
  -- sink was awaited and succeeded.
  pub record Stored (groups : List SelectedTarget) (target : RouteTargetConfig)
      (message : NatsEnvelope) (operation : String × List NatsEnvelope) : Type 0 where
    pub same_sink : operation.0 ≡ target.sink
    pub has_message : Any (λ m. m ≡ message) operation.1
    pub released :
        (t : ℕ) × (result : FanoutAckGateResult) × (wait_for_fanout_ack_gate
            (run (operations_of groups))
            (sinks_of groups)
            (policies_of groups)
            started
          ≡ returns t result)
    pub committed : target.required ≡ true → Succeeded (run (operations_of groups)) target.sink

  gate_error≢wrote : (e : GateError) → gate_error e ≡ wrote → ⊥
  unfolding gate_error
  gate_error≢wrote missing_operation h = cc
  gate_error≢wrote unresolved_wait h = cc
  gate_error≢wrote (required_sink_error s e) h = cc
  gate_error≢wrote (task_error succeeded) h = cc
  gate_error≢wrote (task_error (raised e)) h = cc
  gate_error≢wrote (task_error raised_timeout) h = cc
  gate_error≢wrote (task_error cancelled) h = cc

  with_children-wrote :
      (b : Bool) (outcome : FanoutOutcome) → with_children b outcome ≡ wrote → outcome ≡ wrote
  with_children-wrote true outcome h = h
  with_children-wrote false outcome h = cc

  after_gate-returns :
      (gate : Waiting FanoutAckGateResult)
      → after_gate gate ≡ wrote
      → (t : ℕ) × (result : FanoutAckGateResult) × (gate ≡ returns t result)
  after_gate-returns (returns t result) h = (t, result, refl)
  after_gate-returns (raises t e) h = absurd (gate_error≢wrote e h)
  after_gate-returns waits h = cc

  -- The gate over the groups returned.
  IsReleased : List SelectedTarget → Type 0
  IsReleased groups =
      (t : ℕ) × (result : FanoutAckGateResult) × (wait_for_fanout_ack_gate
          (run (operations_of groups)) (sinks_of groups) (policies_of groups) started
        ≡ returns t result)

  -- The groups of a write that returned, each settled as its policy requires.
  write_groups-Settled :
      (sink : FanoutSink) (selected : Result (List SelectedTarget))
      → write_groups python run started sink selected ≡ wrote
      → (groups : List SelectedTarget) × (selected ≡ ok groups)
        × All
            (λ g.
              IsReleased groups
              × (g.policy.required ≡ true → Succeeded (run (operations_of groups)) g.policy.sink))
            groups
  unfolding IsReleased
  write_groups-Settled sink (err e) h = cc
  write_groups-Settled sink (ok []) h = ([], refl, tt)
  write_groups-Settled sink (ok (g ∷ groups)) h =
      let (t, result, released) =
        after_gate-returns
          (wait_for_fanout_ack_gate (run (operations_of (g ∷ groups))) (sinks_of (g ∷ groups))
            (policies_of (g ∷ groups)) started)
          (with_children-wrote (all (contains_text sink.children) (sinks_of (g ∷ groups))) _ h) in
      (
        g ∷ groups,
        refl,
        All-weaken _ _ (g ∷ groups) (λ m settled. ((t, result, released), settled))
            (All-map _ (λ (g : SelectedTarget). g.policy) (g ∷ groups)
              (wait_for_fanout_ack_gate-required (run (operations_of (g ∷ groups)))
                (sinks_of (g ∷ groups)) (policies_of (g ∷ groups)) started t result released).0),
      )

  -- What holds of some group holds of some operation.
  Any-operations :
      (P : SelectedTarget → Type 0) (Q : String × List NatsEnvelope → Type 0)
      (groups : List SelectedTarget)
      → ((g : SelectedTarget) → P g → Q (g.policy.sink, g.messages))
      → Any P groups
      → Any Q (operations_of groups)
  Any-operations P Q [] f h = h
  Any-operations P Q (g ∷ groups) f (inl h) = inl (f g h)
  Any-operations P Q (g ∷ groups) f (inr h) = inr (Any-operations P Q groups f h)

  -- If a write returns without an error, the batch was grouped by its routes. For every message and
  -- every target that it selects there is an operation of those groups that writes the message to
  -- that sink, the gate over the tasks of these operations returned, and if the target is required,
  -- the task of its sink was awaited and succeeded.
  pub write_batch-Stored :
      (sink : FanoutSink) (messages : List NatsEnvelope)
      → write_batch python run started sink messages ≡ wrote
      → (groups : List SelectedTarget) × (select_targets python sink.routing messages ≡ ok groups)
        × All
            (λ m.
              All
                (λ t. Any (Stored groups t m) (operations_of groups))
                (select_route_targets python m sink.routing).target_policies)
            messages
  unfolding write_batch select_targets select_targets_from IsReleased
  write_batch-Stored sink [] h = ([], refl, tt)
  write_batch-Stored sink (m ∷ messages) h =
      let (groups, selected, settled) =
        write_groups-Settled sink (select_targets python sink.routing (m ∷ messages)) h in
      (
        groups,
        selected,
        All-weaken _ _ (m ∷ messages)
            (λ m served.
              All-weaken _ _ (select_route_targets python m sink.routing).target_policies
                (λ t s.
                  Any-operations _ _ groups (λ g k. k)
                    (Any-both _ _ _ groups (stored groups t m) settled s))
                served)
            (select_targets-served python sink.routing (m ∷ messages) groups selected),
      )
    where
      stored :
          (groups : List SelectedTarget) (t : RouteTargetConfig) (m : NatsEnvelope)
          (g : SelectedTarget)
          → (IsReleased groups
              × (g.policy.required ≡ true → Succeeded (run (operations_of groups)) g.policy.sink))
          → Serves t m g
          → Stored groups t m (g.policy.sink, g.messages)
      stored groups t m g (released, settled) s = record {
        same_sink = s.same_sink;
        has_message = s.has_message;
        released = released;
        committed = λ r.
            subst (Succeeded (run (operations_of groups))) s.same_sink
              (settled (s.stays_required r));
      }
