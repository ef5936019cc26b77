-- ===== src/Runner/Authenticated/Gated.antt =====
-- Proofs about core/runner.py with core/authenticity.py, core/size_policy.py and core/policy.py: what
-- a sink is called with.
use nats_sinks.Common.{
  if_true, ◌≡◌, refl, ap, subst, sym, ◌∙◌, true, List, [], ◌∷◌, ◌++◌, none, some, PythonText, All,
}
use nats_sinks.Errors.{ok, ok_inj, bind-ok, bind-step}
use nats_sinks.Envelope.{NatsEnvelope}
use nats_sinks.Gate.{Evaluation}
use nats_sinks.Priority.Lossless.{Weighted}
use nats_sinks.Authenticity.{
  Crypto, PreparedRule, MessageAuthenticityConfig, evaluate, prepare_rules,
}
use nats_sinks.Authenticity.Laws.{IsAuthentic}
use nats_sinks.Authenticity.Batch.{evaluate-Splits_if_ok}
use nats_sinks.Runner.Exec.{sink_called, History, Outside}
use nats_sinks.Runner.Batch.{Setup}
use nats_sinks.Runner.Batch.Cleared.{Cleared, LetsThrough, IsVouched, Splits-LetsThrough}
use nats_sinks.Runner.Intake.{Fetch, run_pull}
use nats_sinks.Runner.Intake.Safety.{run_pull-commit_first}
use nats_sinks.Runner.Authenticated.{evaluate_with, from_config}

module _ (python : PythonText) (crypto : Crypto) (config : MessageAuthenticityConfig)
    (rules : List PreparedRule) (setup : Setup) where
  evaluate_with-LetsThrough :
      (batch : List NatsEnvelope) (evaluation : Evaluation (Unit {0}))
      → evaluate_with python crypto config rules batch ≡ ok evaluation
      → LetsThrough (IsAuthentic python crypto config rules) evaluation batch
  evaluate_with-LetsThrough batch evaluation h =
      let (e, made, same) = bind-ok (evaluate python crypto config rules 0 batch) _ evaluation h in
      let lets =
        Splits-LetsThrough (IsAuthentic python crypto config rules) e batch
          (evaluate-Splits_if_ok python crypto config rules batch e made) in
      subst (λ v. LetsThrough (IsAuthentic python crypto config rules) v batch) (ok_inj same)
        (record { whole = lets.whole; picked = lets.picked })

  from_config-IsVouched :
      config.enabled ≡ true
      → prepare_rules python crypto config.rules ≡ ok rules
      → from_config python crypto config ≡ ok setup.authenticate
      → IsVouched (IsAuthentic python crypto config rules) setup
  unfolding from_config
  from_config-IsVouched on prepared made evaluate batch evaluation here returned =
      evaluate_with-LetsThrough batch evaluation
        (ap (λ f. f batch) (some_inj (ok_inj known ∙ here)) ∙ returned)
    where
      known : ok (some (evaluate_with python crypto config rules)) ≡ ok setup.authenticate
      known = sym (if_true config.enabled _ (ok none) on ∙ bind-step _ prepared refl) ∙ made

      some_inj : {A : Type 0} {a b : A} → some a ≡ some b → a ≡ b
      some_inj e = cc

  -- If the runner's authenticator is made from an enabled configuration, with whatever rules could be
  -- prepared, then whatever the sink, the client and the server answer: in the history of a pull run
  -- of any fetches, every envelope that the sink is called with passed all gates that are on. It is
  -- what custody made of an envelope that the pre-sink policy allows and the size policy fits, and
  -- that one is what encryption made of an envelope that is authentic under the rules.
  pub run_pull-Cleared :
      (outside : Outside) (fetches : List Fetch) (envelopes : List NatsEnvelope)
      (later earlier : History)
      → config.enabled ≡ true
      → prepare_rules python crypto config.rules ≡ ok rules
      → from_config python crypto config ≡ ok setup.authenticate
      → Weighted setup.priority_lanes.lanes
      → (run_pull outside setup fetches []).1 ≡ later ++ sink_called envelopes ∷ earlier
      → All (Cleared (IsAuthentic python crypto config rules) setup) envelopes
  run_pull-Cleared outside fetches envelopes later earlier on prepared made weighted split =
      run_pull-commit_first outside setup (IsAuthentic python crypto config rules)
        (from_config-IsVouched on prepared made) weighted fetches (sink_called envelopes) later
        earlier split
