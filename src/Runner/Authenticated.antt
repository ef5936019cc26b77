-- ===== src/Runner/Authenticated.antt =====
-- core/runner.py with core/authenticity.py: the authenticator that the runner is made with.
pub mod Gated
use nats_sinks.Common.{Bool, List, [], ◌∷◌, Option, none, some, PythonText, map, if◌then◌else◌}
use nats_sinks.Errors.{Result, ok, ◌>>=◌}
use nats_sinks.Envelope.{NatsEnvelope}
use nats_sinks.Gate.{Evaluation}
use nats_sinks.Authenticity.{
  Crypto, PreparedRule, MessageAuthenticityConfig, evaluate, prepare_rules,
}

-- The runner reads the indexes; of the violations it only makes the text of an error.
abbrev pub without_details : {V : Type 0} → Evaluation V → Evaluation (Unit {0})
without_details e = record {
  accepted_indexes = e.accepted_indexes;
  rejected_indexes = e.rejected_indexes;
  violations = map (λ v. tt) e.violations;
}

module _ (python : PythonText) (crypto : Crypto) (config : MessageAuthenticityConfig) where
  abbrev pub evaluate_with : List PreparedRule → List NatsEnvelope → Result (Evaluation (Unit {0}))
  evaluate_with rules envelopes =
      evaluate python crypto config rules 0 envelopes >>= λ e. ok (without_details e)

  -- `MessageAuthenticator.from_config`
  unfoldable pub from_config : Result (Option (List NatsEnvelope → Result (Evaluation (Unit {0}))))
  from_config =
      if config.enabled
      then (prepare_rules python crypto config.rules >>= λ rules. ok (some (evaluate_with rules)))
      else ok none
