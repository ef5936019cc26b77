-- ===== src/Authenticity/Batch.antt =====
-- Proofs about core/authenticity.py: how the gate splits a batch.
use nats_sinks.Common.{
  if_true, ℕ, suc, ◌≡◌, refl, ap, ◌∙◌, ◌↔◌, true, List, [], ◌∷◌, Option, none, some, PythonText,
  All,
}
use nats_sinks.Errors.{Result, ok, bind-ok, bind-step, ok_inj, ◌>>=◌}
use nats_sinks.Envelope.{NatsEnvelope, Fields}
use nats_sinks.Gate.{Evaluation, record_outcome, evaluate_from}
use nats_sinks.Gate.Laws.{Splits, evaluate-Splits}
use nats_sinks.Authenticity.{
  MessageAuthenticityConfig, MessageAuthenticityViolation, PreparedRule, Crypto,
  violation_for_envelope, add_outcome, evaluate, prepare_rules, evaluate_message_authenticity,
}
use nats_sinks.Authenticity.Laws.{IsAuthentic, violation_for_envelope_iff}
use nats_sinks.Authenticity.Returns.{Returns, IsUsable, evaluate-Returns}

module _ (python : PythonText) (crypto : Crypto) (config : MessageAuthenticityConfig) where
  -- What the check of one message adds.
  abbrev listed : Option MessageAuthenticityViolation → List MessageAuthenticityViolation
  listed none = []
  listed (some found) = found ∷ []

  abbrev checked : List PreparedRule → ℕ → NatsEnvelope → Result (List MessageAuthenticityViolation)
  checked rules i e = do
    found ← violation_for_envelope python crypto config rules i e
    ok (listed found)

  checked_iff :
      (rules : List PreparedRule) (i : ℕ) (e : NatsEnvelope)
      → checked rules i e ≡ ok [] ↔ IsAuthentic python crypto config rules e
  checked_iff rules i e =
      let (f, g) = violation_for_envelope_iff python crypto config rules i e in
      (
        (λ h.
            let (found, said, k) =
              bind-ok (violation_for_envelope python crypto config rules i e) _ [] h in
            f (said ∙ ap ok (silent found (ok_inj k)))),
        λ a. bind-step _ (g a) refl,
      )
    where
      silent : (found : Option MessageAuthenticityViolation) → listed found ≡ [] → found ≡ none
      silent none h = refl
      silent (some found) h = cc

  add-record_outcome :
      (rules : List PreparedRule) (i : ℕ) (found : Option MessageAuthenticityViolation)
      (later : Evaluation MessageAuthenticityViolation)
      → record_outcome (checked rules) i (listed found) later
        ≡ add_outcome python crypto config i found later
  add-record_outcome rules i none later = refl
  add-record_outcome rules i (some found) later = refl

  evaluate-evaluate_from :
      (rules : List PreparedRule) (i : ℕ) (batch : List NatsEnvelope)
      (out : Evaluation MessageAuthenticityViolation)
      → evaluate python crypto config rules i batch ≡ ok out
      → evaluate_from (checked rules) i batch ≡ ok out
  unfolding evaluate evaluate_from
  evaluate-evaluate_from rules i [] out h = h
  evaluate-evaluate_from rules i (e ∷ batch) out h =
      let (found, f, h1) =
        bind-ok (violation_for_envelope python crypto config rules i e) _ out h in
      let (later, l, made) = bind-ok (evaluate python crypto config rules (suc i) batch) _ out h1 in
      bind-step _ (bind-step _ f refl) (
        bind-step _ (evaluate-evaluate_from rules (suc i) batch later l)
          (ap ok (add-record_outcome rules i found later) ∙ made))

  -- An evaluation that returns splits the batch.
  pub evaluate-Splits_if_ok :
      (rules : List PreparedRule) (envelopes : List NatsEnvelope)
      (e : Evaluation MessageAuthenticityViolation)
      → evaluate python crypto config rules 0 envelopes ≡ ok e
      → Splits (IsAuthentic python crypto config rules) e envelopes
  evaluate-Splits_if_ok rules envelopes e made =
      evaluate-Splits (IsAuthentic python crypto config rules) (checked rules) (checked_iff rules)
        envelopes e (evaluate-evaluate_from rules 0 envelopes e made)

  -- With the gate on, and rules that are prepared and usable, if JSON renders every document: the
  -- evaluation of every batch returns, and its indexes split the batch into the messages that are
  -- authentic under the rules and those that are not.
  pub evaluate_message_authenticity-Splits :
      ((document : Fields) → (bytes : List ℕ) × (crypto.json_bytes document ≡ some bytes))
      → (rules : List PreparedRule) (envelopes : List NatsEnvelope) → config.enabled ≡ true
      → prepare_rules python crypto config.rules ≡ ok rules
      → All (λ rule. rule.config.enabled ≡ true → IsUsable crypto rule) rules
      → (e : Evaluation MessageAuthenticityViolation) × (evaluate_message_authenticity python crypto
            envelopes config
          ≡ ok e)
        × Splits (IsAuthentic python crypto config rules) e envelopes
  unfolding evaluate_message_authenticity Returns
  evaluate_message_authenticity-Splits renders rules envelopes on prepared usable =
      let (e, made) = evaluate-Returns python crypto renders config rules 0 envelopes usable in
      (
        e,
        if_true config.enabled _ _ on ∙ bind-step _ prepared made,
        evaluate-Splits_if_ok rules envelopes e made,
      )
