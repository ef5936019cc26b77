-- ===== src/Policy/Laws.antt =====
-- Proofs about core/policy.py, with what its rules demand.
use nats_sinks.Common.{
  if_true, ap, ◌∙◌, All-weaken, ℕ, ◌≤◌, ◌≡◌, refl, sym, ◌↔◌, inl, inr, Bool, true, false, not, ◌&&◌,
  List, [], ◌∷◌, ◌++◌, Option, none, some, String, str_eq, All, Any, is_empty, is_some, length,
  str_eq→eq, eq_iff, arith, Bool-cases,
}
use nats_sinks.Envelope.{Fields, end, field, NatsEnvelope}
use nats_sinks.Errors.{Result, ok, ok_inj, bind-ok, bind-step}
use nats_sinks.Gate.{Evaluation}
use nats_sinks.Gate.Laws.{Splits, evaluate-Splits, evaluate_from-returns}
use nats_sinks.Policy.{
  PreSinkPolicyRuleConfig, PreSinkPolicyConfig, UnmatchedSubjectAction, allow, reject,
  contains_label, is_subset_of, has_key_outside, exceeds, key_not_allowed, append_if,
  PolicyViolation, violation, encrypted_payload_required, lacks_encryption, rule_violations,
  violations_for_rule, violations_for_rules, unmatched, matching_rules, violations_by,
  violations_for_envelope, evaluate_pre_sink_policy,
}

-- What it means that a payload limit holds.
WithinLimit : ℕ → Option ℕ → Type 0
WithinLimit size none = Unit
WithinLimit size (some limit) = size ≤ limit

-- Every key of the mission metadata is allowed.
KeysWithin : Option (List String) → Option Fields → Type 0
KeysWithin none metadata = Unit
KeysWithin (some allowed) none = Unit
KeysWithin (some allowed) (some end) = Unit
KeysWithin (some allowed) (some (field key value fields)) =
    Any (λ k. key ≡ k) allowed × KeysWithin (some allowed) (some fields)

module _ (is_encrypted : List ℕ → Result Bool) where
  -- The demands of one rule.
  pub record Complies (envelope : NatsEnvelope) (rule : PreSinkPolicyRuleConfig) : Type 0 where
    has_priority : rule.require_priority ≡ true → is_some envelope.priority ≡ true
    has_classification : rule.require_classification ≡ true → is_some envelope.classification ≡ true
    has_labels : All (λ label. Any (λ l. label ≡ l) envelope.labels) rule.required_labels
    has_mission_metadata :
        rule.require_mission_metadata ≡ true → is_some envelope.mission_metadata ≡ true
    is_encrypted_body :
        rule.require_encrypted_payload ≡ true → is_encrypted envelope.payload ≡ ok true
    fits : WithinLimit (length envelope.payload) rule.max_payload_bytes
    keys_allowed : KeysWithin rule.allowed_mission_metadata_keys envelope.mission_metadata

contains_label_iff :
    (label : String) (labels : List String)
    → contains_label label labels ≡ true ↔ Any (λ l. label ≡ l) labels
contains_label_iff label [] = ((λ h. ground arith), (λ a. absurd a))
contains_label_iff label (l ∷ labels) =
    let (f, g) = contains_label_iff label labels in
    (
      (λ h. elim (Bool-cases (str_eq label l)) [
        | inl e ↦ inl (str_eq→eq label l e)
        | inr n ↦ inr (f (ground arith))
      ]),
      (λ a. elim a [
        | inl e ↦ ground (arith, eq_iff label l)
        | inr m ↦ elim (Bool-cases (str_eq label l)) [ inl e ↦ rw e | inr n ↦ rw (n, g m) ]
      ]),
    )

is_subset_of_iff :
    (required present : List String)
    → is_subset_of required present ≡ true ↔ All (λ label. Any (λ l. label ≡ l) present) required
is_subset_of_iff [] present = ((λ h. tt), (λ a. refl))
is_subset_of_iff (r ∷ required) present =
    let (f, g) = is_subset_of_iff required present in
    let (hit, member) = contains_label_iff r present in
    ((λ h. (hit (ground arith), f (ground arith))), (λ (m, a). rw (member m, g a)))

has_key_outside_iff :
    (allowed : List String) (fields : Fields)
    → has_key_outside allowed fields ≡ false ↔ KeysWithin (some allowed) (some fields)
unfolding has_key_outside KeysWithin
has_key_outside_iff allowed end = ((λ h. tt), (λ a. refl))
has_key_outside_iff allowed (field key value fields) =
    let (f, g) = has_key_outside_iff allowed fields in
    let (hit, member) = contains_label_iff key allowed in
    (
      (λ h. elim (Bool-cases (contains_label key allowed)) [
        | inl e ↦ (hit e, f (ground arith))
        | inr n ↦ ground arith
      ]),
      (λ (m, a). rw (member m, g a)),
    )

exceeds_iff : (size : ℕ) (limit : Option ℕ) → exceeds size limit ≡ false ↔ WithinLimit size limit
unfolding exceeds WithinLimit
exceeds_iff size none = ((λ h. tt), (λ a. refl))
exceeds_iff size (some limit) = ((λ h. ground arith), (λ h. ground arith))

append_if-empty :
    {V : Type 0} (b : Bool) (v : V) (rest : List V)
    → append_if b v rest ≡ [] ↔ (b ≡ false) × (rest ≡ [])
append_if-empty true v rest = ((λ h. ground arith), (λ (h, _). ground arith))
append_if-empty false v rest = ((λ h. (refl, h)), (λ (_, h). h))

key_not_allowed_iff :
    (allowed : Option (List String)) (metadata : Option Fields)
    → key_not_allowed allowed metadata ≡ false ↔ KeysWithin allowed metadata
unfolding key_not_allowed KeysWithin
key_not_allowed_iff none metadata = ((λ h. tt), (λ a. refl))
key_not_allowed_iff (some allowed) none = ((λ h. tt), (λ a. refl))
key_not_allowed_iff (some allowed) (some fields) = has_key_outside_iff allowed fields

-- A requirement that is not violated.
demand_iff :
    (required there : Bool) → (required && not there) ≡ false ↔ (required ≡ true → there ≡ true)
demand_iff false there = ((λ h e. ground arith), (λ h. refl))
demand_iff true true = ((λ h e. refl), (λ h. refl))
demand_iff true false = ((λ h e. ground arith), (λ h. ground (arith, h refl)))

not_iff : (b : Bool) → not b ≡ false ↔ b ≡ true
not_iff true = ((λ h. refl), (λ h. refl))
not_iff false = ((λ h. ground arith), (λ h. ground arith))

module _ (is_encrypted : List ℕ → Result Bool) where
  -- The demand of an encrypted body.
  lacks_encryption_iff :
      (required : Bool) (payload : List ℕ)
      → lacks_encryption is_encrypted required payload ≡ ok false
        ↔ (required ≡ true → is_encrypted payload ≡ ok true)
  lacks_encryption_iff false payload = ((λ h e. cc), (λ h. refl))
  lacks_encryption_iff true payload = (
    (λ h e.
        let (b, said, k) = bind-ok (is_encrypted payload) _ false h in
        said ∙ ap ok ((not_iff b).0 (ok_inj k))),
    (λ h. bind-step _ (h refl) refl),
  )

  -- A rule reports no violation exactly when it can be checked and the envelope meets each of its
  -- demands.
  pub violations_for_rule_iff :
      (i : ℕ) (envelope : NatsEnvelope) (rule : PreSinkPolicyRuleConfig)
      → violations_for_rule is_encrypted i envelope rule ≡ ok []
        ↔ Complies is_encrypted envelope rule
  unfolding violations_for_rule rule_violations
  violations_for_rule_iff i envelope rule = (
    (λ h.
        let (lacking, said, made) =
          bind-ok (lacks_encryption is_encrypted rule.require_encrypted_payload envelope.payload) _
            [] h in
        let (p, h1) = (append_if-empty _ _ _).0 (ok_inj made) in
        let (c, h2) = (append_if-empty _ _ _).0 h1 in
        let (l, h3) = (append_if-empty _ _ _).0 h2 in
        let (m, h4) = (append_if-empty _ _ _).0 h3 in
        let (e, h5) = (append_if-empty _ _ _).0 h4 in
        let (s, h6) = (append_if-empty _ _ _).0 h5 in
        let (k, h7) = (append_if-empty _ _ _).0 h6 in
        record {
          has_priority = (demand_iff _ _).0 p;
          has_classification = (demand_iff _ _).0 c;
          has_labels = (is_subset_of_iff _ _).0 ((not_iff _).0 l);
          has_mission_metadata = (demand_iff _ _).0 m;
          is_encrypted_body = (lacks_encryption_iff _ _).0 (said ∙ ap ok e);
          fits = (exceeds_iff _ _).0 s;
          keys_allowed = (key_not_allowed_iff _ _).0 k;
        }),
    (λ (c : Complies is_encrypted envelope rule).
        bind-step _ ((lacks_encryption_iff _ _).1 c.is_encrypted_body) (
          ap ok (
            (append_if-empty _ _ _).1 (
              (demand_iff _ _).1 c.has_priority,
              (append_if-empty _ _ _).1 (
                (demand_iff _ _).1 c.has_classification,
                (append_if-empty _ _ _).1 (
                  (not_iff _).1 ((is_subset_of_iff _ _).1 c.has_labels),
                  (append_if-empty _ _ _).1 (
                    (demand_iff _ _).1 c.has_mission_metadata,
                    (append_if-empty false (violation i envelope rule encrypted_payload_required)
                          _).1
                        (
                          refl,
                          (append_if-empty _ _ _).1 (
                            (exceeds_iff _ _).1 c.fits,
                            (append_if-empty _ _ _).1
                                ((key_not_allowed_iff _ _).1 c.keys_allowed, refl),
                          ),
                        ),
                  ),
                ),
              ),
            )))),
  )

  -- What the configuration demands of an envelope: some rule covers its subject, unless uncovered
  -- subjects are allowed, and every rule that covers it is met.
  pub record Allowed (config : PreSinkPolicyConfig) (envelope : NatsEnvelope) : Type 0 where
    is_covered :
        is_empty (matching_rules is_encrypted envelope config) ≡ true
        → config.unmatched_subject_action ≡ allow
    complies : All (Complies is_encrypted envelope) (matching_rules is_encrypted envelope config)

  violations_for_rules_iff :
      (i : ℕ) (envelope : NatsEnvelope) (rules : List PreSinkPolicyRuleConfig)
      → violations_for_rules is_encrypted i envelope rules ≡ ok []
        ↔ All (Complies is_encrypted envelope) rules
  unfolding violations_for_rules
  violations_for_rules_iff i envelope [] = ((λ h. tt), (λ h. refl))
  violations_for_rules_iff i envelope (rule ∷ rules) =
      let (f, g) = violations_for_rule_iff i envelope rule in
      let (fs, gs) = violations_for_rules_iff i envelope rules in
      (
        (λ h.
            let (found, r, h1) =
              bind-ok (violations_for_rule is_encrypted i envelope rule) _ [] h in
            let (later, rs, h2) =
              bind-ok (violations_for_rules is_encrypted i envelope rules) _ [] h1 in
            let (nothing, nothing_later) = append-nothing found later (ok_inj h2) in
            (f (r ∙ ap ok nothing), fs (rs ∙ ap ok nothing_later))),
        (λ (c, cs). bind-step _ (g c) (bind-step _ (gs cs) refl)),
      )
    where
      append-nothing : {V : Type 0} (xs ys : List V) → xs ++ ys ≡ [] → (xs ≡ []) × (ys ≡ [])
      append-nothing [] ys h = (refl, h)
      append-nothing (x ∷ xs) ys h = cc

  unmatched_iff :
      (i : ℕ) (envelope : NatsEnvelope) (action : UnmatchedSubjectAction)
      → unmatched is_encrypted i envelope action ≡ [] ↔ action ≡ allow
  unfolding unmatched
  unmatched_iff i envelope allow = ((λ h. refl), (λ h. refl))
  unmatched_iff i envelope reject = ((λ h. cc), (λ h. cc))

  violations_by_iff :
      (i : ℕ) (envelope : NatsEnvelope) (action : UnmatchedSubjectAction)
      (rules : List PreSinkPolicyRuleConfig)
      → violations_by is_encrypted i envelope action rules ≡ ok []
        ↔ (is_empty rules ≡ true → action ≡ allow) × All (Complies is_encrypted envelope) rules
  violations_by_iff i envelope action [] =
      let (f, g) = unmatched_iff i envelope action in
      ((λ h. ((λ e. f (ok_inj h)), tt)), (λ (h, _). ap ok (g (h refl))))
  violations_by_iff i envelope action (rule ∷ rules) =
      let (f, g) = violations_for_rules_iff i envelope (rule ∷ rules) in
      ((λ h. ((λ e. ground arith), f h)), (λ (_, h). g h))

  violations_for_envelope_iff :
      (config : PreSinkPolicyConfig) (i : ℕ) (envelope : NatsEnvelope)
      → violations_for_envelope is_encrypted config i envelope ≡ ok [] ↔ Allowed config envelope
  unfolding violations_for_envelope
  violations_for_envelope_iff config i envelope =
      let (f, g) =
        violations_by_iff i envelope config.unmatched_subject_action
          (matching_rules is_encrypted envelope config) in
      (
        (λ h. let (covered, met) = f h in record { is_covered = covered; complies = met }),
        (λ (a : Allowed config envelope). g (a.is_covered, a.complies)),
      )

  pub evaluate_pre_sink_policy-Splits_if_ok :
      (envelopes : List NatsEnvelope) (config : PreSinkPolicyConfig)
      (out : Evaluation PolicyViolation)
      → config.enabled ≡ true
      → evaluate_pre_sink_policy is_encrypted envelopes config ≡ ok out
      → Splits (Allowed config) out envelopes
  unfolding evaluate_pre_sink_policy
  evaluate_pre_sink_policy-Splits_if_ok envelopes config out h k =
      evaluate-Splits (Allowed config) (violations_for_envelope is_encrypted config)
        (violations_for_envelope_iff config) envelopes out (sym (if_true config.enabled _ _ h) ∙ k)

  -- It can be told whether the body of the envelope is encrypted.
  abbrev pub IsLegible : NatsEnvelope → Type 0
  IsLegible envelope = (b : Bool) × (is_encrypted envelope.payload ≡ ok b)

  lacks_encryption-returns :
      (required : Bool) (envelope : NatsEnvelope)
      → IsLegible envelope
      → (b : Bool) × (lacks_encryption is_encrypted required envelope.payload ≡ ok b)
  lacks_encryption-returns false envelope legible = (false, refl)
  lacks_encryption-returns true envelope (b, said) = (not b, bind-step _ said refl)

  violations_for_rules-returns :
      (envelope : NatsEnvelope)
      → IsLegible envelope
      → (i : ℕ) (rules : List PreSinkPolicyRuleConfig)
      → (found : List PolicyViolation) × (violations_for_rules is_encrypted i envelope rules
          ≡ ok found)
  unfolding violations_for_rules violations_for_rule
  violations_for_rules-returns envelope legible i [] = ([], refl)
  violations_for_rules-returns envelope legible i (rule ∷ rules) =
      let (b, said) = lacks_encryption-returns rule.require_encrypted_payload envelope legible in
      let (later, l) = violations_for_rules-returns envelope legible i rules in
      (_, bind-step _ (bind-step _ said refl) (bind-step _ l refl))

  violations_for_envelope-returns :
      (config : PreSinkPolicyConfig) (envelope : NatsEnvelope)
      → IsLegible envelope
      → (i : ℕ)
      → (found : List PolicyViolation) × (violations_for_envelope is_encrypted config i envelope
          ≡ ok found)
  unfolding violations_for_envelope
  violations_for_envelope-returns config envelope legible i =
      by_rules (matching_rules is_encrypted envelope config)
    where
      by_rules :
          (rules : List PreSinkPolicyRuleConfig)
          → (found : List PolicyViolation) × (violations_by is_encrypted i envelope
                config.unmatched_subject_action rules
              ≡ ok found)
      by_rules [] = (_, refl)
      by_rules (rule ∷ rules) = violations_for_rules-returns envelope legible i (rule ∷ rules)

  -- With the gate on, if it can be told of every envelope whether its body is encrypted, the
  -- evaluation returns and its indexes split the batch into the envelopes that the configuration
  -- allows and those that it does not.
  pub evaluate_pre_sink_policy-Splits :
      (envelopes : List NatsEnvelope) (config : PreSinkPolicyConfig)
      → config.enabled ≡ true
      → All IsLegible envelopes
      → (out : Evaluation PolicyViolation) × (evaluate_pre_sink_policy is_encrypted envelopes config
          ≡ ok out)
        × Splits (Allowed config) out envelopes
  unfolding evaluate_pre_sink_policy
  evaluate_pre_sink_policy-Splits envelopes config h legible =
      let (out, made) =
        evaluate_from-returns (violations_for_envelope is_encrypted config) 0 envelopes
          (All-weaken IsLegible _ envelopes (violations_for_envelope-returns config) legible) in
      let returned = if_true config.enabled _ _ h ∙ made in
      (out, returned, evaluate_pre_sink_policy-Splits_if_ok envelopes config out h returned)
