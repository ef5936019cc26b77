-- ===== src/Policy.antt =====
-- core/policy.py: the gate that checks every envelope against the allow-listed rules of its subject,
-- with the rule classes of core/config.py. Whether a body is an encryption envelope is
-- a parameter, which may raise.
pub mod Laws
use nats_sinks.Common.{
  ℕ, Bool, true, false, not, ◌&&◌, List, [], ◌∷◌, ◌++◌, Option, none, some, String, str_eq, any,
  all, filter_by, is_empty, is_some, length, ltb, if◌then◌else◌,
}
use nats_sinks.Errors.{Result, ok, ◌>>=◌}
use nats_sinks.Subjects.{text, matches_subject}
use nats_sinks.Envelope.{Fields, end, field, NatsEnvelope}
use nats_sinks.Gate.{Evaluation, accept_all, evaluate_from}

pub record PreSinkPolicyRuleConfig : Type 0 where
  pub subject : String
  pub require_priority : Bool
  pub require_classification : Bool
  pub required_labels : List String
  pub require_mission_metadata : Bool
  pub require_encrypted_payload : Bool
  pub max_payload_bytes : Option ℕ
  pub allowed_mission_metadata_keys : Option (List String)

pub data UnmatchedSubjectAction : Type 0 where
  allow reject : UnmatchedSubjectAction

pub record PreSinkPolicyConfig : Type 0 where
  pub enabled : Bool
  pub unmatched_subject_action : UnmatchedSubjectAction
  pub rules : List PreSinkPolicyRuleConfig

pub data Reason : Type 0 where
  priority_required classification_required required_label_missing : Reason
  mission_metadata_required encrypted_payload_required payload_too_large : Reason
  mission_metadata_key_not_allowed subject_not_covered_by_policy : Reason

-- The rule of a violation is none for an unmatched subject.
pub record PolicyViolation : Type 0 where
  pub index : ℕ
  pub subject : String
  pub rule_subject : Option String
  pub reason : Reason

abbrev pub violation : ℕ → NatsEnvelope → PreSinkPolicyRuleConfig → Reason → PolicyViolation
violation i envelope rule code = record {
  index = i;
  subject = envelope.subject;
  rule_subject = some rule.subject;
  reason = code;
}

abbrev pub contains_label : String → List String → Bool
contains_label label labels = any (str_eq label) labels

-- `set(required).issubset(set(present))`
abbrev pub is_subset_of : List String → List String → Bool
is_subset_of required present = all (λ label. contains_label label present) required

-- `any(key not in allowed_keys for key in mission_metadata)`
unfoldable pub has_key_outside : List String → Fields → Bool
has_key_outside allowed end = false
has_key_outside allowed (field key value fields) =
    let rest = has_key_outside allowed fields in if contains_label key allowed then rest else true

unfoldable pub exceeds : ℕ → Option ℕ → Bool
exceeds size none = false
exceeds size (some limit) = ltb limit size

unfoldable pub key_not_allowed : Option (List String) → Option Fields → Bool
key_not_allowed none metadata = false
key_not_allowed (some allowed) none = false
key_not_allowed (some allowed) (some fields) = has_key_outside allowed fields

-- `if test: violations.append(found)`
abbrev pub append_if : {V : Type 0} → Bool → V → List V → List V
append_if true found rest = found ∷ rest
append_if false found rest = rest

module _ (is_encrypted : List ℕ → Result Bool) where
  -- `rule.require_encrypted_payload and not is_encrypted_payload_envelope(envelope.data)`
  abbrev pub lacks_encryption : Bool → List ℕ → Result Bool
  lacks_encryption false payload = ok false
  lacks_encryption true payload = do encrypted ← is_encrypted payload; ok (not encrypted)

  -- The checks of a rule, with the outcome of the one that may raise.
  unfoldable pub rule_violations :
      ℕ → NatsEnvelope → PreSinkPolicyRuleConfig → Bool → List PolicyViolation
  rule_violations i envelope rule lacking =
      append_if (rule.require_priority && not (is_some envelope.priority))
        (violation i envelope rule priority_required)
        (append_if (rule.require_classification && not (is_some envelope.classification))
          (violation i envelope rule classification_required)
          (append_if (not (is_subset_of rule.required_labels envelope.labels))
            (violation i envelope rule required_label_missing)
            (append_if (rule.require_mission_metadata && not (is_some envelope.mission_metadata))
              (violation i envelope rule mission_metadata_required)
              (append_if lacking (violation i envelope rule encrypted_payload_required) (
                append_if (exceeds (length envelope.payload) rule.max_payload_bytes)
                  (violation i envelope rule payload_too_large)
                  (append_if
                    (key_not_allowed rule.allowed_mission_metadata_keys envelope.mission_metadata)
                    (violation i envelope rule mission_metadata_key_not_allowed) []))))))

  unfoldable pub violations_for_rule :
      ℕ → NatsEnvelope → PreSinkPolicyRuleConfig → Result (List PolicyViolation)
  violations_for_rule i envelope rule = do
    lacking ← lacks_encryption rule.require_encrypted_payload envelope.payload
    ok (rule_violations i envelope rule lacking)

  unfoldable pub violations_for_rules :
      ℕ → NatsEnvelope → List PreSinkPolicyRuleConfig → Result (List PolicyViolation)
  violations_for_rules i envelope [] = ok []
  violations_for_rules i envelope (rule ∷ rules) = do
    found ← violations_for_rule i envelope rule
    later ← violations_for_rules i envelope rules
    ok (found ++ later)

  unfoldable pub unmatched : ℕ → NatsEnvelope → UnmatchedSubjectAction → List PolicyViolation
  unmatched i envelope allow = []
  unmatched i envelope reject =
      record {
        index = i;
        subject = envelope.subject;
        rule_subject = none;
        reason = subject_not_covered_by_policy;
      }
      ∷ []

  abbrev pub matching_rules : NatsEnvelope → PreSinkPolicyConfig → List PreSinkPolicyRuleConfig
  matching_rules envelope config =
      filter_by
        (λ (rule : PreSinkPolicyRuleConfig).
          matches_subject (text rule.subject) (text envelope.subject))
        config.rules

  -- `if not matching_rules: …` and the loop over them.
  abbrev pub violations_by :
      ℕ
      → NatsEnvelope
      → UnmatchedSubjectAction
      → List PreSinkPolicyRuleConfig
      → Result (List PolicyViolation)
  violations_by i envelope action [] = ok (unmatched i envelope action)
  violations_by i envelope action (rule ∷ rules) = violations_for_rules i envelope (rule ∷ rules)

  unfoldable pub violations_for_envelope :
      PreSinkPolicyConfig → ℕ → NatsEnvelope → Result (List PolicyViolation)
  violations_for_envelope config i envelope =
      violations_by i envelope config.unmatched_subject_action (matching_rules envelope config)

  unfoldable pub evaluate_pre_sink_policy :
      List NatsEnvelope → PreSinkPolicyConfig → Result (Evaluation PolicyViolation)
  evaluate_pre_sink_policy envelopes config =
      if config.enabled
      then evaluate_from (violations_for_envelope config) 0 envelopes
      else ok (accept_all envelopes)
