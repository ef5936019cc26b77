-- ===== src/Authenticity.antt =====
-- core/authenticity.py with its classes of core/config.py: the gate that verifies signatures. Hashes,
-- signature algorithms, base64, the rendering of JSON and the source of keys are parameters.
pub mod Laws
pub mod Returns
pub mod Batch
pub mod Binding
use Prim.Native.Char.{code}
use nats_sinks.Common.{
  ℕ, suc, Bool, true, false, not, ◌&&◌, List, [], ◌∷◌, Option, none, some, String, PythonText,
  str_eq, strip, is_blank, append, char_count, length, ltb, ◌==◌, if◌then◌else◌,
}
use nats_sinks.Errors.{
  Result, ok, err, ◌>>=◌, ◌>>◌, raise_if, configuration_error, policy_violation_error,
}
use nats_sinks.Subjects.{matches_subject}
use nats_sinks.Subjects as Subjects
use nats_sinks.Metadata.{Headers, case_insensitive_header}
use nats_sinks.Envelope.{Json, number, text, array, object, Fields, end, field, NatsEnvelope}
use nats_sinks.Spool.Record.{optional_text, optional_object, texts}
use nats_sinks.Policy.{UnmatchedSubjectAction, allow, reject}
use nats_sinks.Gate.{Evaluation, accept_all}

pub record MessageAuthenticityRuleConfig : Type 0 where
  pub subject : String
  pub enabled : Bool
  pub algorithm : String
  pub key_id : Option String
  pub signed_fields : List String

pub record MessageAuthenticityConfig : Type 0 where
  pub enabled : Bool
  pub unmatched_subject_action : UnmatchedSubjectAction
  pub signature_header : String
  pub algorithm_header : String
  pub key_id_header : String
  pub rules : List MessageAuthenticityRuleConfig

pub data Reason : Type 0 where
  subject_not_covered algorithm_header_missing algorithm_mismatch key_id_header_missing : Reason
  key_id_mismatch signature_header_missing signature_invalid : Reason

pub record MessageAuthenticityViolation : Type 0 where
  pub index : ℕ
  pub subject : String
  pub rule_subject : String
  pub reason : Reason

-- `_PreparedAuthenticityRule`
pub record PreparedRule : Type 0 where
  pub config : MessageAuthenticityRuleConfig
  pub key : Option (List ℕ)

pub record Crypto : Type 0 where
  pub sha256 : List ℕ → String
  -- `none`: the text is not ASCII, or not valid base64.
  pub b64_decode : String → Option (List ℕ)
  -- `json.dumps`, and its text as UTF-8; `none`: `json.dumps` raises TypeError or ValueError.
  pub json_bytes : Fields → Option (List ℕ)
  pub hmac_sha256 : List ℕ → List ℕ → List ℕ
  pub is_public_key : List ℕ → Bool
  -- The key, the signature and the data; false for InvalidSignature.
  pub ed25519_verify : List ℕ → List ℕ → List ℕ → Bool
  -- `resolve_key`, which reads the configuration or the environment.
  pub resolve_key : MessageAuthenticityRuleConfig → Result (List ℕ)

abbrev max_signature_bytes : ℕ
max_signature_bytes = 1024

abbrev max_signature_base64_chars : ℕ
max_signature_base64_chars = 1368

-- `replace("_", "-")`
abbrev replace_underscores : String → String
replace_underscores String.[] = ""
replace_underscores (String.◌∷◌ c s) =
    let rest = replace_underscores s in if code c == 95 then append "-" rest else String.◌∷◌ c rest

-- `metadata[name] = value`
unfoldable pub put_field : String → Json → Fields → Fields
put_field name value end = field name value end
put_field name value (field n w fields) =
    let rest = put_field name value fields in
    if str_eq n name then field n value fields else field n w rest

-- The value of one signed field; `none` for a field that is not supported.
unfoldable pub metadata_value : NatsEnvelope → String → Option Json
metadata_value e name =
    if str_eq name "subject"
    then some (text e.subject)
    else if str_eq name "message_id"
    then some (optional_text e.message_id)
    else if str_eq name "priority"
    then some (optional_text e.priority)
    else if str_eq name "classification"
    then some (optional_text e.classification)
    else if str_eq name "labels"
    then some (array (texts e.labels))
    else if str_eq name "mission_metadata"
    then some (optional_object e.mission_metadata)
    else if str_eq name "security_labels"
    then some (optional_object e.security_labels)
    else none

-- The loop of `_selected_metadata`, with the fields so far.
unfoldable pub selected_metadata : NatsEnvelope → Fields → List String → Result Fields
selected_metadata e done [] = ok done
selected_metadata e done (name ∷ names) = elim (metadata_value e name) [
  | none ↦ err policy_violation_error
  | some value ↦ selected_metadata e (put_field name value done) names
]

module _ (python : PythonText) (crypto : Crypto) where
  unfoldable pub canonical_document : NatsEnvelope → String → String → List String → Result Fields
  canonical_document e algorithm key_id signed_fields = do
    metadata ← selected_metadata e end signed_fields
    ok (
        field "schema" (text "nats_sinks.message_authenticity.v1") (
          field "version" (number "1") (
            field "algorithm" (text algorithm) (
              field "key_id" (text key_id) (
                field "payload_sha256" (text (crypto.sha256 e.payload))
                  (field "metadata" (object metadata) end))))))

  abbrev rendered_or_error : Option (List ℕ) → Result (List ℕ)
  rendered_or_error none = err policy_violation_error
  rendered_or_error (some bytes) = ok bytes

  unfoldable pub canonical_bytes : NatsEnvelope → String → String → List String → Result (List ℕ)
  canonical_bytes e algorithm key_id signed_fields = do
    document ← canonical_document e algorithm key_id signed_fields
    rendered_or_error (crypto.json_bytes document)

  abbrev stripped_or_none : Option String → Option String
  stripped_or_none none = none
  stripped_or_none (some value) = if is_blank (strip value) then none else some (strip value)

  -- `_normalized_header`
  unfoldable pub normalized_header : Headers → String → Option String
  normalized_header headers name = stripped_or_none (case_insensitive_header python headers name)

  abbrev as_algorithm : Option String → Option String
  as_algorithm none = none
  as_algorithm (some rendered) = some (replace_underscores (python.lower rendered))

  -- `_normalized_header` with `normalize_algorithm`
  unfoldable pub normalized_algorithm : Headers → String → Option String
  normalized_algorithm headers name = as_algorithm (normalized_header headers name)

  -- What is too long or no base64 counts as empty.
  abbrev bounded_bytes : Option (List ℕ) → List ℕ
  bounded_bytes none = []
  bounded_bytes (some decoded) = if ltb max_signature_bytes (length decoded) then [] else decoded

  abbrev decoded_signature : Option String → Option (List ℕ)
  decoded_signature none = none
  decoded_signature (some rendered) =
      if ltb max_signature_base64_chars (char_count rendered)
      then some []
      else some (bounded_bytes (crypto.b64_decode rendered))

  unfoldable pub signature_bytes : Headers → String → Option (List ℕ)
  signature_bytes headers name = decoded_signature (normalized_header headers name)

  abbrev same_bytes : List ℕ → List ℕ → Bool
  same_bytes [] [] = true
  same_bytes (a ∷ left) (b ∷ right) = a == b && same_bytes left right
  same_bytes _ _ = false

  unfoldable pub verify_signature : String → List ℕ → List ℕ → List ℕ → Result Bool
  verify_signature algorithm key signature material =
      if str_eq algorithm "hmac-sha256"
      then ok (same_bytes signature (crypto.hmac_sha256 key material))
      else if str_eq algorithm "ed25519"
      then raise_if (not (crypto.is_public_key key)) configuration_error
        >> ok (crypto.ed25519_verify key signature material)
      else err configuration_error

  module _ (config : MessageAuthenticityConfig) where
    abbrev pub has_key_id : Option String → String → Bool
    has_key_id none id = false
    has_key_id (some expected) id = str_eq expected id

    -- The tests of `_authenticity_failure_reason`, from the signature up.
    unfoldable pub by_signature :
        NatsEnvelope
        → MessageAuthenticityRuleConfig
        → List ℕ
        → String
        → Option (List ℕ)
        → Result (Option Reason)
    by_signature e rule key id none = ok (some signature_header_missing)
    by_signature e rule key id (some signature) = do
      material ← canonical_bytes e rule.algorithm id rule.signed_fields
      valid ← verify_signature rule.algorithm key signature material
      ok (if valid then none else some signature_invalid)

    unfoldable pub by_key_id :
        NatsEnvelope
        → MessageAuthenticityRuleConfig
        → List ℕ
        → Option String
        → Result (Option Reason)
    by_key_id e rule key none = ok (some key_id_header_missing)
    by_key_id e rule key (some id) =
        if has_key_id rule.key_id id
        then by_signature e rule key id (signature_bytes e.headers config.signature_header)
        else ok (some key_id_mismatch)

    unfoldable pub by_algorithm :
        NatsEnvelope
        → MessageAuthenticityRuleConfig
        → List ℕ
        → Option String
        → Result (Option Reason)
    by_algorithm e rule key none = ok (some algorithm_header_missing)
    by_algorithm e rule key (some algorithm) =
        if str_eq algorithm rule.algorithm
        then by_key_id e rule key (normalized_header e.headers config.key_id_header)
        else ok (some algorithm_mismatch)

    abbrev pub authenticity_failure_reason :
        NatsEnvelope → MessageAuthenticityRuleConfig → List ℕ → Result (Option Reason)
    authenticity_failure_reason e rule key =
        by_algorithm e rule key (normalized_algorithm e.headers config.algorithm_header)

    abbrev pub violation_of :
        ℕ → NatsEnvelope → String → Option Reason → Option MessageAuthenticityViolation
    violation_of index e rule_subject none = none
    violation_of index e rule_subject (some reason) = some (record {
      index = index;
      subject = e.subject;
      rule_subject = rule_subject;
      reason = reason;
    })

    abbrev pub unmatched_reason : UnmatchedSubjectAction → Option Reason
    unmatched_reason allow = none
    unmatched_reason reject = some subject_not_covered

    abbrev pub covers : MessageAuthenticityRuleConfig → NatsEnvelope → Bool
    covers rule e = matches_subject (Subjects.text rule.subject) (Subjects.text e.subject)

    abbrev pub checked_by :
        NatsEnvelope
        → MessageAuthenticityRuleConfig
        → Option (List ℕ)
        → Option String
        → Result (Option Reason)
    checked_by e rule (some key) (some id) = authenticity_failure_reason e rule key
    checked_by e rule _ _ = err configuration_error

    abbrev pub by_rule :
        ℕ → NatsEnvelope → PreparedRule → Result (Option MessageAuthenticityViolation)
    by_rule index e rule =
        if rule.config.enabled
        then (do
          reason ← checked_by e rule.config rule.key rule.config.key_id
          ok (violation_of index e rule.config.subject reason))
        else ok none

    -- The first rule that covers the subject decides.
    unfoldable pub violation_for_envelope :
        List PreparedRule → ℕ → NatsEnvelope → Result (Option MessageAuthenticityViolation)
    violation_for_envelope [] index e =
        ok (violation_of index e "<unmatched>" (unmatched_reason config.unmatched_subject_action))
    violation_for_envelope (rule ∷ rules) index e =
        let rest = violation_for_envelope rules index e in
        if covers rule.config e then by_rule index e rule else rest

    abbrev pub add_outcome :
        ℕ
        → Option MessageAuthenticityViolation
        → Evaluation MessageAuthenticityViolation
        → Evaluation MessageAuthenticityViolation
    add_outcome index none later = record later {
      accepted_indexes = index ∷ later.accepted_indexes;
    }
    add_outcome index (some found) later = record later {
      rejected_indexes = index ∷ later.rejected_indexes;
      violations = found ∷ later.violations;
    }

    -- The loop of `evaluate`.
    unfoldable pub evaluate :
        List PreparedRule → ℕ → List NatsEnvelope → Result (Evaluation MessageAuthenticityViolation)
    evaluate rules index [] =
        ok (record { accepted_indexes = []; rejected_indexes = []; violations = [] })
    evaluate rules index (e ∷ envelopes) = do
      found ← violation_for_envelope rules index e
      later ← evaluate rules (suc index) envelopes
      ok (add_outcome index found later)

  unfoldable pub prepare_rule : MessageAuthenticityRuleConfig → Result PreparedRule
  prepare_rule rule =
      if rule.enabled
      then (do
        key ← crypto.resolve_key rule
        raise_if (str_eq rule.algorithm "ed25519" && not (crypto.is_public_key key))
            configuration_error
        ok (record { config = rule; key = some key }))
      else ok (record { config = rule; key = none })

  unfoldable pub prepare_rules : List MessageAuthenticityRuleConfig → Result (List PreparedRule)
  prepare_rules [] = ok []
  prepare_rules (rule ∷ rules) = do
    prepared ← prepare_rule rule
    rest ← prepare_rules rules
    ok (prepared ∷ rest)

  unfoldable pub evaluate_message_authenticity :
      List NatsEnvelope
      → MessageAuthenticityConfig
      → Result (Evaluation MessageAuthenticityViolation)
  evaluate_message_authenticity envelopes config =
      if config.enabled
      then (do rules ← prepare_rules config.rules; evaluate config rules 0 envelopes)
      else ok (accept_all envelopes)
