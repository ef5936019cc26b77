-- ===== src/Authenticity/Laws.antt =====
-- Proofs about core/authenticity.py: the messages that the gate accepts.
use nats_sinks.Common.{
  if_true, if_false, ℕ, ◌≡◌, refl, ap, sym, subst, ◌∙◌, ◌↔◌, inl, inr, Bool, true, false, List, [],
  ◌∷◌, Option, none, some, String, PythonText, str_eq, str_eq_refl, str_eq→eq, if◌then◌else◌,
  Bool-cases,
}
use nats_sinks.Errors.{Result, ok, bind-ok, bind-step}
use nats_sinks.Envelope.{NatsEnvelope}
use nats_sinks.Policy.{UnmatchedSubjectAction, allow, reject}
use nats_sinks.Authenticity.{
  MessageAuthenticityRuleConfig, MessageAuthenticityConfig, Reason, signature_invalid,
  key_id_mismatch, algorithm_mismatch, PreparedRule, Crypto, canonical_bytes, normalized_header,
  normalized_algorithm, signature_bytes, verify_signature, has_key_id, by_signature, by_key_id,
  by_algorithm, authenticity_failure_reason, violation_of, covers, checked_by, by_rule,
  unmatched_reason, violation_for_envelope,
}

module _ (python : PythonText) (crypto : Crypto) (config : MessageAuthenticityConfig) where
  -- The headers of the message name the rule's algorithm and key, and carry a signature that this
  -- key verifies over the message's canonical bytes.
  pub record IsSigned (e : NatsEnvelope) (rule : MessageAuthenticityRuleConfig) (key : List ℕ)
      : Type 0 where
    pub id : String
    pub signature : List ℕ
    pub material : List ℕ
    pub same_algorithm :
        normalized_algorithm python crypto e.headers config.algorithm_header ≡ some rule.algorithm
    pub same_key : normalized_header python crypto e.headers config.key_id_header ≡ some id
    pub trusted_key : rule.key_id ≡ some id
    pub signed : signature_bytes python crypto e.headers config.signature_header ≡ some signature
    pub canonical :
        canonical_bytes python crypto e rule.algorithm id rule.signed_fields ≡ ok material
    pub verified : verify_signature python crypto rule.algorithm key signature material ≡ ok true

  -- What the first rule that covers the message's subject asks for: nothing if it is switched off,
  -- else a signature; a message that no rule covers is allowed or not by the configured action.
  pub IsAuthentic : List PreparedRule → NatsEnvelope → Type 0
  IsAuthentic [] e = config.unmatched_subject_action ≡ allow
  IsAuthentic (rule ∷ rules) e =
      (covers python crypto config rule.config e ≡ true
        → rule.config.enabled ≡ true
        → (key : List ℕ) × (rule.key ≡ some key) × IsSigned e rule.config key)
      × (covers python crypto config rule.config e ≡ false → IsAuthentic rules e)

  module _ (e : NatsEnvelope) (rule : MessageAuthenticityRuleConfig) (key : List ℕ) where
    valid_if_silent :
        (b : Bool) → ok (if b then none else some signature_invalid) ≡ ok none → b ≡ true
    valid_if_silent true h = refl
    valid_if_silent false h = cc

    by_signature-none :
        (id : String) (s : Option (List ℕ))
        → by_signature python crypto config e rule key id s ≡ ok none
        → (signature : List ℕ) × (material : List ℕ) × (s ≡ some signature)
          × (canonical_bytes python crypto e rule.algorithm id rule.signed_fields ≡ ok material)
          × (verify_signature python crypto rule.algorithm key signature material ≡ ok true)
    unfolding by_signature
    by_signature-none id none h = cc
    by_signature-none id (some signature) h =
        let (material, c, h1) =
          bind-ok (canonical_bytes python crypto e rule.algorithm id rule.signed_fields) _ none h in
        let (valid, v, h2) =
          bind-ok (verify_signature python crypto rule.algorithm key signature material) _ none
            h1 in
        (signature, material, refl, c, v ∙ ap ok (valid_if_silent valid h2))

    has_key_id-some :
        (o : Option String) (id : String)
        → has_key_id python crypto config o id ≡ true
        → o ≡ some id
    has_key_id-some none id h = cc
    has_key_id-some (some expected) id h = ap some (str_eq→eq expected id h)

    if_silent :
        (b : Bool) (reason : Reason) (next : Result (Option Reason))
        → (if b then next else ok (some reason)) ≡ ok none
        → (b ≡ true) × (next ≡ ok none)
    if_silent true reason next h = (refl, h)
    if_silent false reason next h = cc

    by_key_id-none :
        (o : Option String)
        → by_key_id python crypto config e rule key o ≡ ok none
        → (id : String) × (o ≡ some id)
          × (rule.key_id ≡ some id)
          × (by_signature python crypto config e rule key id
                (signature_bytes python crypto e.headers config.signature_header)
              ≡ ok none)
    unfolding by_key_id
    by_key_id-none none h = cc
    by_key_id-none (some id) h =
        let (same, rest) =
          if_silent (has_key_id python crypto config rule.key_id id) key_id_mismatch _ h in
        (id, refl, has_key_id-some rule.key_id id same, rest)

    by_algorithm-none :
        (o : Option String)
        → by_algorithm python crypto config e rule key o ≡ ok none
        → (o ≡ some rule.algorithm)
          × (by_key_id python crypto config e rule key
                (normalized_header python crypto e.headers config.key_id_header)
              ≡ ok none)
    unfolding by_algorithm
    by_algorithm-none none h = cc
    by_algorithm-none (some algorithm) h =
        let (same, rest) = if_silent (str_eq algorithm rule.algorithm) algorithm_mismatch _ h in
        (ap some (str_eq→eq algorithm rule.algorithm same), rest)

    failure_reason-IsSigned :
        authenticity_failure_reason python crypto config e rule key ≡ ok none → IsSigned e rule key
    failure_reason-IsSigned h =
        let (same_algorithm, h1) =
          by_algorithm-none (normalized_algorithm python crypto e.headers config.algorithm_header)
            h in
        let (id, same_key, trusted, h2) =
          by_key_id-none (normalized_header python crypto e.headers config.key_id_header) h1 in
        let (signature, material, signed, canonical, verified) =
          by_signature-none id (signature_bytes python crypto e.headers config.signature_header)
            h2 in
        record {
          id = id;
          signature = signature;
          material = material;
          same_algorithm = same_algorithm;
          same_key = same_key;
          trusted_key = trusted;
          signed = signed;
          canonical = canonical;
          verified = verified;
        }

    IsSigned-failure_reason :
        IsSigned e rule key → authenticity_failure_reason python crypto config e rule key ≡ ok none
    unfolding by_algorithm by_key_id by_signature
    IsSigned-failure_reason s = rw s.same_algorithm (
        rw (str_eq_refl rule.algorithm) (
          rw s.same_key (
            rw s.trusted_key (
              rw (str_eq_refl s.id)
                (rw s.signed (bind-step _ s.canonical (bind-step _ s.verified refl)))))))

  checked_by-IsSigned :
      (e : NatsEnvelope) (rule : MessageAuthenticityRuleConfig) (k : Option (List ℕ))
      (o : Option String)
      → checked_by python crypto config e rule k o ≡ ok none
      → (key : List ℕ) × (k ≡ some key) × IsSigned e rule key
  checked_by-IsSigned e rule none o h = cc
  checked_by-IsSigned e rule (some key) none h = cc
  checked_by-IsSigned e rule (some key) (some id) h =
      (key, refl, failure_reason-IsSigned e rule key h)

  violation-none :
      (i : ℕ) (e : NatsEnvelope) (subject : String) (o : Option Reason)
      → ok (violation_of python crypto config i e subject o) ≡ ok none
      → o ≡ none
  violation-none i e subject none h = refl
  violation-none i e subject (some reason) h = cc

  checked_by-none :
      (e : NatsEnvelope) (rule : MessageAuthenticityRuleConfig) (k : Option (List ℕ))
      (o : Option String) (key : List ℕ) (id : String)
      → k ≡ some key
      → o ≡ some id
      → authenticity_failure_reason python crypto config e rule key ≡ ok none
      → checked_by python crypto config e rule k o ≡ ok none
  checked_by-none e rule k o key id same_key same_id h = rw same_key (rw same_id h)

  by_rule-IsSigned :
      (i : ℕ) (e : NatsEnvelope) (rule : PreparedRule)
      → by_rule python crypto config i e rule ≡ ok none
      → rule.config.enabled ≡ true
      → (key : List ℕ) × (rule.key ≡ some key) × IsSigned e rule.config key
  by_rule-IsSigned i e rule h on =
      let call = checked_by python crypto config e rule.config rule.key rule.config.key_id in
      let found = λ (reason : Option Reason).
        ok (violation_of python crypto config i e rule.config.subject reason) in
      let (reason, r, made) =
        bind-ok call found none (sym (if_true rule.config.enabled _ (ok none) on) ∙ h) in
      checked_by-IsSigned e rule.config rule.key rule.config.key_id
        (r ∙ ap ok (violation-none i e rule.config.subject reason made))

  by_rule-none :
      (i : ℕ) (e : NatsEnvelope) (rule : PreparedRule)
      → (rule.config.enabled ≡ true
          → (key : List ℕ) × (rule.key ≡ some key) × IsSigned e rule.config key)
      → by_rule python crypto config i e rule ≡ ok none
  by_rule-none i e rule a = elim (Bool-cases rule.config.enabled) [
    | inl on ↦
        let (key, k, s) = a on in
        if_true rule.config.enabled _ (ok none) on
        ∙ bind-step _
            (checked_by-none e rule.config rule.key rule.config.key_id key s.id k s.trusted_key
              (IsSigned-failure_reason e rule.config key s))
            refl
    | inr off ↦ if_false rule.config.enabled _ (ok none) off
  ]

  unmatched_iff :
      (i : ℕ) (e : NatsEnvelope) (action : UnmatchedSubjectAction)
      → ok (
            violation_of python crypto config i e "<unmatched>"
              (unmatched_reason python crypto config action))
          ≡ ok none
        ↔ action ≡ allow
  unmatched_iff i e allow = ((λ h. refl), (λ h. refl))
  unmatched_iff i e reject = ((λ h. cc), (λ h. cc))

  pub violation_for_envelope_iff :
      (rules : List PreparedRule) (i : ℕ) (e : NatsEnvelope)
      → violation_for_envelope python crypto config rules i e ≡ ok none ↔ IsAuthentic rules e
  unfolding violation_for_envelope IsAuthentic
  violation_for_envelope_iff [] i e = unmatched_iff i e config.unmatched_subject_action
  violation_for_envelope_iff (rule ∷ rules) i e =
      let (f, g) = violation_for_envelope_iff rules i e in
      let decided = by_rule python crypto config i e rule in
      let rest = violation_for_envelope python crypto config rules i e in
      (
        λ h. (
          λ t. by_rule-IsSigned i e rule (subst (λ b. (if b then decided else rest) ≡ ok none) t h),
          λ u. f (subst (λ b. (if b then decided else rest) ≡ ok none) u h),
        ),
        λ (met, later). elim (Bool-cases (covers python crypto config rule.config e)) [
          | inl t ↦ rw t (by_rule-none i e rule (met t))
          | inr u ↦ rw u (g (later u))
        ],
      )
