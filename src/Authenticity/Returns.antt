-- ===== src/Authenticity/Returns.antt =====
-- Proofs about core/authenticity.py: when the evaluation of a batch returns.
use nats_sinks.Common.{
  ℕ, suc, ◌≡◌, refl, ap, ◌⊎◌, inl, inr, Bool, true, false, List, [], ◌∷◌, Option, none, some,
  String, PythonText, All, str_eq, is_some, if◌then◌else◌, Bool-cases,
}
use nats_sinks.Errors.{Error, Result, ok, err, policy_violation_error, bind-step, ◌>>=◌}
use nats_sinks.Envelope.{NatsEnvelope, Fields, end}
use nats_sinks.Authenticity.{
  MessageAuthenticityRuleConfig, MessageAuthenticityConfig, PreparedRule, Crypto, metadata_value,
  put_field, selected_metadata, canonical_document, canonical_bytes, rendered_or_error,
  normalized_header, normalized_algorithm, signature_bytes, verify_signature, has_key_id,
  by_signature, by_key_id, by_algorithm, authenticity_failure_reason, covers, checked_by, by_rule,
  violation_for_envelope, evaluate,
}

unfoldable pub Returns : {V : Type 0} → Result V → Type 0
Returns {V} call = (v : V) × (call ≡ ok v)

Returns-if :
    {V : Type 0} (b : Bool) (x y : Result V) → Returns x → Returns y → Returns (if b then x else y)
Returns-if true x y h k = h
Returns-if false x y h k = k

Returns-else :
    {V : Type 0} (b : Bool) (x y : Result V) → b ≡ false → Returns y → Returns (if b then x else y)
Returns-else b x y h k = rw h k

Returns-bind :
    {V W : Type 0} (call : Result V) (next : V → Result W)
    → Returns call
    → ((v : V) → Returns (next v))
    → Returns (call >>= next)
unfolding Returns
Returns-bind call next (v, e) k = let (w, f) = k v in (w, bind-step next e f)

Returns-value : {V : Type 0} (v : V) → Returns (ok v)
unfolding Returns
Returns-value v = (v, refl)

Returns-option :
    {A V : Type 0} (o : Option A) (bad : Error) (next : A → Result V)
    → is_some o ≡ true
    → ((a : A) → Returns (next a))
    → Returns (elim o [ none ↦ err bad | some a ↦ next a ])
Returns-option none bad next h k = cc
Returns-option (some a) bad next h k = k a

-- The algorithm is one of the two, with a key that is fit for it.
abbrev pub IsSupported : Crypto → String → List ℕ → Type 0
IsSupported crypto algorithm key =
    (algorithm ≡ "hmac-sha256") ⊎ ((algorithm ≡ "ed25519") × (crypto.is_public_key key ≡ true))

-- A prepared rule that the configuration's validators accept: if it is enabled, it has a key, a key
-- identifier, a supported algorithm and supported fields.
pub record IsUsable (crypto : Crypto) (rule : PreparedRule) : Type 0 where
  pub key : List ℕ
  pub id : String
  pub has_key : rule.key ≡ some key
  pub has_id : rule.config.key_id ≡ some id
  pub supported : IsSupported crypto rule.config.algorithm key
  pub fields :
      (e : NatsEnvelope)
      → All (λ name. is_some (metadata_value e name) ≡ true) rule.config.signed_fields

selected_metadata-Returns :
    (e : NatsEnvelope) (done : Fields) (names : List String)
    → All (λ name. is_some (metadata_value e name) ≡ true) names
    → Returns (selected_metadata e done names)
unfolding selected_metadata Returns
selected_metadata-Returns e done [] h = (done, refl)
selected_metadata-Returns e done (name ∷ names) (h, hs) =
    Returns-option (metadata_value e name) policy_violation_error
      (λ value. selected_metadata e (put_field name value done) names) h
      (λ value. selected_metadata-Returns e (put_field name value done) names hs)

module _ (python : PythonText) (crypto : Crypto)
    (renders : (document : Fields)
      → (bytes : List ℕ) × (crypto.json_bytes document ≡ some bytes)) where
  canonical_bytes-Returns :
      (e : NatsEnvelope) (algorithm id : String) (names : List String)
      → All (λ name. is_some (metadata_value e name) ≡ true) names
      → Returns (canonical_bytes python crypto e algorithm id names)
  unfolding canonical_bytes canonical_document Returns
  canonical_bytes-Returns e algorithm id names h =
      let (metadata, made) = selected_metadata-Returns e end names h in
      let (bytes, rendered) = renders _ in
      (bytes, bind-step _ (bind-step _ made refl) (ap (rendered_or_error python crypto) rendered))

  verify_signature-Returns :
      (algorithm : String) (key signature material : List ℕ)
      → IsSupported crypto algorithm key
      → Returns (verify_signature python crypto algorithm key signature material)
  unfolding verify_signature Returns
  verify_signature-Returns algorithm key signature material (inl h) = rw h (_, refl)
  verify_signature-Returns algorithm key signature material (inr (h, k)) =
      rw h (crypto.ed25519_verify key signature material, rw k refl)

  module _ (config : MessageAuthenticityConfig) where
    failure_reason-Returns :
        (e : NatsEnvelope) (rule : MessageAuthenticityRuleConfig) (key : List ℕ)
        → IsSupported crypto rule.algorithm key
        → All (λ name. is_some (metadata_value e name) ≡ true) rule.signed_fields
        → Returns (authenticity_failure_reason python crypto config e rule key)
    unfolding by_algorithm by_key_id by_signature
    failure_reason-Returns e rule key s h =
        by_algorithm-Returns (normalized_algorithm python crypto e.headers config.algorithm_header)
      where
        by_signature-Returns :
            (id : String) (o : Option (List ℕ))
            → Returns (by_signature python crypto config e rule key id o)
        by_signature-Returns id none = Returns-value _
        by_signature-Returns id (some signature) =
            Returns-bind (canonical_bytes python crypto e rule.algorithm id rule.signed_fields) _
              (canonical_bytes-Returns e rule.algorithm id rule.signed_fields h)
              (λ material.
                Returns-bind (verify_signature python crypto rule.algorithm key signature material)
                  _ (verify_signature-Returns rule.algorithm key signature material s)
                  (λ valid. Returns-value _))

        by_key_id-Returns :
            (o : Option String) → Returns (by_key_id python crypto config e rule key o)
        by_key_id-Returns none = Returns-value _
        by_key_id-Returns (some id) =
            Returns-if (has_key_id python crypto config rule.key_id id) _ _
              (by_signature-Returns id
                (signature_bytes python crypto e.headers config.signature_header))
              (Returns-value _)

        by_algorithm-Returns :
            (o : Option String) → Returns (by_algorithm python crypto config e rule key o)
        by_algorithm-Returns none = Returns-value _
        by_algorithm-Returns (some algorithm) =
            Returns-if (str_eq algorithm rule.algorithm) _ _
              (by_key_id-Returns (normalized_header python crypto e.headers config.key_id_header))
              (Returns-value _)

    by_rule-Returns :
        (i : ℕ) (e : NatsEnvelope) (rule : PreparedRule)
        → (rule.config.enabled ≡ true → IsUsable crypto rule)
        → Returns (by_rule python crypto config i e rule)
    by_rule-Returns i e rule usable = elim (Bool-cases rule.config.enabled) [
      | inl on ↦
          let u = usable on in
          Returns-if rule.config.enabled _ _
            (Returns-bind
              (checked_by python crypto config e rule.config rule.key rule.config.key_id) _
              (checked_by-Returns rule.key rule.config.key_id u.key u.id u.has_key u.has_id
                (failure_reason-Returns e rule.config u.key u.supported (u.fields e)))
              (λ reason. Returns-value _))
            (Returns-value _)
      | inr off ↦ Returns-else rule.config.enabled _ _ off (Returns-value none)
    ]
      where
        checked_by-Returns :
            (k : Option (List ℕ)) (o : Option String) (key : List ℕ) (id : String)
            → k ≡ some key
            → o ≡ some id
            → Returns (authenticity_failure_reason python crypto config e rule.config key)
            → Returns (checked_by python crypto config e rule.config k o)
        checked_by-Returns k o key id same_key same_id h = rw same_key (rw same_id h)

    violation_for_envelope-Returns :
        (rules : List PreparedRule) (i : ℕ) (e : NatsEnvelope)
        → All (λ rule. rule.config.enabled ≡ true → IsUsable crypto rule) rules
        → Returns (violation_for_envelope python crypto config rules i e)
    unfolding violation_for_envelope
    violation_for_envelope-Returns [] i e h = Returns-value _
    violation_for_envelope-Returns (rule ∷ rules) i e (h, hs) =
        Returns-if (covers python crypto config rule.config e) _ _ (by_rule-Returns i e rule h)
          (violation_for_envelope-Returns rules i e hs)

    pub evaluate-Returns :
        (rules : List PreparedRule) (i : ℕ) (batch : List NatsEnvelope)
        → All (λ rule. rule.config.enabled ≡ true → IsUsable crypto rule) rules
        → Returns (evaluate python crypto config rules i batch)
    unfolding evaluate
    evaluate-Returns rules i [] h = Returns-value _
    evaluate-Returns rules i (e ∷ batch) h =
        Returns-bind (violation_for_envelope python crypto config rules i e) _
          (violation_for_envelope-Returns rules i e h)
          (λ found.
            Returns-bind (evaluate python crypto config rules (suc i) batch) _
              (evaluate-Returns rules (suc i) batch h) (λ later. Returns-value _))
