-- ===== src/Errors.antt =====
-- core/errors.py: the exception classes of the framework, and the results of code that may raise.
-- An exception is its class; its message is not modelled.
use nats_sinks.Common.{
  ℕ, suc, List, [], ◌∷◌, ◌≡◌, refl, ap, ◌∙◌, ◌⊎◌, inl, inr, Bool, true, false, if◌then◌else◌,
}

-- The classes of the module. `unexpected` is any exception that is none of them.
pub data Error : Type 0 where
  configuration_error sink_error temporary_sink_error permanent_sink_error : Error
  serialization_error validation_error policy_violation_error size_policy_violation_error : Error
  destination_unavailable_error retry_exhausted_error dead_letter_error ack_error : Error
  unexpected : Error

-- `isinstance(error, PermanentSinkError)`, by the class hierarchy.
abbrev pub is_permanent : Error → Bool
is_permanent permanent_sink_error = true
is_permanent serialization_error = true
is_permanent validation_error = true
is_permanent policy_violation_error = true
is_permanent size_policy_violation_error = true
is_permanent _ = false

-- `isinstance(error, TemporarySinkError)`
abbrev pub is_temporary : Error → Bool
is_temporary temporary_sink_error = true
is_temporary destination_unavailable_error = true
is_temporary _ = false

-- `isinstance(error, SinkError)`
abbrev pub is_sink_error : Error → Bool
is_sink_error sink_error = true
is_sink_error temporary_sink_error = true
is_sink_error permanent_sink_error = true
is_sink_error serialization_error = true
is_sink_error validation_error = true
is_sink_error policy_violation_error = true
is_sink_error size_policy_violation_error = true
is_sink_error destination_unavailable_error = true
is_sink_error _ = false

-- `isinstance(error, NatsSinksError)`
abbrev pub is_nats_sinks_error : Error → Bool
is_nats_sinks_error unexpected = false
is_nats_sinks_error _ = true

-- What a call gives: an exception, or its value.
pub data Result {ℓ} (V : Type ℓ) : Type ℓ where
  err : Error → Result V
  ok : V → Result V

module _ {ℓ κ} {V : Type ℓ} {W : Type κ} where
  infixl 5 ◌>>=◌
  abbrev pub ◌>>=◌ : Result V → (V → Result W) → Result W
  ◌>>=◌ (err raised) next = err raised
  ◌>>=◌ (ok value) next = next value

  -- A sequence that returns has a first part that returned.
  pub bind-ok :
      (first : Result V) (next : V → Result W) (w : W)
      → (first >>= next) ≡ ok w
      → (v : V) × (first ≡ ok v) × (next v ≡ ok w)
  bind-ok (err raised) next w h = cc
  bind-ok (ok value) next w h = (value, refl, h)

  -- A first part that returned leaves the rest.
  pub bind-step :
      {call : Result V} {v : V} (next : V → Result W) {r : Result W}
      → call ≡ ok v
      → next v ≡ r
      → (call >>= next) ≡ r
  bind-step next e h = ap (λ c. c >>= next) e ∙ h

-- `if test: raise error`
abbrev pub raise_if : Bool → Error → Result (Unit {0})
raise_if test e = if test then err e else ok tt

infixl 5 ◌>>◌
abbrev pub ◌>>◌ {ℓ} : {W : Type ℓ} → Result (Unit {0}) → Result W → Result W
check >> rest = check >>= λ unit. rest

-- A test that did not raise was false.
pub raise_if-ok {ℓ} :
    {W : Type ℓ} (test : Bool) (e : Error) (next : Result W) (w : W)
    → (raise_if test e >> next) ≡ ok w
    → (test ≡ false) × (next ≡ ok w)
raise_if-ok true e next w h = cc
raise_if-ok false e next w h = (refl, h)

pub ok_inj {ℓ} : {V : Type ℓ} {v w : V} → ok v ≡ ok w → v ≡ w
ok_inj e = cc

pub Result-cases {ℓ} :
    {V : Type ℓ} (call : Result V)
    → ((value : V) × (call ≡ ok value)) ⊎ ((raised : Error) × (call ≡ err raised))
Result-cases (err raised) = inr (raised, refl)
Result-cases (ok value) = inl (value, refl)

-- A comprehension whose element may raise: the first error ends it. The numbers tell the elements
-- apart for a function that draws a fresh value for each.
unfoldable pub collect_from {ℓ} : {A B : Type ℓ} → (ℕ → A → Result B) → ℕ → List A → Result (List B)
collect_from f n [] = ok []
collect_from f n (a ∷ as') = do b ← f n a; bs ← collect_from f (suc n) as'; ok (b ∷ bs)
