-- ===== src/Envelope/Laws.antt =====
-- Proofs about the constructor of core/envelope.py.
use nats_sinks.Common.{
  ◌⊎◌, inl, inr, Bool-cases, String, is_blank, if◌then◌else◌, ℕ, ◌≡◌, refl, Bool, true, false, not,
  List, Option, none, some, ℤ, PythonText, strip, is_negative, is_some, arith,
}
use nats_sinks.Metadata.Laws.{normalise_metadata_value_idem}
use nats_sinks.Metadata.{Headers, shows, normalise_metadata_value, value_of}
use nats_sinks.Errors.{Result, ok, err, validation_error}
use nats_sinks.Envelope.{
  NatsEnvelope, IdempotencyKey, by_message_id, by_payload, by_stream_sequence, key_by_payload,
  key_by_message_id, key_by_stream, idempotency_key, Presence, normalise_payload_presence,
}

abbrev pub known_size : Option ℤ → Bool
known_size none = false
known_size (some n) = not (is_negative n)

-- A payload is present or omitted, and only an omitted one has a reason; the size is known and not
-- negative.
pub record IsSettled (p : Presence) : Type 0 where
  pub exclusive : p.omitted ≡ true → p.present ≡ false
  pub explained : p.omitted ≡ true → is_some p.reason ≡ true
  pub unexplained : p.present ≡ true → p.reason ≡ none
  pub sized : known_size p.size ≡ true

module _ (python : PythonText) where
  -- Whatever the headers, the body and the given fields are, the normalised fields are settled: an
  -- omitted payload is not present and has a reason, a present one has none, and the size of the
  -- payload is known and not negative.
  pub normalise_payload_presence-IsSettled :
      (headers : Headers) (payload : List ℕ) (p : Presence)
      → IsSettled (normalise_payload_presence python headers payload p)
  unfolding normalise_payload_presence
  normalise_payload_presence-IsSettled headers payload p = record {
    exclusive = ground arith;
    explained = ground arith;
    unexplained = ground arith;
    sized = ground arith;
  }

  headers_only-normal : normalise_metadata_value (shows "headers_only") ≡ some "headers_only"
  unfolding normalise_metadata_value strip
  headers_only-normal = refl

  -- Normalising again changes nothing, so `replace` keeps what it does not name.
  pub normalise_payload_presence_idem :
      (headers : Headers) (payload : List ℕ) (p : Presence)
      → normalise_payload_presence python headers payload
          (normalise_payload_presence python headers payload p)
        ≡ normalise_payload_presence python headers payload p
  unfolding normalise_payload_presence
  normalise_payload_presence_idem headers payload p =
      ground (arith, normalise_metadata_value_idem (value_of p.reason), headers_only-normal)

-- A key, or the error for a message whose body was omitted.
abbrev pub IsKeyed : NatsEnvelope → Result IdempotencyKey → Type 0
IsKeyed e call =
    ((key : IdempotencyKey) × (call ≡ ok key))
    ⊎ ((call ≡ err validation_error) × (e.payload_omitted ≡ true))

module _ (sha256 : List ℕ → String) (e : NatsEnvelope) where
  key_by_payload-IsKeyed : IsKeyed e (key_by_payload sha256 e)
  unfolding key_by_payload
  key_by_payload-IsKeyed = elim (Bool-cases e.payload_omitted) [
    | inl omitted ↦ inr (rw omitted refl, omitted)
    | inr there ↦ inl (by_payload e.subject (sha256 e.payload), rw there refl)
  ]

  key_by_message_id-IsKeyed : (o : Option String) → IsKeyed e (key_by_message_id sha256 e o)
  unfolding key_by_message_id
  key_by_message_id-IsKeyed none = key_by_payload-IsKeyed
  key_by_message_id-IsKeyed (some id) = go (is_blank id)
    where
      go : (b : Bool) → IsKeyed e (if b then key_by_payload sha256 e else ok (by_message_id id))
      go true = key_by_payload-IsKeyed
      go false = inl (_, refl)

  key_by_stream-IsKeyed :
      (s : Option String) (q : Option ℕ) → IsKeyed e (key_by_stream sha256 e s q)
  unfolding key_by_stream
  key_by_stream-IsKeyed none q = key_by_message_id-IsKeyed e.message_id
  key_by_stream-IsKeyed (some stream) none = key_by_message_id-IsKeyed e.message_id
  key_by_stream-IsKeyed (some stream) (some sequence) = go (is_blank stream)
    where
      go :
          (b : Bool)
          → IsKeyed e (
              if b
              then key_by_message_id sha256 e e.message_id
              else ok (by_stream_sequence stream sequence))
      go true = key_by_message_id-IsKeyed e.message_id
      go false = inl (_, refl)

  pub idempotency_key-IsKeyed : IsKeyed e (idempotency_key sha256 e)
  unfolding idempotency_key
  idempotency_key-IsKeyed = key_by_stream-IsKeyed e.stream e.stream_sequence
