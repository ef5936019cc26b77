-- ===== src/DeadLetter/Laws.antt =====
-- Proofs about core/dlq.py: the dead letter documents.
use nats_sinks.Common.{
  ℕ, ◌≡◌, refl, ap, ◌∙◌, inl, inr, Bool, true, false, ◌&&◌, Option, none, some, String, PythonText,
  str_eq, ◌⊎◌, if◌then◌else◌,
}
use nats_sinks.Errors.{ok, ◌>>=◌, bind-step}
use nats_sinks.Envelope.{Json, null, text, object, Fields, or_text, NatsEnvelope}
use nats_sinks.Envelope.Laws.{idempotency_key-IsKeyed}
use nats_sinks.Spool.Record.{Codecs, optional_text, header_fields, get, key_text}
use nats_sinks.Authenticity.{put_field}
use nats_sinks.Authenticity.Binding.{get-put_field, get-put_field-other}
use nats_sinks.DeadLetter.{
  Inclusion, ErrorText, after_key, base_fields, add_error, add_timestamp, add_headers, add_payload,
  build_dead_letter_payload,
}

-- What a document discloses of the message: the subject always; the error, the headers and the body
-- only if they are included.
pub record Discloses (codecs : Codecs) (e : NatsEnvelope) (error : ErrorText) (included : Inclusion)
    (body : Fields) : Type 0 where
  pub subject : get body "subject" ≡ text e.subject
  pub identified :
      ((id : String) × (get body "idempotency_key" ≡ text id)) ⊎ (e.payload_omitted ≡ true)
  pub error_message :
      get body "error" ≡ (if included.include_error then text error.message else null)
  pub headers :
      get body "headers"
      ≡ (if included.include_headers then object (header_fields e.headers) else null)
  pub payload : get body "payload_base64" ≡ (
      if included.include_payload && e.payload_present
      then text (codecs.b64_encode e.payload)
      else null)

module _ (python : PythonText) (codecs : Codecs) (isoformat : ℕ → String) where
  add_error-other :
      (b : Bool) (error : ErrorText) (body : Fields) (k : String)
      → str_eq "error" k ≡ false
      → str_eq "error_type" k ≡ false
      → get (add_error python codecs isoformat b error body) k ≡ get body k
  add_error-other false error body k h g = refl
  add_error-other true error body k h g =
      get-put_field-other "error" k (text error.message)
        (put_field "error_type" (text error.type_name) body) h
      ∙ get-put_field-other "error_type" k (text error.type_name) body g

  add_timestamp-other :
      (t : Option ℕ) (body : Fields) (k : String)
      → str_eq "timestamp" k ≡ false
      → get (add_timestamp python codecs isoformat t body) k ≡ get body k
  add_timestamp-other none body k h = refl
  add_timestamp-other (some t) body k h =
      get-put_field-other "timestamp" k (text (isoformat t)) body h

  add_headers-other :
      (b : Bool) (e : NatsEnvelope) (body : Fields) (k : String)
      → str_eq "headers" k ≡ false
      → get (add_headers python codecs isoformat b e body) k ≡ get body k
  add_headers-other false e body k h = refl
  add_headers-other true e body k h =
      get-put_field-other "headers" k (object (header_fields e.headers)) body h

  -- The body of `add_payload`, by its two tests.
  placed : Bool → Bool → Json → Json → Fields → Fields
  placed b c v w body =
      if b
      then put_field "payload_base64" v body
      else if c
      then put_field "payload_unavailable_reason" w body
      else body

  placed-other :
      (b c : Bool) (v w : Json) (body : Fields) (k : String)
      → str_eq "payload_base64" k ≡ false
      → str_eq "payload_unavailable_reason" k ≡ false
      → get (placed b c v w body) k ≡ get body k
  unfolding placed
  placed-other true c v w body k h g = get-put_field-other "payload_base64" k v body h
  placed-other false true v w body k h g =
      get-put_field-other "payload_unavailable_reason" k w body g
  placed-other false false v w body k h g = refl

  get-placed :
      (b c : Bool) (v w : Json) (body : Fields)
      → get (placed b c v w body) "payload_base64" ≡ (if b then v else get body "payload_base64")
  unfolding placed
  get-placed true c v w body = get-put_field "payload_base64" v body
  get-placed false true v w body =
      get-put_field-other "payload_unavailable_reason" "payload_base64" w body refl
  get-placed false false v w body = refl

  get-add_headers :
      (b : Bool) (e : NatsEnvelope) (body : Fields)
      → get (add_headers python codecs isoformat b e body) "headers"
        ≡ (if b then object (header_fields e.headers) else get body "headers")
  get-add_headers false e body = refl
  get-add_headers true e body = get-put_field "headers" (object (header_fields e.headers)) body

  get-add_error :
      (b : Bool) (error : ErrorText) (body : Fields)
      → get (add_error python codecs isoformat b error body) "error"
        ≡ (if b then text error.message else get body "error")
  get-add_error false error body = refl
  get-add_error true error body =
      get-put_field "error" (text error.message)
        (put_field "error_type" (text error.type_name) body)

  discloses :
      (e : NatsEnvelope) (error : ErrorText) (included : Inclusion)
      (key : Option String × Option String)
      → ((id : String) × (optional_text key.0 ≡ text id)) ⊎ (e.payload_omitted ≡ true)
      → Discloses codecs e error included (
          add_payload python codecs isoformat included.include_payload e (
            add_headers python codecs isoformat included.include_headers e (
              add_timestamp python codecs isoformat e.timestamp (
                add_error python codecs isoformat included.include_error error
                  (base_fields python codecs isoformat e key)))))
  unfolding placed
  discloses e error included key keyed =
      let base = base_fields python codecs isoformat e key in
      let one = add_error python codecs isoformat included.include_error error base in
      let two = add_timestamp python codecs isoformat e.timestamp one in
      let three = add_headers python codecs isoformat included.include_headers e two in
      let b = included.include_payload && e.payload_present in
      let c = included.include_payload && e.payload_omitted in
      let v = text (codecs.b64_encode e.payload) in
      let w = optional_text (or_text e.payload_omitted_reason (some "payload_omitted")) in
      record {
        subject =
            placed-other b c v w three "subject" refl refl
            ∙ add_headers-other included.include_headers e two "subject" refl
            ∙ add_timestamp-other e.timestamp one "subject" refl
            ∙ add_error-other included.include_error error base "subject" refl refl;
        identified = elim keyed [
          | inl (id, same) ↦ inl (
            id,
            placed-other b c v w three "idempotency_key" refl refl
                ∙ add_headers-other included.include_headers e two "idempotency_key" refl
                ∙ add_timestamp-other e.timestamp one "idempotency_key" refl
                ∙ add_error-other included.include_error error base "idempotency_key" refl refl
                ∙ same,
          )
          | inr omitted ↦ inr omitted
        ];
        error_message =
            placed-other b c v w three "error" refl refl
            ∙ add_headers-other included.include_headers e two "error" refl
            ∙ add_timestamp-other e.timestamp one "error" refl
            ∙ get-add_error included.include_error error base;
        headers =
            placed-other b c v w three "headers" refl refl
            ∙ get-add_headers included.include_headers e two
            ∙ ap (λ j. if included.include_headers then object (header_fields e.headers) else j)
                (add_timestamp-other e.timestamp one "headers" refl
                  ∙ add_error-other included.include_error error base "headers" refl refl);
        payload =
            get-placed b c v w three
            ∙ ap (λ j. if b then v else j)
                (add_headers-other included.include_headers e two "payload_base64" refl
                  ∙ add_timestamp-other e.timestamp one "payload_base64" refl
                  ∙ add_error-other included.include_error error base "payload_base64" refl refl);
      }

  -- Whatever is left out, the document of every message can be built: it names the subject, has an
  -- idempotency key unless the body was omitted, and has the text of the error, the headers and the
  -- body exactly when these are included (the body only if it is present).
  pub build_dead_letter_payload-Discloses :
      (e : NatsEnvelope) (error : ErrorText) (included : Inclusion)
      → (body : Fields) × (build_dead_letter_payload python codecs isoformat e error included
          ≡ ok body)
        × Discloses codecs e error included body
  unfolding build_dead_letter_payload
  build_dead_letter_payload-Discloses e error included =
      elim (idempotency_key-IsKeyed codecs.sha256 e) [
        | inl (key, keyed) ↦ (
          _,
          bind-step _
              (ap
                (λ call.
                  after_key python codecs isoformat (call >>= λ k. ok (key_text python codecs k)))
                keyed)
              refl,
          discloses e error included (some (key_text python codecs key), none) (inl (_, refl)),
        )
        | inr (failed, omitted) ↦ (
          _,
          bind-step _
              (ap
                (λ call.
                  after_key python codecs isoformat (call >>= λ k. ok (key_text python codecs k)))
                failed)
              refl,
          discloses e error included (none, some "payload_omitted") (inr omitted),
        )
      ]
