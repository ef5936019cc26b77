-- ===== src/SizePolicy/Laws.antt =====
-- Proofs about core/size_policy.py, with what its limits mean part by part.
use nats_sinks.Common.{
  if_true, ℕ, ◌+◌, ◌≤◌, max, ◌≡◌, refl, sym, ◌↔◌, inl, inr, true, List, [], ◌∷◌, String, length,
  ltb, map, utf8_size, All, All-weaken, ap, ◌∙◌, Bool-cases, arith,
}
use nats_sinks.Metadata.{Headers}
use nats_sinks.Envelope.{Fields, NatsEnvelope}
use nats_sinks.Errors.{Result, ok, ok_inj, bind-ok, bind-step}
use nats_sinks.Gate.{Evaluation}
use nats_sinks.Gate.Laws.{Splits, evaluate-Splits, evaluate_from-returns}
use nats_sinks.SizePolicy.{
  SizePolicyConfig, Reason, SizePolicyViolation, HeaderSizes, header_sizes_from, largest, sum,
  append_if_over, json_size, sized_violations, violations_for_envelope, violations_in_batch,
  evaluate_size_policy,
}

append_if_over_iff :
    (i : ℕ) (envelope : NatsEnvelope) (code : Reason) (size most : ℕ)
    (rest : List SizePolicyViolation)
    → append_if_over i envelope code size most rest ≡ [] ↔ (size ≤ most) × (rest ≡ [])
unfolding append_if_over
append_if_over_iff i envelope code size most rest = elim (Bool-cases (ltb most size)) [
  | inl e ↦ rw e ((λ h. cc), (λ (h, _). ground arith))
  | inr e ↦ rw e ((λ h. (ground arith, h)), (λ (_, h). h))
]

largest_iff : (sizes : List ℕ) (most : ℕ) → largest sizes ≤ most ↔ All (λ n. n ≤ most) sizes
unfolding largest
largest_iff [] most = ((λ h. tt), (λ h. omega arith))
largest_iff (n ∷ sizes) most =
    let (f, g) = largest_iff sizes most in
    ((λ h. (omega arith, f (omega arith))), (λ (h, hs). omega (arith, g hs)))

-- The bytes of all names and values.
headers_total : Headers → ℕ
headers_total [] = 0
headers_total ((name, value) ∷ headers) = utf8_size name + utf8_size value + headers_total headers

-- The three figures describe every header: two bounds that are reached, and a sum.
header_sizes_from_iff :
    (sizes : HeaderSizes) (headers : Headers) (most_name most_value most_total : ℕ)
    → ((header_sizes_from sizes headers).max_name ≤ most_name)
        × ((header_sizes_from sizes headers).max_value ≤ most_value)
        × ((header_sizes_from sizes headers).total ≤ most_total)
      ↔ ((sizes.max_name ≤ most_name)
          × All (λ (h : String × String). utf8_size h.0 ≤ most_name) headers)
        × ((sizes.max_value ≤ most_value)
            × All (λ (h : String × String). utf8_size h.1 ≤ most_value) headers)
        × (sizes.total + headers_total headers ≤ most_total)
unfolding header_sizes_from headers_total
header_sizes_from_iff sizes [] n v t =
    ((λ (a, b, c). ((a, tt), (b, tt), omega arith)), (λ ((a, _), (b, _), c). (a, b, omega arith)))
header_sizes_from_iff sizes ((name, value) ∷ headers) n v t =
    let (f, g) =
      header_sizes_from_iff
        (record {
          max_name = max sizes.max_name (utf8_size name);
          max_value = max sizes.max_value (utf8_size value);
          total = sizes.total + (utf8_size name + utf8_size value);
        })
        headers n v t in
    (
      (λ h.
          let ((a, as'), (b, bs), c) = f h in
          ((omega arith, (omega arith, as')), (omega arith, (omega arith, bs)), omega arith)),
      (λ ((a, (a', as')), (b, (b', bs)), c).
          g ((omega arith, as'), (omega arith, bs), omega arith)),
    )

module _ (fields_size : Fields → Result ℕ) (metadata_size : NatsEnvelope → Result ℕ) where
  -- Every limit of the configuration, part by part, with the sizes of the mission metadata and of
  -- the standard metadata.
  pub record FitsSizes (config : SizePolicyConfig) (envelope : NatsEnvelope) (mission standard : ℕ)
      : Type 0 where
    body : length envelope.payload ≤ config.max_payload_bytes
    header_count : length envelope.headers ≤ config.max_header_count
    names :
        All (λ (h : String × String). utf8_size h.0 ≤ config.max_header_name_bytes) envelope.headers
    values :
        All
          (λ (h : String × String). utf8_size h.1 ≤ config.max_header_value_bytes)
          envelope.headers
    all_headers : headers_total envelope.headers ≤ config.max_headers_bytes
    label_count : length envelope.labels ≤ config.max_label_count
    each_label : All (λ n. n ≤ config.max_label_bytes) (map utf8_size envelope.labels)
    all_labels : sum (map utf8_size envelope.labels) ≤ config.max_labels_bytes
    mission_metadata : mission ≤ config.max_mission_metadata_bytes
    standard_metadata : standard ≤ config.max_standard_metadata_bytes
    whole_record : length envelope.payload + standard ≤ config.max_normalized_record_bytes

  -- The sizes of both metadata of the envelope can be computed.
  abbrev pub Renders : NatsEnvelope → Type 0
  Renders envelope =
      (mission : ℕ) × (standard : ℕ) × (json_size fields_size metadata_size
          envelope.mission_metadata
        ≡ ok mission)
      × (metadata_size envelope ≡ ok standard)

  -- They can, and with them the envelope fits all limits.
  abbrev pub Fits : SizePolicyConfig → NatsEnvelope → Type 0
  Fits config envelope =
      (mission : ℕ) × (standard : ℕ) × (json_size fields_size metadata_size
          envelope.mission_metadata
        ≡ ok mission)
      × (metadata_size envelope ≡ ok standard)
      × FitsSizes config envelope mission standard

  sized_violations_iff :
      (i : ℕ) (envelope : NatsEnvelope) (config : SizePolicyConfig) (mission standard : ℕ)
      → sized_violations fields_size metadata_size i envelope config mission standard ≡ []
        ↔ FitsSizes config envelope mission standard
  unfolding sized_violations
  sized_violations_iff i envelope config mission standard = (
    (λ h.
        let (b, h1) = (append_if_over_iff i envelope _ _ _ _).0 h in
        let (hc, h2) = (append_if_over_iff i envelope _ _ _ _).0 h1 in
        let (n, h3) = (append_if_over_iff i envelope _ _ _ _).0 h2 in
        let (v, h4) = (append_if_over_iff i envelope _ _ _ _).0 h3 in
        let (t, h5) = (append_if_over_iff i envelope _ _ _ _).0 h4 in
        let (lc, h6) = (append_if_over_iff i envelope _ _ _ _).0 h5 in
        let (l, h7) = (append_if_over_iff i envelope _ _ _ _).0 h6 in
        let (ls, h8) = (append_if_over_iff i envelope _ _ _ _).0 h7 in
        let (m, h9) = (append_if_over_iff i envelope _ _ _ _).0 h8 in
        let (st, h10) = (append_if_over_iff i envelope _ _ _ _).0 h9 in
        let (w, h11) = (append_if_over_iff i envelope _ _ _ _).0 h10 in
        let ((_, ns), (_, vs), ts) = (header_sizes_from_iff _ envelope.headers _ _ _).0 (n, v, t) in
        record {
          body = b;
          header_count = hc;
          names = ns;
          values = vs;
          all_headers = omega (arith, ts);
          label_count = lc;
          each_label = (largest_iff _ _).0 l;
          all_labels = ls;
          mission_metadata = m;
          standard_metadata = st;
          whole_record = w;
        }),
    (λ (c : FitsSizes config envelope mission standard).
        let (n, v, t) =
          (header_sizes_from_iff (record { max_name = 0; max_value = 0; total = 0 })
              envelope.headers config.max_header_name_bytes config.max_header_value_bytes
              config.max_headers_bytes).1
            ((omega arith, c.names), (omega arith, c.values), omega (arith, c.all_headers)) in
        (append_if_over_iff i envelope _ _ _ _).1 (
          c.body,
          (append_if_over_iff i envelope _ _ _ _).1 (
            c.header_count,
            (append_if_over_iff i envelope _ _ _ _).1 (
              n,
              (append_if_over_iff i envelope _ _ _ _).1 (
                v,
                (append_if_over_iff i envelope _ _ _ _).1 (
                  t,
                  (append_if_over_iff i envelope _ _ _ _).1 (
                    c.label_count,
                    (append_if_over_iff i envelope _ _ _ _).1 (
                      (largest_iff _ _).1 c.each_label,
                      (append_if_over_iff i envelope _ _ _ _).1 (
                        c.all_labels,
                        (append_if_over_iff i envelope _ _ _ _).1 (
                          c.mission_metadata,
                          (append_if_over_iff i envelope _ _ _ _).1 (
                            c.standard_metadata,
                            (append_if_over_iff i envelope _ _ _ _).1 (c.whole_record, refl),
                          ),
                        ),
                      ),
                    ),
                  ),
                ),
              ),
            ),
          ),
        )),
  )

  -- An envelope is checked without a violation exactly when it fits all limits.
  pub violations_for_envelope_iff :
      (i : ℕ) (envelope : NatsEnvelope) (config : SizePolicyConfig)
      → violations_for_envelope fields_size metadata_size i envelope config ≡ ok []
        ↔ Fits config envelope
  unfolding violations_for_envelope
  violations_for_envelope_iff i envelope config = (
    (λ h.
        let (mission, m, h1) =
          bind-ok (json_size fields_size metadata_size envelope.mission_metadata) _ [] h in
        let (standard, s, h2) = bind-ok (metadata_size envelope) _ [] h1 in
        (
          mission,
          standard,
          m,
          s,
          (sized_violations_iff i envelope config mission standard).0 (ok_inj h2),
        )),
    (λ (mission, standard, m, s, fits).
        bind-step _ m (
          bind-step _ s
            (ap ok ((sized_violations_iff i envelope config mission standard).1 fits)))),
  )

  violations_in_batch_iff :
      (config : SizePolicyConfig) (size i : ℕ) (envelope : NatsEnvelope)
      → violations_in_batch fields_size metadata_size config size i envelope ≡ ok []
        ↔ (size ≤ config.max_batch_messages) × Fits config envelope
  unfolding violations_in_batch
  violations_in_batch_iff config size i envelope =
      let (f, g) = violations_for_envelope_iff i envelope config in
      (
        (λ h.
            let (found, made, h1) =
              bind-ok (violations_for_envelope fields_size metadata_size i envelope config) _ []
                h in
            let (b, none_found) = (counted found).0 (ok_inj h1) in
            (b, f (made ∙ ap ok none_found))),
        (λ (b, c). bind-step _ (g c) (ap ok ((counted []).1 (b, refl)))),
      )
    where
      counted :
          (found : List SizePolicyViolation)
          → append_if_over i envelope Reason.batch_message_count_too_large size
                config.max_batch_messages found
              ≡ []
            ↔ (size ≤ config.max_batch_messages) × (found ≡ [])
      counted found =
          append_if_over_iff i envelope Reason.batch_message_count_too_large size
            config.max_batch_messages found

  violations_in_batch-returns :
      (config : SizePolicyConfig) (size : ℕ) (envelope : NatsEnvelope)
      → Renders envelope
      → (i : ℕ)
      → (found : List SizePolicyViolation) × (violations_in_batch fields_size metadata_size config
            size i envelope
          ≡ ok found)
  unfolding violations_in_batch violations_for_envelope
  violations_in_batch-returns config size envelope (mission, standard, m, s) i =
      (_, bind-step _ (bind-step _ m (bind-step _ s refl)) refl)

  pub evaluate_size_policy-Splits_if_ok :
      (envelopes : List NatsEnvelope) (config : SizePolicyConfig)
      (out : Evaluation SizePolicyViolation)
      → config.enabled ≡ true
      → evaluate_size_policy fields_size metadata_size envelopes config ≡ ok out
      → Splits (λ e. (length envelopes ≤ config.max_batch_messages) × Fits config e) out envelopes
  unfolding evaluate_size_policy
  evaluate_size_policy-Splits_if_ok envelopes config out h k =
      evaluate-Splits _ (violations_in_batch fields_size metadata_size config (length envelopes))
        (violations_in_batch_iff config (length envelopes)) envelopes out
        (sym (if_true config.enabled _ _ h) ∙ k)

  -- With the gate on, if the sizes of the metadata of every envelope can be computed, the evaluation
  -- returns and its indexes split the batch: accepted are the envelopes that fit, of a batch that is
  -- not too long, and rejected are all others.
  pub evaluate_size_policy-Splits :
      (envelopes : List NatsEnvelope) (config : SizePolicyConfig)
      → config.enabled ≡ true
      → All Renders envelopes
      → (out : Evaluation SizePolicyViolation) × (evaluate_size_policy fields_size metadata_size
            envelopes config
          ≡ ok out)
        × Splits (λ e. (length envelopes ≤ config.max_batch_messages) × Fits config e) out envelopes
  unfolding evaluate_size_policy
  evaluate_size_policy-Splits envelopes config h rendered =
      let (out, made) =
        evaluate_from-returns
          (violations_in_batch fields_size metadata_size config (length envelopes)) 0 envelopes
          (All-weaken Renders _ envelopes (violations_in_batch-returns config (length envelopes))
            rendered) in
      let returned = if_true config.enabled _ _ h ∙ made in
      (out, returned, evaluate_size_policy-Splits_if_ok envelopes config out h returned)
