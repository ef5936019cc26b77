-- ===== src/Priority/Lossless.antt =====
-- Proofs about core/priority.py: `order_by_priority_lanes` as a whole.
use mathlib.Core.List.Permᴰ
use mathlib.Core.List.Permᴰ.{Permᴰ}
use mathlib.Core.List.{append-nil}
use nats_sinks.Common.{
  ◌<◌, ◌≡◌, refl, sym, ap, subst, inl, inr, Bool, true, false, List, [], ◌∷◌, ◌++◌, Option, none,
  some, String, PythonText, All, arith, Bool-cases, if◌then◌else◌, Option-cases,
}
use nats_sinks.Errors.{Error, Result, ok, err, ◌>>=◌, is_permanent, Result-cases}
use nats_sinks.Envelope.{NatsEnvelope}
use nats_sinks.Metadata.{value_of, normalise_metadata_value}
use nats_sinks.Metrics.{Update}
use nats_sinks.Priority.{
  Lane, PriorityLanesConfig, UnknownPriorityAction, Assignment, Buckets, has_bucket, append_to,
  new_buckets, total, fill_buckets, assignment_buckets, weighted_round_robin_assignments,
  priority_lane_name, check_priority, validated_priority_value, to_lane, to_unknown_lane,
  to_default_lane, use_default_lane, reject_message, envelopes_of, schedule, assign_priority_lane,
  assign_all, order_assigned, order_by_priority_lanes,
}
use nats_sinks.Priority.Buckets.{keys, fill_buckets-perm, contents-new_buckets}
use nats_sinks.Priority.Names.{IsDistinct-new_buckets, lane_has_key, key_has_lane, own_names}
use nats_sinks.Priority.Order.{Ready, rounds_total}

-- What the validator of the configuration makes of the weights (`ge=1`).
abbrev pub Weighted : List Lane → Type 0
Weighted = All (λ (lane : Lane). 0 < lane.weight)

envelopes_of-perm :
    {xs ys : List Assignment} → Permᴰ xs ys → Permᴰ (envelopes_of xs) (envelopes_of ys)
unfolding envelopes_of
envelopes_of-perm Permᴰ.nil = Permᴰ.nil
envelopes_of-perm (Permᴰ.cons e p) =
    Permᴰ.cons (ap (λ (a : Assignment). a.envelope) e) (envelopes_of-perm p)
envelopes_of-perm (Permᴰ.swap e f) =
    Permᴰ.swap (ap (λ (a : Assignment). a.envelope) e) (ap (λ (a : Assignment). a.envelope) f)
envelopes_of-perm (Permᴰ.trans p q) = Permᴰ.trans (envelopes_of-perm p) (envelopes_of-perm q)

new_buckets-Ready : (lanes : List Lane) → Weighted lanes → Ready (keys (new_buckets [] lanes)) lanes
new_buckets-Ready lanes w = record {
  distinct = IsDistinct-new_buckets [] lanes tt;
  covered = key_has_lane lanes [] lanes tt (own_names lanes);
  has_keys = lane_has_key [] lanes;
  weighted = w;
}

-- From filled buckets the rounds return all assignments.
rounds_filled :
    (lanes : List Lane) (assignments : List Assignment) (buckets : Buckets)
    → Weighted lanes
    → assignment_buckets assignments lanes ≡ ok buckets
    → (out : List Assignment) × (weighted_round_robin_assignments lanes buckets ≡ ok out)
      × Permᴰ out assignments
unfolding assignment_buckets weighted_round_robin_assignments
rounds_filled lanes assignments buckets w filled =
    let (perm, same) = fill_buckets-perm (new_buckets [] lanes) assignments filled in
    let (out, done, moved) =
      rounds_total (keys (new_buckets [] lanes)) lanes (new_buckets-Ready lanes w) (total buckets)
        (record { ordered = []; buckets = buckets; remaining = total buckets; progressed = false })
        same refl (omega arith) in
    (
      out,
      done,
      Permᴰ.trans moved (
          Permᴰ.trans perm (
            subst (λ l. Permᴰ (assignments ++ l) assignments)
              (sym (contents-new_buckets [] lanes refl))
              (subst (λ l. Permᴰ l assignments) (sym (append-nil assignments))
                (Permᴰ.refl assignments)))),
    )

-- The only error of the buckets is a permanent one.
fill_buckets_error :
    (buckets : Buckets) (as' : List Assignment) (e : Error)
    → fill_buckets buckets as' ≡ err e
    → is_permanent e ≡ true
unfolding fill_buckets
fill_buckets_error buckets [] e h = cc
fill_buckets_error buckets (a ∷ as') e h = elim (Bool-cases (has_bucket a.lane_name buckets)) [
  | inl there ↦ fill_buckets_error (append_to a.lane_name a buckets) as' e (ground arith)
  | inr missing ↦ ground arith
]

-- The outcome of an ordering: a permutation of the messages, or a permanent error.
unfoldable pub Orders : List NatsEnvelope → Result (List NatsEnvelope) → Type 0
Orders messages (ok out) = Permᴰ out messages
Orders messages (err e) = is_permanent e ≡ true

schedule-Orders :
    (lanes : List Lane) (assignments : List Assignment)
    → Weighted lanes
    → Orders (envelopes_of assignments) (schedule assignments lanes)
unfolding schedule Orders assignment_buckets
schedule-Orders lanes assignments w = elim (Result-cases (assignment_buckets assignments lanes)) [
  | inr (e, failed) ↦ rw failed (fill_buckets_error (new_buckets [] lanes) assignments e failed)
  | inl (buckets, filled) ↦
      let (out, done, perm) = rounds_filled lanes assignments buckets w filled in
      rw (filled) (rw done (envelopes_of-perm perm))
]

-- An assignment is of its message, and an error in its place is a permanent one.
Assigns : NatsEnvelope → Result Assignment → Type 0
Assigns message (ok a) = a.envelope ≡ message
Assigns message (err e) = is_permanent e ≡ true

AssignsAll : List NatsEnvelope → Result (List Assignment) → Type 0
AssignsAll messages (ok as') = envelopes_of as' ≡ messages
AssignsAll messages (err e) = is_permanent e ≡ true

module _ (python : PythonText) (config : PriorityLanesConfig) where
  check_priority_error :
      (priority : Option String) (e : Error)
      → check_priority python priority config ≡ err e
      → is_permanent e ≡ true
  unfolding check_priority
  check_priority_error none e h = cc
  check_priority_error (some p) e h = ground arith

  to_unknown_lane-Assigns :
      (action : UnknownPriorityAction) (message : NatsEnvelope)
      → Assigns message (to_unknown_lane python action message config).0
  unfolding Assigns to_unknown_lane to_default_lane
  to_unknown_lane-Assigns reject_message message = refl
  to_unknown_lane-Assigns use_default_lane message = refl

  to_lane-Assigns :
      (priority : Result (Option String)) (message : NatsEnvelope)
      → ((e : Error) → priority ≡ err e → is_permanent e ≡ true)
      → Assigns message (to_lane python priority message config).0
  unfolding Assigns to_lane to_default_lane
  to_lane-Assigns (err e) message h = h e refl
  to_lane-Assigns (ok none) message h = refl
  to_lane-Assigns (ok (some p)) message h =
      elim (Option-cases (priority_lane_name p config.lanes)) [
        | inl unknown ↦
            rw (unknown, Assigns) (to_unknown_lane-Assigns config.unknown_priority_action message)
        | inr (lane, known) ↦ rw (known, Assigns)
      ]

  assign-Assigns :
      (message : NatsEnvelope) → Assigns message (assign_priority_lane python message config).0
  unfolding assign_priority_lane
  assign-Assigns message =
      to_lane-Assigns (validated_priority_value python message.priority config) message
        (check_priority_error (normalise_metadata_value (value_of message.priority)))

  assign_all-AssignsAll :
      (messages : List NatsEnvelope) → AssignsAll messages (assign_all python messages config).0
  unfolding AssignsAll Assigns assign_all envelopes_of
  assign_all-AssignsAll [] = refl
  assign_all-AssignsAll (m ∷ ms) = elim (Result-cases (assign_priority_lane python m config).0) [
    | inr (e, failed) ↦
        let h : Assigns m (err e) = rw failed at (assign-Assigns m) in rw (failed, AssignsAll) h
    | inl (a, found) ↦
        let h : Assigns m (ok a) = rw found at (assign-Assigns m) in
        rw (found, AssignsAll)
          (cons_assigned a (assign_all python ms config).0 h (assign_all-AssignsAll ms))
  ]
    where
      cons_assigned :
          (a : Assignment) (rest : Result (List Assignment))
          → a.envelope ≡ m
          → AssignsAll ms rest
          → AssignsAll (m ∷ ms) (rest >>= λ as'. ok (a ∷ as'))
      cons_assigned a (err e) h k = k
      cons_assigned a (ok as') h k = λ i. h i ∷ k i

  order_assigned-Orders :
      (messages : List NatsEnvelope) (assigned : Result (List Assignment) × List Update)
      → Weighted config.lanes
      → AssignsAll messages assigned.0
      → Orders messages (order_assigned python assigned config.lanes).0
  unfolding order_assigned Orders AssignsAll
  order_assigned-Orders messages (err e, updates) w h = h
  order_assigned-Orders messages (ok as', updates) w h =
      subst (λ ms. Orders ms (schedule as' config.lanes)) h (schedule-Orders config.lanes as' w)

  -- With positive weights, as the validator demands, the ordering returns a permutation of the
  -- messages or raises a permanent error: no message is lost, doubled or invented, and no
  -- `KeyError` escapes.
  pub order_by_priority_lanes-Orders :
      (messages : List NatsEnvelope)
      → Weighted config.lanes
      → Orders messages (order_by_priority_lanes python messages config).0
  unfolding order_by_priority_lanes Orders
  order_by_priority_lanes-Orders [] w = Permᴰ.nil
  order_by_priority_lanes-Orders (m ∷ ms) w = on_or_off config.enabled
    where
      on_or_off :
          (enabled : Bool)
          → Orders
              (m ∷ ms)
              (if enabled
                then order_assigned python (assign_all python (m ∷ ms) config) config.lanes
                else (ok (m ∷ ms), [])).0
      on_or_off true =
          order_assigned-Orders (m ∷ ms) (assign_all python (m ∷ ms) config) w
            (assign_all-AssignsAll (m ∷ ms))
      on_or_off false = Permᴰ.refl (m ∷ ms)
