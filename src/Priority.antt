-- ===== src/Priority.antt =====
-- core/priority.py: weighted lanes that reorder one fetched batch.
-- A function that records metrics returns its updates, in order, beside its result.
pub mod Buckets
pub mod Names
pub mod Order
pub mod Lossless
use nats_sinks.Common.{
  ℕ, zero, suc, ◌+◌, ◌-◌, Bool, true, false, not, ◌||◌, List, [], ◌∷◌, ◌++◌, map, Option, none,
  some, String, PythonText, str_eq, any_char, char_count, contains_text, is_empty, leb, length, ltb,
  ◌==◌, if◌then◌else◌,
}
use nats_sinks.Errors.{Result, ok, err, validation_error, unexpected, ◌>>=◌, ◌>>◌, raise_if}
use nats_sinks.Metadata.{value_of, normalise_metadata_value}
use nats_sinks.Envelope.{NatsEnvelope}
use nats_sinks.Metrics.{
  Update, increment, gauge, priority_lane_batches, priority_lane_messages, priority_lanes_active,
  priority_lane_defaulted, priority_lane_rejected,
}

pub record Lane : Type 0 where
  pub name : String
  pub priorities : List String
  pub weight : ℕ

pub data UnknownPriorityAction : Type 0 where
  use_default_lane reject_message : UnknownPriorityAction

pub record PriorityLanesConfig : Type 0 where
  pub enabled : Bool
  pub default_lane : String
  pub unknown_priority_action : UnknownPriorityAction
  pub max_priority_value_length : ℕ
  pub lanes : List Lane

pub record Assignment : Type 0 where
  pub envelope : NatsEnvelope
  pub lane_name : String
  pub defaulted : Bool

unfoldable pub contains_control_character : String → Bool
contains_control_character = any_char (λ c. leb c 31 || c == 127)

unfoldable pub priority_lane_name : String → List Lane → Option String
priority_lane_name priority [] = none
priority_lane_name priority (lane ∷ lanes) =
    if contains_text lane.priorities priority
    then some lane.name
    else priority_lane_name priority lanes

module _ (python : PythonText) where
  pub check_priority : Option String → PriorityLanesConfig → Result (Option String)
  check_priority none config = ok none
  check_priority (some rendered) config = do
    raise_if (ltb config.max_priority_value_length (char_count rendered)) validation_error
    raise_if (contains_control_character rendered) validation_error
    ok (some (python.casefold rendered))

  pub validated_priority_value : Option String → PriorityLanesConfig → Result (Option String)
  validated_priority_value priority = check_priority (normalise_metadata_value (value_of priority))

  pub to_default_lane : NatsEnvelope → PriorityLanesConfig → Result Assignment × List Update
  to_default_lane message config = (
    ok (record { envelope = message; lane_name = config.default_lane; defaulted = true }),
    increment priority_lane_defaulted 1 ∷ [],
  )

  pub to_unknown_lane :
      UnknownPriorityAction → NatsEnvelope → PriorityLanesConfig → Result Assignment × List Update
  to_unknown_lane reject_message message config =
      (err validation_error, increment priority_lane_rejected 1 ∷ [])
  to_unknown_lane use_default_lane message config = to_default_lane message config

  pub to_lane :
      Result (Option String) → NatsEnvelope → PriorityLanesConfig → Result Assignment × List Update
  to_lane (err e) message config = (err e, [])
  to_lane (ok none) message config = to_default_lane message config
  to_lane (ok (some priority)) message config = elim (priority_lane_name priority config.lanes) [
    | some lane ↦ (ok (record { envelope = message; lane_name = lane; defaulted = false }), [])
    | none ↦ to_unknown_lane config.unknown_priority_action message config
  ]

  pub assign_priority_lane : NatsEnvelope → PriorityLanesConfig → Result Assignment × List Update
  unfolding to_lane to_unknown_lane to_default_lane validated_priority_value check_priority
  assign_priority_lane message config =
      to_lane (validated_priority_value message.priority config) message config

  -- The comprehension over the messages, which stops at the first error.
  pub assign_all : List NatsEnvelope → PriorityLanesConfig → Result (List Assignment) × List Update
  assign_all [] config = (ok [], [])
  assign_all (message ∷ messages) config =
      let (first, updates) = assign_priority_lane message config in
      let (rest, later) = assign_all messages config in
      elim first [
        | err e ↦ (err e, updates)
        | ok a ↦ ((do as' ← rest; ok (a ∷ as')), updates ++ later)
      ]

-- `dict[str, deque]`, in the order of insertion.
abbrev pub Buckets : Type 0
Buckets = List (String × List Assignment)

pub has_bucket : String → Buckets → Bool
has_bucket name [] = false
has_bucket name ((n, b) ∷ buckets) = str_eq n name || has_bucket name buckets

-- `{lane_name: deque() for lane_name in lanes_by_name}`: a repeated name has one bucket.
pub new_buckets : Buckets → List Lane → Buckets
new_buckets buckets [] = buckets
new_buckets buckets (lane ∷ lanes) =
    new_buckets (if has_bucket lane.name buckets then buckets else buckets ++ (lane.name, []) ∷ [])
      lanes

-- `buckets[name].append(assignment)` for a name that is there.
pub append_to : String → Assignment → Buckets → Buckets
append_to name a [] = []
append_to name a ((n, b) ∷ buckets) =
    let rest = append_to name a buckets in
    if str_eq n name then (n, b ++ a ∷ []) ∷ buckets else (n, b) ∷ rest

pub fill_buckets : Buckets → List Assignment → Result Buckets
fill_buckets buckets [] = ok buckets
fill_buckets buckets (a ∷ as') =
    let rest = fill_buckets (append_to a.lane_name a buckets) as' in
    if has_bucket a.lane_name buckets then rest else err validation_error

pub assignment_buckets : List Assignment → List Lane → Result Buckets
unfolding fill_buckets
assignment_buckets assignments lanes = fill_buckets (new_buckets [] lanes) assignments

-- `sum(len(bucket) for bucket in buckets.values())`
pub total : Buckets → ℕ
total [] = 0
total ((n, b) ∷ buckets) = length b + total buckets

-- The inner loop on one bucket: what `weight` rounds take, and what they leave.
pub take_up_to : ℕ → List Assignment → List Assignment × List Assignment
take_up_to zero bucket = ([], bucket)
take_up_to (suc n) [] = ([], [])
take_up_to (suc n) (a ∷ bucket) = let (taken, left) = take_up_to n bucket in (a ∷ taken, left)

-- The same on the bucket of that name, in its place; `none` where there is none (`KeyError`).
pub drain : String → ℕ → Buckets → Option (List Assignment × Buckets)
drain name weight [] = none
drain name weight ((n, b) ∷ buckets) =
    let (taken, left) = take_up_to weight b in
    let rest = drain name weight buckets in
    if str_eq n name
    then some (taken, (n, left) ∷ buckets)
    else elim rest [ none ↦ none | some (t, bs) ↦ some (t, (n, b) ∷ bs) ]

-- The variables of the outer loop.
pub record Pass : Type 0 where
  pub ordered : List Assignment
  pub buckets : Buckets
  pub remaining : ℕ
  pub progressed : Bool

pub drain_lane : Lane → Pass → Result Pass
drain_lane lane p = elim (drain lane.name lane.weight p.buckets) [
  | none ↦ err unexpected
  | some (taken, buckets) ↦ ok (record {
    ordered = p.ordered ++ taken;
    buckets = buckets;
    remaining = p.remaining - length taken;
    progressed = p.progressed || not (is_empty taken);
  })
]

pub pass_lanes : List Lane → Pass → Result Pass
pass_lanes [] p = ok p
pass_lanes (lane ∷ lanes) p = do p' ← drain_lane lane p; pass_lanes lanes p'

-- `while remaining:` with fuel; without fuel it returns what it has.
pub rounds : ℕ → List Lane → Pass → Result (List Assignment)
rounds zero lanes p = ok p.ordered
rounds (suc fuel) lanes p = if p.remaining == 0 then ok p.ordered else do
  p' ← pass_lanes lanes (record p { progressed = false })
  elim p'.progressed [ true ↦ rounds fuel lanes p' | false ↦ ok p'.ordered ]

-- A pass that goes on has taken one assignment at least, so `remaining` rounds are enough.
pub weighted_round_robin_assignments : List Lane → Buckets → Result (List Assignment)
unfolding rounds pass_lanes drain_lane total
weighted_round_robin_assignments lanes buckets =
    rounds (total buckets) lanes
      (record { ordered = []; buckets = buckets; remaining = total buckets; progressed = false })

-- `{assignment.lane_name for assignment in assignments}`
pub lane_names : List Assignment → List String
lane_names [] = []
lane_names (a ∷ as') =
    let names = lane_names as' in
    if contains_text names a.lane_name then names else a.lane_name ∷ names

pub envelopes_of : List Assignment → List NatsEnvelope
envelopes_of [] = []
envelopes_of (a ∷ as') = a.envelope ∷ envelopes_of as'

pub schedule : List Assignment → List Lane → Result (List NatsEnvelope)
schedule assignments lanes = do
  buckets ← assignment_buckets assignments lanes
  ordered ← weighted_round_robin_assignments lanes buckets
  ok (envelopes_of ordered)

module _ (python : PythonText) where
  pub order_assigned :
      Result (List Assignment) × List Update → List Lane → Result (List NatsEnvelope) × List Update
  order_assigned (err e, updates) lanes = (err e, updates)
  order_assigned (ok assignments, updates) lanes = (
    schedule assignments lanes,
    updates
        ++ increment priority_lane_batches 1
          ∷ increment priority_lane_messages (length assignments)
          ∷ gauge priority_lanes_active (length (lane_names assignments))
          ∷ [],
  )

  unfoldable pub order_by_priority_lanes :
      List NatsEnvelope → PriorityLanesConfig → Result (List NatsEnvelope) × List Update
  unfolding order_assigned schedule assign_all
  order_by_priority_lanes messages config =
      if is_empty messages
      then (ok [], [])
      else if config.enabled
      then order_assigned (assign_all python messages config) config.lanes
      else (ok messages, [])
