-- ===== src/Priority/Order.antt =====
-- Proofs about core/priority.py: the weighted rounds.
use mathlib.Core.List.Permᴰ
use mathlib.Core.List.Permᴰ.{Permᴰ}
use mathlib.Core.List.{append-nil, append_assoc}
use nats_sinks.Common.{
  ℕ, zero, suc, ◌-◌, ◌≤◌, ◌<◌, ◌≡◌, ◌≢◌, refl, sym, ap, subst, ◌∙◌, inl, inr, Bool, true, false,
  not, ◌||◌, List, [], ◌∷◌, ◌++◌, Option, none, some, String, str_eq, str_eq_refl, eq_iff,
  contains_text, All, Any, length, is_empty, arith, Bool-cases, Option-cases, ==→eq, if◌then◌else◌,
  ◌==◌,
}
use nats_sinks.Errors.{ok, ◌>>=◌, Result-cases}
use nats_sinks.Priority.{
  Lane, Assignment, Buckets, Pass, total, take_up_to, drain, drain_lane, pass_lanes, rounds,
}
use nats_sinks.Priority.Buckets.{
  contents, keys, drain-perm, keys-drain, drain_total, total-drain, nothing_left,
}
use nats_sinks.Priority.Names.{IsDistinct, Covered}

-- The bucket of a name.
at_name : String → Buckets → Option (List Assignment)
at_name name [] = none
at_name name ((n, b) ∷ buckets) = if str_eq n name then some b else at_name name buckets

-- A lane that may take one and takes none has an empty bucket, which it leaves as it is.
drain_idle :
    (name : String) (w : ℕ) (buckets left : Buckets)
    → 0 < w
    → drain name w buckets ≡ some ([], left)
    → (left ≡ buckets) × (at_name name buckets ≡ some [])
unfolding drain at_name take_up_to
drain_idle name zero buckets left pos h = absurd (omega arith)
drain_idle name (suc w) [] left pos h = absurd (cc)
drain_idle name (suc w) ((n, []) ∷ buckets) left pos h = elim (Bool-cases (str_eq n name)) [
  | inl e ↦ (ground arith, rw e)
  | inr e ↦ elim (Option-cases (drain name (suc w) buckets)) [
    | inl missing ↦ absurd (ground arith)
    | inr ((t, bs), found) ↦
        let t_nil : t ≡ [] = ground arith in
        let (same, empty) =
          drain_idle name (suc w) buckets bs pos (found ∙ ap (λ u. some (u, bs)) t_nil) in
        (ground arith, rw e empty)
  ]
]
drain_idle name (suc w) ((n, a ∷ b) ∷ buckets) left pos h = elim (Bool-cases (str_eq n name)) [
  | inl e ↦ absurd (ground arith)
  | inr e ↦ elim (Option-cases (drain name (suc w) buckets)) [
    | inl missing ↦ absurd (ground arith)
    | inr ((t, bs), found) ↦
        let t_nil : t ≡ [] = ground arith in
        let (same, empty) =
          drain_idle name (suc w) buckets bs pos (found ∙ ap (λ u. some (u, bs)) t_nil) in
        (ground arith, rw e empty)
  ]
]

-- Buckets of different names that are all empty hold nothing.
abbrev Emptied : List Lane → Buckets → Type 0
Emptied lanes buckets = All (λ (lane : Lane). at_name lane.name buckets ≡ some []) lanes

Emptied-at :
    (lanes : List Lane) (buckets : Buckets) (n : String)
    → Emptied lanes buckets
    → Any (λ (lane : Lane). lane.name ≡ n) lanes
    → at_name n buckets ≡ some []
Emptied-at [] buckets n h m = absurd m
Emptied-at (lane ∷ lanes) buckets n h (inl e) = rw (← e) h.0
Emptied-at (lane ∷ lanes) buckets n h (inr m) = Emptied-at lanes buckets n h.1 m

behind :
    (n : String) (b : List Assignment) (buckets : Buckets) (ks : List String)
    → contains_text ks n ≡ false
    → All (λ k. at_name k ((n, b) ∷ buckets) ≡ some []) ks
    → All (λ k. at_name k buckets ≡ some []) ks
unfolding at_name
behind n b buckets [] once h = tt
behind n b buckets (k ∷ ks) once h =
    (ground (arith, h.0, eq_iff n k, eq_iff k n), behind n b buckets ks (ground arith) h.1)

all_empty :
    (buckets : Buckets)
    → IsDistinct (keys buckets)
    → All (λ n. at_name n buckets ≡ some []) (keys buckets)
    → total buckets ≡ 0
unfolding total at_name
all_empty [] d h = refl
all_empty ((n, b) ∷ buckets) d h =
    let b_nil : b ≡ [] = ground (arith, str_eq_refl n) in
    rw b_nil (omega (arith, all_empty buckets d.1 (behind n b buckets (keys buckets) d.0 h.1)))

-- What a pass keeps: the names of the buckets, and all that is ordered or still waits.
record Moves (p q : Pass) : Type 0 where
  same_keys : keys q.buckets ≡ keys p.buckets
  moved : Permᴰ (q.ordered ++ contents q.buckets) (p.ordered ++ contents p.buckets)
  counted : p.remaining ≡ total p.buckets → q.remaining ≡ total q.buckets
  shrinks : total q.buckets ≤ total p.buckets
  advances : p.progressed ≡ false → q.progressed ≡ true → total q.buckets < total p.buckets

Moves-refl : (p : Pass) → Moves p p
Moves-refl p = record {
  same_keys = refl;
  moved = Permᴰ.refl _;
  counted = λ e. e;
  shrinks = omega arith;
  advances = λ e f. absurd (cc);
}

Moves-trans : {p q r : Pass} → Moves p q → Moves q r → Moves p r
Moves-trans {p} {q} {r} m n = record {
  same_keys = n.same_keys ∙ m.same_keys;
  moved = Permᴰ.trans n.moved m.moved;
  counted = λ e. n.counted (m.counted e);
  shrinks = omega (arith, m.shrinks, n.shrinks);
  advances = λ e f. elim (Bool-cases q.progressed) [
    | inl t ↦ omega (arith, m.advances e t, n.shrinks)
    | inr t ↦ omega (arith, n.advances t f, m.shrinks)
  ];
}

after_drain : Pass → List Assignment → Buckets → Pass
after_drain p taken buckets = record {
  ordered = p.ordered ++ taken;
  buckets = buckets;
  remaining = p.remaining - length taken;
  progressed = p.progressed || not (is_empty taken);
}

some_taken :
    (b : Bool) (taken : List Assignment)
    → b ≡ false
    → (b || not (is_empty taken)) ≡ true
    → 0 < length taken
some_taken b [] e f = absurd (ground arith)
some_taken b (a ∷ taken) e f = omega arith

drain_lane-Moves :
    (lane : Lane) (p : Pass) {taken : List Assignment} {left : Buckets}
    → drain lane.name lane.weight p.buckets ≡ some (taken, left)
    → Moves p (after_drain p taken left)
unfolding after_drain
drain_lane-Moves lane p {taken} {left} h = record {
  same_keys = keys-drain lane.name lane.weight p.buckets h;
  moved =
      subst (λ l. Permᴰ l (p.ordered ++ contents p.buckets))
        (sym (append_assoc p.ordered taken (contents left)))
        (Permᴰ.append_left p.ordered (drain-perm lane.name lane.weight p.buckets h));
  counted = λ e. omega (arith, total-drain lane.name lane.weight p.buckets h);
  shrinks = omega (arith, total-drain lane.name lane.weight p.buckets h);
  advances = λ e f.
      omega
        (arith, total-drain lane.name lane.weight p.buckets h, some_taken p.progressed taken e f);
}

abbrev HasKeys : List String → List Lane → Type 0
HasKeys ks = All (λ (lane : Lane). contains_text ks lane.name ≡ true)

drain_lane_eq :
    (lane : Lane) (p : Pass) (taken : List Assignment) (left : Buckets)
    → drain lane.name lane.weight p.buckets ≡ some (taken, left)
    → drain_lane lane p ≡ ok (after_drain p taken left)
unfolding drain_lane after_drain
drain_lane_eq lane p taken left h = rw (h, drain_lane)

drain_lane_missing :
    (lane : Lane) (p : Pass) (q : Pass)
    → drain lane.name lane.weight p.buckets ≡ none
    → drain_lane lane p ≢ ok q
unfolding drain_lane
drain_lane_missing lane p q h = rw (h, drain_lane) (λ e. cc)

nothing_taken :
    (b : Bool) (taken : List Assignment)
    → (b || not (is_empty taken)) ≡ false
    → (b ≡ false) × (taken ≡ [])
nothing_taken b [] e = (ground arith, refl)
nothing_taken b (a ∷ taken) e = absurd (ground arith)

-- A pass over lanes that all have a bucket raises nothing.
pass_lanes_total :
    (ks : List String) (lanes : List Lane) (p : Pass)
    → keys p.buckets ≡ ks
    → HasKeys ks lanes
    → (q : Pass) × (pass_lanes lanes p ≡ ok q) × Moves p q
unfolding pass_lanes
pass_lanes_total ks [] p k h = (p, refl, Moves-refl p)
pass_lanes_total ks (lane ∷ lanes) p k h =
    let (taken, left, found) = drain_total lane.name lane.weight p.buckets (rw k h.0) in
    let step = drain_lane-Moves lane p found in
    let (q, done, moves) =
      pass_lanes_total ks lanes (after_drain p taken left)
        (unfold after_drain in step.same_keys ∙ k) h.1 in
    (
      q,
      ap (λ r. r >>= λ p'. pass_lanes lanes p') (drain_lane_eq lane p taken left found) ∙ done,
      Moves-trans step moves,
    )

-- A pass that takes nothing has met empty buckets only.
pass_lanes_idle :
    (lanes : List Lane) (p q : Pass)
    → All (λ (lane : Lane). 0 < lane.weight) lanes
    → pass_lanes lanes p ≡ ok q
    → q.progressed ≡ false
    → (p.progressed ≡ false) × Emptied lanes p.buckets
unfolding pass_lanes after_drain
pass_lanes_idle [] p q pos h quiet = (ground arith, tt)
pass_lanes_idle (lane ∷ lanes) p q pos h quiet = elim (Result-cases (drain_lane lane p)) [
  | inr (e, failed) ↦ absurd (ground arith)
  | inl (p', stepped) ↦ elim (Option-cases (drain lane.name lane.weight p.buckets)) [
    | inl missing ↦ absurd (drain_lane_missing lane p p' missing stepped)
    | inr ((taken, left), found) ↦
        let rest : pass_lanes lanes (after_drain p taken left) ≡ ok q =
          ap (λ r. r >>= λ p'. pass_lanes lanes p') (sym (drain_lane_eq lane p taken left found))
          ∙ h in
        let (before, emptied) =
          pass_lanes_idle lanes (after_drain p taken left) q pos.1 rest quiet in
        let (calm, none_taken) = nothing_taken p.progressed taken before in
        let (same, empty) =
          drain_idle lane.name lane.weight p.buckets left pos.0
            (found ∙ ap (λ t. some (t, left)) none_taken) in
        (calm, (empty, subst (Emptied lanes) same emptied))
  ]
]

-- What the rounds need of the lanes and of the names of the buckets.
pub record Ready (ks : List String) (lanes : List Lane) : Type 0 where
  pub distinct : IsDistinct ks
  pub covered : Covered lanes ks
  pub has_keys : HasKeys ks lanes
  pub weighted : All (λ (lane : Lane). 0 < lane.weight) lanes

all-Emptied :
    (lanes : List Lane) (buckets : Buckets) (ks : List String)
    → Emptied lanes buckets
    → Covered lanes ks
    → All (λ n. at_name n buckets ≡ some []) ks
all-Emptied lanes buckets [] h c = tt
all-Emptied lanes buckets (k ∷ ks) h c =
    (Emptied-at lanes buckets k h c.0, all-Emptied lanes buckets ks h c.1)

finished : (p : Pass) → total p.buckets ≡ 0 → Permᴰ p.ordered (p.ordered ++ contents p.buckets)
finished p h =
    subst (λ l. Permᴰ p.ordered (p.ordered ++ l)) (sym (nothing_left p.buckets h))
      (subst (Permᴰ p.ordered) (sym (append-nil p.ordered)) (Permᴰ.refl p.ordered))

round_again :
    (fuel : ℕ) (lanes : List Lane) (p q : Pass)
    → (p.remaining == 0) ≡ false
    → pass_lanes lanes (record p { progressed = false }) ≡ ok q
    → q.progressed ≡ true
    → rounds (suc fuel) lanes p ≡ rounds fuel lanes q
unfolding rounds
round_again fuel lanes p q more passed going = simp (more, passed, going)

-- The rounds raise nothing, end within the fuel, and order all that waits.
pub rounds_total :
    (ks : List String) (lanes : List Lane)
    → Ready ks lanes
    → (fuel : ℕ) (p : Pass) → keys p.buckets ≡ ks
    → p.remaining ≡ total p.buckets
    → total p.buckets ≤ fuel
    → (out : List Assignment) × (rounds fuel lanes p ≡ ok out)
      × Permᴰ out (p.ordered ++ contents p.buckets)
unfolding rounds
rounds_total ks lanes ready zero p k c f = (p.ordered, refl, finished p (omega arith))
rounds_total ks lanes ready (suc fuel) p k c f = elim (Bool-cases (p.remaining == 0)) [
  | inl done ↦ (p.ordered, rw done, finished p (sym c ∙ ==→eq p.remaining 0 done))
  | inr more ↦
      let start = record p { progressed = false } in
      let (q, passed, moves) = pass_lanes_total ks lanes start k ready.has_keys in
      elim (Bool-cases q.progressed) [
        | inl going ↦
            let fewer = moves.advances refl going in
            let (out, ordered, perm) =
              rounds_total ks lanes ready fuel q (moves.same_keys ∙ k) (moves.counted c)
                (omega arith) in
            (
              out,
              round_again fuel lanes p q more passed going ∙ ordered,
              Permᴰ.trans perm moves.moved,
            )
        | inr stopped ↦
            let (calm, emptied) = pass_lanes_idle lanes start q ready.weighted passed stopped in
            let nothing = all_empty p.buckets (subst IsDistinct (sym k) ready.distinct) (
              all-Emptied lanes p.buckets (keys p.buckets) emptied
                (subst (Covered lanes) (sym k) ready.covered)) in
            absurd (ground arith)
      ]
]
