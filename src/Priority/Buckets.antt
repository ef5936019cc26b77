-- ===== src/Priority/Buckets.antt =====
-- Proofs about core/priority.py: the contents of the lane buckets, and passes over them.
use mathlib.Core.List.Permᴰ
use mathlib.Core.List.Permᴰ.{Permᴰ}
use mathlib.Core.List.{append_assoc}
use nats_sinks.Common.{
  ℕ, zero, suc, ◌+◌, ◌≡◌, refl, sym, ap, subst, ◌∙◌, inl, inr, true, List, [], ◌∷◌, ◌++◌, some,
  String, str_eq, contains_text, length, length-append, arith, Bool-cases, Option-cases,
}
use nats_sinks.Errors.{ok}
use nats_sinks.Priority.{
  Lane, Assignment, Buckets, has_bucket, new_buckets, append_to, fill_buckets, total, take_up_to,
  drain,
}

abbrev pub contents : Buckets → List Assignment
contents [] = []
contents ((n, b) ∷ buckets) = b ++ contents buckets

abbrev pub keys : Buckets → List String
keys [] = []
keys ((n, b) ∷ buckets) = n ∷ keys buckets

take_up_to-append : (w : ℕ) (b : List Assignment) → (take_up_to w b).0 ++ (take_up_to w b).1 ≡ b
unfolding take_up_to
take_up_to-append zero b = refl
take_up_to-append (suc w) [] = refl
take_up_to-append (suc w) (a ∷ b) = ap (λ r. a ∷ r) (take_up_to-append w b)

-- A sum of three parts with the first two exchanged.
exchange : (xs ys zs : List Assignment) → Permᴰ (xs ++ (ys ++ zs)) (ys ++ (xs ++ zs))
exchange xs ys zs =
    subst (λ l. Permᴰ l (ys ++ (xs ++ zs))) (append_assoc xs ys zs)
      (subst (λ r. Permᴰ ((xs ++ ys) ++ zs) r) (append_assoc ys xs zs)
        (Permᴰ.append_right zs (Permᴰ.append_comm xs ys)))

-- What is drained, and what stays, is what was there.
pub drain-perm :
    (name : String) (w : ℕ) (buckets : Buckets) {taken : List Assignment} {left : Buckets}
    → drain name w buckets ≡ some (taken, left)
    → Permᴰ (taken ++ contents left) (contents buckets)
unfolding drain
drain-perm name w [] h = absurd (cc)
drain-perm name w ((n, b) ∷ buckets) {taken} {left} h = elim (Bool-cases (str_eq n name)) [
  | inl e ↦
      let e₁ : (take_up_to w b).0 ≡ taken = ground arith in
      let e₂ : (n, (take_up_to w b).1) ∷ buckets ≡ left = ground arith in
      rw (← e₁, ← e₂)
        (subst (λ l. Permᴰ l (b ++ contents buckets))
          (append_assoc (take_up_to w b).0 (take_up_to w b).1 (contents buckets))
          (subst (λ l. Permᴰ (l ++ contents buckets) (b ++ contents buckets))
            (sym (take_up_to-append w b)) (Permᴰ.refl _)))
  | inr e ↦ elim (Option-cases (drain name w buckets)) [
    | inl missing ↦ absurd (ground arith)
    | inr ((t, bs), found) ↦
        let e₁ : t ≡ taken = ground arith in
        let e₂ : (n, b) ∷ bs ≡ left = ground arith in
        rw (← e₁, ← e₂)
          (Permᴰ.trans (exchange t b (contents bs))
            (Permᴰ.append_left b (drain-perm name w buckets found)))
  ]
]

pub keys-drain :
    (name : String) (w : ℕ) (buckets : Buckets) {taken : List Assignment} {left : Buckets}
    → drain name w buckets ≡ some (taken, left)
    → keys left ≡ keys buckets
unfolding drain
keys-drain name w [] h = absurd (cc)
keys-drain name w ((n, b) ∷ buckets) {taken} {left} h = elim (Bool-cases (str_eq n name)) [
  | inl e ↦ ap keys (let e₂ : left ≡ (n, (take_up_to w b).1) ∷ buckets = ground arith in e₂)
  | inr e ↦ elim (Option-cases (drain name w buckets)) [
    | inl missing ↦ absurd (ground arith)
    | inr ((t, bs), found) ↦
        ap keys (let e₂ : left ≡ (n, b) ∷ bs = ground arith in e₂)
        ∙ ap (λ ks. n ∷ ks) (keys-drain name w buckets found)
  ]
]

-- A bucket of that name is there, so it can be drained.
pub drain_total :
    (name : String) (w : ℕ) (buckets : Buckets)
    → contains_text (keys buckets) name ≡ true
    → (taken : List Assignment) × (left : Buckets) × (drain name w buckets ≡ some (taken, left))
unfolding drain
drain_total name w [] h = absurd (cc)
drain_total name w ((n, b) ∷ buckets) h = elim (Bool-cases (str_eq n name)) [
  | inl e ↦ ((take_up_to w b).0, (n, (take_up_to w b).1) ∷ buckets, rw e)
  | inr e ↦
      let (t, bs, found) = drain_total name w buckets (ground arith) in
      (t, (n, b) ∷ bs, ground arith)
]

pub length-perm : {xs ys : List Assignment} → Permᴰ xs ys → length xs ≡ length ys
length-perm Permᴰ.nil = refl
length-perm (Permᴰ.cons e p) = ap suc (length-perm p)
length-perm (Permᴰ.swap e f) = refl
length-perm (Permᴰ.trans p q) = length-perm p ∙ length-perm q

total-eq-length : (buckets : Buckets) → total buckets ≡ length (contents buckets)
unfolding total
total-eq-length [] = refl
total-eq-length ((n, b) ∷ buckets) =
    omega (arith, total-eq-length buckets, length-append b (contents buckets))

pub nothing_left : (buckets : Buckets) → total buckets ≡ 0 → contents buckets ≡ []
nothing_left buckets h = no_length (contents buckets) (omega (arith, total-eq-length buckets))
  where
    no_length : (xs : List Assignment) → length xs ≡ 0 → xs ≡ []
    no_length [] e = refl
    no_length (x ∷ xs) e = absurd (omega arith)

pub total-drain :
    (name : String) (w : ℕ) (buckets : Buckets) {taken : List Assignment} {left : Buckets}
    → drain name w buckets ≡ some (taken, left)
    → length taken + total left ≡ total buckets
total-drain name w buckets {taken} {left} h = omega (
  arith,
  total-eq-length left,
  total-eq-length buckets,
  length-append taken (contents left),
  length-perm (drain-perm name w buckets h),
)

-- One assignment more in its bucket is one more in all.
append_to-perm :
    (name : String) (a : Assignment) (buckets : Buckets)
    → has_bucket name buckets ≡ true
    → Permᴰ (contents (append_to name a buckets)) (a ∷ contents buckets)
unfolding append_to has_bucket
append_to-perm name a [] h = absurd (cc)
append_to-perm name a ((n, b) ∷ buckets) h = elim (Bool-cases (str_eq n name)) [
  | inl e ↦ rw e (
      subst (λ l. Permᴰ l (a ∷ (b ++ contents buckets)))
        (sym (append_assoc b (a ∷ []) (contents buckets))) (Permᴰ.middle a b (contents buckets)))
  | inr e ↦ rw e (
      Permᴰ.trans (Permᴰ.append_left b (append_to-perm name a buckets (ground arith)))
        (Permᴰ.middle a b (contents buckets)))
]

keys-append_to :
    (name : String) (a : Assignment) (buckets : Buckets)
    → keys (append_to name a buckets) ≡ keys buckets
unfolding append_to
keys-append_to name a [] = refl
keys-append_to name a ((n, b) ∷ buckets) = ground (arith, keys-append_to name a buckets)

-- The filled buckets hold the assignments and what was there, under the same names.
pub fill_buckets-perm :
    (buckets : Buckets) (as' : List Assignment) {filled : Buckets}
    → fill_buckets buckets as' ≡ ok filled
    → Permᴰ (contents filled) (as' ++ contents buckets) × (keys filled ≡ keys buckets)
unfolding fill_buckets
fill_buckets-perm buckets [] {filled} h =
    let e : buckets ≡ filled = ground arith in rw (← e) (Permᴰ.refl _, refl)
fill_buckets-perm buckets (a ∷ as') h = elim (Bool-cases (has_bucket a.lane_name buckets)) [
  | inl there ↦
      let (p, k) = fill_buckets-perm (append_to a.lane_name a buckets) as' (ground arith) in
      (
        Permᴰ.trans p (
            Permᴰ.trans (Permᴰ.append_left as' (append_to-perm a.lane_name a buckets there))
              (Permᴰ.middle a as' (contents buckets))),
        k ∙ keys-append_to a.lane_name a buckets,
      )
  | inr missing ↦ absurd (ground arith)
]

contents-append : (xs : Buckets) (n : String) → contents (xs ++ (n, []) ∷ []) ≡ contents xs
contents-append [] n = refl
contents-append ((m, b) ∷ xs) n = ap (λ r. b ++ r) (contents-append xs n)

-- The new buckets are empty.
pub contents-new_buckets :
    (buckets : Buckets) (lanes : List Lane)
    → contents buckets ≡ []
    → contents (new_buckets buckets lanes) ≡ []
unfolding new_buckets
contents-new_buckets buckets [] h = h
contents-new_buckets buckets (lane ∷ lanes) h = elim (Bool-cases (has_bucket lane.name buckets)) [
  | inl there ↦ rw there (contents-new_buckets buckets lanes h)
  | inr missing ↦ rw missing (
      contents-new_buckets (buckets ++ (lane.name, []) ∷ []) lanes
        (contents-append buckets lane.name ∙ h))
]
