-- ===== src/Batching/Laws.antt =====
-- Proofs about core/batching.py.
use mathlib.Core.List.{append-nil, append_assoc}
use native.Mathlib.Decide.{dec_le}
use nats_sinks.Common.{
  ℕ, zero, suc, ◌+◌, ◌-◌, min, ◌≤◌, ◌<◌, ◌≡◌, refl, ◌⊎◌, sym, ap, ◌∙◌, inl, inr, List, [], ◌∷◌,
  ◌++◌, map, length, length-append, ltb, leb, take, drop, Bool-cases, arith,
}
use nats_sinks.Errors.{ok}
use nats_sinks.Batching.{range_by, slice, chunked, yield_batches, iter_chunked}

module _ {ℓ} {A : Type ℓ} where
  -- Batches taken off the front, as often as the fuel allows.
  cut : ℕ → ℕ → List A → List (List A)
  cut zero size items = []
  cut (suc fuel) size [] = []
  cut (suc fuel) size (item ∷ items) =
      take size (item ∷ items) ∷ cut fuel size (drop size (item ∷ items))

  drop-nil : (n : ℕ) → drop {A = A} n [] ≡ []
  unfolding drop
  drop-nil zero = refl
  drop-nil (suc n) = refl

  drop-drop : (i k n : ℕ) (items : List A) → i + k ≡ n → drop k (drop i items) ≡ drop n items
  unfolding drop
  drop-drop zero k n items e = ap (λ n. drop n items) (omega (arith, e))
  drop-drop (suc i) k n [] e = drop-nil k ∙ sym (drop-nil n)
  drop-drop (suc i) k zero (x ∷ items) e = absurd (omega (arith, e))
  drop-drop (suc i) k (suc n) (x ∷ items) e = drop-drop i k n items (omega (arith, e))

  cut-nil : (fuel size : ℕ) → cut fuel size [] ≡ []
  unfolding cut
  cut-nil zero size = refl
  cut-nil (suc fuel) size = refl

  drop-past : (n : ℕ) (items : List A) → length items ≤ n → drop n items ≡ []
  unfolding drop
  drop-past n [] h = drop-nil n
  drop-past zero (x ∷ items) h = absurd (omega arith)
  drop-past (suc n) (x ∷ items) h = drop-past n items (omega arith)

  take-past : (n : ℕ) (items : List A) → length items ≤ n → take n items ≡ items
  unfolding take
  take-past zero [] h = refl
  take-past (suc n) [] h = refl
  take-past zero (x ∷ items) h = absurd (omega arith)
  take-past (suc n) (x ∷ items) h = ap (◌∷◌ x) (take-past n items (omega arith))

  take-front : (front rest : List A) → take (length front) (front ++ rest) ≡ front
  unfolding take
  take-front [] rest = refl
  take-front (x ∷ front) rest = ap (◌∷◌ x) (take-front front rest)

  drop-front : (front rest : List A) → drop (length front) (front ++ rest) ≡ rest
  unfolding drop
  drop-front [] rest = refl
  drop-front (x ∷ front) rest = drop-front front rest

  length-drop : (n : ℕ) (items : List A) → length (drop n items) ≡ length items - n
  unfolding drop
  length-drop zero items = omega arith
  length-drop (suc n) [] = omega arith
  length-drop (suc n) (x ∷ items) = omega (arith, length-drop n items)

  length-take : (n : ℕ) (items : List A) → length (take n items) ≡ min n (length items)
  unfolding take
  length-take zero items = omega arith
  length-take (suc n) [] = omega arith
  length-take (suc n) (x ∷ items) = omega (arith, length-take n items)

  take-append-drop : (n : ℕ) (items : List A) → take n items ++ drop n items ≡ items
  unfolding take drop
  take-append-drop zero items = refl
  take-append-drop (suc n) [] = refl
  take-append-drop (suc n) (x ∷ items) = ap (◌∷◌ x) (take-append-drop n items)

  drop-before :
      (n : ℕ) (items : List A)
      → n < length items
      → (x : A) × (rest : List A) × (drop n items ≡ x ∷ rest)
  unfolding drop
  drop-before n [] h = absurd (omega arith)
  drop-before zero (x ∷ items) h = (x, items, refl)
  drop-before (suc n) (x ∷ items) h = drop-before n items (omega arith)

  cut-cons :
      (fuel size : ℕ) (items : List A) {x : A} {rest : List A}
      → items ≡ x ∷ rest
      → cut (suc fuel) size items ≡ take size items ∷ cut fuel size (drop size items)
  unfolding cut
  cut-cons fuel size items e = rw e refl

  -- What is left when it is a batch at most.
  cut-last :
      (fuel size : ℕ) (b : A) (batch : List A)
      → length (b ∷ batch) ≤ size
      → (b ∷ batch) ∷ [] ≡ cut (suc fuel) size (b ∷ (batch ++ []))
  cut-last fuel size b batch h =
      let e = append-nil (b ∷ batch) in
      sym (
        cut-cons fuel size (b ∷ (batch ++ [])) refl
        ∙ rw
            (
              append-nil batch,
              take-past size (b ∷ batch) h,
              drop-past size (b ∷ batch) h,
              cut-nil fuel size,
            )
            refl)

  -- A full batch in front.
  cut-full :
      (fuel size : ℕ) (batch rest items : List A)
      → batch ++ rest ≡ items
      → (length batch ≡ size) × (1 ≤ length batch)
      → cut (suc fuel) size items ≡ batch ∷ cut fuel size rest
  unfolding cut
  cut-full fuel size [] rest items e (h, k) = absurd (omega arith)
  cut-full fuel size (b ∷ batch) rest items e (h, k) =
      rw (← e, ← h, take-front (b ∷ batch) rest, drop-front (b ∷ batch) rest) refl

  -- The slices at the indices of the range are the batches taken off the front.
  slices-cut :
      (fuel size start : ℕ) (items : List A)
      → map (slice items size) (range_by fuel start (length items) size)
        ≡ cut fuel size (drop start items)
  unfolding range_by cut
  slices-cut zero size start items = refl
  slices-cut (suc fuel) size start items = elim (Bool-cases (ltb start (length items))) [
    | inr t ↦ rw t (
        sym (cut-nil (suc fuel) size)
        ∙ ap (cut (suc fuel) size) (sym (drop-past start items (ground arith))))
    | inl t ↦
        let (x, rest, e) = drop-before start items (ground arith) in
        rw t (
          ap (◌∷◌ (slice items size start)) (
            slices-cut fuel size (start + size) items
            ∙ ap (cut fuel size) (sym (drop-drop start size (start + size) items refl)))
          ∙ sym (cut-cons fuel size (drop start items) e))
  ]

  -- The generator yields the batches that are taken off the front of what it has gathered and what
  -- is to come.
  yield_batches-cut :
      (size : ℕ) (batch items : List A) (fuel : ℕ)
      → length batch < size
      → length batch + length items ≤ fuel
      → yield_batches size batch items ≡ cut fuel size (batch ++ items)
  unfolding yield_batches
  yield_batches-cut size [] [] fuel h f = sym (cut-nil fuel size)
  yield_batches-cut size (b ∷ batch) [] zero h f = absurd (omega arith)
  yield_batches-cut size (b ∷ batch) [] (suc fuel) h f = cut-last fuel size b batch (omega arith)
  yield_batches-cut size batch (x ∷ items) zero h f = absurd (omega arith)
  yield_batches-cut size batch (x ∷ items) (suc fuel) h f =
      elim (Bool-cases (leb size (length (batch ++ x ∷ [])))) [
        | inl t ↦
            rw (yield_batches, t)
              (ap (◌∷◌ (batch ++ x ∷ []))
                  (yield_batches-cut size [] items fuel (omega arith) (omega arith))
                ∙ sym (
                    cut-full fuel size (batch ++ x ∷ []) items (batch ++ x ∷ items)
                      (append_assoc batch (x ∷ []) items)
                      (ground (arith, length-append batch (x ∷ [])))))
        | inr t ↦
            rw (yield_batches, t)
              (yield_batches-cut size (batch ++ x ∷ []) items (suc fuel) (ground arith)
                  (omega (arith, length-append batch (x ∷ [])))
                ∙ ap (cut (suc fuel) size) (append_assoc batch (x ∷ []) items))
      ]

  -- The batches of `iter_chunked` are those of `chunked`, for every collection and every size, and
  -- both refuse the same sizes.
  pub chunked-eq-iter_chunked :
      (items : List A) (size : ℕ) → chunked items size ≡ iter_chunked items size
  unfolding chunked iter_chunked drop
  chunked-eq-iter_chunked items size = elim (Bool-cases (ltb size 1)) [
    | inl t ↦ rw t refl
    | inr t ↦ rw t (
        ap ok (
          slices-cut (length items) size 0 items
          ∙ sym (yield_batches-cut size [] items (length items) (ground arith) (omega arith))))
  ]

  -- Batches of a collection: in order they make it up, none is empty or longer than `size`, and only
  -- the last may be shorter.
  pub Batches : ℕ → List A → List (List A) → Type ℓ
  Batches size items [] = items ≡ []
  Batches size items (batch ∷ batches) =
      (rest : List A) × (items ≡ batch ++ rest)
      × (1 ≤ length batch)
      × (length batch ≤ size)
      × ((length batch ≡ size) ⊎ (batches ≡ []))
      × Batches size rest batches

  cut-Batches :
      (fuel size : ℕ) (items : List A)
      → 1 ≤ size
      → length items ≤ fuel
      → Batches size items (cut fuel size items)
  unfolding cut Batches
  cut-Batches zero size [] h f = refl
  cut-Batches zero size (x ∷ items) h f = absurd (omega arith)
  cut-Batches (suc fuel) size [] h f = refl
  cut-Batches (suc fuel) size (x ∷ items) h f = (
    drop size (x ∷ items),
    sym (take-append-drop size (x ∷ items)),
    omega (arith, length-take size (x ∷ items)),
    omega (arith, length-take size (x ∷ items)),
    elim (dec_le size (length (x ∷ items))) [
      | yes p ↦ inl (omega (arith, length-take size (x ∷ items)))
      | no p ↦
          inr (ap (cut fuel size) (drop-past size (x ∷ items) (omega arith)) ∙ cut-nil fuel size)
    ],
    cut-Batches fuel size (drop size (x ∷ items)) h (omega (arith, length-drop size (x ∷ items))),
  )

  -- A collection is cut into batches whenever the size is one at least, and these, in order, make
  -- up the collection: none is empty or longer than the size, and only the last may be shorter.
  pub chunked-Batches :
      (items : List A) (size : ℕ)
      → 1 ≤ size
      → (batches : List (List A)) × (chunked items size ≡ ok batches) × Batches size items batches
  unfolding chunked drop
  chunked-Batches items size h = elim (Bool-cases (ltb size 1)) [
    | inl t ↦ absurd (ground arith)
    | inr t ↦ (
      cut (length items) size items,
      rw t (ap ok (slices-cut (length items) size 0 items)),
      cut-Batches (length items) size items h (omega arith),
    )
  ]
