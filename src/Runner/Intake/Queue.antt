-- ===== src/Runner/Intake/Queue.antt =====
-- Proofs about core/runner.py: the queue of `_handle_push_message` and `_next_push_batch`.
use nats_sinks.Common.{
  ℕ, zero, suc, ◌≤◌, ◌<◌, ◌≡◌, refl, sym, ap, subst, ◌⊎◌, inl, inr, List, [], ◌∷◌, ◌++◌, Option,
  none, some, length, leb, length-append, arith, Bool-cases, if◌then◌else◌,
}
use nats_sinks.Runner.Exec.{RawMessage}
use nats_sinks.Runner.Intake.{put_nowait, get_nowait, next_push_batch}

-- Taking splits the queue, and only an empty queue ends it early.
get_nowait-splits :
    (room : ℕ) (queue : List RawMessage)
    → ((get_nowait room queue).0 ++ (get_nowait room queue).1 ≡ queue)
      × (length (get_nowait room queue).0 ≤ room)
      × ((length (get_nowait room queue).0 ≡ room) ⊎ ((get_nowait room queue).1 ≡ []))
unfolding get_nowait
get_nowait-splits zero queue = (refl, omega arith, inl refl)
get_nowait-splits (suc room) [] = (refl, omega arith, inr refl)
get_nowait-splits (suc room) (m ∷ queue) =
    let (whole, bound, full) = get_nowait-splits room queue in
    (ap (λ l. m ∷ l) whole, omega arith, elim full [ inl e ↦ inl (ap suc e) | inr e ↦ inr e ])

-- What the loop gets from a queue: nothing of an empty one; else a batch of one message at least
-- and `batch_size` at most, from the front, that leaves messages behind only when it is full.
pub record Takes (batch_size : ℕ) (queue batch rest : List RawMessage) : Type 0 where
  pub in_order : batch ++ rest ≡ queue
  pub some_message : 0 < length batch
  pub bounded : length batch ≤ batch_size
  pub greedy : (length batch ≡ batch_size) ⊎ (rest ≡ [])

-- For every batch size of one or more and every queue with a message, `_next_push_batch` returns
-- a batch and leaves a queue that together are the old queue in order; the batch is neither empty
-- nor too long, and messages stay behind only when it is full.
pub next_push_batch-Takes :
    (batch_size : ℕ) (first : RawMessage) (queue : List RawMessage)
    → 0 < batch_size
    → (batch rest : List RawMessage) × (next_push_batch batch_size (first ∷ queue)
        ≡ some (batch, rest))
      × Takes batch_size (first ∷ queue) batch rest
unfolding next_push_batch
next_push_batch-Takes (suc size) first queue h =
    let (whole, bound, full) = get_nowait-splits size queue in
    (
      first ∷ (get_nowait size queue).0,
      (get_nowait size queue).1,
      refl,
      record {
        in_order = ap (λ l. first ∷ l) whole;
        some_message = omega arith;
        bounded = omega arith;
        greedy = elim full [ inl e ↦ inl (ap suc e) | inr e ↦ inr e ];
      },
    )
next_push_batch-Takes zero first queue h = absurd (omega arith)

-- The queue, where there is one, is within the limit.
pub Bounded : ℕ → Option (List RawMessage) → Type 0
Bounded limit none = Unit
Bounded limit (some queue) = length queue ≤ limit

pub Bounded-nil : (limit : ℕ) → Bounded limit (some [])
unfolding Bounded
Bounded-nil limit = omega arith

pub put_nowait-Bounded :
    (limit : ℕ) (m : RawMessage) (queue out : List RawMessage)
    → put_nowait limit m queue ≡ some out
    → Bounded limit (some out)
unfolding put_nowait Bounded
put_nowait-Bounded limit m queue out h = elim (Bool-cases (leb limit (length queue))) [
  | inl full ↦
      absurd (refused (subst (λ b. (if b then none else some (queue ++ m ∷ [])) ≡ some out) full h))
  | inr free ↦
      subst (λ l. length l ≤ limit)
        (unwrap (subst (λ b. (if b then none else some (queue ++ m ∷ [])) ≡ some out) free h))
        (subst (λ n. n ≤ limit) (sym (length-append queue (m ∷ []))) (ground arith))
]
  where
    refused : none ≡ some out → ⊥
    refused e = cc

    unwrap : {l : List RawMessage} → some l ≡ some out → l ≡ out
    unwrap e = cc

pub next_push_batch-Bounded :
    (limit batch_size : ℕ) (queue batch rest : List RawMessage)
    → Bounded limit (some queue)
    → next_push_batch batch_size queue ≡ some (batch, rest)
    → Bounded limit (some rest)
unfolding next_push_batch Bounded
next_push_batch-Bounded limit batch_size [] batch rest b h = cc
next_push_batch-Bounded limit batch_size (first ∷ queue) batch rest b h =
    let (whole, _, _) = get_nowait-splits (Prim.Native.Nat.pred batch_size) queue in
    subst (λ l. length l ≤ limit) (unwrap h)
      (shorter (get_nowait (Prim.Native.Nat.pred batch_size) queue).0
        (get_nowait (Prim.Native.Nat.pred batch_size) queue).1 whole)
  where
    unwrap :
        {l l' rest' : List RawMessage}
        → ◌≡◌ {A = Option (List RawMessage × List RawMessage)} (some (l, rest')) (some (l', rest))
        → rest' ≡ rest
    unwrap {l} {l'} {rest'} e = ap (λ o. elim o [ none ↦ rest' | some p ↦ p.1 ]) e

    shorter : (front back : List RawMessage) → front ++ back ≡ queue → length back ≤ limit
    shorter front back w = omega (arith, length-append front back, ap length w, b)
