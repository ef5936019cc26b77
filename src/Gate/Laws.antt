-- ===== src/Gate/Laws.antt =====
-- Proofs about the indexes of an evaluation, as core/runner.py picks by them.
use nats_sinks.Common.{
  ℕ, suc, ◌≡◌, refl, sym, ap, subst, ◌∙◌, inl, inr, Bool, true, false, not, List, [], ◌∷◌, ◌++◌,
  some, get_elem?, is_empty, length, All, Bool-cases, ◌↔◌, filter_by, length-append, if◌then◌else◌,
  arith,
}
use mathlib.Core.List.{append_assoc}
use mathlib.Core.List.Permᴰ
use mathlib.Core.List.Permᴰ.{Permᴰ}
use nats_sinks.Errors.{Result, ok, err, ok_inj, bind-ok, bind-step}
use nats_sinks.Gate.{Evaluation, evaluate_from, record_outcome, pick}

module _ {A : Type 0} where
  get_elem?-append :
      (before : List A) (a : A) (behind : List A)
      → get_elem? (before ++ a ∷ behind) (length before) ≡ some a
  get_elem?-append [] a behind = refl
  get_elem?-append (b ∷ before) a behind = get_elem?-append before a behind

  pick-cons :
      (i : ℕ) (indexes : List ℕ) (batch : List A) {a : A} {rest : List A}
      → get_elem? batch i ≡ some a
      → pick indexes batch ≡ ok rest
      → pick (i ∷ indexes) batch ≡ ok (a ∷ rest)
  unfolding pick
  pick-cons i indexes batch h k = rw (h, pick) (rw k)

module _ {V A : Type 0} (check : ℕ → A → Result (List V)) (passes : A → Bool)
    (judged : (i : ℕ) (a : A) (found : List V)
      → check i a ≡ ok found
      → is_empty found ≡ passes a) where
  -- The accepted and the rejected indexes pick those of `batch` that pass and those that fail.
  Picks : Evaluation V → List A → List A → Type 0
  Picks e batch whole =
      (pick e.accepted_indexes whole ≡ ok (filter_by passes batch))
      × (pick e.rejected_indexes whole ≡ ok (filter_by (λ a. not (passes a)) batch))

  pick_outcome :
      (i : ℕ) (a : A) (found : List V) (later : Evaluation V) (batch whole : List A)
      → is_empty found ≡ passes a
      → get_elem? whole i ≡ some a
      → Picks later batch whole
      → Picks (record_outcome check i found later) (a ∷ batch) whole
  unfolding Picks
  pick_outcome i a [] later batch whole j h (acc, rej) =
      subst
        (λ b.
          (pick (i ∷ later.accepted_indexes) whole
            ≡ ok (if b then a ∷ filter_by passes batch else filter_by passes batch))
          × (pick later.rejected_indexes whole
              ≡ ok (
                  if not b
                  then a ∷ filter_by (λ c. not (passes c)) batch
                  else filter_by (λ c. not (passes c)) batch)))
        j (pick-cons i later.accepted_indexes whole h acc, rej)
  pick_outcome i a (v ∷ found) later batch whole j h (acc, rej) =
      subst
        (λ b.
          (pick later.accepted_indexes whole
            ≡ ok (if b then a ∷ filter_by passes batch else filter_by passes batch))
          × (pick (i ∷ later.rejected_indexes) whole
              ≡ ok (
                  if not b
                  then a ∷ filter_by (λ c. not (passes c)) batch
                  else filter_by (λ c. not (passes c)) batch)))
        j (acc, pick-cons i later.rejected_indexes whole h rej)

  evaluate_from-Picks :
      (before batch whole : List A) (out : Evaluation V)
      → before ++ batch ≡ whole
      → evaluate_from check (length before) batch ≡ ok out
      → Picks out batch whole
  unfolding evaluate_from pick Picks
  evaluate_from-Picks before [] whole out h k =
      subst (λ e. Picks e [] whole) (ok_inj k) (refl, refl)
  evaluate_from-Picks before (a ∷ batch) whole out h k =
      let (found, f, k1) = bind-ok (check (length before) a) _ out k in
      let (later, l, made) = bind-ok (evaluate_from check (suc (length before)) batch) _ out k1 in
      subst (λ e. Picks e (a ∷ batch) whole) (ok_inj made)
        (pick_outcome (length before) a found later batch whole (judged (length before) a found f)
          (subst (λ l. get_elem? l (length before) ≡ some a) h (get_elem?-append before a batch))
          (evaluate_from-Picks (before ++ a ∷ []) batch whole later
            (append_assoc before (a ∷ []) batch ∙ h)
            (subst (λ n. evaluate_from check n batch ≡ ok later)
              (sym (length-append before (a ∷ []) ∙ omega arith)) l)))

  -- The accepted indexes pick exactly the envelopes that pass and the rejected ones all others,
  -- both in the order of the batch and within its bounds.
  pub evaluate-picks :
      (batch : List A) (out : Evaluation V)
      → evaluate_from check 0 batch ≡ ok out
      → (pick out.accepted_indexes batch ≡ ok (filter_by passes batch))
        × (pick out.rejected_indexes batch ≡ ok (filter_by (λ a. not (passes a)) batch))
  unfolding Picks
  evaluate-picks batch out k = evaluate_from-Picks [] batch batch out refl k

-- An evaluation whose checks of the batch return does so too.
pub evaluate_from-returns :
    {V A : Type 0} (check : ℕ → A → Result (List V)) (i : ℕ) (batch : List A)
    → All (λ a. (n : ℕ) → (found : List V) × (check n a ≡ ok found)) batch
    → (out : Evaluation V) × (evaluate_from check i batch ≡ ok out)
unfolding evaluate_from
evaluate_from-returns check i [] r = (_, refl)
evaluate_from-returns check i (a ∷ batch) (r, rs) =
    let (found, f) = r i in
    let (later, l) = evaluate_from-returns check (suc i) batch rs in
    (record_outcome check i found later, bind-step _ f (bind-step _ l refl))

-- What passes and what fails are together the batch.
pub partition-perm :
    {A : Type 0} (p : A → Bool) (batch : List A)
    → Permᴰ (filter_by p batch ++ filter_by (λ a. not (p a)) batch) batch
partition-perm p [] = Permᴰ.nil
partition-perm p (a ∷ batch) = elim (Bool-cases (p a)) [
  | inl h ↦ rw h (Permᴰ.cons refl (partition-perm p batch))
  | inr h ↦ rw h (
      Permᴰ.trans (Permᴰ.middle a (filter_by p batch) (filter_by (λ b. not (p b)) batch))
        (Permᴰ.cons refl (partition-perm p batch)))
]

pub All-filter_by :
    {A : Type 0} (P : A → Type 0) (p : A → Bool)
    → ((a : A) → p a ≡ true → P a)
    → (batch : List A) → All P (filter_by p batch)
All-filter_by P p h [] = tt
All-filter_by P p h (a ∷ batch) = elim (Bool-cases (p a)) [
  | inl e ↦ rw e (h a e, All-filter_by P p h batch)
  | inr e ↦ rw e (All-filter_by P p h batch)
]

-- How an evaluation splits a batch: the picked messages together are the batch, the accepted
-- ones are good and the rejected ones are not.
pub record Splits {V A : Type 0} (Good : A → Type 0) (e : Evaluation V) (batch : List A)
    : Type 0 where
  pub accepted : List A
  pub rejected : List A
  pub accepted_picked : pick e.accepted_indexes batch ≡ ok accepted
  pub rejected_picked : pick e.rejected_indexes batch ≡ ok rejected
  pub accepted_Good : All Good accepted
  pub rejected_bad : All (λ a. ¬ (Good a)) rejected
  pub nothing_lost : Permᴰ (accepted ++ rejected) batch

-- A gate whose checks return without a finding exactly for good messages splits every batch that
-- it returns for.
pub evaluate-Splits :
    {V A : Type 0} (Good : A → Type 0) (check : ℕ → A → Result (List V))
    → ((i : ℕ) (a : A) → check i a ≡ ok [] ↔ Good a)
    → (batch : List A) (out : Evaluation V) → evaluate_from check 0 batch ≡ ok out
    → Splits Good out batch
evaluate-Splits {V} {A} Good check judge batch out k =
    let (acc, rej) = evaluate-picks check passes judged batch out k in
    record {
      accepted = filter_by passes batch;
      rejected = filter_by (λ a. not (passes a)) batch;
      accepted_picked = acc;
      rejected_picked = rej;
      accepted_Good = All-filter_by Good passes (λ a h. (judge 0 a).0 (silent _ h)) batch;
      rejected_bad =
          All-filter_by (λ a. ¬ (Good a)) (λ a. not (passes a))
            (λ a h g. ground (arith, ap is_silent ((judge 0 a).1 g))) batch;
      nothing_lost = partition-perm passes batch;
    }
  where
    is_silent : Result (List V) → Bool
    is_silent (ok found) = is_empty found
    is_silent (err e) = false

    passes : A → Bool
    passes a = is_silent (check 0 a)

    silent : (r : Result (List V)) → is_silent r ≡ true → r ≡ ok []
    silent (ok []) h = refl
    silent (ok (v ∷ l)) h = cc
    silent (err e) h = cc

    judged : (i : ℕ) (a : A) (found : List V) → check i a ≡ ok found → is_empty found ≡ passes a
    judged i a [] q = sym (ap is_silent ((judge 0 a).1 ((judge i a).0 q)))
    judged i a (v ∷ found) q = elim (Bool-cases (passes a)) [
      | inl g ↦ absurd (other ((judge i a).1 ((judge 0 a).0 (silent _ g))))
      | inr g ↦ sym g
    ]
      where
        other : check i a ≡ ok [] → ⊥
        other z = cc
