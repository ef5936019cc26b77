-- ===== src/Runner/Batch/Derived.antt =====
-- Which envelopes are a message's own, and how the stages of a batch keep them beside each other.
use mathlib.Core.List.Permᴰ.{Permᴰ}
use nats_sinks.Common.{
  ℕ, zero, suc, ◌≡◌, refl, sym, subst, inl, inr, List, [], ◌∷◌, Option, none, some, All, Any, All₂,
  get_elem?,
}
use nats_sinks.Errors.{Result, ok, err, collect_from, unexpected, bind-ok, ◌>>=◌}
use nats_sinks.Gate.{pick}
use nats_sinks.Envelope.{NatsEnvelope}
use nats_sinks.Runner.Exec.{RawMessage}
use nats_sinks.Runner.Batch.{Setup}

-- The envelopes of a message: its mapping, with or without metadata, and what encryption and
-- custody make of one of them.
pub data Derived (setup : Setup) : RawMessage → NatsEnvelope → Type 0 where
  mapped :
      {m : RawMessage} {e : NatsEnvelope} (n : ℕ) → setup.normalize n m ≡ ok e → Derived setup m e
  mapped_fallback :
      {m : RawMessage} {e : NatsEnvelope} (n : ℕ)
      → setup.normalize_fallback n m ≡ ok e
      → Derived setup m e
  encrypted :
      {m : RawMessage} {e e' : NatsEnvelope} (f : ℕ → NatsEnvelope → Result NatsEnvelope) (n : ℕ)
      → setup.encrypt ≡ some f
      → f n e ≡ ok e'
      → Derived setup m e
      → Derived setup m e'
  attached :
      {m : RawMessage} {e e' : NatsEnvelope} (f : ℕ → NatsEnvelope → Result NatsEnvelope) (n : ℕ)
      → setup.custody ≡ some f
      → f n e ≡ ok e'
      → Derived setup m e
      → Derived setup m e'

module _ {A : Type 0} where
  pub pick-nil : (xs l : List A) → pick [] xs ≡ ok l → [] ≡ l
  unfolding pick
  pick-nil xs l h = cc

  -- The first index of a pick that returns is within the list, and so are the others.
  pub pick-inv :
      (i : ℕ) (indexes : List ℕ) (xs l : List A)
      → pick (i ∷ indexes) xs ≡ ok l
      → (x : A) × (rest : List A) × (get_elem? xs i ≡ some x)
        × (pick indexes xs ≡ ok rest)
        × (x ∷ rest ≡ l)
  unfolding pick
  pick-inv i indexes xs l h = at (get_elem? xs i) refl h
    where
      at :
          (o : Option A)
          → get_elem? xs i ≡ o
          → (elim o [
            | none ↦ err unexpected
            | some a ↦ (pick indexes xs >>= λ rest. ok (a ∷ rest))
          ])
            ≡ ok l
          → (x : A) × (rest : List A) × (get_elem? xs i ≡ some x)
            × (pick indexes xs ≡ ok rest)
            × (x ∷ rest ≡ l)
      at none e k = cc
      at (some a) e k =
          let (rest, q, u) = bind-ok (pick indexes xs) _ l k in (a, rest, e, q, unwrap u)
        where
          unwrap : {m m' : List A} → ok m ≡ ok m' → m ≡ m'
          unwrap u = cc

module _ {A B : Type 0} (R : A → B → Type 0) where
  -- A comprehension that returns relates every element to its image.
  pub collect_from-All₂ :
      (f : ℕ → A → Result B)
      → ((n : ℕ) (a : A) (b : B) → f n a ≡ ok b → R a b)
      → (n : ℕ) (as' : List A) (bs : List B) → collect_from f n as' ≡ ok bs
      → All₂ R as' bs
  unfolding collect_from
  collect_from-All₂ f r n [] [] h = tt
  collect_from-All₂ f r n [] (b ∷ bs) h = cc
  collect_from-All₂ f r n (a ∷ as') bs h =
      let (b, q, h1) = bind-ok (f n a) _ bs h in
      let (l, k, h2) = bind-ok (collect_from f (suc n) as') _ bs h1 in
      subst (All₂ R (a ∷ as')) (unwrap h2) (r n a b q, collect_from-All₂ f r (suc n) as' l k)
    where
      unwrap : {l l' : List B} → ok l ≡ ok l' → l ≡ l'
      unwrap e = cc

  get_elem?-All₂ :
      (i : ℕ) (xs : List A) (ys : List B) (x : A) (y : B)
      → All₂ R xs ys
      → get_elem? xs i ≡ some x
      → get_elem? ys i ≡ some y
      → R x y
  get_elem?-All₂ i [] ys x y r h k = cc
  get_elem?-All₂ i (x' ∷ xs) [] x y r h k = cc
  get_elem?-All₂ zero (x' ∷ xs) (y' ∷ ys) x y (r, rs) h k =
      subst (R x) (unwrap k) (subst (λ z. R z y') (unwrap h) r)
    where
      unwrap : {C : Type 0} {c d : C} → some c ≡ some d → c ≡ d
      unwrap e = cc
  get_elem?-All₂ (suc i) (x' ∷ xs) (y' ∷ ys) x y (r, rs) h k = get_elem?-All₂ i xs ys x y rs h k

  pub pick-All₂ :
      (indexes : List ℕ) (xs : List A) (ys : List B) (as' : List A) (bs : List B)
      → All₂ R xs ys
      → pick indexes xs ≡ ok as'
      → pick indexes ys ≡ ok bs
      → All₂ R as' bs
  pick-All₂ [] xs ys as' bs r h k =
      subst (λ l. All₂ R l bs) (pick-nil xs as' h) (subst (All₂ R []) (pick-nil ys bs k) tt)
  pick-All₂ (i ∷ indexes) xs ys as' bs r h k =
      let (x, xs', h1, h2, ex) = pick-inv i indexes xs as' h in
      let (y, ys', k1, k2, ey) = pick-inv i indexes ys bs k in
      subst (λ l. All₂ R l bs) ex
        (subst (All₂ R (x ∷ xs')) ey
          (get_elem?-All₂ i xs ys x y r h1 k1, pick-All₂ indexes xs ys xs' ys' r h2 k2))

  pub All₂→Any : (xs : List A) (ys : List B) → All₂ R xs ys → All (λ x. Any (R x) ys) xs
  All₂→Any [] [] r = tt
  All₂→Any [] (y ∷ ys) r = absurd r
  All₂→Any (x ∷ xs) [] r = absurd r
  All₂→Any (x ∷ xs) (y ∷ ys) (r, rs) = (inl r, behind xs (All₂→Any xs ys rs))
    where
      behind : (zs : List A) → All (λ z. Any (R z) ys) zs → All (λ z. Any (R z) (y ∷ ys)) zs
      behind [] h = tt
      behind (z ∷ zs) (h, hs) = (inr h, behind zs hs)

pub Any-perm : {A : Type 0} (P : A → Type 0) {xs ys : List A} → Permᴰ xs ys → Any P ys → Any P xs
Any-perm P Permᴰ.nil a = a
Any-perm P (Permᴰ.cons e p) (inl h) = inl (subst P (sym e) h)
Any-perm P (Permᴰ.cons e p) (inr h) = inr (Any-perm P p h)
Any-perm P (Permᴰ.swap e f) (inl h) = inr (inl (subst P (sym f) h))
Any-perm P (Permᴰ.swap e f) (inr (inl h)) = inl (subst P (sym e) h)
Any-perm P (Permᴰ.swap e f) (inr (inr h)) = inr (inr h)
Any-perm P (Permᴰ.trans p q) a = Any-perm P p (Any-perm P q a)
