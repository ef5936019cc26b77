-- ===== src/Runner/Batch/Cleared.antt =====
-- Which envelopes the stages of `process_raw_batch` let through to the sink.
use mathlib.Core.List.Permᴰ
use mathlib.Core.List.Permᴰ.{Permᴰ}
use nats_sinks.Common.{
  ℕ, zero, suc, get_elem?, ◌∙◌, ◌≡◌, refl, sym, subst, ◌⊎◌, inl, inr, false, not, List, [], ◌∷◌,
  ◌++◌, Option, none, some, All, All-weaken, All₂, Bool-cases, is_empty,
}
use nats_sinks.Errors.{Result, ok, ok_inj, collect_from}
use nats_sinks.Envelope.{NatsEnvelope}
use nats_sinks.Gate.{Evaluation, has_rejections, pick}
use nats_sinks.Gate.Laws.{Splits}
use nats_sinks.Policy.{PolicyViolation, evaluate_pre_sink_policy}
use nats_sinks.Policy.Laws.{Allowed, evaluate_pre_sink_policy-Splits_if_ok}
use nats_sinks.SizePolicy.{SizePolicyViolation, evaluate_size_policy}
use nats_sinks.SizePolicy.Laws.{Fits, evaluate_size_policy-Splits_if_ok}
use nats_sinks.Runner.Batch.{Setup}
use nats_sinks.Runner.Exec.{Outside}
use nats_sinks.Runner.Exec.Ledger.{Terms}
use nats_sinks.Runner.Batch.Derived.{Derived, pick-nil, pick-inv, collect_from-All₂}

-- An optional step made one envelope of another.
abbrev pub Becomes :
    Option (ℕ → NatsEnvelope → Result NatsEnvelope) → NatsEnvelope → NatsEnvelope → Type 0
Becomes none e e' = e ≡ e'
Becomes (some f) e e' = (n : ℕ) × (f n e ≡ ok e')

-- An envelope that the sink may be given: what custody made of an envelope that the pre-sink policy
-- allows and the size policy fits, which encryption made of one that the authenticator trusts. A
-- gate that is switched off asks for nothing.
pub record Cleared (trusted : NatsEnvelope → Type 0) (setup : Setup) (sent : NatsEnvelope)
    : Type 0 where
  pub mapped : NatsEnvelope
  pub sealed : NatsEnvelope
  pub is_trusted : (setup.authenticate ≡ none) ⊎ trusted mapped
  pub encrypted : Becomes setup.encrypt mapped sealed
  pub is_small :
      (setup.size_policy.enabled ≡ false)
      ⊎ Fits setup.fields_size setup.metadata_size setup.size_policy sealed
  pub is_allowed :
      (setup.pre_sink_policy.enabled ≡ false)
      ⊎ Allowed setup.is_encrypted setup.pre_sink_policy sealed
  pub attached : Becomes setup.custody sealed sent

-- What an evaluation lets through is good: the whole batch, if nothing is rejected, and what its
-- accepted indexes pick.
pub record LetsThrough {V : Type 0} (Good : NatsEnvelope → Type 0) (evaluation : Evaluation V)
    (batch : List NatsEnvelope) : Type 0 where
  pub whole : has_rejections evaluation ≡ false → All Good batch
  pub picked :
      (accepted : List NatsEnvelope)
      → pick evaluation.accepted_indexes batch ≡ ok accepted
      → All Good accepted

module _ {A : Type 0} (P : A → Type 0) where
  pub All-every : ((a : A) → P a) → (as' : List A) → All P as'
  All-every f [] = tt
  All-every f (a ∷ as') = (f a, All-every f as')

  pub All-perm : {xs ys : List A} → Permᴰ xs ys → All P ys → All P xs
  All-perm Permᴰ.nil a = a
  All-perm (Permᴰ.cons e p) (h, hs) = (subst P (sym e) h, All-perm p hs)
  All-perm (Permᴰ.swap e f) (g, (h, hs)) = (subst P (sym e) h, (subst P (sym f) g, hs))
  All-perm (Permᴰ.trans p q) a = All-perm p (All-perm q a)

  get_elem?-All : (xs : List A) (i : ℕ) (x : A) → All P xs → get_elem? xs i ≡ some x → P x
  get_elem?-All [] i x h k = cc
  get_elem?-All (y ∷ xs) zero x (h, hs) k = subst P (some_inj k) h
    where
      some_inj : {a b : A} → some a ≡ some b → a ≡ b
      some_inj e = cc
  get_elem?-All (y ∷ xs) (suc i) x (h, hs) k = get_elem?-All xs i x hs k

  pick-All : (indexes : List ℕ) (xs out : List A) → All P xs → pick indexes xs ≡ ok out → All P out
  pick-All [] xs out h k = subst (All P) (pick-nil xs out k) tt
  pick-All (i ∷ indexes) xs out h k =
      let (x, rest, found, picked, same) = pick-inv i indexes xs out k in
      subst (All P) same (get_elem?-All xs i x h found, pick-All indexes xs rest h picked)

  append-All : (xs ys : List A) → All P xs → All P ys → All P (xs ++ ys)
  append-All [] ys h k = k
  append-All (x ∷ xs) ys (h, hs) k = (h, append-All xs ys hs k)

  -- What a step makes of good envelopes is made of good ones.
  pub All-through :
      {B : Type 0} (R : A → B → Type 0) (xs : List A) (ys : List B)
      → All P xs
      → All₂ R xs ys
      → All (λ y. (x : A) × P x × R x y) ys
  All-through R [] [] h r = tt
  All-through R [] (y ∷ ys) h r = absurd r
  All-through R (x ∷ xs) [] h r = absurd r
  All-through R (x ∷ xs) (y ∷ ys) (h, hs) (r, rs) = ((x, h, r), All-through R xs ys hs rs)

module _ {V : Type 0} (Good : NatsEnvelope → Type 0) (evaluation : Evaluation V)
    (batch : List NatsEnvelope) where
  -- A gate that is switched off, or that splits the batch, lets good envelopes through only.
  pub LetsThrough-every : ((e : NatsEnvelope) → Good e) → LetsThrough Good evaluation batch
  LetsThrough-every f = record {
    whole = λ h. All-every Good f batch;
    picked = λ accepted h. All-every Good f accepted;
  }

  pub Splits-LetsThrough : Splits Good evaluation batch → LetsThrough Good evaluation batch
  Splits-LetsThrough s = record {
    whole = λ h. All-perm Good (Permᴰ.symm s.nothing_lost) (
        append-All Good s.accepted s.rejected s.accepted_Good (
          subst (All Good) (rejects_none evaluation.rejected_indexes s.rejected h s.rejected_picked)
            tt));
    picked = λ accepted h. subst (All Good) (ok_inj (sym s.accepted_picked ∙ h)) s.accepted_Good;
  }
    where
      rejects_none :
          (indexes : List ℕ) (rejected : List NatsEnvelope)
          → not (is_empty indexes) ≡ false
          → pick indexes batch ≡ ok rejected
          → [] ≡ rejected
      rejects_none [] rejected h k = pick-nil batch rejected k
      rejects_none (i ∷ indexes) rejected h k = cc

  pub LetsThrough-weaken :
      (Better : NatsEnvelope → Type 0)
      → ((e : NatsEnvelope) → Good e → Better e)
      → LetsThrough Good evaluation batch
      → LetsThrough Better evaluation batch
  LetsThrough-weaken Better f l = record {
    whole = λ h. All-weaken Good Better batch f (l.whole h);
    picked = λ accepted h. All-weaken Good Better accepted f (l.picked accepted h);
  }

  -- The batch keeps what it had before the gate.
  pub LetsThrough-both :
      (P : NatsEnvelope → Type 0)
      → All P batch
      → LetsThrough Good evaluation batch
      → LetsThrough (λ e. P e × Good e) evaluation batch
  LetsThrough-both P h l = record {
    whole = λ q. both batch h (l.whole q);
    picked = λ accepted q.
        both accepted (pick-All P evaluation.accepted_indexes batch accepted h q)
          (l.picked accepted q);
  }
    where
      both : (es : List NatsEnvelope) → All P es → All Good es → All (λ e. P e × Good e) es
      both [] h g = tt
      both (e ∷ es) (h, hs) (g, gs) = ((h, g), both es hs gs)

module _ (trusted : NatsEnvelope → Type 0) (setup : Setup) where
  -- The envelopes before the size gate, before the policy gate, and before custody.
  abbrev pub BeforeSize : NatsEnvelope → Type 0
  BeforeSize e =
      (mapped : NatsEnvelope) × ((setup.authenticate ≡ none) ⊎ trusted mapped)
      × Becomes setup.encrypt mapped e

  abbrev pub Small : NatsEnvelope → Type 0
  Small e =
      (setup.size_policy.enabled ≡ false)
      ⊎ Fits setup.fields_size setup.metadata_size setup.size_policy e

  abbrev pub Permitted : NatsEnvelope → Type 0
  Permitted e =
      (setup.pre_sink_policy.enabled ≡ false) ⊎ Allowed setup.is_encrypted setup.pre_sink_policy e

  pub size_policy-LetsThrough :
      (batch : List NatsEnvelope) (out : Evaluation SizePolicyViolation)
      → evaluate_size_policy setup.fields_size setup.metadata_size batch setup.size_policy ≡ ok out
      → LetsThrough Small out batch
  size_policy-LetsThrough batch out k = elim (Bool-cases setup.size_policy.enabled) [
    | inl on ↦
        LetsThrough-weaken _ _ batch Small (λ e (short, fits). inr fits)
          (Splits-LetsThrough _ _ batch (
            evaluate_size_policy-Splits_if_ok setup.fields_size setup.metadata_size batch
              setup.size_policy out on k))
    | inr off ↦ LetsThrough-every Small _ batch (λ e. inl off)
  ]

  pub policy-LetsThrough :
      (batch : List NatsEnvelope) (out : Evaluation PolicyViolation)
      → evaluate_pre_sink_policy setup.is_encrypted batch setup.pre_sink_policy ≡ ok out
      → LetsThrough Permitted out batch
  policy-LetsThrough batch out k = elim (Bool-cases setup.pre_sink_policy.enabled) [
    | inl on ↦
        LetsThrough-weaken _ _ batch Permitted (λ e allowed. inr allowed)
          (Splits-LetsThrough _ _ batch (
            evaluate_pre_sink_policy-Splits_if_ok setup.is_encrypted batch setup.pre_sink_policy out
              on k))
    | inr off ↦ LetsThrough-every Permitted _ batch (λ e. inl off)
  ]

  pub cleared :
      (sealed sent : NatsEnvelope)
      → (BeforeSize sealed × Small sealed) × Permitted sealed
      → Becomes setup.custody sealed sent
      → Cleared trusted setup sent
  cleared sealed sent (((mapped, t, enc), small), allowed) c = record {
    mapped = mapped;
    sealed = sealed;
    is_trusted = t;
    encrypted = enc;
    is_small = small;
    is_allowed = allowed;
    attached = c;
  }

  abbrev pub delivery_terms : Outside → Terms
  delivery_terms outside = record {
    outside = outside;
    derived = Derived setup;
    cleared = Cleared trusted setup;
  }

  abbrev pub Authentic : NatsEnvelope → Type 0
  Authentic e = (setup.authenticate ≡ none) ⊎ trusted e

  -- The authenticator lets trusted envelopes through only.
  abbrev pub IsVouched : Type 0
  IsVouched =
      (evaluate : List NatsEnvelope → Result (Evaluation (Unit {0}))) (batch : List NatsEnvelope)
      (evaluation : Evaluation (Unit {0}))
      → setup.authenticate ≡ some evaluate
      → evaluate batch ≡ ok evaluation
      → LetsThrough trusted evaluation batch

module _ (step : Option (ℕ → NatsEnvelope → Result NatsEnvelope)) where
  pub Becomes-same : step ≡ none → (e : NatsEnvelope) → Becomes step e e
  Becomes-same h e = rw h refl

  pub Becomes-step :
      (f : ℕ → NatsEnvelope → Result NatsEnvelope) (n : ℕ) (e e' : NatsEnvelope)
      → step ≡ some f
      → f n e ≡ ok e'
      → Becomes step e e'
  Becomes-step f n e e' h k = rw h (n, k)

  -- A step through a whole batch.
  pub Becomes-All :
      (P Q : NatsEnvelope → Type 0)
      → ((e e' : NatsEnvelope) → P e → Becomes step e e' → Q e')
      → (f : ℕ → NatsEnvelope → Result NatsEnvelope) (n : ℕ) (envelopes out : List NatsEnvelope)
      → step ≡ some f
      → collect_from f n envelopes ≡ ok out
      → All P envelopes
      → All Q out
  Becomes-All P Q next f n envelopes out h k good =
      All-weaken (λ e'. (e : NatsEnvelope) × P e × Becomes step e e') Q out
        (λ e' (e, g, b). next e e' g b)
        (All-through P (Becomes step) envelopes out good (
          collect_from-All₂ (Becomes step) f (λ m e e' q. Becomes-step f m e e' h q) n envelopes out
            k))
