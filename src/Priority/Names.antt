-- ===== src/Priority/Names.antt =====
-- Proofs about core/priority.py: the names of the lane buckets.
use nats_sinks.Common.{
  ◌≡◌, refl, sym, ap, ◌∙◌, inl, inr, true, false, List, [], ◌∷◌, ◌++◌, String, str_eq, eq_iff,
  str_eq_refl, contains_text, All, Any, arith, Bool-cases, if◌then◌else◌,
}
use nats_sinks.Priority.{Lane, Buckets, has_bucket, new_buckets}
use nats_sinks.Priority.Buckets.{keys}

abbrev pub IsDistinct : List String → Type 0
IsDistinct [] = Unit
IsDistinct (n ∷ ns) = (contains_text ns n ≡ false) × IsDistinct ns

-- Every name in the list is the name of a lane.
abbrev pub Covered : List Lane → List String → Type 0
Covered lanes = All (λ n. Any (λ (lane : Lane). lane.name ≡ n) lanes)

pub has_bucket-keys :
    (n : String) (buckets : Buckets) → has_bucket n buckets ≡ contains_text (keys buckets) n
unfolding has_bucket
has_bucket-keys n [] = refl
has_bucket-keys n ((m, b) ∷ buckets) = ground (arith, has_bucket-keys n buckets)

keys-append : (xs : Buckets) (n : String) → keys (xs ++ (n, []) ∷ []) ≡ keys xs ++ n ∷ []
keys-append [] n = refl
keys-append ((m, b) ∷ xs) n = ap (λ ks. m ∷ ks) (keys-append xs n)

contains_text-concat :
    (ns : List String) (n t : String)
    → contains_text (ns ++ n ∷ []) t ≡ (if contains_text ns t then true else str_eq n t)
contains_text-concat [] n t = ground arith
contains_text-concat (m ∷ ns) n t = ground (arith, contains_text-concat ns n t)

IsDistinct-concat :
    (ns : List String) (n : String)
    → IsDistinct ns
    → contains_text ns n ≡ false
    → IsDistinct (ns ++ n ∷ [])
IsDistinct-concat [] n d fresh = (refl, tt)
IsDistinct-concat (m ∷ ns) n d fresh = (
  ground (arith, contains_text-concat ns n m, eq_iff m n, eq_iff n m),
  IsDistinct-concat ns n d.1 (ground arith),
)

pub IsDistinct-new_buckets :
    (buckets : Buckets) (lanes : List Lane)
    → IsDistinct (keys buckets)
    → IsDistinct (keys (new_buckets buckets lanes))
unfolding new_buckets
IsDistinct-new_buckets buckets [] d = d
IsDistinct-new_buckets buckets (lane ∷ lanes) d = elim (Bool-cases (has_bucket lane.name buckets)) [
  | inl there ↦ rw there (IsDistinct-new_buckets buckets lanes d)
  | inr missing ↦ rw missing (
      IsDistinct-new_buckets (buckets ++ (lane.name, []) ∷ []) lanes (
        rw (keys-append buckets lane.name) (
          IsDistinct-concat (keys buckets) lane.name d
            (sym (has_bucket-keys lane.name buckets) ∙ missing))))
]

-- What is a key stays one.
keeps_key :
    (n : String) (buckets : Buckets) (lanes : List Lane)
    → contains_text (keys buckets) n ≡ true
    → contains_text (keys (new_buckets buckets lanes)) n ≡ true
unfolding new_buckets
keeps_key n buckets [] h = h
keeps_key n buckets (lane ∷ lanes) h = elim (Bool-cases (has_bucket lane.name buckets)) [
  | inl there ↦ rw there (keeps_key n buckets lanes h)
  | inr missing ↦ rw missing (
      keeps_key n (buckets ++ (lane.name, []) ∷ []) lanes
        (rw (keys-append buckets lane.name, contains_text-concat) (rw h)))
]

abbrev with_bucket : String → Buckets → Buckets
with_bucket n buckets = if has_bucket n buckets then buckets else buckets ++ (n, []) ∷ []

with_bucket-key :
    (n : String) (buckets : Buckets) → contains_text (keys (with_bucket n buckets)) n ≡ true
with_bucket-key n buckets = elim (Bool-cases (has_bucket n buckets)) [
  | inl there ↦ rw there (sym (has_bucket-keys n buckets) ∙ there)
  | inr missing ↦
      rw missing (rw (keys-append buckets n, contains_text-concat, str_eq_refl) (ground arith))
]

-- Every lane has a bucket.
pub lane_has_key :
    (buckets : Buckets) (lanes : List Lane)
    → All (λ (lane : Lane). contains_text (keys (new_buckets buckets lanes)) lane.name ≡ true) lanes
unfolding new_buckets
lane_has_key buckets [] = tt
lane_has_key buckets (lane ∷ lanes) = (
  keeps_key lane.name (with_bucket lane.name buckets) lanes (with_bucket-key lane.name buckets),
  lane_has_key (with_bucket lane.name buckets) lanes,
)

Covered-concat :
    (lanes : List Lane) (ns : List String) (n : String)
    → Covered lanes ns
    → Any (λ (lane : Lane). lane.name ≡ n) lanes
    → Covered lanes (ns ++ n ∷ [])
Covered-concat lanes [] n c h = (h, tt)
Covered-concat lanes (m ∷ ns) n c h = (c.0, Covered-concat lanes ns n c.1 h)

-- Every bucket is named after a lane.
pub key_has_lane :
    (whole : List Lane) (buckets : Buckets) (lanes : List Lane)
    → Covered whole (keys buckets)
    → All (λ (lane : Lane). Any (λ (l : Lane). l.name ≡ lane.name) whole) lanes
    → Covered whole (keys (new_buckets buckets lanes))
unfolding new_buckets
key_has_lane whole buckets [] c h = c
key_has_lane whole buckets (lane ∷ lanes) c h = elim (Bool-cases (has_bucket lane.name buckets)) [
  | inl there ↦ rw there (key_has_lane whole buckets lanes c h.1)
  | inr missing ↦ rw missing (
      key_has_lane whole (buckets ++ (lane.name, []) ∷ []) lanes
        (rw (keys-append buckets lane.name) (Covered-concat whole (keys buckets) lane.name c h.0))
        h.1)
]

weaken_names :
    (l : Lane) (whole lanes : List Lane)
    → All (λ (lane : Lane). Any (λ (m : Lane). m.name ≡ lane.name) whole) lanes
    → All (λ (lane : Lane). Any (λ (m : Lane). m.name ≡ lane.name) (l ∷ whole)) lanes
weaken_names l whole [] h = tt
weaken_names l whole (lane ∷ lanes) h = (inr h.0, weaken_names l whole lanes h.1)

pub own_names :
    (lanes : List Lane) → All (λ (lane : Lane). Any (λ (m : Lane). m.name ≡ lane.name) lanes) lanes
own_names [] = tt
own_names (lane ∷ lanes) = (inl refl, weaken_names lane lanes lanes (own_names lanes))
