-- ===== src/Subjects/Subset.antt =====
-- Proofs about `subject_pattern_is_subset` of core/subjects.py.
use nats_sinks.Common.{
  ◌≡◌, refl, ◌≢◌, true, List, [], ◌∷◌, String, str_eq, eq_iff, arith, Bool-cases, false, sym, ◌∙◌,
  inl, inr, str_eq→eq,
}
use nats_sinks.Errors.{ok, Result-cases}
use nats_sinks.Subjects.{
  text, tokens_of, single_token_wildcard, tail_wildcard, matches_subject, check_token, check_tokens,
  validate_subject_pattern, subset_tokens, subject_pattern_is_subset,
}
use nats_sinks.Subjects.Matching.{Matches, tail, star, literal, matches_subject_iff}

-- In an accepted pattern `>` has no token behind it.
abbrev TailLast : List String → Type 0
TailLast [] = Unit
TailLast (t ∷ ts) = (t ≡ tail_wildcard → ts ≡ []) × TailLast ts

check_token-tail :
    (t : String) (ts : List String) → check_token t ts ≡ ok tt → t ≡ tail_wildcard → ts ≡ []
unfolding check_token
check_token-tail t [] h e = refl
check_token-tail t (u ∷ us) h e = ground (arith, eq_iff t tail_wildcard)

check_tokens-TailLast : (ts : List String) → check_tokens ts ≡ ok tt → TailLast ts
unfolding check_tokens
check_tokens-TailLast [] h = tt
check_tokens-TailLast (t ∷ ts) h =
    (check_token-tail t ts (ground arith), check_tokens-TailLast ts (ground arith))

-- The validator returns the text that it was given.
validate-same : (t p : String) → validate_subject_pattern (text t) ≡ ok p → t ≡ p
unfolding validate_subject_pattern
validate-same t p h = ground arith

validate-TailLast :
    (t p : String) → validate_subject_pattern (text t) ≡ ok p → TailLast (tokens_of t)
unfolding validate_subject_pattern
validate-TailLast t p h = check_tokens-TailLast (tokens_of t) (ground arith)

star_step :
    (a : String) (as' cs : List String)
    → str_eq a tail_wildcard ≡ false
    → subset_tokens (single_token_wildcard ∷ cs) (a ∷ as') ≡ true
    → (str_eq a single_token_wildcard ≡ true) × (subset_tokens cs as' ≡ true)
unfolding subset_tokens
star_step a as' cs t h = ground arith

literal_step :
    (a c : String) (as' cs : List String)
    → str_eq a tail_wildcard ≡ false
    → str_eq a single_token_wildcard ≡ false
    → c ≢ tail_wildcard
    → subset_tokens (c ∷ cs) (a ∷ as') ≡ true
    → (c ≡ a) × (subset_tokens cs as' ≡ true)
unfolding subset_tokens
literal_step a c as' cs t w n h = ground (arith, eq_iff c tail_wildcard, eq_iff c a)

at_tail :
    {a s : String} {as' ss : List String}
    → a ≡ tail_wildcard
    → TailLast (a ∷ as')
    → Matches (a ∷ as') (s ∷ ss)
at_tail e v = rw (v.0 e) (tail e)

Matches-subset :
    (cs as' : List String)
    → TailLast as'
    → subset_tokens cs as' ≡ true
    → {ss : List String} → Matches cs ss
    → Matches as' ss
unfolding subset_tokens
Matches-subset [] [] v h m = m
Matches-subset [] (a ∷ as') v h m = cc
Matches-subset (c ∷ cs) [] v h m = cc
Matches-subset (c ∷ cs) (a ∷ as') v h (tail e) =
    at_tail (str_eq→eq a _ (ground (arith, eq_iff c tail_wildcard))) v
Matches-subset (c ∷ cs) (a ∷ as') v h (star e m) = elim (Bool-cases (str_eq a tail_wildcard)) [
  | inl t ↦ at_tail (str_eq→eq a _ t) v
  | inr t ↦
      let (w, rest) = star_step a as' cs t (rw e at h) in
      star (str_eq→eq a _ w) (Matches-subset cs as' v.1 rest m)
]
Matches-subset (c ∷ cs) (a ∷ as') v h (literal n e m) = elim (Bool-cases (str_eq a tail_wildcard)) [
  | inl t ↦ at_tail (str_eq→eq a _ t) v
  | inr t ↦ elim (Bool-cases (str_eq a single_token_wildcard)) [
    | inl w ↦
        star (str_eq→eq a _ w)
          (Matches-subset cs as' v.1 (ground (arith, eq_iff c tail_wildcard)) m)
    | inr w ↦
        let (same, rest) = literal_step a c as' cs t w n h in
        literal (λ x. n (same ∙ x)) (sym same ∙ e) (Matches-subset cs as' v.1 rest m)
  ]
]

-- A positive answer is sound: the allowed pattern matches every subject that the candidate does.
pub subject_pattern_is_subset_sound :
    (candidate allowed subject : String)
    → subject_pattern_is_subset (text candidate) (text allowed) ≡ true
    → matches_subject (text candidate) (text subject) ≡ true
    → matches_subject (text allowed) (text subject) ≡ true
unfolding subject_pattern_is_subset
subject_pattern_is_subset_sound candidate allowed subject h m =
    elim (Result-cases (validate_subject_pattern (text candidate))) [
      | inr (e, bad) ↦ absurd (cc)
      | inl (c, good) ↦ elim (Result-cases (validate_subject_pattern (text allowed))) [
        | inr (e, bad) ↦ absurd (cc)
        | inl (a, fine) ↦ (matches_subject_iff allowed subject).1 (
            Matches-subset (tokens_of candidate) (tokens_of allowed)
              (validate-TailLast allowed a fine)
              (rw (validate-same candidate c good, validate-same allowed a fine) (ground arith))
              ((matches_subject_iff candidate subject).0 m))
      ]
    ]
