-- ===== src/Subjects/Matching.antt =====
-- What `matches_subject` decides, as a relation on tokens.
use nats_sinks.Common.{
  ◌≡◌, refl, ◌≢◌, ◌↔◌, true, List, [], ◌∷◌, String, str_eq, eq_iff, Bool-cases, inl, inr, str_eq→eq,
  is_empty, arith,
}
use nats_sinks.Subjects.{
  text, tokens_of, single_token_wildcard, tail_wildcard, match_tokens, matches_subject,
}

-- `>` stands last and takes one token or more, `*` takes any one token, all else takes itself.
pub data Matches : List String → List String → Type 0 where
  done : Matches [] []
  tail : {p s : String} {ss : List String} → p ≡ tail_wildcard → Matches (p ∷ []) (s ∷ ss)
  star :
      {p s : String} {ps ss : List String}
      → p ≡ single_token_wildcard
      → Matches ps ss
      → Matches (p ∷ ps) (s ∷ ss)
  literal :
      {p s : String} {ps ss : List String}
      → p ≢ tail_wildcard
      → p ≡ s
      → Matches ps ss
      → Matches (p ∷ ps) (s ∷ ss)

match_tokens_sound : (ps ss : List String) → match_tokens ps ss ≡ true → Matches ps ss
unfolding match_tokens
match_tokens_sound [] [] h = done
match_tokens_sound [] (s ∷ ss) h = absurd (grind arith)
match_tokens_sound (p ∷ ps) [] h = absurd (grind arith)
match_tokens_sound (p ∷ ps) (s ∷ ss) h = elim (Bool-cases (str_eq p tail_wildcard)) [
  | inl t ↦ at_tail t ps (ground arith)
  | inr t ↦ elim (Bool-cases (str_eq p single_token_wildcard)) [
    | inl w ↦ star (str_eq→eq p _ w) (match_tokens_sound ps ss (ground arith))
    | inr w ↦
        literal (λ e. ground (arith, eq_iff p tail_wildcard)) (str_eq→eq p s (ground arith))
          (match_tokens_sound ps ss (ground arith))
  ]
]
  where
    at_tail :
        str_eq p tail_wildcard ≡ true
        → (rest : List String) → is_empty rest ≡ true
        → Matches (p ∷ rest) (s ∷ ss)
    at_tail t [] e = tail (str_eq→eq p _ t)
    at_tail t (q ∷ qs) e = cc

match_tokens_complete : {ps ss : List String} → Matches ps ss → match_tokens ps ss ≡ true
unfolding match_tokens
match_tokens_complete done = refl
match_tokens_complete (tail e) = rw e
match_tokens_complete (star e m) = rw e (match_tokens_complete m)
match_tokens_complete (literal {p} {s} {ps} {ss} n e m) =
    ground (arith, eq_iff p tail_wildcard, eq_iff p s, match_tokens_complete m)

-- A pattern matches a subject exactly when its tokens match the subject's: `>` one token or more
-- at the end, `*` any one token, every other token itself.
pub matches_subject_iff :
    (pattern subject : String)
    → (matches_subject (text pattern) (text subject) ≡ true)
      ↔ Matches (tokens_of pattern) (tokens_of subject)
unfolding matches_subject
matches_subject_iff pattern subject = (match_tokens_sound _ _, match_tokens_complete)
