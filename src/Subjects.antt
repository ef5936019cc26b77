-- ===== src/Subjects.antt =====
-- core/subjects.py: subject patterns with the wildcards `*` and `>`.
-- A loop over `enumerate(tokens)` recurs on the tokens that are left: the loop's index has been
-- reached in both lists, so "the other list is longer than the index" is "its rest is not empty".
pub mod Matching
pub mod Subset
use nats_sinks.Common.{
  Bool, true, false, not, ◌&&◌, ◌||◌, List, [], ◌∷◌, String, str_eq, any, any_char, is_blank,
  is_empty, is_space, length, split, strip, ◌==◌, if◌then◌else◌,
}
use nats_sinks.Errors.{Result, ok, err, configuration_error, ◌>>=◌, ◌>>◌, raise_if}

-- A Python object where a text is wanted: a `str`, or something else.
pub data Argument : Type 0 where
  text : String → Argument
  other : Argument

abbrev pub single_token_wildcard : String
single_token_wildcard = "*"

abbrev pub tail_wildcard : String
tail_wildcard = ">"

abbrev pub tokens_of : String → List String
tokens_of = split b'.'

unfoldable pub match_tokens : List String → List String → Bool
match_tokens [] subject = is_empty subject
match_tokens (p ∷ ps) [] = false
match_tokens (p ∷ ps) (s ∷ ss) =
    if str_eq p tail_wildcard
    then is_empty ps
    else if not (str_eq p single_token_wildcard) && not (str_eq p s)
    then false
    else match_tokens ps ss

unfoldable pub matches_subject : Argument → Argument → Bool
matches_subject (text pattern) (text subject) = match_tokens (tokens_of pattern) (tokens_of subject)
matches_subject _ _ = false

-- One round of the validator's loop: `rest` are the tokens behind `token`.
check_token : String → List String → Result (Unit {0})
check_token token rest = do
  raise_if (str_eq token tail_wildcard && not (is_empty rest)) configuration_error
  raise_if (any_char (λ c. c == b'>') token && not (str_eq token tail_wildcard)) configuration_error
  raise_if (any_char (λ c. c == b'*') token && not (str_eq token single_token_wildcard))
      configuration_error
  raise_if (any_char is_space token) configuration_error

check_tokens : List String → Result (Unit {0})
check_tokens [] = ok tt
check_tokens (token ∷ rest) = do check_token token rest; check_tokens rest

unfoldable pub validate_subject_pattern : Argument → Result String
unfolding check_tokens check_token
validate_subject_pattern (text pattern) = do
  raise_if (is_blank pattern || not (str_eq (strip pattern) pattern)) configuration_error
  raise_if (any is_blank (tokens_of pattern)) configuration_error
  check_tokens (tokens_of pattern)
  ok pattern
validate_subject_pattern other = err configuration_error

subset_tokens : List String → List String → Bool
subset_tokens [] allowed = is_empty allowed
subset_tokens (c ∷ cs) [] = false
subset_tokens (c ∷ cs) (a ∷ as') =
    let rest = subset_tokens cs as' in
    if str_eq a tail_wildcard
    then true
    else if str_eq c tail_wildcard
    then str_eq a tail_wildcard && length (c ∷ cs) == length (a ∷ as')
    else if str_eq a single_token_wildcard
    then rest
    else if str_eq c single_token_wildcard || not (str_eq c a)
    then false
    else rest

unfoldable pub subject_pattern_is_subset : Argument → Argument → Bool
unfolding subset_tokens
subject_pattern_is_subset candidate allowed = elim (validate_subject_pattern candidate) [
  | err e ↦ false
  | ok c ↦ elim (validate_subject_pattern allowed) [
    | err e ↦ false
    | ok a ↦ subset_tokens (tokens_of c) (tokens_of a)
  ]
]
