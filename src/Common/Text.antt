-- ===== src/Common/Text.antt =====
-- Texts, character by character: the methods of Python's `str` that the source calls and that
-- need no table of letters. What needs one is a parameter (`PythonText`).
use Prim.Native.Nat.{ℕ, ◌+◌}
use Prim.Native.Char.{Char, code}
use Prim.Native.String.{String}
use text.Mathlib.Text.{◌==◌ as str_eq}
use text.Mathlib.TextEquality.{eq_iff}
use mathlib.Core.Path.{◌≡◌, refl, ap}
use mathlib.Core.Bool.{Bool, true, false, ◌&&◌, ◌||◌}
use mathlib.Core.Option.{Option}
use mathlib.Core.List.{List, [], ◌∷◌}
use mathlib.Core.Logic.{inl, inr}
use nats_sinks.Common.Tests.{Bool-cases, ltb, leb, ◌==◌, if◌then◌else◌}

-- A signed integer: `negsuc n` is -(n + 1).
pub data ℤ : Type 0 where
  pos : ℕ → ℤ
  negsuc : ℕ → ℤ

abbrev pub is_negative : ℤ → Bool
is_negative (pos n) = false
is_negative (negsuc n) = true

-- `str.lower`, `str.casefold`, and `int` of a text (`none`: it raises), by the tables of letters and
-- digits of the interpreter.
pub record PythonText : Type 0 where
  pub lower : String → String
  pub casefold : String → String
  pub int : String → Option ℤ

abbrev pub is_blank : String → Bool
is_blank String.[] = true
is_blank (String.◌∷◌ c s) = false

-- `len(text)`
abbrev pub char_count : String → ℕ
char_count String.[] = 0
char_count (String.◌∷◌ c s) = 1 + char_count s

-- `len(text.encode("utf-8"))`
abbrev pub utf8_width : ℕ → ℕ
utf8_width c = if ltb c 0x80 then 1 else if ltb c 0x800 then 2 else if ltb c 0x10000 then 3 else 4

abbrev pub utf8_size : String → ℕ
utf8_size String.[] = 0
utf8_size (String.◌∷◌ c s) = utf8_width (code c) + utf8_size s

-- `any(test(ord(character)) for character in text)`
abbrev pub any_char : (ℕ → Bool) → String → Bool
any_char p String.[] = false
any_char p (String.◌∷◌ c s) = p (code c) || any_char p s

-- `text.split(separator)` for a separator of one character: never the empty list.
abbrev pub add_front : Char → List String → List String
add_front c [] = String.◌∷◌ c String.[] ∷ []
add_front c (t ∷ ts) = String.◌∷◌ c t ∷ ts

abbrev pub split : ℕ → String → List String
split sep String.[] = String.[] ∷ []
split sep (String.◌∷◌ c s) =
    let rest = split sep s in if code c == sep then String.[] ∷ rest else add_front c rest

-- `str.isspace` of one character.
unfoldable pub is_space : ℕ → Bool
is_space c =
    (leb 9 c && leb c 13)
    || (leb 28 c && leb c 32)
    || c == 0x85
    || c == 0xa0
    || c == 0x1680
    || (leb 0x2000 c && leb c 0x200a)
    || c == 0x2028
    || c == 0x2029
    || c == 0x202f
    || c == 0x205f
    || c == 0x3000

-- `text.strip()`
abbrev pub lstrip : String → String
lstrip String.[] = String.[]
lstrip (String.◌∷◌ c s) = let rest = lstrip s in if is_space (code c) then rest else String.◌∷◌ c s

abbrev pub trim_before : Char → String → String
trim_before c String.[] = if is_space (code c) then String.[] else String.◌∷◌ c String.[]
trim_before c s = String.◌∷◌ c s

abbrev pub rstrip : String → String
rstrip String.[] = String.[]
rstrip (String.◌∷◌ c s) = trim_before c (rstrip s)

unfoldable pub strip : String → String
unfolding is_space
strip s = rstrip (lstrip s)

-- `left + right`
abbrev pub append : String → String → String
append String.[] t = t
append (String.◌∷◌ c s) t = String.◌∷◌ c (append s t)

-- `text in texts`
abbrev pub contains_text : List String → String → Bool
contains_text [] t = false
contains_text (s ∷ ss) t = str_eq s t || contains_text ss t

pub str_eq_refl : (s : String) → str_eq s s ≡ true
str_eq_refl s = (eq_iff s s).1 refl

pub str_eq→eq : (s t : String) → str_eq s t ≡ true → s ≡ t
str_eq→eq s t h = (eq_iff s t).0 h

-- Stripping twice is stripping once.
rstrip-trim_before :
    (c : Char) (r : String) → rstrip r ≡ r → rstrip (trim_before c r) ≡ trim_before c r
rstrip-trim_before c String.[] h = elim (Bool-cases (is_space (code c))) [
  | inl e ↦ rw e
  | inr e ↦ rw e (rw e)
]
rstrip-trim_before c (String.◌∷◌ d r) h = ap (trim_before c) h

rstrip_idem : (s : String) → rstrip (rstrip s) ≡ rstrip s
rstrip_idem String.[] = refl
rstrip_idem (String.◌∷◌ c s) = rstrip-trim_before c (rstrip s) (rstrip_idem s)

-- What begins with no blank loses nothing on the left.
lstrip-trim_before :
    (c : Char) (r : String) → is_space (code c) ≡ false → lstrip (trim_before c r) ≡ trim_before c r
lstrip-trim_before c String.[] e = rw e (rw e)
lstrip-trim_before c (String.◌∷◌ d r) e = rw e

lstrip-rstrip-lstrip : (s : String) → lstrip (rstrip (lstrip s)) ≡ rstrip (lstrip s)
lstrip-rstrip-lstrip String.[] = refl
lstrip-rstrip-lstrip (String.◌∷◌ c s) = elim (Bool-cases (is_space (code c))) [
  | inl e ↦ rw e (lstrip-rstrip-lstrip s)
  | inr e ↦ rw e (lstrip-trim_before c (rstrip s) e)
]

pub strip_idem : (s : String) → strip (strip s) ≡ strip s
unfolding strip
strip_idem s = rw lstrip-rstrip-lstrip (rstrip_idem (lstrip s))

-- `left <= right`: texts compare by the code points of their characters.
abbrev pub at_most : String → String → Bool
at_most String.[] t = true
at_most (String.◌∷◌ c s) String.[] = false
at_most (String.◌∷◌ c s) (String.◌∷◌ d t) =
    let rest = at_most s t in
    if ltb (code c) (code d) then true else if code c == code d then rest else false

abbrev pub insert_text : String → List String → List String
insert_text s [] = s ∷ []
insert_text s (t ∷ ts) = let rest = insert_text s ts in if at_most s t then s ∷ t ∷ ts else t ∷ rest

-- `sorted(texts)`
abbrev pub sorted_texts : List String → List String
sorted_texts [] = []
sorted_texts (s ∷ ss) = insert_text s (sorted_texts ss)
