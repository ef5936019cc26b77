-- ===== src/Metadata/Laws.antt =====
-- Proofs about core/message_metadata.py: labels and their storage text.
use nats_sinks.Common.{
  ◌≡◌, refl, ap, sym, ◌∙◌, true, false, List, [], ◌∷◌, ◌++◌, none, some, String, eq_iff, All,
  is_empty, contains_text, any_char, append, split, strip, strip_idem, arith, Option-cases, ◌==◌,
  if◌then◌else◌, Bool-cases, inl, inr,
}
use mathlib.Core.List.{append-nil, append_assoc}
use nats_sinks.Metadata.{
  Value, absent, unprintable, shows, LabelsValue, joined, normalise_metadata_value, add_label,
  add_labels, normalise_labels_value, value_of, shows_all, raw_items, join_labels,
  labels_to_storage_string,
}

-- A label that the normaliser leaves as it is: stripped, and not blank.
abbrev pub IsNormal : String → Type 0
IsNormal l = normalise_metadata_value (shows l) ≡ some l

-- No label of `ls` stands twice, and all are normal.
abbrev pub IsClean : List String → Type 0
IsClean [] = Unit
IsClean (l ∷ ls) = IsNormal l × (contains_text ls l ≡ false) × IsClean ls

normalise-IsNormal : (v : Value) (r : String) → normalise_metadata_value v ≡ some r → IsNormal r
unfolding normalise_metadata_value
normalise-IsNormal absent r h = cc
normalise-IsNormal unprintable r h = cc
normalise-IsNormal (shows s) r h =
    let stripped : strip s ≡ r = ground arith in
    rw (← stripped) (rw strip_idem (h ∙ ap some (sym stripped)))

contains_text-append :
    (ls ms : List String) (t : String)
    → contains_text (ls ++ ms) t ≡ (if contains_text ls t then true else contains_text ms t)
contains_text-append [] ms t = refl
contains_text-append (l ∷ ls) ms t = ground (arith, contains_text-append ls ms t)

IsClean-append :
    (ls : List String) (r : String)
    → IsClean ls
    → IsNormal r
    → contains_text ls r ≡ false
    → IsClean (ls ++ r ∷ [])
IsClean-append [] r h n fresh = (n, refl, tt)
IsClean-append (l ∷ ls) r h n fresh = (
  h.0,
  ground (arith, contains_text-append ls (r ∷ []) l, eq_iff l r, eq_iff r l),
  IsClean-append ls r h.2 n (ground arith),
)

add_label-IsClean :
    (ls : List String) (v : Value)
    → IsClean ls
    → IsClean (add_label ls (normalise_metadata_value v))
unfolding add_label
add_label-IsClean ls v h = elim (Option-cases (normalise_metadata_value v)) [
  | inl e ↦ rw e h
  | inr (r, e) ↦ elim (Bool-cases (contains_text ls r)) [
    | inl seen ↦ rw (e, seen) h
    | inr fresh ↦ rw (e, fresh) (IsClean-append ls r h (normalise-IsNormal v r e) fresh)
  ]
]

add_labels-IsClean : (ls : List String) (vs : List Value) → IsClean ls → IsClean (add_labels ls vs)
unfolding add_labels
add_labels-IsClean ls [] h = h
add_labels-IsClean ls (v ∷ vs) h =
    add_labels-IsClean (add_label ls (normalise_metadata_value v)) vs (add_label-IsClean ls v h)

-- Whatever the object, the labels are stripped, not blank, and pairwise different.
pub normalise_labels_value-IsClean : (value : LabelsValue) → IsClean (normalise_labels_value value)
unfolding normalise_labels_value
normalise_labels_value-IsClean value = add_labels-IsClean [] (raw_items value) tt

-- A new label stays new for those behind it.
fresh_behind :
    (seen : List String) (l : String) (ls : List String)
    → contains_text ls l ≡ false
    → All (λ m. contains_text seen m ≡ false) ls
    → All (λ m. contains_text (seen ++ l ∷ []) m ≡ false) ls
fresh_behind seen l [] once fresh = tt
fresh_behind seen l (m ∷ ls) once fresh = (
  ground (arith, contains_text-append seen (l ∷ []) m, eq_iff l m, eq_iff m l, fresh.0),
  fresh_behind seen l ls (ground arith) fresh.1,
)

-- Clean labels are kept as they are.
add_labels-shows_all :
    (seen ls : List String)
    → IsClean ls
    → All (λ l. contains_text seen l ≡ false) ls
    → add_labels seen (shows_all ls) ≡ seen ++ ls
unfolding add_labels add_label
add_labels-shows_all seen [] h fresh = sym (append-nil seen)
add_labels-shows_all seen (l ∷ ls) h fresh =
    ap (λ o. add_labels (add_label seen o) (shows_all ls)) h.0
    ∙ ap (λ b. add_labels (if b then seen else seen ++ l ∷ []) (shows_all ls)) fresh.0
    ∙ add_labels-shows_all (seen ++ l ∷ []) ls h.2 (fresh_behind seen l ls h.1 fresh.1)
    ∙ append_assoc seen (l ∷ []) ls

abbrev pub LacksSeparator : String → Type 0
LacksSeparator l = any_char (λ c. c == b';') l ≡ false

split-lone : (l : String) → LacksSeparator l → split b';' l ≡ l ∷ []
split-lone String.[] h = refl
split-lone (String.◌∷◌ c l) h = ground (arith, split-lone l)

split-append :
    (l t : String) → LacksSeparator l → split b';' (append l (String.◌∷◌ ";" t)) ≡ l ∷ split b';' t
split-append String.[] t h = refl
split-append (String.◌∷◌ c l) t h = ground (arith, split-append l t)

split-join_labels :
    (l : String) (ls : List String)
    → All LacksSeparator (l ∷ ls)
    → split b';' (join_labels (l ∷ ls)) ≡ l ∷ ls
unfolding join_labels
split-join_labels l [] h = split-lone l h.0
split-join_labels l (m ∷ ls) h =
    split-append l (join_labels (m ∷ ls)) h.0 ∙ ap (λ rest. l ∷ rest) (split-join_labels m ls h.1)

none_seen : (ls : List String) → All (λ l. contains_text [] l ≡ false) ls
none_seen [] = tt
none_seen (l ∷ ls) = (refl, none_seen ls)

reads_back :
    (ls : List String) (stored : String)
    → IsClean ls
    → All LacksSeparator ls
    → (if is_empty ls then none else some (join_labels ls)) ≡ some stored
    → normalise_labels_value (joined stored) ≡ ls
unfolding normalise_labels_value
reads_back [] stored clean lacks h = cc
reads_back (l ∷ ls) stored clean lacks h =
    let e : join_labels (l ∷ ls) ≡ stored = ground arith in
    ap (λ t. add_labels [] (shows_all (split b';' t))) (sym e)
    ∙ ap (λ ts. add_labels [] (shows_all ts)) (split-join_labels l ls lacks)
    ∙ add_labels-shows_all [] (l ∷ ls) clean (none_seen (l ∷ ls))

-- Labels of which none holds a `;`, and which have a storage text, are read back from it as they
-- were.
pub normalise-labels_to_storage_string :
    (value : LabelsValue) (stored : String)
    → All LacksSeparator (normalise_labels_value value)
    → labels_to_storage_string value ≡ some stored
    → normalise_labels_value (joined stored) ≡ normalise_labels_value value
unfolding labels_to_storage_string
normalise-labels_to_storage_string value stored lacks h =
    reads_back (normalise_labels_value value) stored (normalise_labels_value-IsClean value) lacks h

-- A normalised value is normal.
pub normalise_metadata_value_idem :
    (v : Value)
    → normalise_metadata_value (value_of (normalise_metadata_value v)) ≡ normalise_metadata_value v
normalise_metadata_value_idem v = elim (Option-cases (normalise_metadata_value v)) [
  | inl e ↦ rw e (unfold normalise_metadata_value in refl)
  | inr (r, e) ↦ rw e (normalise-IsNormal v r e)
]
