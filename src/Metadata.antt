-- ===== src/Metadata.antt =====
-- core/message_metadata.py: priority, classification and labels, read from headers or defaults.
pub mod Laws
use nats_sinks.Common.{
  ◌≡◌, Bool, true, false, ◌||◌, List, [], ◌∷◌, ◌++◌, Option, none, some, String, PythonText, str_eq,
  any_char, contains_text, is_blank, is_empty, append, split, strip, leb, ◌==◌, if◌then◌else◌,
}

-- A Python object that is to be rendered as a text: `None`, an object whose `str` raises, or one
-- with its rendering.
pub data Value : Type 0 where
  absent : Value
  unprintable : Value
  shows : String → Value

-- A Python object with labels: `None`, a text, a list, tuple or set, or any other object.
pub data LabelsValue : Type 0 where
  no_value : LabelsValue
  joined : String → LabelsValue
  items : List Value → LabelsValue
  single : Value → LabelsValue

-- A header mapping in its order of iteration.
abbrev pub Headers : Type 0
Headers = List (String × String)

unfoldable pub contains_ascii_control_characters : String → Bool
contains_ascii_control_characters = any_char (λ c. leb c 31 || c == 127)

abbrev pub none_if_blank : String → Option String
none_if_blank s = if is_blank s then none else some s

unfoldable pub normalise_metadata_value : Value → Option String
normalise_metadata_value absent = none
normalise_metadata_value unprintable = none
normalise_metadata_value (shows s) = none_if_blank (strip s)

-- `priority`, `classification` and such as an optional text.
abbrev pub value_of : Option String → Value
value_of none = absent
value_of (some s) = shows s

abbrev pub shows_all : List String → List Value
shows_all [] = []
shows_all (t ∷ ts) = shows t ∷ shows_all ts

abbrev pub raw_items : LabelsValue → List Value
raw_items no_value = []
raw_items (joined s) = shows_all (split b';' s)
raw_items (items vs) = vs
raw_items (single v) = v ∷ []

-- One round of the loop over the items. The set `seen` holds what the list `labels` holds.
add_label : List String → Option String → List String
add_label labels none = labels
add_label labels (some rendered) =
    if contains_text labels rendered then labels else labels ++ rendered ∷ []

add_labels : List String → List Value → List String
add_labels labels [] = labels
add_labels labels (v ∷ vs) = add_labels (add_label labels (normalise_metadata_value v)) vs

unfoldable pub normalise_labels_value : LabelsValue → List String
unfolding add_labels add_label
normalise_labels_value value = add_labels [] (raw_items value)

-- `LABEL_SEPARATOR.join(labels)`
join_labels : List String → String
join_labels [] = String.[]
join_labels (l ∷ []) = l
join_labels (l ∷ ls) = append l (String.◌∷◌ ";" (join_labels ls))

unfoldable pub labels_to_storage_string : LabelsValue → Option String
unfolding join_labels
labels_to_storage_string value =
    let labels = normalise_labels_value value in
    if is_empty labels then none else some (join_labels labels)

module _ (python : PythonText) where
  unfoldable pub case_insensitive_header : Headers → String → Option String
  case_insensitive_header [] name = none
  case_insensitive_header ((key, value) ∷ headers) name =
      if str_eq (python.lower key) (python.lower name)
      then some value
      else case_insensitive_header headers name

  unfoldable pub resolve_metadata_field : Headers → String → Option String → Option String
  resolve_metadata_field headers header_name default =
      elim (case_insensitive_header headers header_name) [
        | some value ↦ normalise_metadata_value (shows value)
        | none ↦ normalise_metadata_value (value_of default)
      ]

  unfoldable pub resolve_metadata_labels : Headers → String → LabelsValue → List String
  resolve_metadata_labels headers header_name default =
      elim (case_insensitive_header headers header_name) [
        | some value ↦ normalise_labels_value (joined value)
        | none ↦ normalise_labels_value default
      ]
