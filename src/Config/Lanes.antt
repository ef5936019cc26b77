-- ===== src/Config/Lanes.antt =====
-- core/config.py: the validators of the priority lanes.
pub mod Accepted
use Prim.Native.Char.{Char, code}
use nats_sinks.Common.{
  ℕ, ◌≤◌, ◌≡◌, refl, ap, sym, subst, ◌∙◌, inl, inr, Bool, true, false, not, ◌&&◌, ◌||◌, List, [],
  ◌∷◌, ◌++◌, map, Option, none, some, String, PythonText, ℤ, pos, negsuc, All, Any, arith, strip,
  ltb, leb, ◌==◌, any_char, char_count, contains_text, str_eq, str_eq→eq, is_blank, Bool-cases,
  if◌then◌else◌,
}
use nats_sinks.Errors.{
  Result, ok, err, unexpected, bind-ok, raise_if, raise_if-ok, ok_inj, ◌>>=◌, ◌>>◌,
}
use nats_sinks.Metadata.{Value, normalise_metadata_value}
use nats_sinks.Priority.{
  Lane, UnknownPriorityAction, PriorityLanesConfig, contains_control_character, priority_lane_name,
}
use nats_sinks.Config.{invalid}

abbrev is_lane_start : ℕ → Bool
is_lane_start c = leb 97 c && leb c 122

-- `[a-z0-9_-]`
abbrev is_lane_char : ℕ → Bool
is_lane_char c = is_lane_start c || (leb 48 c && leb c 57) || c == 95 || c == 45

abbrev all_lane_chars : String → Bool
all_lane_chars String.[] = true
all_lane_chars (String.◌∷◌ c s) = is_lane_char (code c) && all_lane_chars s

-- `PRIORITY_LANE_NAME_RE.fullmatch`
abbrev is_lane_name : String → Bool
is_lane_name String.[] = false
is_lane_name (String.◌∷◌ c s) = is_lane_start (code c) && all_lane_chars s && leb (char_count s) 63

-- The priorities of a lane as they are configured: None, one text, a list, or any other value.
pub data PrioritiesValue : Type 0 where
  no_priorities other_priorities : PrioritiesValue
  one_priority : Value → PrioritiesValue
  many_priorities : List Value → PrioritiesValue

pub record LaneFields : Type 0 where
  pub name : String
  pub priorities : PrioritiesValue
  pub weight : ℤ

pub record LanesFields : Type 0 where
  pub enabled : Bool
  pub default_lane : String
  pub unknown_priority_action : UnknownPriorityAction
  pub max_priority_value_length : ℕ
  pub lanes : List LaneFields

-- `weight: int = Field(ge=1, le=100)`
abbrev pub check_weight : ℤ → Result ℕ
check_weight (negsuc n) = invalid
check_weight (pos n) = if ltb n 1 || ltb 100 n then invalid else ok n

module _ (python : PythonText) where
  unfoldable pub validate_lane_name : String → Result String
  validate_lane_name value =
      let rendered = python.lower (strip value) in
      raise_if (not (is_lane_name rendered)) unexpected >> ok rendered

  -- One round of the loop over the values, with the priorities so far.
  abbrev pub add_priority : List String → Option String → Result (List String)
  add_priority priorities none = invalid
  add_priority priorities (some rendered) =
      raise_if (contains_control_character (python.casefold rendered)) unexpected
      >> ok (
          if contains_text priorities (python.casefold rendered)
          then priorities
          else priorities ++ python.casefold rendered ∷ [])

  unfoldable pub add_priorities : List String → List Value → Result (List String)
  add_priorities priorities [] = ok priorities
  add_priorities priorities (v ∷ vs) = do
    next ← add_priority priorities (normalise_metadata_value v)
    add_priorities next vs

  unfoldable pub normalize_priorities : PrioritiesValue → Result (List String)
  normalize_priorities no_priorities = ok []
  normalize_priorities (one_priority v) = add_priorities [] (v ∷ [])
  normalize_priorities (many_priorities vs) = add_priorities [] vs
  normalize_priorities other_priorities = invalid

  unfoldable pub priority_lane : LaneFields → Result Lane
  priority_lane fields = do
    name ← validate_lane_name fields.name
    priorities ← normalize_priorities fields.priorities
    weight ← check_weight fields.weight
    ok (record { name = name; priorities = priorities; weight = weight })

  unfoldable pub priority_lanes : List LaneFields → Result (List Lane)
  priority_lanes [] = ok []
  priority_lanes (fields ∷ rest) = do
    lane ← priority_lane fields
    lanes ← priority_lanes rest
    ok (lane ∷ lanes)

-- The loop over the priorities of one lane: `assigned` are the keys of `priority_to_lane`.
unfoldable pub assign_priorities : ℕ → List String → List String → Result (List String)
assign_priorities longest assigned [] = ok assigned
assign_priorities longest assigned (priority ∷ priorities) = do
  raise_if (ltb longest (char_count priority)) unexpected
  raise_if (contains_text assigned priority) unexpected
  assign_priorities longest (priority ∷ assigned) priorities

-- The loop over the lanes.
unfoldable pub check_lanes : ℕ → List String → List String → List Lane → Result (List String)
check_lanes longest names assigned [] = ok names
check_lanes longest names assigned (lane ∷ lanes) = do
  raise_if (contains_text names lane.name) unexpected
  next ← assign_priorities longest assigned lane.priorities
  check_lanes longest (lane.name ∷ names) next lanes

unfoldable pub validate_lane_policy : PriorityLanesConfig → Result PriorityLanesConfig
validate_lane_policy config = do
  names ← check_lanes config.max_priority_value_length [] [] config.lanes
  raise_if (not (contains_text names config.default_lane)) unexpected
  ok config

unfoldable pub priority_lanes_config : PythonText → LanesFields → Result PriorityLanesConfig
priority_lanes_config python fields = do
  default_lane ← validate_lane_name python fields.default_lane
  raise_if (ltb fields.max_priority_value_length 1 || ltb 256 fields.max_priority_value_length)
      unexpected
  lanes ← priority_lanes python fields.lanes
  validate_lane_policy (record {
    enabled = fields.enabled;
    default_lane = default_lane;
    unknown_priority_action = fields.unknown_priority_action;
    max_priority_value_length = fields.max_priority_value_length;
    lanes = lanes;
  })
