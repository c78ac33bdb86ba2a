-- ===== src/Schema.antt =====
-- common/collector_schema.py: the checks of a topic's contract on a collected event. A contract is read
-- from config/topic_contracts.json; dates in ISO format and Python's floats are parameters.
pub mod Rules
pub mod Events
pub mod Accepted
mod Examples
use coinwhale_data_pipeline.Prelude.{
  ℕ, ◌+◌, ◌*◌, ℤ, pos, negsuc, ◌+ℤ◌, leb_ℤ, ltb_ℤ, String, ◌<>◌, Bool, true, false, not, ◌&&◌, ◌||◌,
  Option, none, some, List, [], ◌∷◌, ◌++◌, any, ◌=ˢ◌, if◌then◌else◌, strip, ends_with, parse_int,
}
use coinwhale_data_pipeline.Value.{
  Float, Value, null, bool, int, float, str, list, dict, Fields, get, is_blank, PyFloats, ToInt,
  whole, not_a_number, infinite,
}

-- A check passes, fails with an error type, or an exception leaves it.
pub data Checked : Type 0 where
  passes : Checked
  fails : String → Checked
  raises : Checked

-- The checks behind one another; the first that does not pass ends them.
infixr 40 ◌then◌
abbrev pub ◌then◌ : Checked → Checked → Checked
passes then next = next
fails error then next = fails error
raises then next = raises

-- A rule of a contract, split at its colons; a rule of another name is skipped.
pub data Rule : Type 0 where
  positive : String → Rule
  bid_lte_ask : String → String → Rule
  non_negative_any : List String → Rule
  other : Rule

pub record TopicContract : Type 0 where
  pub event_time_fields : List String
  pub require_event_time : Bool
  pub required_fields : List (String × String)
  pub required_any : List (List String)
  pub field_types : List (String × String)
  pub optional_fields : List (String × String)
  pub quality_rules : List Rule

-- A text as a date in ISO format: it is none, it has its milliseconds, or `timestamp` raises on it.
pub data Moment : Type 0 where
  no_moment timestamp_raises : Moment
  moment : ℤ → Moment

-- What the checks ask of Python: floats, whether a text is digits with at most one dot, and the date of
-- a text in ISO format.
pub record Dates : Type 0 where
  pub py : PyFloats
  pub zero : Float
  pub is_digits : String → Bool
  pub iso_ms : String → Moment

-- A timestamp in milliseconds, none, or an exception
pub data Time : Type 0 where
  time : ℤ → Time
  no_time : Time
  time_raises : Time

-- Whether a value is like a number, or the `OverflowError` of asking
pub data Like : Type 0 where
  alike : Like
  unlike : Like
  like_raises : Like

thousand : ℤ → ℤ
thousand (pos n) = pos (n * 1000)
thousand (negsuc n) = negsuc (n * 1000 + 999)

-- `ts <= 0` is no timestamp, and seconds become milliseconds
unfoldable pub scaled : ℤ → Time
unfolding thousand
scaled ts =
    if leb_ℤ ts (pos 0)
    then no_time
    else if ltb_ℤ ts (pos 10000000000)
    then time (thousand ts)
    else time ts

module _ (d : Dates) where
  like_float : Option Float → Like → Like
  like_float none failing = failing
  like_float (some x) failing = alike

  unfoldable pub is_number_like : Value → Like
  unfolding like_float
  is_number_like (int n) = like_float (d.py.of_int n) like_raises
  is_number_like (float x) = alike
  is_number_like (str s) = if s =ˢ "" then unlike else like_float (d.py.of_text s) unlike
  is_number_like _ = unlike

  like_int : ToInt → Like
  like_int (whole n) = alike
  like_int not_a_number = unlike
  like_int infinite = like_raises

  like_parsed : Option ℤ → Like
  like_parsed none = unlike
  like_parsed (some n) = alike

  unfoldable pub is_int_like : Value → Like
  unfolding like_int like_parsed
  is_int_like (int n) = alike
  is_int_like (float x) = like_int (d.py.to_int x)
  is_int_like (str s) = like_parsed (parse_int s)
  is_int_like _ = unlike

  int_time : ToInt → Time
  int_time (whole n) = scaled n
  int_time not_a_number = time_raises
  int_time infinite = time_raises

  float_time : Option Float → Time
  unfolding int_time
  float_time none = time_raises
  float_time (some x) = int_time (d.py.to_int x)

  iso_time : Moment → Time
  iso_time no_moment = no_time
  iso_time (moment ms) = scaled ms
  iso_time timestamp_raises = time_raises

  unfoldable pub coerce_timestamp_ms : Value → Time
  unfolding int_time float_time iso_time
  coerce_timestamp_ms (int n) = scaled n
  coerce_timestamp_ms (float x) = int_time (d.py.to_int x)
  coerce_timestamp_ms (str s) =
      let stripped = strip s in
      if stripped =ˢ ""
      then no_time
      else if d.is_digits stripped
      then float_time (d.py.of_text stripped)
      else iso_time (d.iso_ms stripped)
  coerce_timestamp_ms _ = no_time

  -- The first of the keys with a timestamp.
  unfoldable pub first_time : Fields → List String → Time
  first_time payload [] = no_time
  first_time payload (k ∷ ks) =
      let later = first_time payload ks in
      elim (coerce_timestamp_ms (get payload k)) [
        | time ts ↦ time ts
        | no_time ↦ later
        | time_raises ↦ time_raises
      ]

  unfoldable pub default_time_fields : List String
  default_time_fields =
      "E" ∷ "T" ∷ "event_time" ∷ "eventTime" ∷ "trade_time" ∷ "time" ∷ "timestamp" ∷ "ts"
      ∷ "nextFundingTime" ∷ []

  unfoldable pub infer_event_time_ms : TopicContract → Fields → Time
  infer_event_time_ms c payload = elim c.event_time_fields [
    | [] ↦ first_time payload default_time_fields
    | k ∷ ks ↦ first_time payload (k ∷ ks)
  ]

  unfoldable pub validate_optional_timestamps : Fields → List String → Checked
  validate_optional_timestamps payload [] = passes
  validate_optional_timestamps payload (k ∷ ks) =
      let rest = validate_optional_timestamps payload ks in
      if is_blank (get payload k) then rest else elim (coerce_timestamp_ms (get payload k)) [
        | time ts ↦ rest
        | no_time ↦ fails "schema_timestamp_invalid"
        | time_raises ↦ raises
      ]

  of_like : Like → String → Checked
  of_like alike error = passes
  of_like unlike error = fails error
  of_like like_raises error = raises

  of_time : Time → String → Checked
  of_time (time ts) error = passes
  of_time no_time error = fails error
  of_time time_raises error = raises

  -- `_validate_type`, with the error type that its callers put in place of its own
  unfoldable pub validate_type : Fields → String → String → String → Checked
  unfolding of_like of_time
  validate_type payload key expected error =
      if is_blank (get payload key)
      then passes
      else if expected =ˢ "number"
      then of_like (is_number_like (get payload key)) error
      else if expected =ˢ "integer"
      then of_like (is_int_like (get payload key)) error
      else if expected =ˢ "timestamp"
      then of_time (coerce_timestamp_ms (get payload key)) error
      else passes
