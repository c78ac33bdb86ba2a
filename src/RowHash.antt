-- ===== src/RowHash.antt =====
-- spark_jobs/row_hash_policy.py: the tables of the policy, the canonical text of a value and
-- `build_row_hash`. Texts of values, the parsing of dates and decimals, and SHA-256 over the serialized
-- columns are fields of Outside.
pub mod Tables
pub mod Numbers
pub mod Equal
pub mod Rounding
mod Examples
use Prim.Native.String.{len}
use coinwhale_data_pipeline.Prelude.{
  lookup, is_in, ◌||◌, ◌-◌, all, pos, negsuc, ◌-ℤ◌, ℕ, ◌+◌, ◌*◌, ◌/◌, ℤ, String, ◌<>◌, Bool, true,
  false, not, Option, none, some, List, [], ◌∷◌, ◌++◌, keep, ◌=ˢ◌, if◌then◌else◌, strip,
  starts_with, ends_with, split_once, prefix,
}
use coinwhale_data_pipeline.RowHash.Tables.{
  RowHashColumns, table_hash_columns, timestamp_columns, string_columns,
}
use coinwhale_data_pipeline.RowHash.Numbers.{Decimal, not_a_number, number_text}
use coinwhale_data_pipeline.Value.{Float}

-- A date and time: its microseconds on the wall, and its offset from UTC where it has one.
pub record Moment : Type 0 where
  pub wall_us : ℤ
  pub offset_us : Option ℤ

-- A value of a row: `None`, a missing value of pandas, a float, a decimal, a date with its
-- time, a date by its midnight, a text, or anything else by its `str`.
pub data Cell : Type 0 where
  null missing : Cell
  float : Float → Cell
  decimal : Decimal → Cell
  moment : Moment → Cell
  day : ℤ → Cell
  text : String → Cell
  other : String → Cell

abbrev pub Row : Type 0
Row = List (String × Cell)

-- Python's library: `math.isnan`, `str` of a float, of a decimal and of a date, `Decimal` and
-- `datetime.fromisoformat` of a text (`none` is the exception that is caught), the moment in UTC cut
-- to milliseconds and written in ISO format, and the hex digest of the serialized payload.
pub record Outside : Type 0 where
  pub is_nan : Float → Bool
  pub float_text : Float → String
  pub decimal_text : Decimal → String
  pub moment_text : Moment → String
  pub day_text : ℤ → String
  pub decimal_of : String → Option Decimal
  pub from_iso : String → Option Moment
  pub iso_ms : ℤ → String
  pub digest : String → String → List (String × String) → String

pub data Hashed : Type 0 where
  hashed : String → Hashed
  policy_error decimal_error : Hashed

abbrev pub policy_version : String
policy_version = "clickhouse-stream-row-hash-v1"

-- `column in row_dict`
unfoldable pub has_column : String → Row → Bool
has_column column row = elim (lookup column row) [ none ↦ false | some v ↦ true ]

known : String → List (String × RowHashColumns) → Bool
known name [] = false
known name ((table, columns) ∷ rest) = (table =ˢ name) || known name rest

-- `stream.` stands in front of the name of a shadow table's twin.
shadow_name : String → Option String
shadow_name name = elim (split_once 46 name) [
  | none ↦ none
  | some (before, behind) ↦ some ("stream_shadow." <> behind)
]

-- `none` is the `RowHashPolicyError`.
unfoldable pub canonical_table_name : String → Option String
unfolding known shadow_name
canonical_table_name table_name =
    let name = strip table_name in
    if known name table_hash_columns
    then some name
    else if starts_with name "stream."
    then elim (shadow_name name) [
      | none ↦ none
      | some shadow ↦ if known shadow table_hash_columns then some shadow else none
    ]
    else none

-- Microseconds cut to milliseconds, towards the past.
cut_to_ms : ℤ → ℤ
cut_to_ms (pos n) = pos (n / 1000)
cut_to_ms (negsuc n) = negsuc (n / 1000)

-- A moment without an offset is in UTC.
unfoldable pub utc_us : Moment → ℤ
utc_us m = elim m.offset_us [ none ↦ m.wall_us | some offset ↦ m.wall_us -ℤ offset ]

module _ (o : Outside) where
  moment_ms : Moment → String
  unfolding utc_us cut_to_ms
  moment_ms m = o.iso_ms (cut_to_ms (utc_us m))

  -- `str(value)`
  unfoldable pub show : Cell → String
  show null = "None"
  show missing = "<NA>"
  show (float x) = o.float_text x
  show (decimal d) = o.decimal_text d
  show (moment m) = o.moment_text m
  show (day us) = o.day_text us
  show (text s) = s
  show (other s) = s

  decimal_is_nan : Decimal → Bool
  decimal_is_nan not_a_number = true
  decimal_is_nan _ = false

  unfoldable pub is_nullish : Cell → Bool
  unfolding decimal_is_nan
  is_nullish null = true
  is_nullish missing = true
  is_nullish (float x) = o.is_nan x
  is_nullish (decimal d) = decimal_is_nan d
  is_nullish _ = false

  -- A trailing `Z` becomes `+00:00`; the text is kept where it is no date.
  text_timestamp : String → String
  unfolding moment_ms
  text_timestamp s =
      let raw = strip s in
      let parsed =
        o.from_iso (if ends_with raw "Z" then prefix (len raw - 1) raw <> "+00:00" else raw) in
      elim parsed [ none ↦ raw | some m ↦ moment_ms m ]

  unfoldable pub normalize_timestamp : Cell → String
  unfolding text_timestamp
  normalize_timestamp (moment m) = moment_ms m
  normalize_timestamp (day us) = moment_ms (record { wall_us = us; offset_us = none })
  normalize_timestamp (text s) = text_timestamp s
  normalize_timestamp v = show v

  -- `none` is the exception of `quantize`.
  unfoldable pub normalize_decimal : Cell → Option String
  normalize_decimal v = elim (o.decimal_of (show v)) [
    | none ↦ some (show v)
    | some number ↦ number_text number
  ]

  -- `normalize_hash_value`, with the type of the column
  unfoldable pub normalize_hash_value : String → Cell → Option String
  normalize_hash_value column v =
      if is_nullish v
      then some "__NULL__"
      else if is_in column timestamp_columns
      then some (normalize_timestamp v)
      else if is_in column string_columns
      then some (show v)
      else normalize_decimal v

  -- The canonical items of the columns that the row has; a column that is asked for is in it.
  unfoldable pub canonical_items : List String → Row → Option (List (String × String))
  canonical_items [] row = some []
  canonical_items (column ∷ rest) row =
      let later = canonical_items rest row in
      elim (lookup column row) [
        | none ↦ later
        | some v ↦ elim (normalize_hash_value column v) [
          | none ↦ none
          | some value ↦ elim later [ none ↦ none | some items ↦ some ((column, value) ∷ items) ]
        ]
      ]

  hash_items : String → Option (List (String × String)) → Hashed
  hash_items table none = decimal_error
  hash_items table (some items) = hashed (o.digest policy_version table items)

  -- The first required column that is missing ends in the policy's error.
  unfoldable pub hash_columns : String → Option RowHashColumns → Row → Hashed
  unfolding hash_items
  hash_columns table none row = policy_error
  hash_columns table (some columns) row =
      if all (λ c. has_column c row) columns.required
      then hash_items table (canonical_items (columns.required ++ columns.optional) row)
      else policy_error

  -- `build_row_hash`: a digest, the policy's own error, or the exception of a decimal.
  unfoldable pub build_row_hash : String → Row → Hashed
  build_row_hash table_name row = elim (canonical_table_name table_name) [
    | none ↦ policy_error
    | some table ↦ hash_columns table (lookup table table_hash_columns) row
  ]
