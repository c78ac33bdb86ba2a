-- ===== src/Gate/Rows.antt =====
-- spark_jobs/quality_gate.py: `apply_quality_gate`, `valid_rows` and `invalid_rows`, row by row. What
-- Spark's casts answer is the record Spark.
use coinwhale_data_pipeline.Prelude.{
  ℤ, ltb_ℤ, pos, ◌-ℤ◌, String, Bool, true, false, not, ◌&&◌, Option, none, some, List, [], ◌∷◌, map,
  keep, ◌=ˢ◌, if◌then◌else◌, is_in,
}
use coinwhale_data_pipeline.Value.{Float}
use coinwhale_data_pipeline.Gate.{Bool3, and3, or3, not3, is_true, and_all, or_all}
use coinwhale_data_pipeline.Gate.Topics.{
  critical_columns_by_topic, non_negative_columns_by_topic, columns_of,
}

-- A cell of a column: NULL, or a value.
pub data Cell : Type 0 where
  null : Cell
  text : String → Cell
  long : ℤ → Cell
  double : Float → Cell

-- Spark's casts: to a double, to a long, from seconds to milliseconds, and to a text (`none` is NULL);
-- and its order of doubles, where a NaN is above every other.
pub record Spark : Type 0 where
  pub as_double : Cell → Option Float
  pub as_long : Cell → Option ℤ
  pub as_ms : Cell → Option ℤ
  pub as_text : Cell → Option String
  pub lt : Float → Float → Bool
  pub zero_double : Float
  -- `to_json` of the row's struct
  pub to_json : (String → Cell) → String

-- The columns of a frame and a row, which has a cell for each of them.
pub record Frame : Type 0 where
  pub columns : List String
  pub rows : List (String → Cell)

pub record Limits : Type 0 where
  pub now_ms : ℤ
  pub late_ms : ℤ
  pub future_ms : ℤ
  -- the argument `schema_version`
  pub schema_version : Option String

-- The columns that the gate attaches.
pub record Gated : Type 0 where
  pub row : String → Cell
  pub raw_value : Option String
  pub schema_version : Option String
  pub event_lag_ms : Option ℤ
  pub parse_status : Option String
  pub parse_error : Option String
  pub dq_is_valid : Bool3

unfoldable pub is_null : Cell → Bool
is_null null = true
is_null _ = false

-- `_existing_columns`
unfoldable pub existing_columns : List String → List String → List String
existing_columns columns names = keep (λ n. is_in n columns) names

unfoldable pub less : (Float → Float → Bool) → Option Float → Option Float → Bool3
less lt none b = none
less lt (some a) none = none
less lt (some a) (some b) = some (lt a b)

unfoldable pub differs3 : Option String → String → Bool3
differs3 none t = none
differs3 (some s) t = some (not (s =ˢ t))

unfoldable pub minus3 : ℤ → Option ℤ → Option ℤ
minus3 a none = none
minus3 a (some b) = some (a -ℤ b)

unfoldable pub above3 : Option ℤ → ℤ → Bool3
above3 none n = none
above3 (some m) n = some (ltb_ℤ n m)

unfoldable pub below3 : Option ℤ → ℤ → Bool3
below3 none n = none
below3 (some m) n = some (ltb_ℤ m n)

unfoldable pub not_null3 : Option ℤ → Bool3
not_null3 none = some false
not_null3 (some n) = some true

unfoldable pub or_default : Option String → String → String
or_default none default = default
or_default (some s) default = s

module _ (sp : Spark) (l : Limits) (topic : String) (columns : List String) where
  unfoldable pub raw_value_of : (String → Cell) → Option String
  raw_value_of row =
      if is_in "_raw_value" columns
      then sp.as_text (row "_raw_value")
      else if is_in "value" columns
      then sp.as_text (row "value")
      else some (sp.to_json row)

  unfoldable pub schema_version_of : (String → Cell) → Option String
  schema_version_of row =
      if is_in "_schema_version" columns
      then sp.as_text (row "_schema_version")
      else elim l.schema_version [
        | some version ↦ some version
        | none ↦ if is_in "schema_version" columns then sp.as_text (row "schema_version") else none
      ]

  unfoldable pub parse_status_of : (String → Cell) → Option String
  unfolding is_null
  parse_status_of row =
      if is_in "_parse_status" columns
      then sp.as_text (row "_parse_status")
      else if is_in "_j" columns && is_null (row "_j")
      then some "parse_error"
      else some "ok"

  is_parse_error : Option String → Bool
  is_parse_error none = false
  is_parse_error (some status) = status =ˢ "parse_error"

  unfoldable pub original_parse_error : (String → Cell) → Option String
  unfolding is_parse_error
  original_parse_error row =
      if is_in "_parse_error" columns
      then sp.as_text (row "_parse_error")
      else if is_parse_error (parse_status_of row)
      then some "malformed_json"
      else none

  unfoldable pub event_ms_of : (String → Cell) → Option ℤ
  event_ms_of row =
      if is_in "event_time_sec" columns
      then sp.as_ms (row "event_time_sec")
      else if is_in "event_time_ms" columns
      then sp.as_long (row "event_time_ms")
      else none

  unfoldable pub event_lag_of : (String → Cell) → Option ℤ
  unfolding minus3
  event_lag_of row = minus3 l.now_ms (event_ms_of row)

  unfoldable pub not_parsed : (String → Cell) → Bool3
  unfolding differs3
  not_parsed row = differs3 (parse_status_of row) "ok"

  unfoldable pub critical_null : (String → Cell) → Bool3
  unfolding is_null
  critical_null row = or_all (
      map (λ n. some (is_null (row n)))
        (existing_columns columns (columns_of topic critical_columns_by_topic)))

  unfoldable pub negative : (String → Cell) → Bool3
  unfolding less
  negative row = or_all (
      map (λ n. less sp.lt (sp.as_double (row n)) (some sp.zero_double))
        (existing_columns columns (columns_of topic non_negative_columns_by_topic)))

  unfoldable pub inverted : (String → Cell) → Bool3
  unfolding less
  inverted row =
      if is_in "bid_price" columns && is_in "ask_price" columns
      then less sp.lt (sp.as_double (row "ask_price")) (sp.as_double (row "bid_price"))
      else some false

  unfoldable pub out_of_time : (String → Cell) → Bool3
  unfolding not_null3 above3 below3
  out_of_time row =
      and3 (not_null3 (event_ms_of row)) (
        or3 (above3 (event_lag_of row) l.late_ms)
          (below3 (event_lag_of row) (pos 0 -ℤ l.future_ms)))

  -- `invalid_reasons`: the conditions with their reasons
  unfoldable pub invalid_reasons : (String → Cell) → List (Bool3 × String)
  unfolding or_default
  invalid_reasons row =
      (not_parsed row, or_default (original_parse_error row) "parse_error")
      ∷ (critical_null row, "null_critical")
      ∷ (negative row, "negative_value")
      ∷ (inverted row, "bid_ask_inverted")
      ∷ (out_of_time row, "event_time_lag")
      ∷ []

  -- The nested `when`: the reason of the first condition that is true.
  unfoldable pub first_reason : Option String → List (Bool3 × String) → Option String
  first_reason original [] = original
  first_reason original ((condition, reason) ∷ rest) =
      let later = first_reason original rest in if is_true condition then some reason else later

  unfoldable pub gate_row : (String → Cell) → Gated
  gate_row row = record {
    row = row;
    raw_value = raw_value_of row;
    schema_version = schema_version_of row;
    event_lag_ms = event_lag_of row;
    parse_status = parse_status_of row;
    parse_error = first_reason (original_parse_error row) (invalid_reasons row);
    dq_is_valid = and_all (map (λ r. not3 r.0) (invalid_reasons row));
  }

unfoldable pub apply_quality_gate : Spark → Limits → String → Frame → List Gated
apply_quality_gate sp l topic df = map (gate_row sp l topic df.columns) df.rows

unfoldable pub valid_rows : List Gated → List Gated
valid_rows df = keep (λ g. is_true g.dq_is_valid) df

unfoldable pub invalid_rows : List Gated → List Gated
invalid_rows df = keep (λ g. is_true (not3 g.dq_is_valid)) df
