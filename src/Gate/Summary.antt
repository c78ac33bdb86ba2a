-- ===== src/Gate/Summary.antt =====
-- spark_jobs/quality_gate.py: `build_quality_event` on a gated batch, `_quality_event_value` and
-- `_schema_version_to_int`. Spark's `percentile_approx` is an argument.
use Prim.Native.Char.{Char, code}
use Prim.Native.String as Native
use coinwhale_data_pipeline.Prelude.{
  ℕ, ◌-◌, ℤ, pos, negsuc, String, Bool, false, Option, none, some, List, [], ◌∷◌, ◌=ˢ◌,
  if◌then◌else◌, length, keep, map, parse_int, between,
}
use coinwhale_data_pipeline.Gate.Rows.{Gated, Spark, invalid_rows}

pub record QualityEvent : Type 0 where
  pub pipeline : String
  pub stage : String
  pub topic : String
  pub symbol : String
  pub checkpoint : String
  pub batch_id : ℤ
  pub schema_version : ℤ
  pub input_rows : ℕ
  pub parsed_rows : ℕ
  pub dropped_rows : ℕ
  pub null_critical_count : ℕ
  pub parse_error_count : ℕ
  pub event_lag_p95_ms : ℤ
  pub event_lag_p99_ms : ℤ
  pub write_rows : ℕ
  pub error_type : String
  pub sample_payload : String

-- `str.isdigit` of a character, on ASCII
is_digit : Char → Bool
unfolding between
is_digit c = between 48 57 (code c)

digits_of : String → String
unfolding is_digit
digits_of Native.[] = Native.[]
digits_of (Native.◌∷◌ c s) =
    let rest = digits_of s in if is_digit c then Native.◌∷◌ c rest else rest

or_one : Option ℤ → ℤ
or_one none = pos 1
or_one (some n) = n

-- NULL and the empty text are version 1; otherwise the number, or its digits.
unfoldable pub schema_version_to_int : Option String → ℤ
unfolding digits_of or_one
schema_version_to_int none = pos 1
schema_version_to_int (some value) = if value =ˢ "" then pos 1 else elim (parse_int value) [
  | some n ↦ n
  | none ↦ if digits_of value =ˢ "" then pos 1 else or_one (parse_int (digits_of value))
]

-- `_quality_event_value` of the two lags
unfoldable pub lag_value : ℤ → ℤ
lag_value (pos n) = pos n
lag_value (negsuc n) = pos 0

-- `first(…, ignorenulls=True)`
unfoldable pub first_value : List (Option String) → Option String
first_value [] = none
first_value (some s ∷ rest) = some s
first_value (none ∷ rest) = first_value rest

unfoldable pub is_text : String → Option String → Bool
is_text t none = false
is_text t (some s) = s =ˢ t

or_empty : Option String → String
or_empty none = ""
or_empty (some s) = s

-- `percentile_approx` over the lags that are not NULL, or NULL
pub record Percentiles : Type 0 where
  pub p95 : List (Option ℤ) → Option ℤ
  pub p99 : List (Option ℤ) → Option ℤ

or_zero : Option ℤ → ℤ
or_zero none = pos 0
or_zero (some n) = n

sample_of : List Gated → Option Gated
sample_of [] = none
sample_of (g ∷ gs) = some g

error_of : Option Gated → String
unfolding or_empty
error_of none = ""
error_of (some g) = or_empty g.parse_error

payload_of : Option Gated → String
unfolding or_empty
payload_of none = ""
payload_of (some g) = or_empty g.raw_value

-- What a batch is called, and how many rows were written, if that is known.
pub record Batch : Type 0 where
  pub pipeline : String
  pub stage : String
  pub topic : String
  pub checkpoint : String
  pub batch_id : ℤ
  pub write_rows : Option ℕ
  pub output_count : Option ℕ

rows_written : Option ℕ → Option ℕ → ℕ
rows_written (some n) output = n
rows_written none (some n) = n
rows_written none none = 0

-- `has_symbol` is whether the batch has a column `symbol`.
unfoldable pub build_quality_event : Spark → Percentiles → Bool → Batch → List Gated → QualityEvent
unfolding is_text or_zero sample_of error_of payload_of rows_written or_empty
build_quality_event sp q has_symbol b df =
    let parse_errors = length (keep (λ g. is_text "parse_error" g.parse_status) df) in
    record {
      pipeline = b.pipeline;
      stage = b.stage;
      topic = b.topic;
      symbol =
          or_empty
            (if has_symbol then first_value (map (λ g. sp.as_text (g.row "symbol")) df) else none);
      checkpoint = b.checkpoint;
      batch_id = b.batch_id;
      schema_version = schema_version_to_int (first_value (map (λ g. g.schema_version) df));
      input_rows = length df;
      parsed_rows = length df - parse_errors;
      dropped_rows = length (invalid_rows df);
      null_critical_count = length (keep (λ g. is_text "null_critical" g.parse_error) df);
      parse_error_count = parse_errors;
      event_lag_p95_ms = or_zero (q.p95 (map (λ g. g.event_lag_ms) df));
      event_lag_p99_ms = or_zero (q.p99 (map (λ g. g.event_lag_ms) df));
      write_rows = rows_written b.write_rows b.output_count;
      error_type = error_of (sample_of (invalid_rows df));
      sample_payload = payload_of (sample_of (invalid_rows df));
    }
