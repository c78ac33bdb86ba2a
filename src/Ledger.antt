-- ===== src/Ledger.antt =====
-- spark_jobs/batch_ledger_contract.py. An audit event and a row are dicts; the SHA-256 digest of the
-- encoded key is a parameter.
pub mod Warnings
pub mod Classify
pub mod Rows
pub mod Transitions
mod Examples
use coinwhale_data_pipeline.Prelude.{
  ℤ, pos, String, Bool, true, false, not, ◌||◌, Option, none, some, List, [], ◌∷◌, ◌=ˢ◌,
  if◌then◌else◌, strip, parse_int,
}
use coinwhale_data_pipeline.Value.{
  Float, Value, null, bool, int, float, str, list, dict, Items, nil, cons, Fields, end, field, get,
  has_key, PyFloats, ToInt, whole, not_a_number, infinite, truthy, show, or_else,
}
use Warnings.{warning_types, string_list}

-- What the helpers raise. `int(float("inf"))` is an `OverflowError`, which they do not catch.
pub data LedgerError : Type 0 where
  missing_field invalid_integer unsupported_status : String → LedgerError
  overflow_error : LedgerError

pub data Result {ℓ} (A : Type ℓ) : Type ℓ where
  ok : A → Result A
  err : LedgerError → Result A

-- An exception ends the rest of the statements.
infixl 5 ◌>>=◌ ◌>>◌
abbrev pub ◌>>=◌ {ℓ} : {A B : Type ℓ} → Result A → (A → Result B) → Result B
err raised >>= next = err raised
ok value >>= next = next value

abbrev pub ◌>>◌ : {A B : Type 0} → Result A → Result B → Result B
err raised >> next = err raised
ok value >> next = next

abbrev pub guard : Bool → LedgerError → Result (Unit {0})
guard true e = ok tt
guard false e = err e

unfoldable pub require_non_empty_string : Value → String → Result String
require_non_empty_string (str s) name =
    if strip s =ˢ "" then err (missing_field name) else ok (strip s)
require_non_empty_string _ name = err (missing_field name)

of_parsed : Option ℤ → String → Result ℤ
of_parsed none name = err (invalid_integer name)
of_parsed (some n) name = ok n

of_float : ToInt → String → Result ℤ
of_float (whole n) name = ok n
of_float not_a_number name = err (invalid_integer name)
of_float infinite name = err overflow_error

unfoldable pub require_int : PyFloats → Value → String → Result ℤ
unfolding of_parsed of_float
require_int py (int n) name = ok n
require_int py (float x) name = of_float (py.to_int x) name
require_int py (str s) name = of_parsed (parse_int s) name
require_int py _ name = err (invalid_integer name)

-- The dict that is encoded with sorted keys and hashed.
pub record LedgerKey : Type 0 where
  pub job_name : String
  pub output_table : String
  pub checkpoint_path : String
  pub batch_id : ℤ

-- What the contract takes from outside: Python's floats, and the digest of an encoded key.
pub record Contract : Type 0 where
  pub py : PyFloats
  pub sha256 : LedgerKey → String

unfoldable pub ledger_key_payload : PyFloats → Value → Value → Value → Value → Result LedgerKey
unfolding require_non_empty_string require_int
ledger_key_payload py job table checkpoint batch = do
  job_name ← require_non_empty_string job "job_name"
  output_table ← require_non_empty_string table "output_table"
  checkpoint_path ← require_non_empty_string checkpoint "checkpoint_path"
  batch_id ← require_int py batch "batch_id"
  ok (record {
    job_name = job_name;
    output_table = output_table;
    checkpoint_path = checkpoint_path;
    batch_id = batch_id;
  })

unfoldable pub build_ledger_key : Contract → Value → Value → Value → Value → Result String
unfolding ledger_key_payload
build_ledger_key c job table checkpoint batch = do
  key ← ledger_key_payload c.py job table checkpoint batch
  ok (c.sha256 key)

unfoldable pub is_valid_status : String → Bool
is_valid_status s = s =ˢ "started" || s =ˢ "success" || s =ˢ "failed" || s =ˢ "skipped_empty"

-- `audit_event.get(key, 0)`
unfoldable pub get_or_zero : Fields → String → Value
get_or_zero event key = if has_key event key then get event key else int (pos 0)

-- `a if a is not None else b`
unfoldable pub given : Value → Value → Value
given null b = b
given a b = a

-- `str(value).strip() if value else None`
unfoldable pub strip_path : PyFloats → Value → Value
strip_path py v = if truthy py v then str (strip (show py v)) else null

-- The ledger key with its status; the stripped path may be empty, and is as false as `None` then.
unfoldable pub key_of : Contract → Fields → String → String → Value → ℤ → Result (Value × Value)
key_of c event job_name output_table checkpoint batch_id =
    if truthy c.py checkpoint
    then (do
      key ← build_ledger_key c (str job_name) (str output_table) checkpoint (int batch_id)
      ok (str key, or_else c.py (get event "ledger_key_status") (str "generated")))
    else ok (
      get event "ledger_key",
      or_else c.py (get event "ledger_key_status") (str "missing_metadata"),
    )

-- What is checked and computed before the row is written down.
pub record RowParts : Type 0 where
  pub status : String
  pub job_name : String
  pub output_table : String
  pub checkpoint : Value
  pub batch_id : ℤ
  pub row_count : ℤ
  pub warning_count : ℤ
  pub ledger_key : Value
  pub ledger_key_status : Value
  pub null_count : ℤ
  pub nan_count : ℤ

unfoldable pub row_parts : Contract → Fields → Value → Result RowParts
row_parts c event checkpoint_path = do
  status ← require_non_empty_string (get event "status") "status"
  guard (is_valid_status status) (unsupported_status status)
  job_name ← require_non_empty_string (get event "job_name") "job_name"
  output_table ← require_non_empty_string (get event "output_table") "output_table"
  let checkpoint = strip_path c.py (or_else c.py checkpoint_path (get event "checkpoint_path"))
  batch_id ← require_int c.py (get event "batch_id") "batch_id"
  row_count ← require_int c.py (get_or_zero event "row_count") "row_count"
  warning_count ← require_int c.py (get_or_zero event "warning_count") "warning_count"
  (ledger_key, ledger_key_status) ← key_of c event job_name output_table checkpoint batch_id
  null_count ← require_int c.py (get_or_zero event "null_count") "null_count"
  nan_count ← require_int c.py (get_or_zero event "nan_count") "nan_count"
  ok (record {
    status = status;
    job_name = job_name;
    output_table = output_table;
    checkpoint = checkpoint;
    batch_id = batch_id;
    row_count = row_count;
    warning_count = warning_count;
    ledger_key = ledger_key;
    ledger_key_status = ledger_key_status;
    null_count = null_count;
    nan_count = nan_count;
  })

unfoldable pub row_of : PyFloats → Fields → Value → Value → RowParts → Fields
row_of py event run_id attempt_id r =
    field "ledger_contract_version" (str "spark-batch-ledger-shadow-v1") (
      field "ledger_key" r.ledger_key (
        field "ledger_key_status" r.ledger_key_status (
          field "job_name" (str r.job_name) (
            field "output_table" (str r.output_table) (
              field "checkpoint_path" r.checkpoint (
                field "query_name" (get event "query_name") (
                  field "batch_id" (int r.batch_id) (
                    field "run_id" (given run_id (get event "run_id")) (
                      field "attempt_id" (given attempt_id (get event "attempt_id")) (
                        field "status" (str r.status) (
                          field "row_count" (int r.row_count) (
                            field "checksum" (get event "checksum") (
                              field "null_count" (int r.null_count) (
                                field "nan_count" (int r.nan_count) (
                                  field "warning_count" (int r.warning_count) (
                                    field "quality_warning_types"
                                      (list (warning_types py (get event "quality_warnings")))
                                      (field "critical_columns_checked"
                                        (list
                                          (string_list py (get event "critical_columns_checked")))
                                        (field "threshold_policy_version"
                                          (get event "threshold_policy_version")
                                          (field "duration_ms" (get event "duration_ms") (
                                            field "error_type" (get event "error_type") (
                                              field "error_message_short"
                                                (get event "error_message_short")
                                                (field "observed_at" (get event "occurred_at")
                                                  end))))))))))))))))))))))

-- The three optional arguments are `null` where they are left out.
unfoldable pub audit_event_to_ledger_row : Contract → Fields → Value → Value → Value → Result Fields
audit_event_to_ledger_row c event checkpoint_path run_id attempt_id = do
  parts ← row_parts c event checkpoint_path
  ok (row_of c.py event run_id attempt_id parts)
