-- ===== src/Writer.antt =====
-- spark_jobs/ch_writer.py: the module's state, its cached client, the failure counts of the tables and
-- the rules that decide on an error. ClickHouse, pandas and the file system answer as arguments say;
-- an exception is its text.
pub mod Quality
pub mod Audit
pub mod Cleanup
pub mod Write
pub mod Trail
pub mod Kept
pub mod Decisions
mod Examples
use coinwhale_data_pipeline.Prelude.{
  ℕ, ◌+◌, ℤ, String, Bool, true, false, not, ◌&&◌, ◌||◌, ◌⊎◌, inl, inr, Option, none, some, List,
  [], ◌∷◌, any, ◌=ˢ◌, if◌then◌else◌, ltb, contains, starts_with, lower,
}
use coinwhale_data_pipeline.Value.{Fields}

-- The settings that the module reads from the environment.
pub record Settings : Type 0 where
  pub fail_fast_enabled : Bool
  pub fail_fast_consecutive : ℕ
  pub fail_fast_error_types : List String
  pub raise_after_dlq_enabled : Bool
  pub ping_interval : ℕ
  pub dlq_cleanup_enabled : Bool
  pub dlq_max_age_hours : ℕ
  pub dlq_max_files : ℕ

-- A pandas frame: its columns and its rows.
pub record Frame : Type 0 where
  pub columns : List String
  pub rows : List Fields

pub data Warning : Type 0 where
  missing_critical_column : String → Warning
  critical_nulls high_null_rate high_nan_rate : String → ℕ → Warning
  missing_checksum missing_time_column : Warning

pub record AuditEvent : Type 0 where
  pub job_name : String
  pub batch_id : ℤ
  pub output_table : String
  pub checkpoint_path : Option String
  pub ledger_key : Option String
  pub ledger_key_status : String
  pub row_count : ℕ
  pub checksum : Option String
  pub quality_warnings : List Warning
  pub critical_columns_checked : List String
  pub status : String
  pub error_type : Option String

-- A failed batch on disk: the file with its metadata, and the file of rows beside it, if there is one.
pub record DlqFile : Type 0 where
  pub target_table : String
  pub batch_id : ℤ
  pub original_topic : String
  pub error_type : String
  pub modified : ℕ
  pub data_rows : Option (List Fields)

-- A connection, told apart by a number.
pub data Client : Type 0 where
  connection : ℕ → Client

pub record Writer : Type 0 where
  pub client : Option Client
  pub last_healthcheck : ℕ
  pub failure_counts : List (String × ℕ)
  pub inserted : List (String × List Fields)
  pub audit : List AuditEvent
  pub dlq : List DlqFile
  pub last_cleanup_at : ℕ

-- What a call for a client meets: the time, whether the ping answers, and the new connection or the
-- error of making it.
pub record ClientEnv : Type 0 where
  pub now : ℕ
  pub ping_answers : Bool
  pub connect : Client ⊎ String

-- `_discard_client`; an error of the client's own `close` is dropped
unfoldable pub discard_client : Writer → Writer
discard_client w = record w { client = none; last_healthcheck = 0 }

-- A new client is made; without one the cache is empty and the error goes on.
unfoldable pub renew_client : ClientEnv → Writer → (Client ⊎ String) × Writer
renew_client env w = elim env.connect [
  | inl c ↦ (inl c, record w { client = some c; last_healthcheck = env.now })
  | inr error ↦ (inr error, record w { client = none })
]

unfoldable pub get_client : Settings → ClientEnv → Writer → (Client ⊎ String) × Writer
get_client s env w = elim w.client [
  | none ↦ renew_client env w
  | some c ↦
      if ltb env.now (w.last_healthcheck + s.ping_interval)
      then (inl c, w)
      else if env.ping_answers
      then (inl c, record w { last_healthcheck = env.now })
      else renew_client env w
]

-- `_classify_ch_error`
unfoldable pub checkpoint_markers : List String
checkpoint_markers =
    "hdfsbackedstatestoreprovider" ∷ "state store" ∷ "statestore" ∷ "checkpointfilemanager"
    ∷ "hdfsmetadatalog" ∷ "offsetseqlog" ∷ "/checkpoints/" ∷ ".delta does not exist"
    ∷ ".tmp.crc does not exist" ∷ "error reading delta file" ∷ []

unfoldable pub classify_ch_error : String → String
classify_ch_error exception =
    let error = lower exception in
    if any (λ marker. contains error marker) checkpoint_markers
    then "spark_checkpoint_error"
    else if contains error "sparkcontext" || contains error "sparkexception"
    then "spark_action_error"
    else if contains error "collecttopython"
        && (contains error "org.apache.spark" || contains error "py4j")
    then "spark_action_error"
    else if contains error "connection" || contains error "connect" || contains error "refused"
    then "ch_connection_error"
    else if contains error "timeout" || contains error "timed out"
    then "ch_timeout"
    else if contains error "schema" || contains error "column" || contains error "type"
    then "ch_schema_error"
    else if contains error "duplicate" || contains error "unique"
    then "ch_constraint_error"
    else if contains error "memory" || contains error "out of memory"
    then "ch_memory_error"
    else "ch_unknown_error"

unfoldable pub is_spark_operational_error : String → Bool
is_spark_operational_error error_type = starts_with error_type "spark_"

-- `_failure_counts.get(table_name, 0)`
unfoldable pub count_of : List (String × ℕ) → String → ℕ
count_of [] table = 0
count_of ((t, n) ∷ rest) table = if t =ˢ table then n else count_of rest table

-- `_failure_counts[table_name] = count`
unfoldable pub set_count : String → ℕ → List (String × ℕ) → List (String × ℕ)
set_count table n [] = (table, n) ∷ []
set_count table n ((t, k) ∷ rest) =
    let others = set_count table n rest in if t =ˢ table then (t, n) ∷ rest else (t, k) ∷ others

-- `_failure_counts.pop(table_name, 0)`
unfoldable pub drop_count : String → List (String × ℕ) → List (String × ℕ)
drop_count table [] = []
drop_count table ((t, k) ∷ rest) =
    let others = drop_count table rest in if t =ˢ table then others else (t, k) ∷ others

-- `_record_failure`; the new count is read back by `count_of`
unfoldable pub record_failure : String → Writer → Writer
record_failure table w = record w {
  failure_counts = set_count table (count_of w.failure_counts table + 1) w.failure_counts;
}

unfoldable pub reset_failure_count : String → Writer → Writer
reset_failure_count table w = record w { failure_counts = drop_count table w.failure_counts }

unfoldable pub should_fail_fast : Settings → String → ℕ → Bool
should_fail_fast s error_type consecutive_failures =
    if not s.fail_fast_enabled
    then false
    else if ltb consecutive_failures s.fail_fast_consecutive
    then false
    else any (λ t. t =ˢ "*") s.fail_fast_error_types
      || any (λ t. t =ˢ error_type) s.fail_fast_error_types

unfoldable pub should_raise_after_dlq : Settings → String → Bool
should_raise_after_dlq s error_type =
    if not s.raise_after_dlq_enabled then false else not (is_spark_operational_error error_type)
