-- ===== src/Writer/Audit.antt =====
-- spark_jobs/ch_writer.py: `_ledger_key_metadata` and `build_write_audit_event`. What pandas counts
-- and hashes, and the masking of texts by regular expressions, are parameters.
use coinwhale_data_pipeline.Prelude.{
  ℕ, ℤ, String, Option, none, some, List, [], ◌∷◌, length, ◌=ˢ◌, if◌then◌else◌,
}
use coinwhale_data_pipeline.Value.{str, int}
use coinwhale_data_pipeline.Ledger.{Contract, ok, err, build_ledger_key}
use coinwhale_data_pipeline.Writer.{Frame, AuditEvent}
use coinwhale_data_pipeline.Writer.Quality.{evaluate_write_quality}

pub record Libraries : Type 0 where
  pub contract : Contract
  pub null_columns : Frame → List (String × ℕ)
  pub nan_columns : Frame → List (String × ℕ)
  pub checksum : Frame → Option String
  pub sanitize : String → Option String

-- The arguments of `write_to_clickhouse`, but the frame.
pub record Call : Type 0 where
  pub batch_id : ℤ
  pub table_name : String
  pub original_topic : Option String
  pub job_name : Option String
  pub checkpoint_path : Option String

-- An `OverflowError` of the key is not caught there; a batch id is a number here, which has none.
unfoldable pub ledger_key_metadata :
    Contract → String → String → Option String → ℤ → Option String × String
ledger_key_metadata c job table none batch_id = (none, "missing_metadata")
ledger_key_metadata c job table (some path) batch_id =
    if path =ˢ ""
    then (none, "missing_metadata")
    else elim (build_ledger_key c (str job) (str table) (str path) (int batch_id)) [
      | ok key ↦ (some key, "generated")
      | err e ↦ (none, "invalid_metadata")
    ]

-- `a or b`, of texts
unfoldable pub text_or : Option String → String → String
text_or none b = b
text_or (some a) b = if a =ˢ "" then b else a

sanitized : (String → Option String) → Option String → Option String
sanitized sanitize none = none
sanitized sanitize (some s) = sanitize s

no_frame : Frame
no_frame = record { columns = []; rows = [] }

abbrev pub frame_or_none : Option Frame → Frame
unfolding no_frame
frame_or_none none = no_frame
frame_or_none (some f) = f

-- The checksum, and the two counts, of no frame or an empty one.
abbrev pub of_rows {ℓ} : {A : Type ℓ} → Frame → A → A → A
of_rows frame none_there there = elim frame.rows [ [] ↦ none_there | r ∷ rs ↦ there ]

unfoldable pub build_write_audit_event :
    Libraries → Call → Option Frame → String → Option String → AuditEvent
unfolding sanitized
build_write_audit_event lib call pdf status error_type =
    let frame = frame_or_none pdf in
    let checksum = of_rows frame none (lib.checksum frame) in
    let job = text_or call.job_name call.table_name in
    let path = sanitized lib.sanitize call.checkpoint_path in
    let ledger = ledger_key_metadata lib.contract job call.table_name path call.batch_id in
    let quality =
      evaluate_write_quality call.table_name (length frame.rows) checksum
        (of_rows frame [] (lib.null_columns frame)) (of_rows frame [] (lib.nan_columns frame))
        frame.columns in
    record {
      job_name = job;
      batch_id = call.batch_id;
      output_table = call.table_name;
      checkpoint_path = path;
      ledger_key = ledger.0;
      ledger_key_status = ledger.1;
      row_count = length frame.rows;
      checksum = checksum;
      quality_warnings = quality.0;
      critical_columns_checked = quality.1;
      status = status;
      error_type = error_type;
    }
