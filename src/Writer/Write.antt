-- ===== src/Writer/Write.antt =====
-- spark_jobs/ch_writer.py: `write_to_clickhouse`, the callback of each micro-batch.
use coinwhale_data_pipeline.Prelude.{
  ℕ, ◌+◌, String, ◌<>◌, Bool, not, ◌||◌, ◌⊎◌, inl, inr, Option, none, some, List, [], ◌∷◌, ◌++◌,
  keep, ◌=ˢ◌, if◌then◌else◌, ltb, split, join, show_ℕ, show_ℤ,
}
use coinwhale_data_pipeline.Value.{Fields}
use coinwhale_data_pipeline.Writer.{
  Settings, Frame, DlqFile, Client, Writer, ClientEnv, discard_client, get_client,
  classify_ch_error, is_spark_operational_error, count_of, record_failure, reset_failure_count,
  should_fail_fast, should_raise_after_dlq,
}
use coinwhale_data_pipeline.Writer.Audit.{Libraries, Call, text_or, build_write_audit_event}
use coinwhale_data_pipeline.Writer.Cleanup.{Unlink, cleanup_old_dlq_files}

-- How far the save of a failed batch gets: all of it, or an exception with no file, or with the
-- metadata and what has reached the file of rows.
pub data Save : Type 0 where
  all_saved nothing_saved : Save
  partly_saved : Option (List Fields) → Save

-- What a call meets: the frame or an error of Spark; an error of the conversion of times; the client;
-- an error of the insert; the save; the second on the clock; whether files can be listed, and
-- removed.
pub record WriteEnv : Type 0 where
  pub to_pandas : Frame ⊎ String
  pub restore_error : Option String
  pub client : ClientEnv
  pub insert_error : Option String
  pub save : Save
  pub time : ℕ
  pub lists_files : Bool
  pub unlink : DlqFile → Unlink

-- A call returns, raises the exception that it caught, or fails on `dlq_persisted`, which has no
-- value when the save raises.
pub data Outcome : Type 0 where
  returned : Writer → Outcome
  reraised : String → Writer → Outcome
  unbound : Writer → Outcome

abbrev pub after : Outcome → Writer
after (returned w) = w
after (reraised e w) = w
after (unbound w) = w

-- What the `try` comes to: it returns, or an exception leaves it with the frame read so far.
pub data Attempt : Type 0 where
  finished : Writer → Attempt
  thrown : Option Frame → String → Writer → Attempt

unfoldable pub log_write_audit_event :
    Libraries → Call → Option Frame → String → Option String → Writer → Writer
log_write_audit_event lib call pdf status error_type w = record w {
  audit = w.audit ++ build_write_audit_event lib call pdf status error_type ∷ [];
}

unfoldable pub insert_frame : Libraries → WriteEnv → Call → Frame → Writer → Attempt
insert_frame lib env call f w = elim env.insert_error [
  | some error ↦ thrown (some f) error w
  | none ↦ finished (
      reset_failure_count call.table_name (
        log_write_audit_event lib call (some f) "success" none
          (record w { inserted = w.inserted ++ (call.table_name, f.rows) ∷ [] })))
]

unfoldable pub with_client :
    Libraries → WriteEnv → Call → Frame → (Client ⊎ String) × Writer → Attempt
with_client lib env call f (inr error, w) = thrown (some f) error w
with_client lib env call f (inl c, w) = insert_frame lib env call f w

unfoldable pub write_rows : Settings → Libraries → WriteEnv → Call → Frame → Writer → Attempt
write_rows s lib env call f w = elim env.restore_error [
  | some error ↦ thrown (some f) error w
  | none ↦
      with_client lib env call f
        (get_client s env.client (log_write_audit_event lib call (some f) "started" none w))
]

unfoldable pub write_frame : Settings → Libraries → WriteEnv → Call → Frame → Writer → Attempt
write_frame s lib env call f w = elim f.rows [
  | [] ↦ finished (log_write_audit_event lib call (some f) "skipped_empty" none w)
  | r ∷ rs ↦ write_rows s lib env call f w
]

-- The body of the `try`.
unfoldable pub attempt : Settings → Libraries → WriteEnv → Call → Writer → Attempt
attempt s lib env call w = elim env.to_pandas [
  | inr error ↦ thrown none error w
  | inl f ↦ write_frame s lib env call f w
]

-- The name of the metadata file.
unfoldable pub file_name : DlqFile → String
file_name f =
    "ch_failure_"
    <> join "_" (split 46 f.target_table)
    <> "_"
    <> show_ℤ f.batch_id
    <> "_"
    <> show_ℕ f.modified

unfoldable pub data_of : String → List DlqFile → Option (List Fields)
data_of name [] = none
data_of name (f ∷ fs) =
    let later = data_of name fs in if file_name f =ˢ name then f.data_rows else later

unfoldable pub rows_of : Option Frame → Option (List Fields)
rows_of none = none
rows_of (some f) = some f.rows

unfoldable pub or_rows : Option (List Fields) → Option (List Fields) → Option (List Fields)
or_rows none there = there
or_rows (some rows) there = some rows

-- The files of a batch are written over those of the same name; without a frame no file of rows is
-- opened, and one that is there stays.
unfoldable pub save_batch :
    WriteEnv → Call → String → Option (List Fields) → List DlqFile → List DlqFile
unfolding data_of or_rows
save_batch env call error_type rows files =
    let file : DlqFile = record {
      target_table = call.table_name;
      batch_id = call.batch_id;
      original_topic = text_or call.original_topic "unknown";
      error_type = error_type;
      modified = env.time;
      data_rows = none;
    } in
    let name = file_name file in
    let kept = or_rows rows (data_of name files) in
    keep (λ f. not (file_name f =ˢ name)) files ++ record file { data_rows = kept } ∷ []

-- The cleanup, at most once an hour; where the files cannot be listed the exception is caught.
unfoldable pub throttled_cleanup : Settings → WriteEnv → Writer → Writer
throttled_cleanup s env w =
    if ltb env.time (w.last_cleanup_at + 3600)
    then w
    else (let due = record w { last_cleanup_at = env.time } in
        if env.lists_files
        then record due { dlq = (cleanup_old_dlq_files s env.unlink env.time w.dlq).0 }
        else due)

-- The end of the handler, with the batch on disk.
unfoldable pub decide : Settings → Call → String → String → Writer → Outcome
decide s call error error_type w =
    if should_raise_after_dlq s error_type
    then reraised error w
    else if should_fail_fast s error_type (count_of w.failure_counts call.table_name)
    then reraised error w
    else returned w

unfoldable pub persist :
    Settings → WriteEnv → Call → Option Frame → String → String → Writer → Outcome
unfolding rows_of
persist s env call pdf error error_type w = elim env.save [
  | all_saved ↦ decide s call error error_type (
      throttled_cleanup s env
        (record w { dlq = save_batch env call error_type (rows_of pdf) w.dlq }))
  | nothing_saved ↦ unbound w
  | partly_saved rows ↦ unbound (record w { dlq = save_batch env call error_type rows w.dlq })
]

-- The failure is counted and audited, and a client that may be broken is dropped.
unfoldable pub note_failure : Libraries → Call → Option Frame → String → Writer → Writer
note_failure lib call pdf error_type w =
    let broken = error_type =ˢ "ch_connection_error" || error_type =ˢ "ch_timeout" in
    let cleared = if broken then discard_client w else w in
    log_write_audit_event lib call pdf "failed" (some error_type)
      (record_failure call.table_name cleared)

-- The body of the `except`.
unfoldable pub handle_failure :
    Settings → Libraries → WriteEnv → Call → Option Frame → String → Writer → Outcome
handle_failure s lib env call pdf error w =
    let error_type = classify_ch_error error in
    let noted = note_failure lib call pdf error_type w in
    if is_spark_operational_error error_type
    then reraised error noted
    else persist s env call pdf error error_type noted

unfoldable pub write_to_clickhouse : Settings → Libraries → WriteEnv → Call → Writer → Outcome
write_to_clickhouse s lib env call w = elim (attempt s lib env call w) [
  | finished w' ↦ returned w'
  | thrown pdf error w' ↦ handle_failure s lib env call pdf error w'
]
