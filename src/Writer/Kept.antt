-- ===== src/Writer/Kept.antt =====
-- spark_jobs/ch_writer.py: where the rows of a batch are when `write_to_clickhouse` returns, which lets
-- Spark advance its checkpoint.
use coinwhale_data_pipeline.Prelude.{
  ◌+◌, ◌≡◌, refl, sym, ap, subst, ◌∙◌, ◌⊎◌, inl, inr, String, Bool, true, false, not, ◌&&◌, ◌||◌,
  Option, some, List, [], ◌∷◌, ◌++◌, keep, any, ◌=ˢ◌, leb, arith,
}
use coinwhale_data_pipeline.Value.{Fields}
use coinwhale_data_pipeline.Writer.{
  Settings, Frame, DlqFile, Writer, classify_ch_error, is_spark_operational_error, should_fail_fast,
  should_raise_after_dlq,
}
use coinwhale_data_pipeline.Writer.Audit.{Libraries, Call, text_or}
use coinwhale_data_pipeline.Writer.Trail.{Tried, attempt-Tried}
use coinwhale_data_pipeline.Writer.Cleanup.{cleanup_old_dlq_files}
use coinwhale_data_pipeline.Writer.Decisions.{failed_consecutively, note_failure-count}
use coinwhale_data_pipeline.Writer.Write.{
  WriteEnv, all_saved, Outcome, returned, reraised, unbound, after, Attempt, finished, thrown,
  insert_frame, with_client, write_rows, write_frame, attempt, file_name, or_rows, rows_of,
  throttled_cleanup, save_batch, decide, persist, note_failure, handle_failure, write_to_clickhouse,
}

abbrev pub is_returned : Outcome → Bool
is_returned (returned w) = true
is_returned (reraised e w) = false
is_returned (unbound w) = false

-- The files of a failed batch, with its rows, are the last that was written before the cleanup.
pub record Saved (s : Settings) (env : WriteEnv) (call : Call) (rows : List Fields) (w : Writer)
    : Type 0 where
  pub others : List DlqFile
  pub file : DlqFile
  pub target_table : file.target_table ≡ call.table_name
  pub batch_id : file.batch_id ≡ call.batch_id
  pub holds : file.data_rows ≡ some rows
  pub on_disk :
      (w.dlq ≡ others ++ file ∷ [])
      ⊎ (w.dlq ≡ (cleanup_old_dlq_files s env.unlink env.time (others ++ file ∷ [])).0)

-- The file of a save, with its rows.
batch_file : WriteEnv → Call → String → List Fields → DlqFile
batch_file env call type rows = record {
  target_table = call.table_name;
  batch_id = call.batch_id;
  original_topic = text_or call.original_topic "unknown";
  error_type = type;
  modified = env.time;
  data_rows = some rows;
}

cleanup-dlq :
    (s : Settings) (env : WriteEnv) (w : Writer)
    → ((throttled_cleanup s env w).dlq ≡ w.dlq)
      ⊎ ((throttled_cleanup s env w).dlq ≡ (cleanup_old_dlq_files s env.unlink env.time w.dlq).0)
unfolding throttled_cleanup
cleanup-dlq s env w = ground arith

decide-dlq :
    (s : Settings) (call : Call) (error type : String) (w : Writer)
    → (after (decide s call error type w)).dlq ≡ w.dlq
unfolding decide
decide-dlq s call error type w = ground arith

-- The other files that a save leaves.
others_of : WriteEnv → Call → String → List Fields → List DlqFile → List DlqFile
unfolding batch_file
others_of env call type rows files =
    keep (λ f. not (file_name f =ˢ file_name (batch_file env call type rows))) files

saved : Settings → WriteEnv → Call → String → List Fields → Writer → Writer
unfolding batch_file others_of
saved s env call type rows w =
    throttled_cleanup s env
      (record w { dlq = others_of env call type rows w.dlq ++ batch_file env call type rows ∷ [] })

persist_returned :
    (s : Settings) (env : WriteEnv) (call : Call) (f : Frame) (error type : String) (w : Writer)
    → is_returned (persist s env call (some f) error type w) ≡ true
    → persist s env call (some f) error type w
      ≡ decide s call error type (saved s env call type f.rows w)
unfolding persist save_batch or_rows rows_of batch_file others_of saved file_name
persist_returned s env call f error type w done = ground arith

persist-Saved :
    (s : Settings) (env : WriteEnv) (call : Call) (f : Frame) (error type : String) (w : Writer)
    → is_returned (persist s env call (some f) error type w) ≡ true
    → Saved s env call f.rows (after (persist s env call (some f) error type w))
unfolding batch_file saved
persist-Saved s env call f error type w done =
    let through = persist_returned s env call f error type w done in
    let kept = saved s env call type f.rows w in
    let decided = ap (λ o. (after o).dlq) through ∙ decide-dlq s call error type kept in
    let written = record w {
      dlq = others_of env call type f.rows w.dlq ++ batch_file env call type f.rows ∷ [];
    } in
    record {
      others = others_of env call type f.rows w.dlq;
      file = batch_file env call type f.rows;
      target_table = refl;
      batch_id = refl;
      holds = refl;
      on_disk = elim (cleanup-dlq s env written) [
        | inl same ↦ inl (decided ∙ same)
        | inr cleaned ↦ inr (decided ∙ cleaned)
      ];
    }

attempt_frame :
    (s : Settings) (lib : Libraries) (env : WriteEnv) (call : Call) (f : Frame) (w : Writer)
    (pdf : Option Frame) (error : String) (w' : Writer)
    → env.to_pandas ≡ inl f
    → attempt s lib env call w ≡ thrown pdf error w'
    → pdf ≡ some f
unfolding attempt write_frame write_rows with_client insert_frame
attempt_frame s lib env call f w pdf error w' framed threw = ground arith

handle_failure-Saved :
    (s : Settings) (lib : Libraries) (env : WriteEnv) (call : Call) (f : Frame) (error : String)
    (w : Writer)
    → is_returned (handle_failure s lib env call (some f) error w) ≡ true
    → Saved s env call f.rows (after (handle_failure s lib env call (some f) error w))
unfolding handle_failure
handle_failure-Saved s lib env call f error w done =
    let type = classify_ch_error error in
    let noted = note_failure lib call (some f) type w in
    let kept = persist-Saved s env call f error type noted in ground arith

-- Where the rows of a frame are after an outcome.
abbrev pub Safe : Settings → WriteEnv → Call → Frame → Writer → Outcome → Type 0
Safe s env call f w o =
    (f.rows ≡ [])
    ⊎ ((after o).inserted ≡ w.inserted ++ (call.table_name, f.rows) ∷ [])
    ⊎ Saved s env call f.rows (after o)

attempt-Safe :
    (s : Settings) (lib : Libraries) (env : WriteEnv) (call : Call) (f : Frame) (w : Writer)
    (a : Attempt)
    → env.to_pandas ≡ inl f
    → attempt s lib env call w ≡ a
    → (f.rows ≡ []) ⊎ Tried call f w a
    → let o : Outcome = elim a [
      | finished w' ↦ returned w'
      | thrown pdf error w' ↦ handle_failure s lib env call pdf error w'
    ] in
      is_returned o ≡ true → Safe s env call f w o
attempt-Safe s lib env call f w a framed eq (inl empty) done = inl empty
attempt-Safe s lib env call f w (finished w') framed eq (inr tried) done = inr (inl tried.1)
attempt-Safe s lib env call f w (thrown pdf error w') framed eq (inr tried) done =
    let read = attempt_frame s lib env call f w pdf error w' framed eq in
    let Kept = λ (p : Option Frame).
      is_returned (handle_failure s lib env call p error w') ≡ true
      → Saved s env call f.rows (after (handle_failure s lib env call p error w')) in
    inr (inr (subst Kept (sym read) (handle_failure-Saved s lib env call f error w') done))

-- No batch whose frame was read is dropped silently: when `write_to_clickhouse` returns, the frame
-- was empty, or its rows are the newest insert, or they are the newest file of failed batches, as
-- that was when the cleanup began.
pub returned_batch_is_kept :
    (s : Settings) (lib : Libraries) (env : WriteEnv) (call : Call) (f : Frame) (w : Writer)
    → env.to_pandas ≡ inl f
    → is_returned (write_to_clickhouse s lib env call w) ≡ true
    → Safe s env call f w (write_to_clickhouse s lib env call w)
unfolding write_to_clickhouse
returned_batch_is_kept s lib env call f w framed done =
    attempt-Safe s lib env call f w (attempt s lib env call w) framed refl
      (attempt-Tried s lib env call f w framed) done

-- A failure that is saved returns just when it is no error of Spark's, retries are not asked for, and
-- fail-fast is off, or its types do not name the error, or the table's failures, this one included,
-- are below the threshold.
pub saved_failure_returns_iff :
    (s : Settings) (lib : Libraries) (env : WriteEnv) (call : Call) (pdf : Option Frame)
    (error : String) (w : Writer)
    → env.save ≡ all_saved
    → let type = classify_ch_error error in
      is_returned (handle_failure s lib env call pdf error w)
      ≡ not (
          is_spark_operational_error type
          || s.raise_after_dlq_enabled
          || (s.fail_fast_enabled
              && leb s.fail_fast_consecutive (failed_consecutively w call.table_name + 1)
              && (any (λ t. t =ˢ "*") s.fail_fast_error_types
                  || any (λ t. t =ˢ type) s.fail_fast_error_types)))
unfolding handle_failure persist decide throttled_cleanup should_raise_after_dlq should_fail_fast
saved_failure_returns_iff s lib env call pdf error w all =
    let type = classify_ch_error error in
    let counted = note_failure-count lib call pdf type w in ground arith
