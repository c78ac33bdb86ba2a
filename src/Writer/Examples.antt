-- ===== src/Writer/Examples.antt =====
-- Runs of the writer's theorems on a price batch, with a connection that is refused.
use coinwhale_data_pipeline.Prelude.{
  ◌+◌, ◌≡◌, refl, inl, inr, pos, true, false, not, ◌&&◌, ◌||◌, none, some, List, [], ◌∷◌, any, leb,
  ◌=ˢ◌, arith,
}
use coinwhale_data_pipeline.Value.{str, end, field}
use coinwhale_data_pipeline.Writer.{
  Frame, DlqFile, Writer, get_client, renew_client, classify_ch_error, is_spark_operational_error,
}
use coinwhale_data_pipeline.Writer.Audit.{Call}
use coinwhale_data_pipeline.Writer.Cleanup.{
  unlinked, KeepsNewest, cleanup_old_dlq_files, cleanup_keeps_the_newest,
}
use coinwhale_data_pipeline.Writer.Write.{
  all_saved, WriteEnv, after, handle_failure, write_to_clickhouse, attempt, write_frame, write_rows,
  with_client, insert_frame, log_write_audit_event,
}
use coinwhale_data_pipeline.Writer.Trail.{Audited, write_audits}
use coinwhale_data_pipeline.Writer.Decisions.{failed_consecutively}
use coinwhale_data_pipeline.Writer.Kept.{
  Safe, is_returned, returned_batch_is_kept, saved_failure_returns_iff,
}
use coinwhale_data_pipeline.Fixtures.Store.{settings, libraries, new_writer, connecting, refusing}

abbrev call : Call
call = record {
  batch_id = pos 7;
  table_name = "stream.price";
  original_topic = none;
  job_name = some "price";
  checkpoint_path = some "/chk/a";
}

abbrev frame : Frame
frame = record { columns = "symbol" ∷ "ts" ∷ []; rows = field "symbol" (str "BTCUSDT") end ∷ [] }

abbrev writing : WriteEnv
writing = record {
  to_pandas = inl frame;
  restore_error = none;
  client = connecting;
  insert_error = none;
  save = all_saved;
  time = 5000;
  lists_files = true;
  unlink = λ f. unlinked;
}

abbrev failing : WriteEnv
failing = record writing { client = refusing }

abbrev reading : WriteEnv
reading = record writing { to_pandas = inr "out of memory" }

write_audits_example :
    Audited call frame new_writer
      (after (write_to_clickhouse settings libraries failing call new_writer))
write_audits_example = write_audits settings libraries failing call frame new_writer refl

returned_batch_is_kept_example :
    Safe settings writing call frame new_writer
      (write_to_clickhouse settings libraries writing call new_writer)
unfolding write_to_clickhouse attempt write_frame write_rows with_client get_client renew_client
    insert_frame log_write_audit_event
returned_batch_is_kept_example =
    returned_batch_is_kept settings libraries writing call frame new_writer refl refl

saved_failure_returns_iff_example :
    is_returned
      (handle_failure settings libraries failing call (some frame) "connection refused" new_writer)
    ≡ not (
        is_spark_operational_error (classify_ch_error "connection refused")
        || false
        || (true
            && leb 3 (failed_consecutively new_writer "stream.price" + 1)
            && (any (λ t. t =ˢ "*") ("*" ∷ [])
                || any (λ t. t =ˢ classify_ch_error "connection refused") ("*" ∷ []))))
saved_failure_returns_iff_example =
    saved_failure_returns_iff settings libraries failing call (some frame) "connection refused"
      new_writer refl

abbrev failed_once : Writer
failed_once = after (write_to_clickhouse settings libraries reading call new_writer)

abbrev failed_twice : Writer
failed_twice = after (write_to_clickhouse settings libraries reading call failed_once)

abbrev file : DlqFile
file = record {
  target_table = "stream.price";
  batch_id = pos 7;
  original_topic = "unknown";
  error_type = "ch_timeout";
  modified = 4000;
  data_rows = none;
}

abbrev files : List DlqFile
files = record file { modified = 4500 } ∷ file ∷ record file { modified = 4700 } ∷ []

cleanup_keeps_the_newest_example :
    KeepsNewest settings.dlq_max_files files
      (cleanup_old_dlq_files settings (λ f. unlinked) 5000 files).0
cleanup_keeps_the_newest_example =
    cleanup_keeps_the_newest settings (λ f. unlinked) 5000 files refl (omega arith)
      (omega arith, (omega arith, (omega arith, tt))) (λ f. refl)
