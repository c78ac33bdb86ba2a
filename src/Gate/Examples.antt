-- ===== src/Gate/Examples.antt =====
-- Runs of the gate's theorems on a rollup of trades, one row of which lacks a count.
use coinwhale_data_pipeline.Prelude.{
  ◌+◌, ◌≡◌, refl, true, false, some, [], ◌∷◌, length, keep, pos, parse_int, strip,
}
use coinwhale_data_pipeline.Gate.Artifacts.{removed, Disk, at_least, cleanup_quality_artifacts}
use coinwhale_data_pipeline.Gate.Swept.{IsBounded, cleanup-IsBounded}
use coinwhale_data_pipeline.Gate.Rows.{apply_quality_gate, valid_rows}
use coinwhale_data_pipeline.Gate.Summary.{QualityEvent, build_quality_event}
use coinwhale_data_pipeline.Gate.Events.{
  Store, StoreEnv, IsRecorded, write_quality_event, write_quality_event-IsRecorded,
}
use coinwhale_data_pipeline.Gate.Split.{is_lost}
use coinwhale_data_pipeline.Gate.Counted.{quality_event_counts}
use coinwhale_data_pipeline.Fixtures.Rollup.{spark, limits, frame, percentiles, batch}

abbrev event : QualityEvent
event =
    build_quality_event spark percentiles true batch
      (apply_quality_gate spark limits "rollup-trade-cvd-1s" frame)

quality_event_counts_example :
    (event.parsed_rows + event.parse_error_count ≡ event.input_rows)
    × (event.input_rows
        ≡ length (valid_rows (apply_quality_gate spark limits "rollup-trade-cvd-1s" frame))
          + event.dropped_rows
          + length (keep (is_lost spark limits "rollup-trade-cvd-1s" frame) frame.rows))
quality_event_counts_example =
    quality_event_counts spark percentiles true batch limits "rollup-trade-cvd-1s" frame

abbrev store : Store
store = record { client = false; last_healthcheck = 0; inserted = []; fallback = [] }

abbrev offline : StoreEnv
offline = record {
  now = 100;
  ping_interval = 60;
  ping_answers = false;
  connects = false;
  inserts = false;
  writes = true;
}

write_quality_event-IsRecorded_example :
    IsRecorded offline event store (write_quality_event offline event store)
write_quality_event-IsRecorded_example = write_quality_event-IsRecorded offline event store

abbrev disk : Disk
disk = record { remove_day = λ day. removed; stat = λ f. some f.modified; unlink = λ f. removed }

-- At the tenth day, with an age of 168 hours.
cleanup-IsBounded_example :
    IsBounded disk 864000
      (at_least 1 (pos 168))
      (at_least 10 (pos 10000))
      (record { name = "1970/01/01"; starts_at = some 0 }
        ∷ record { name = "1970/01/09"; starts_at = some 691200 }
        ∷ [])
      (record { path = "a.jsonl"; modified = 100 }
        ∷ record { path = "b.jsonl"; modified = 860000 }
        ∷ [])
      (cleanup_quality_artifacts
        (record { cleanup_enabled = "1"; max_age_hours = "168"; fallback_max_files = "10000" })
        disk
        864000
        (record { name = "1970/01/01"; starts_at = some 0 }
          ∷ record { name = "1970/01/09"; starts_at = some 691200 }
          ∷ [])
        (record { path = "a.jsonl"; modified = 100 }
          ∷ record { path = "b.jsonl"; modified = 860000 }
          ∷ []))
unfolding parse_int strip
cleanup-IsBounded_example =
    cleanup-IsBounded
      (record { cleanup_enabled = "1"; max_age_hours = "168"; fallback_max_files = "10000" }) disk
      864000
      (record { name = "1970/01/01"; starts_at = some 0 }
        ∷ record { name = "1970/01/09"; starts_at = some 691200 }
        ∷ [])
      (record { path = "a.jsonl"; modified = 100 }
        ∷ record { path = "b.jsonl"; modified = 860000 }
        ∷ [])
      (pos 168) (pos 10000) refl refl refl (λ day. tt) (λ f. tt)
