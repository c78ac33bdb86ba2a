-- ===== src/Gate/Counted.antt =====
-- spark_jobs/quality_gate.py: the counts of a quality event against the rows of the gated batch.
use coinwhale_data_pipeline.Prelude.{
  ◌+◌, ◌≤◌, ◌≡◌, ◌∙◌, String, Bool, List, [], ◌∷◌, keep, length, arith,
}
use coinwhale_data_pipeline.Gate.Rows.{Spark, Limits, Frame, Gated, apply_quality_gate, valid_rows}
use coinwhale_data_pipeline.Gate.Summary.{Percentiles, Batch, is_text, build_quality_event}
use coinwhale_data_pipeline.Gate.Split.{is_lost, length-gated, gate_loses_unknown_rows}

keep-le : (p : Gated → Bool) (df : List Gated) → length (keep p df) ≤ length df
keep-le p [] = omega arith
keep-le p (g ∷ df) = let later = keep-le p df in ground arith

module _ (sp : Spark) (q : Percentiles) (has_symbol : Bool) (b : Batch) where
  parsed_rows_lem :
      (df : List Gated)
      → (build_quality_event sp q has_symbol b df).parsed_rows
          + (build_quality_event sp q has_symbol b df).parse_error_count
        ≡ (build_quality_event sp q has_symbol b df).input_rows
  unfolding build_quality_event
  parsed_rows_lem df =
      let small = keep-le (λ g. is_text "parse_error" g.parse_status) df in omega arith

  -- The counts of the event of a gated batch: the parsed rows and the parse errors add up to the input
  -- rows, and so do the valid rows, the dropped rows and the lost rows. A lost row has no condition
  -- against it that is true and one that is NULL; it is not valid, not put aside and not counted as
  -- dropped.
  pub quality_event_counts :
      (l : Limits) (topic : String) (frame : Frame)
      → ((build_quality_event sp q has_symbol b (apply_quality_gate sp l topic frame)).parsed_rows
            + (build_quality_event sp q has_symbol b
                (apply_quality_gate sp l topic frame)).parse_error_count
          ≡ (build_quality_event sp q has_symbol b
              (apply_quality_gate sp l topic frame)).input_rows)
        × ((build_quality_event sp q has_symbol b (apply_quality_gate sp l topic frame)).input_rows
            ≡ length (valid_rows (apply_quality_gate sp l topic frame))
              + (build_quality_event sp q has_symbol b
                  (apply_quality_gate sp l topic frame)).dropped_rows
              + length (keep (is_lost sp l topic frame) frame.rows))
  unfolding build_quality_event apply_quality_gate
  quality_event_counts l topic frame = (
    parsed_rows_lem (apply_quality_gate sp l topic frame),
    length-gated sp l topic frame frame.rows ∙ gate_loses_unknown_rows sp l topic frame,
  )
