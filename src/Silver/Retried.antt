-- ===== src/Silver/Retried.antt =====
-- spark_jobs/silver/oi.py: what a batch leaves behind, and what it finds when Spark runs it again.
use coinwhale_data_pipeline.Prelude.{
  ◌≡◌, refl, ap, ◌∙◌, ◌⊎◌, inl, inr, String, false, none, some, List, [], ◌∷◌, ◌++◌, All, map, ◌=ˢ◌,
  lookup, arith, same_text, flipped,
}
use coinwhale_data_pipeline.Value.{Float}
use coinwhale_data_pipeline.Writer.{
  Settings, Frame, classify_ch_error, Client, Writer, get_client, renew_client,
}
use coinwhale_data_pipeline.Writer.Audit.{Libraries, Call, build_write_audit_event}
use coinwhale_data_pipeline.Writer.Write.{log_write_audit_event}
use coinwhale_data_pipeline.Silver.OpenInterest.{
  Doubles, OiRow, Insight, change_of, calc_change_pct, BatchEnv, Processed, returned, raised,
  frame_of, with_client, insert_rows, insert_failed, process_rows, process_read, process_batch,
}

-- No two rows have the same symbol.
abbrev pub OncePerSymbol : List OiRow → Type 0
OncePerSymbol [] = Unit
OncePerSymbol (row ∷ rest) =
    All (λ (r : OiRow). (row.symbol =ˢ r.symbol) ≡ false) rest × OncePerSymbol rest

module _ (d : Doubles) where
  other_symbol :
      (s : String) (rows : List OiRow) (prev : List (String × Float))
      → All (λ (r : OiRow). (s =ˢ r.symbol) ≡ false) rows
      → lookup s (calc_change_pct d rows prev).1 ≡ lookup s prev
  unfolding calc_change_pct lookup
  other_symbol s [] prev apart = refl
  other_symbol s (row ∷ rest) prev apart =
      let later = other_symbol s rest ((row.symbol, row.open_interest) ∷ prev) apart.1 in
      let differs = flipped s row.symbol apart.0 in later ∙ rw differs refl

  -- The previous values behind a batch are those of its rows.
  kept_values :
      (rows : List OiRow) (prev : List (String × Float))
      → OncePerSymbol rows
      → All
          (λ (r : OiRow). lookup r.symbol (calc_change_pct d rows prev).1 ≡ some r.open_interest)
          rows
  unfolding calc_change_pct lookup
  kept_values [] prev once = tt
  kept_values (row ∷ rest) prev once =
      let next = (row.symbol, row.open_interest) ∷ prev in
      let here = other_symbol row.symbol rest next once.0 in
      (here ∙ rw (same_text row.symbol) refl, kept_values rest next once.1)

  known_later :
      (s : String) (x : Float) (rows : List OiRow) (q : List (String × Float))
      → All (λ (r : OiRow). (s =ˢ r.symbol) ≡ false) rows
      → All (λ (r : OiRow). lookup r.symbol q ≡ some r.open_interest) rows
      → All (λ (r : OiRow). lookup r.symbol ((s, x) ∷ q) ≡ some r.open_interest) rows
  unfolding lookup
  known_later s x [] q apart known = tt
  known_later s x (r ∷ rest) q apart known =
      (rw (apart.0) known.0, known_later s x rest q apart.1 known.1)

  -- The changes of rows whose previous values are their own.
  own_changes :
      (rows : List OiRow) (q : List (String × Float))
      → OncePerSymbol rows
      → All (λ (r : OiRow). lookup r.symbol q ≡ some r.open_interest) rows
      → (calc_change_pct d rows q).0
        ≡ map (λ (r : OiRow). change_of d (some r.open_interest) r.open_interest) rows
  unfolding calc_change_pct
  own_changes [] q once known = refl
  own_changes (row ∷ rest) q once known =
      let later =
        own_changes rest ((row.symbol, row.open_interest) ∷ q) once.1
          (known_later row.symbol row.open_interest rest q once.0 known.1) in
      rw (known.0, later) refl

module _ (d : Doubles) (s : Settings) (lib : Libraries) (call : Call) where
  -- The previous values that a batch leaves.
  abbrev pub insight_of : Processed → Insight
  insight_of (returned i) = i
  insight_of (raised e i) = i

  with_client-prev :
      (env : BatchEnv) (f : Frame) (prev : List (String × Float)) (got : (Client ⊎ String) × Writer)
      → (insight_of (with_client d s lib call env f prev got)).prev_oi ≡ prev
  unfolding with_client insert_rows insert_failed
  with_client-prev env f prev (inl c, w) = ground arith
  with_client-prev env f prev (inr error, w) = refl

  process_rows-prev :
      (env : BatchEnv) (rows : List OiRow) (i : Insight)
      → (insight_of (process_rows d s lib call env rows i)).prev_oi
        ≡ (calc_change_pct d rows i.prev_oi).1
  unfolding process_rows
  process_rows-prev env rows i =
      let calculated = calc_change_pct d rows i.prev_oi in
      let f = frame_of rows calculated.0 in
      with_client-prev env f calculated.1
        (get_client s env.client (log_write_audit_event lib call (some f) "started" none i.writer))

  -- Whether a batch with one row for each symbol returns or an exception leaves it, when its rows run
  -- again behind it, the change of each row is that of its own value against itself, and not against the
  -- value before the batch.
  pub rerun_compares_with_itself :
      (env : BatchEnv) (row : OiRow) (rows : List OiRow) (i : Insight)
      → env.rows ≡ inl (row ∷ rows)
      → OncePerSymbol (row ∷ rows)
      → (calc_change_pct d (row ∷ rows) (insight_of (process_batch d s lib call env i)).prev_oi).0
        ≡ map (λ (r : OiRow). change_of d (some r.open_interest) r.open_interest) (row ∷ rows)
  unfolding process_batch process_read
  rerun_compares_with_itself env row rows i given once =
      let all = row ∷ rows in
      let left =
        ap (λ r. (insight_of (process_read d s lib call env r i)).prev_oi) given
        ∙ process_rows-prev env all i in
      ap (λ q. (calc_change_pct d all q).0) left
      ∙ own_changes d all (calc_change_pct d all i.prev_oi).1 once
          (kept_values d all i.prev_oi once)

  -- Behind a batch with rows, the insert is done or the error goes on.
  abbrev pub IsSettled : Frame → Writer → Processed → Type 0
  IsSettled f w (returned i) =
      (i.writer.inserted ≡ w.inserted ++ (call.table_name, f.rows) ∷ [])
      × (i.writer.audit
          ≡ (w.audit ++ build_write_audit_event lib call (some f) "started" none ∷ [])
            ++ build_write_audit_event lib call (some f) "success" none ∷ [])
  IsSettled f w (raised error i) =
      (i.writer.inserted ≡ w.inserted)
      × (i.writer.audit
          ≡ (w.audit ++ build_write_audit_event lib call (some f) "started" none ∷ [])
            ++ build_write_audit_event lib call (some f) "failed" (some (classify_ch_error error))
              ∷ [])

  -- A batch with rows is inserted once, with the changes beside its rows, and audited as started and as
  -- a success when it returns; when an exception leaves it nothing is inserted, and it is audited as
  -- started and as failed.
  pub process_batch-IsSettled :
      (env : BatchEnv) (row : OiRow) (rows : List OiRow) (i : Insight)
      → env.rows ≡ inl (row ∷ rows)
      → IsSettled
          (frame_of (row ∷ rows) (calc_change_pct d (row ∷ rows) i.prev_oi).0)
          i.writer
          (process_batch d s lib call env i)
  unfolding process_batch process_read process_rows with_client insert_rows insert_failed get_client
      renew_client log_write_audit_event
  process_batch-IsSettled env row rows i given = ground arith
