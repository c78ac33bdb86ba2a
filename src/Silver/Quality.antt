-- ===== src/Silver/Quality.antt =====
-- spark_jobs/silver/base.py: `apply_quality_gate`, `prepare_for_aggregate` and `process_quality_batch`,
-- with `quarantine_invalid_batch` of spark_jobs/quality_gate.py. Whether Spark and the file system
-- work is an argument.
use coinwhale_data_pipeline.Prelude.{
  ℕ, ◌≡◌, ◌==◌, String, Bool, true, false, not, ◌&&◌, ◌||◌, Option, none, some, List, [], ◌∷◌, ◌++◌,
  map, All, ◌=ˢ◌, if◌then◌else◌, Bool-cases, inl, inr,
}
use coinwhale_data_pipeline.Value.{Float}
use coinwhale_data_pipeline.Gate.{is_true, gate_mode}
use coinwhale_data_pipeline.Gate.Topics.{is_hot_path_topic}
use coinwhale_data_pipeline.Gate.Rows.{
  Cell, Spark, Limits, Frame, Gated, gate_row, apply_quality_gate, valid_rows, invalid_rows,
}
use coinwhale_data_pipeline.Gate.Summary.{QualityEvent, Percentiles, Batch, build_quality_event}
use coinwhale_data_pipeline.Gate.Events.{Store, StoreEnv, write_quality_event}
use coinwhale_data_pipeline.Gate.Events as Events
use coinwhale_data_pipeline.Gate.Sound.{Sound, gate_row-Sound}

abbrev Row : Type 0
Row = String → Cell

row_of : Gated → Row
row_of g = g.row

-- The rows that are aggregated, by the setting of the mode. The columns of the gate are dropped; a topic
-- that is not hot has none.
unfoldable pub prepare_for_aggregate :
    Spark → Limits → String → String → Frame → List (String → Cell)
unfolding row_of
prepare_for_aggregate sp l setting topic df =
    if is_hot_path_topic (some topic)
    then (let gated = apply_quality_gate sp l topic df in
        if gate_mode setting =ˢ "observe" then map row_of gated else map row_of (valid_rows gated))
    else df.rows

kept-Sound :
    (sp : Spark) (l : Limits) (topic : String) (columns : List String) (rows : List (String → Cell))
    → All
        (Sound sp l topic columns)
        (map row_of (valid_rows (map (gate_row sp l topic columns) rows)))
unfolding valid_rows row_of gate_row
kept-Sound sp l topic columns [] = tt
kept-Sound sp l topic columns (row ∷ rest) =
    let later = kept-Sound sp l topic columns rest in
    elim (Bool-cases (is_true (gate_row sp l topic columns row).dq_is_valid)) [
      | inl valid ↦ rw valid (gate_row-Sound sp l topic columns row valid, later)
      | inr other ↦ rw other later
    ]

-- On a hot topic, in the modes shadow and strict, every row that is aggregated satisfies what the gate
-- promises: it was parsed, no critical column is NULL, the columns that must not be negative hold
-- numbers that are not, the bid is not above the ask, and the event is within the limits of time.
pub prepare_for_aggregate-Sound :
    (sp : Spark) (l : Limits) (setting topic : String) (df : Frame)
    → is_hot_path_topic (some topic) ≡ true
    → (gate_mode setting =ˢ "observe") ≡ false
    → All (Sound sp l topic df.columns) (prepare_for_aggregate sp l setting topic df)
unfolding prepare_for_aggregate apply_quality_gate
prepare_for_aggregate-Sound sp l setting topic df hot mode =
    rw (hot, mode) (kept-Sound sp l topic df.columns df.rows)

-- The store of quality events, the rows that were put aside, and the error types of the other lines of
-- the fallback file.
pub record Recorded : Type 0 where
  pub store : Store
  pub quarantined : List Gated
  pub notices : List String

-- What a quality batch meets: whether Spark can look for invalid rows and write them, the store, whether
-- the fallback file can be written, whether the event's aggregation works, and the ratio of strict mode.
pub record QualityEnv : Type 0 where
  pub looks : Bool
  pub quarantine_writes : Bool
  pub fallback_writes : Bool
  pub summarizes : Bool
  pub store : StoreEnv
  pub max_ratio : Option Float

pub data Outcome : Type 0 where
  returned raised : Recorded → Outcome

-- A line of the fallback file other than a quality event.
unfoldable pub notice : Bool → String → Recorded → Outcome
notice writes error_type r =
    if writes then returned (record r { notices = r.notices ++ error_type ∷ [] }) else raised r

unfoldable pub quarantine_invalid_batch : QualityEnv → List Gated → Recorded → Outcome
quarantine_invalid_batch env df r =
    if env.looks
    then elim (invalid_rows df) [
      | [] ↦ returned r
      | g ∷ gs ↦
          if env.quarantine_writes
          then returned (record r { quarantined = r.quarantined ++ g ∷ gs })
          else notice env.fallback_writes "dq_quarantine_write_failed" r
    ]
    else raised r

unfoldable pub stored : Recorded → Events.Written → Outcome
stored r (Events.returned s) = returned (record r { store = s })
stored r (Events.raised s) = raised (record r { store = s })

module _ (sp : Spark) (q : Percentiles) (over : ℕ → ℕ → Float → Bool) where
  -- The check of strict mode: `over` is whether the quotient is above the ratio.
  unfoldable pub check_ratio : QualityEnv → QualityEvent → Recorded → Outcome
  check_ratio env e r = elim env.max_ratio [
    | none ↦ returned r
    | some ratio ↦
        if not (e.input_rows == 0) && over e.dropped_rows e.input_rows ratio
        then raised r
        else returned r
  ]

  unfoldable pub record_event : QualityEnv → Bool → Batch → List Gated → Outcome → Outcome
  record_event env strict b df (raised r) = raised r
  record_event env strict b df (returned r) =
      if env.summarizes
      then (let e = build_quality_event sp q true b df in
          elim (stored r (write_quality_event env.store e r.store)) [
            | raised r' ↦ raised r'
            | returned r' ↦ if strict then check_ratio env e r' else returned r'
          ])
      else raised r

  -- The handler of the `try`.
  unfoldable pub handled : QualityEnv → Bool → Outcome → Outcome
  handled env strict (returned r) = returned r
  handled env strict (raised r) =
      if strict then raised r else notice env.fallback_writes "quality_event_error" r

  -- `process_quality_batch`, by the setting of the mode
  unfoldable pub process_quality_batch :
      QualityEnv → String → Batch → List Gated → Recorded → Outcome
  process_quality_batch env setting b df r =
      if is_hot_path_topic (some b.topic)
      then (let strict = gate_mode setting =ˢ "strict" in
          let shadow = gate_mode setting =ˢ "shadow" in
          handled env strict (
            record_event env strict b df
              (if shadow || strict then quarantine_invalid_batch env df r else returned r)))
      else returned r

  abbrev pub IsReturned : Outcome → Type 0
  IsReturned (returned r) = Unit
  IsReturned (raised r) = ⊥

  handled-IsReturned :
      (env : QualityEnv) (o : Outcome)
      → env.fallback_writes ≡ true
      → IsReturned (handled env false o)
  unfolding handled notice
  handled-IsReturned env (returned r) writes = tt
  handled-IsReturned env (raised r) writes = rw writes tt

  -- In the modes shadow and observe a quality batch returns, whatever fails in Spark or in ClickHouse, as
  -- long as the fallback file can be written.
  pub process_quality_batch-IsReturned :
      (env : QualityEnv) (setting : String) (b : Batch) (df : List Gated) (r : Recorded)
      → (gate_mode setting =ˢ "strict") ≡ false
      → env.fallback_writes ≡ true
      → IsReturned (process_quality_batch env setting b df r)
  unfolding process_quality_batch
  process_quality_batch-IsReturned env setting b df r lenient writes =
      elim (Bool-cases (is_hot_path_topic (some b.topic))) [
        | inl hot ↦ rw (hot, lenient) (handled-IsReturned env _ writes)
        | inr cold ↦ rw cold tt
      ]
