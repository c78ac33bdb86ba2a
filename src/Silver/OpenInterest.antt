-- ===== src/Silver/OpenInterest.antt =====
-- spark_jobs/silver/oi.py: `process_batch` of OIInsight, with the previous values that it keeps between
-- batches. The conversion to pandas answers as an argument says; double arithmetic is a parameter.
use coinwhale_data_pipeline.Prelude.{
  ℤ, String, Bool, ◌⊎◌, inl, inr, Option, none, some, List, [], ◌∷◌, ◌++◌, if◌then◌else◌, lookup,
}
use coinwhale_data_pipeline.Value.{Float, float, str, Fields, end, field}
use coinwhale_data_pipeline.Writer.{
  Settings, Frame, Client, Writer, ClientEnv, get_client, classify_ch_error,
}
use coinwhale_data_pipeline.Writer.Audit.{Libraries, Call}
use coinwhale_data_pipeline.Writer.Write.{log_write_audit_event}

-- `x == 0.0`, and the operations of doubles that a change takes
pub record Doubles : Type 0 where
  pub zero : Float
  pub is_zero : Float → Bool
  pub hundred : Float
  pub sub : Float → Float → Float
  pub div : Float → Float → Float
  pub mul : Float → Float → Float

pub record OiRow : Type 0 where
  pub ts : String
  pub symbol : String
  pub open_interest : Float

-- The insight: `_prev_oi`, and the writer's module behind it.
pub record Insight : Type 0 where
  pub prev_oi : List (String × Float)
  pub writer : Writer

unfoldable pub change_of : Doubles → Option Float → Float → Float
change_of d none curr = d.zero
change_of d (some prev) curr =
    if d.is_zero prev then d.zero else d.mul (d.div (d.sub curr prev) prev) d.hundred

-- `_calc_change_pct` of each row in turn: the changes, and the previous values behind them.
unfoldable pub calc_change_pct :
    Doubles → List OiRow → List (String × Float) → List Float × List (String × Float)
calc_change_pct d [] prev = ([], prev)
calc_change_pct d (row ∷ rest) prev =
    let later = calc_change_pct d rest ((row.symbol, row.open_interest) ∷ prev) in
    (change_of d (lookup row.symbol prev) row.open_interest ∷ later.0, later.1)

row_fields : OiRow → Float → Fields
row_fields row pct = field "ts" (str row.ts) (
    field "symbol" (str row.symbol)
      (field "open_interest" (float row.open_interest) (field "oi_change_pct" (float pct) end)))

with_changes : List OiRow → List Float → List Fields
unfolding row_fields
with_changes [] changes = []
with_changes (row ∷ rows) [] = []
with_changes (row ∷ rows) (pct ∷ changes) = row_fields row pct ∷ with_changes rows changes

unfoldable pub frame_of : List OiRow → List Float → Frame
unfolding with_changes
frame_of rows changes = record {
  columns = "ts" ∷ "symbol" ∷ "open_interest" ∷ "oi_change_pct" ∷ [];
  rows = with_changes rows changes;
}

abbrev pub empty_frame : Frame
empty_frame = record { columns = "ts" ∷ "symbol" ∷ "open_interest" ∷ []; rows = [] }

-- What a batch meets: its rows or an error of Spark or pandas, the client, and an error of the insert.
pub record BatchEnv : Type 0 where
  pub rows : List OiRow ⊎ String
  pub client : ClientEnv
  pub insert_error : Option String

-- The batch returns, or an exception goes on to Spark, which runs it again later.
pub data Processed : Type 0 where
  returned : Insight → Processed
  raised : String → Insight → Processed

unfoldable pub call_of : String → ℤ → Call
call_of checkpoint batch_id = record {
  batch_id = batch_id;
  table_name = "stream.oi";
  original_topic = none;
  job_name = some "OIInsight";
  checkpoint_path = some checkpoint;
}

module _ (d : Doubles) (s : Settings) (lib : Libraries) (call : Call) where
  unfoldable pub insert_failed : Frame → String → Insight → Processed
  insert_failed f error i = raised error (record i {
    writer =
        log_write_audit_event lib call (some f) "failed" (some (classify_ch_error error)) i.writer;
  })

  unfoldable pub insert_rows : Frame → Option String → Insight → Processed
  unfolding insert_failed
  insert_rows f (some error) i = insert_failed f error i
  insert_rows f none i = returned (record i {
    writer =
        log_write_audit_event lib call (some f) "success" none
          (record i.writer { inserted = i.writer.inserted ++ (call.table_name, f.rows) ∷ [] });
  })

  unfoldable pub with_client :
      BatchEnv → Frame → List (String × Float) → (Client ⊎ String) × Writer → Processed
  unfolding insert_rows insert_failed
  with_client env f prev (inl c, w) =
      insert_rows f env.insert_error (record { prev_oi = prev; writer = w })
  with_client env f prev (inr error, w) =
      insert_failed f error (record { prev_oi = prev; writer = w })

  -- A batch with rows: the changes are computed, and the previous values with them, before the insert.
  unfoldable pub process_rows : BatchEnv → List OiRow → Insight → Processed
  unfolding with_client
  process_rows env rows i =
      let calculated = calc_change_pct d rows i.prev_oi in
      let f = frame_of rows calculated.0 in
      with_client env f calculated.1
        (get_client s env.client (log_write_audit_event lib call (some f) "started" none i.writer))

  unfoldable pub process_read : BatchEnv → List OiRow ⊎ String → Insight → Processed
  unfolding process_rows
  process_read env (inr error) i = raised error i
  process_read env (inl []) i = returned (record i {
    writer = log_write_audit_event lib call (some empty_frame) "skipped_empty" none i.writer;
  })
  process_read env (inl (row ∷ rows)) i = process_rows env (row ∷ rows) i

  unfoldable pub process_batch : BatchEnv → Insight → Processed
  unfolding process_read
  process_batch env i = process_read env env.rows i
