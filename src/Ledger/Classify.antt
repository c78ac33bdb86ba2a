-- ===== src/Ledger/Classify.antt =====
-- spark_jobs/batch_ledger_contract.py: `classify_ledger_observation`.
use coinwhale_data_pipeline.Prelude.{
  String, Bool, not, ◌&&◌, ◌||◌, Option, none, some, List, [], ◌∷◌, ◌++◌, if◌then◌else◌,
}
use coinwhale_data_pipeline.Value.{Value, str, Fields, get, PyFloats, truthy, equal}

pub data Action : Type 0 where
  insert_new reject_key_mismatch quarantine_conflict : Action
  duplicate_terminal_same_payload duplicate_in_progress : Action
  advance_status record_retry_attempt keep_success_mark_retry record_status_observation : Action

pub data Issue : Type 0 where
  ledger_key_mismatch checksum_mismatch row_count_mismatch : Issue
  retry_after_success skipped_empty_changed : Issue

pub record Verdict : Type 0 where
  pub action : Action
  pub issues : List Issue

abbrev verdict : Action → List Issue → Verdict
verdict a issues = record { action = a; issues = issues }

module _ (py : PyFloats) where
  -- a status that is this text
  abbrev pub is : Value → String → Bool
  is v s = equal py v (str s)

  -- `status in TERMINAL_STATUSES`
  abbrev pub is_terminal : Value → Bool
  is_terminal v = is v "success" || is v "failed" || is v "skipped_empty"

  unfoldable pub differs : Fields → Fields → String → Bool
  differs existing incoming key = not (equal py (get existing key) (get incoming key))

  unfoldable pub payload_issues : Fields → Fields → List Issue
  unfolding differs
  payload_issues existing incoming =
      (if truthy py (get existing "checksum")
          && truthy py (get incoming "checksum")
          && differs existing incoming "checksum"
        then checksum_mismatch ∷ []
        else [])
      ++ (if differs existing incoming "row_count" then row_count_mismatch ∷ [] else [])

  -- The branches on the two statuses, where the payloads agree.
  unfoldable pub classify_status : Value → Value → Verdict
  classify_status old new =
      if equal py old new
      then (if is_terminal new
          then verdict duplicate_terminal_same_payload []
          else verdict duplicate_in_progress [])
      else if is old "started" && is_terminal new
      then verdict advance_status []
      else if is old "failed" && is new "started"
      then verdict record_retry_attempt []
      else if is old "success" && (is new "started" || is new "failed")
      then verdict keep_success_mark_retry (retry_after_success ∷ [])
      else if is old "skipped_empty" && not (is new "skipped_empty")
      then verdict quarantine_conflict (skipped_empty_changed ∷ [])
      else verdict record_status_observation []

  on_issues : List Issue → Verdict → Verdict
  on_issues [] v = v
  on_issues (i ∷ is) v = verdict quarantine_conflict (i ∷ is)

  unfoldable pub classify_ledger_observation : Option Fields → Fields → Verdict
  unfolding differs on_issues
  classify_ledger_observation none incoming = verdict insert_new []
  classify_ledger_observation (some existing) incoming =
      if differs existing incoming "ledger_key"
      then verdict reject_key_mismatch (ledger_key_mismatch ∷ [])
      else on_issues (payload_issues existing incoming)
          (classify_status (get existing "status") (get incoming "status"))
