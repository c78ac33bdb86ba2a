-- ===== src/Ledger/Examples.antt =====
-- Runs of the ledger's theorems on a batch that is started and then succeeds.
use coinwhale_data_pipeline.Prelude.{
  ◌≡◌, ◌↔◌, refl, pos, String, strip, false, some, [], if◌then◌else◌,
}
use coinwhale_data_pipeline.Value.{
  null, str, int, Fields, end, field, get, has_key, truthy, show, or_else, equal,
}
use coinwhale_data_pipeline.Ledger.{
  ok, build_ledger_key, ledger_key_payload, require_non_empty_string, require_int, row_of, RowParts,
  row_parts, get_or_zero, is_valid_status, strip_path, key_of, audit_event_to_ledger_row,
}
use coinwhale_data_pipeline.Ledger.Classify.{
  duplicate_in_progress, duplicate_terminal_same_payload, advance_status, differs, payload_issues,
  classify_ledger_observation,
}
use coinwhale_data_pipeline.Ledger.Rows.{none_text, some_text, replay_is_duplicate}
use coinwhale_data_pipeline.Ledger.Transitions.{IsTerminal, advance_status_iff}
use coinwhale_data_pipeline.Fixtures.{floats, contract}

abbrev started : String
started = "started"

abbrev path : String
path = "/chk/a"

abbrev started_row : Fields
started_row = field "ledger_key" (str "k") (field "status" (str "started") end)

abbrev success_row : Fields
success_row = field "ledger_key" (str "k") (field "status" (str "success") end)

advance_status_iff_example :
    ((classify_ledger_observation floats (some started_row) success_row).action ≡ advance_status)
    ↔ ((differs floats started_row success_row "ledger_key" ≡ false)
        × (payload_issues floats started_row success_row ≡ [])
        × (started ≡ "started")
        × IsTerminal "success")
unfolding get
advance_status_iff_example =
    advance_status_iff floats started_row success_row started "success" refl refl

abbrev event : Fields
event = field "ledger_key" null (
    field "checksum" (str "00ff") (
      field "job_name" (str "price") (
        field "output_table" (str "stream.price") (
          field "checkpoint_path" (str "/chk/a")
            (field "batch_id" (int (pos 7)) (field "status" (str "started") end))))))

abbrev parts : RowParts
parts = record {
  status = "started";
  job_name = "price";
  output_table = "stream.price";
  checkpoint = str "/chk/a";
  batch_id = pos 7;
  row_count = pos 0;
  warning_count = pos 0;
  ledger_key = str "/chk/a";
  ledger_key_status = str "generated";
  null_count = pos 0;
  nan_count = pos 0;
}

abbrev row : Fields
row = row_of floats event null null parts

built : audit_event_to_ledger_row contract event null null null ≡ ok row
unfolding audit_event_to_ledger_row row_parts get get_or_zero has_key require_non_empty_string
    require_int is_valid_status strip_path key_of build_ledger_key ledger_key_payload or_else truthy
    show strip
built = refl

replay_is_duplicate_example : classify_ledger_observation floats (some row) row ≡ record {
  action =
      if equal floats (get row "status") (str "started")
      then duplicate_in_progress
      else duplicate_terminal_same_payload;
  issues = [];
}
unfolding get
replay_is_duplicate_example =
    replay_is_duplicate contract event null null null row none_text (some_text "00ff") built
