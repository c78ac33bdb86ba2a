-- ===== src/Ledger/Transitions.antt =====
-- When an observation moves a ledger row on, and what keeps a success.
use coinwhale_data_pipeline.Prelude.{
  ◌≡◌, ◌≢◌, ◌↔◌, ◌⊎◌, inl, inr, String, false, some, [], arith, eq_iff, strip, ℤ, ap,
}
use coinwhale_data_pipeline.Value.{int, str, Fields, get, PyFloats, equal}
use coinwhale_data_pipeline.Ledger.{
  ok, Contract, LedgerKey, ledger_key_payload, build_ledger_key, require_non_empty_string,
  require_int,
}
use coinwhale_data_pipeline.Ledger.Classify.{
  insert_new, advance_status, record_retry_attempt, differs, payload_issues, classify_status,
  classify_ledger_observation,
}

-- `t` is one of the terminal statuses.
abbrev pub IsTerminal : String → Type 0
IsTerminal t = (t ≡ "success") ⊎ ((t ≡ "failed") ⊎ (t ≡ "skipped_empty"))

module _ (py : PyFloats) (s t : String) where
  advance_from_started :
      (classify_status py (str s) (str t)).action ≡ advance_status → (s ≡ "started") × IsTerminal t
  unfolding classify_status equal
  advance_from_started h =
      ground
        (arith, eq_iff s "started", eq_iff t "success", eq_iff t "failed", eq_iff t "skipped_empty")

  started_advances :
      s ≡ "started" → IsTerminal t → (classify_status py (str s) (str t)).action ≡ advance_status
  unfolding classify_status equal
  started_advances e (inl h) = rw (e, h)
  started_advances e (inr (inl h)) = rw (e, h)
  started_advances e (inr (inr h)) = rw (e, h)

advance_parts :
    (py : PyFloats) (existing incoming : Fields)
    → (classify_ledger_observation py (some existing) incoming).action ≡ advance_status
    → (differs py existing incoming "ledger_key" ≡ false)
      × (payload_issues py existing incoming ≡ [])
      × ((classify_status py (get existing "status") (get incoming "status")).action
          ≡ advance_status)
unfolding classify_ledger_observation
advance_parts py existing incoming h = ground arith

-- Where both rows have a text for a status, an observation advances the status exactly when the keys
-- agree, the checksums and row counts raise no issue, the stored status is `started` and the new one
-- is terminal.
pub advance_status_iff :
    (py : PyFloats) (existing incoming : Fields) (s t : String)
    → get existing "status" ≡ str s
    → get incoming "status" ≡ str t
    → ((classify_ledger_observation py (some existing) incoming).action ≡ advance_status) ↔ (
        (differs py existing incoming "ledger_key" ≡ false)
        × (payload_issues py existing incoming ≡ [])
        × (s ≡ "started")
        × IsTerminal t)
unfolding classify_ledger_observation
advance_status_iff py existing incoming s t old new = (
  λ h.
      let (keys, same, moved) = advance_parts py existing incoming h in
      let (started, terminal) = advance_from_started py s t (rw (← old, ← new) moved) in
      (keys, same, started, terminal),
  λ (keys, same, started, terminal).
      rw (keys, same, old, new) (started_advances py s t started terminal),
)

-- A stored success never goes back: no observation advances it, replaces it, or records it as the
-- retry of a failure.
pub success_is_kept :
    (py : PyFloats) (existing incoming : Fields) (t : String)
    → get existing "status" ≡ str "success"
    → get incoming "status" ≡ str t
    → ((classify_ledger_observation py (some existing) incoming).action ≢ advance_status)
      × ((classify_ledger_observation py (some existing) incoming).action ≢ insert_new)
      × ((classify_ledger_observation py (some existing) incoming).action ≢ record_retry_attempt)
unfolding classify_ledger_observation classify_status equal
success_is_kept py existing incoming t old new = ground arith

-- The payload with its texts stripped.
abbrev pub stripped_key : String → String → String → ℤ → LedgerKey
stripped_key job table path batch = record {
  job_name = strip job;
  output_table = strip table;
  checkpoint_path = strip path;
  batch_id = batch;
}

key_is_digest :
    (c : Contract) (job table path : String) (batch : ℤ) {k : String}
    → build_ledger_key c (str job) (str table) (str path) (int batch) ≡ ok k
    → k ≡ c.sha256 (stripped_key job table path batch)
unfolding build_ledger_key ledger_key_payload require_non_empty_string require_int
key_is_digest c job table path batch h = ground arith

-- Two ledger keys whose payloads do not collide under the digest are equal exactly when the stripped
-- job names, tables and paths and the batch ids are.
pub build_ledger_key_identity :
    (c : Contract) (job table path job' table' path' : String) (batch batch' : ℤ) {k k' : String}
    → build_ledger_key c (str job) (str table) (str path) (int batch) ≡ ok k
    → build_ledger_key c (str job') (str table') (str path') (int batch') ≡ ok k'
    → (c.sha256 (stripped_key job table path batch)
          ≡ c.sha256 (stripped_key job' table' path' batch')
        → stripped_key job table path batch ≡ stripped_key job' table' path' batch')
    → (k ≡ k') ↔ (
        (strip job ≡ strip job')
        × (strip table ≡ strip table')
        × (strip path ≡ strip path')
        × (batch ≡ batch'))
build_ledger_key_identity c job table path job' table' path' batch batch' h h' clear =
    let d = key_is_digest c job table path batch h in
    let d' = key_is_digest c job' table' path' batch' h' in
    (
      λ e.
          let same = clear (cc) in
          (
            ap (λ (x : LedgerKey). x.job_name) same,
            ap (λ (x : LedgerKey). x.output_table) same,
            ap (λ (x : LedgerKey). x.checkpoint_path) same,
            ap (λ (x : LedgerKey). x.batch_id) same,
          ),
      λ (ej, et, ep, eb). cc,
    )
