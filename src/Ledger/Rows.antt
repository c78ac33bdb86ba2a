-- ===== src/Ledger/Rows.antt =====
-- What `audit_event_to_ledger_row` returns, and how the same observation is classified again.
use coinwhale_data_pipeline.Prelude.{
  ℤ, pos, negsuc, ◌≡◌, refl, inl, inr, subst, String, true, not, some, [], arith, ◌=ˢ◌, eq_iff,
  differs_from, if◌then◌else◌, Bool-cases,
}
use coinwhale_data_pipeline.Value.{
  Value, null, bool, int, str, Fields, get, PyFloats, truthy, equal,
}
use coinwhale_data_pipeline.Ledger.{
  Result, ok, err, ◌>>=◌, Contract, build_ledger_key, is_valid_status, key_of, RowParts, row_parts,
  row_of, audit_event_to_ledger_row,
}
use coinwhale_data_pipeline.Ledger.Classify.{
  is_terminal, duplicate_terminal_same_payload, duplicate_in_progress, payload_issues,
  classify_status, classify_ledger_observation,
}

-- Statements that end without an exception had a value for their first.
first_value :
    {A B : Type 0} (r : Result A) (next : A → Result B) {b : B}
    → (r >>= next) ≡ ok b
    → (a : A) × (r ≡ ok a) × (next a ≡ ok b)
first_value (err raised) next h = cc
first_value (ok value) next h = (value, refl, h)

row_parts-is_valid_status :
    (c : Contract) (event : Fields) (checkpoint : Value) (r : RowParts)
    → row_parts c event checkpoint ≡ ok r
    → is_valid_status r.status ≡ true
unfolding row_parts
row_parts-is_valid_status c event checkpoint r h = ground arith

row_parts-ledger_key :
    (c : Contract) (event : Fields) (checkpoint : Value) (r : RowParts)
    → row_parts c event checkpoint ≡ ok r
    → key_of c event r.job_name r.output_table r.checkpoint r.batch_id
      ≡ ok (r.ledger_key, r.ledger_key_status)
unfolding row_parts
row_parts-ledger_key c event checkpoint r h = ground arith

-- `None` or a text
pub data IsText : Value → Type 0 where
  none_text : IsText null
  some_text : (s : String) → IsText (str s)

equal_text : (py : PyFloats) (v : Value) → IsText v → equal py v v ≡ true
unfolding equal
equal_text py null h = refl
equal_text py (str s) h = (eq_iff s s).1 refl
equal_text py (bool b) h = elim h [ ]
equal_text py (int n) h = elim h [ ]
equal_text py (Value.float x) h = elim h [ ]
equal_text py (Value.list vs) h = elim h [ ]
equal_text py (Value.dict fs) h = elim h [ ]

equal_int : (py : PyFloats) (n : ℤ) → equal py (int n) (int n) ≡ true
unfolding equal
equal_int py (pos n) = ground arith
equal_int py (negsuc n) = ground arith

key_of-IsText :
    (c : Contract) (event : Fields) (job table : String) (checkpoint : Value) (batch : ℤ)
    {k s : Value}
    → IsText (get event "ledger_key")
    → key_of c event job table checkpoint batch ≡ ok (k, s)
    → IsText k
unfolding key_of
key_of-IsText c event job table checkpoint batch {k} {s} text h =
    elim (Bool-cases (truthy c.py checkpoint)) [
      | inl generated ↦
          let (t, built, same) =
            first_value (build_ledger_key c (str job) (str table) checkpoint (int batch)) _
              (rw (generated, key_of) at h) in
          let e : str t ≡ k = cc in subst IsText e (some_text t)
      | inr missing ↦ let e : get event "ledger_key" ≡ k = ground arith in subst IsText e text
    ]

-- The valid statuses but `started` are terminal.
valid_terminal :
    (py : PyFloats) (s : String)
    → is_valid_status s ≡ true
    → is_terminal py (str s) ≡ not (s =ˢ "started")
unfolding is_valid_status equal
valid_terminal py s h = ground (
  arith,
  differs_from s "started" "success" refl,
  differs_from s "started" "failed" refl,
  differs_from s "started" "skipped_empty" refl,
)

-- A row whose key and checksum are texts, and which has a valid status.
replay_of_parts :
    (py : PyFloats) (event : Fields) (run attempt : Value) (r : RowParts)
    → IsText r.ledger_key
    → IsText (get event "checksum")
    → is_valid_status r.status ≡ true
    → classify_ledger_observation py
        (some (row_of py event run attempt r))
        (row_of py event run attempt r)
      ≡ record {
        action =
            if r.status =ˢ "started"
            then duplicate_in_progress
            else duplicate_terminal_same_payload;
        issues = [];
      }
unfolding classify_ledger_observation payload_issues classify_status row_of get is_valid_status
replay_of_parts py event run attempt r key checksum valid =
    rw
      (
        equal_text py r.ledger_key key,
        equal_text py (get event "checksum") checksum,
        equal_int py r.row_count,
        equal_text py (str r.status) (some_text r.status),
        valid_terminal py r.status valid,
      )
      (ground arith)

-- A row that was built from an audit event, whose key and checksum are texts or `None`, is
-- classified as a duplicate of itself with no issues: in progress if its status is `started`, and
-- terminal otherwise.
pub replay_is_duplicate :
    (c : Contract) (event : Fields) (checkpoint run attempt : Value) (row : Fields)
    → IsText (get event "ledger_key")
    → IsText (get event "checksum")
    → audit_event_to_ledger_row c event checkpoint run attempt ≡ ok row
    → classify_ledger_observation c.py (some row) row ≡ record {
      action =
          if equal c.py (get row "status") (str "started")
          then duplicate_in_progress
          else duplicate_terminal_same_payload;
      issues = [];
    }
unfolding audit_event_to_ledger_row equal get row_of
replay_is_duplicate c event checkpoint run attempt row key checksum h =
    let (parts, read, same) = first_value (row_parts c event checkpoint) _ h in
    let row_eq : row_of c.py event run attempt parts ≡ row = cc in
    subst Replayed row_eq (
      replay_of_parts c.py event run attempt parts
        (key_of-IsText c event parts.job_name parts.output_table parts.checkpoint parts.batch_id key
          (row_parts-ledger_key c event checkpoint parts read))
        checksum (row_parts-is_valid_status c event checkpoint parts read))
  where
    Replayed : Fields → Type 0
    Replayed x = classify_ledger_observation c.py (some x) x ≡ record {
      action =
          if equal c.py (get x "status") (str "started")
          then duplicate_in_progress
          else duplicate_terminal_same_payload;
      issues = [];
    }
