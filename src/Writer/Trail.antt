-- ===== src/Writer/Trail.antt =====
-- spark_jobs/ch_writer.py: the audit events of one call of `write_to_clickhouse`.
use coinwhale_data_pipeline.Prelude.{
  ◌≡◌, refl, ap, subst, ◌∙◌, ◌⊎◌, inl, inr, String, Option, none, some, List, [], ◌∷◌, ◌++◌, map,
  arith,
}
use mathlib.Core.List.{append_assoc}
use coinwhale_data_pipeline.Writer.{
  Settings, Frame, AuditEvent, Writer, Client, ClientEnv, discard_client, renew_client, get_client,
  classify_ch_error, record_failure, reset_failure_count,
}
use coinwhale_data_pipeline.Writer.Audit.{Libraries, Call, build_write_audit_event}
use coinwhale_data_pipeline.Writer.Write.{
  WriteEnv, returned, after, Attempt, finished, thrown, log_write_audit_event, insert_frame,
  with_client, write_rows, write_frame, attempt, throttled_cleanup, decide, persist, note_failure,
  handle_failure, write_to_clickhouse,
}

-- The statuses of the audit events so far.
abbrev pub statuses : Writer → List String
statuses w = map (λ e. e.status) w.audit

statuses-snoc :
    (es : List AuditEvent) (e : AuditEvent)
    → map (λ (a : AuditEvent). a.status) (es ++ e ∷ [])
      ≡ map (λ (a : AuditEvent). a.status) es ++ e.status ∷ []
statuses-snoc [] e = refl
statuses-snoc (x ∷ es) e = ap (λ l. x.status ∷ l) (statuses-snoc es e)

log-statuses :
    (lib : Libraries) (call : Call) (pdf : Option Frame) (status : String) (type : Option String)
    (w : Writer)
    → statuses (log_write_audit_event lib call pdf status type w) ≡ statuses w ++ status ∷ []
unfolding log_write_audit_event build_write_audit_event
log-statuses lib call pdf status type w =
    statuses-snoc w.audit (build_write_audit_event lib call pdf status type)

log-inserted :
    (lib : Libraries) (call : Call) (pdf : Option Frame) (status : String) (type : Option String)
    (w : Writer)
    → (log_write_audit_event lib call pdf status type w).inserted ≡ w.inserted
unfolding log_write_audit_event
log-inserted lib call pdf status type w = refl

-- What neither audits nor inserts.
record Silent (w w' : Writer) : Type 0 where
  audit : w'.audit ≡ w.audit
  inserted : w'.inserted ≡ w.inserted

get_client-Silent : (s : Settings) (env : ClientEnv) (w : Writer) → Silent w (get_client s env w).1
unfolding get_client renew_client
get_client-Silent s env w = ground arith

persist-Silent :
    (s : Settings) (env : WriteEnv) (call : Call) (pdf : Option Frame) (error type : String)
    (w : Writer)
    → Silent w (after (persist s env call pdf error type w))
unfolding persist decide throttled_cleanup
persist-Silent s env call pdf error type w = ground arith

-- The statuses that a call adds, with the batch inserted or not.
abbrev pub Added : List String → Writer → Writer → Type 0
Added new w w' = (statuses w' ≡ statuses w ++ new) × (w'.inserted ≡ w.inserted)

abbrev pub Wrote : Call → Frame → Writer → Writer → Type 0
Wrote call f w w' =
    (statuses w' ≡ statuses w ++ "started" ∷ "success" ∷ [])
    × (w'.inserted ≡ w.inserted ++ (call.table_name, f.rows) ∷ [])

handle_failure-Added :
    (s : Settings) (lib : Libraries) (env : WriteEnv) (call : Call) (pdf : Option Frame)
    (error : String) (w : Writer)
    → Added ("failed" ∷ []) w (after (handle_failure s lib env call pdf error w))
unfolding handle_failure note_failure record_failure discard_client
handle_failure-Added s lib env call pdf error w =
    let type = classify_ch_error error in
    let noted = note_failure lib call pdf type w in
    let quiet = persist-Silent s env call pdf error type noted in
    grind (arith, log-statuses, log-inserted)

-- What an attempt with rows comes to.
abbrev pub Tried : Call → Frame → Writer → Attempt → Type 0
Tried call f w (finished w') = Wrote call f w w'
Tried call f w (thrown pdf e w') = Added ("started" ∷ []) w w' ⊎ (w' ≡ w)

-- The same from the point where the start is audited.
abbrev Inserted : Call → Frame → Writer → Attempt → Type 0
Inserted call f w (finished w') =
    (statuses w' ≡ statuses w ++ "success" ∷ [])
    × (w'.inserted ≡ w.inserted ++ (call.table_name, f.rows) ∷ [])
Inserted call f w (thrown pdf e w') = Silent w w'

insert_frame-Inserted :
    (lib : Libraries) (env : WriteEnv) (call : Call) (f : Frame) (w : Writer)
    → Inserted call f w (insert_frame lib env call f w)
unfolding insert_frame reset_failure_count
insert_frame-Inserted lib env call f w = grind (arith, log-statuses, log-inserted)

with_client-Inserted :
    (lib : Libraries) (env : WriteEnv) (call : Call) (f : Frame) (got : (Client ⊎ String) × Writer)
    → Inserted call f got.1 (with_client lib env call f got)
unfolding with_client
with_client-Inserted lib env call f (inl c, w) = insert_frame-Inserted lib env call f w
with_client-Inserted lib env call f (inr e, w) = ground arith

snoc_snoc :
    (xs ys zs : List String) (a b : String)
    → ys ≡ xs ++ a ∷ []
    → zs ≡ ys ++ b ∷ []
    → zs ≡ xs ++ a ∷ b ∷ []
snoc_snoc xs ys zs a b first second =
    second ∙ ap (λ l. l ++ b ∷ []) first ∙ append_assoc xs (a ∷ []) (b ∷ [])

Inserted→Tried :
    (call : Call) (f : Frame) (w started used : Writer) (a : Attempt)
    → Added ("started" ∷ []) w started
    → Silent started used
    → Inserted call f used a
    → Tried call f w a
Inserted→Tried call f w started used (finished w') (status, kept) quiet (done, rows) =
    let all =
      snoc_snoc (statuses w) (statuses used) (statuses w') "started" "success"
        (ap (map (λ (e : AuditEvent). e.status)) quiet.audit ∙ status) done in
    let before = quiet.inserted ∙ kept in
    (all, rows ∙ ap (λ l. l ++ (call.table_name, f.rows) ∷ []) before)
Inserted→Tried call f w started used (thrown pdf e w') (status, kept) quiet later = inl (
  ap (map (λ (e : AuditEvent). e.status)) (later.audit ∙ quiet.audit) ∙ status,
  later.inserted ∙ quiet.inserted ∙ kept,
)

Added-then :
    (w w' w'' : Writer) (a b : String)
    → Added (a ∷ []) w w'
    → Added (b ∷ []) w' w''
    → Added (a ∷ b ∷ []) w w''
Added-then w w' w'' a b (status, kept) (status', kept') =
    (snoc_snoc (statuses w) (statuses w') (statuses w'') a b status status', kept' ∙ kept)

write_rows-Tried :
    (s : Settings) (lib : Libraries) (env : WriteEnv) (call : Call) (f : Frame) (w : Writer)
    → Tried call f w (write_rows s lib env call f w)
unfolding write_rows
write_rows-Tried s lib env call f w =
    let started = log_write_audit_event lib call (some f) "started" none w in
    let added : Added ("started" ∷ []) w started = (
      log-statuses lib call (some f) "started" none w,
      log-inserted lib call (some f) "started" none w,
    ) in
    let quiet = get_client-Silent s env.client started in
    let tried = with_client-Inserted lib env call f (get_client s env.client started) in
    let result =
      Inserted→Tried call f w started (get_client s env.client started).1
        (with_client lib env call f (get_client s env.client started)) added quiet tried in
    grind arith

-- What a call on a frame adds.
abbrev pub Audited : Call → Frame → Writer → Writer → Type 0
Audited call f w w' =
    ((f.rows ≡ []) × Added ("skipped_empty" ∷ []) w w')
    ⊎ Wrote call f w w'
    ⊎ Added ("started" ∷ "failed" ∷ []) w w'
    ⊎ Added ("failed" ∷ []) w w'

Tried→Audited :
    (s : Settings) (lib : Libraries) (env : WriteEnv) (call : Call) (f : Frame) (w : Writer)
    (a : Attempt)
    → Tried call f w a
    → Audited call f w (
        after (elim a [
          | finished w' ↦ returned w'
          | thrown pdf error w' ↦ handle_failure s lib env call pdf error w'
        ]))
Tried→Audited s lib env call f w (finished w') wrote = inr (inl wrote)
Tried→Audited s lib env call f w (thrown pdf error w') (inl started) =
    let failed = handle_failure-Added s lib env call pdf error w' in
    inr (
      inr (
        inl (
          Added-then w w' (after (handle_failure s lib env call pdf error w')) "started" "failed"
            started failed)))
Tried→Audited s lib env call f w (thrown pdf error w') (inr same) =
    let failed = handle_failure-Added s lib env call pdf error w' in
    inr (
      inr (
        inr (
          subst (λ v. Added ("failed" ∷ []) v (after (handle_failure s lib env call pdf error w')))
            same failed)))

-- One call of `write_to_clickhouse` on a frame adds the statuses `skipped_empty`, on an empty frame;
-- `started` and `success`, with the rows inserted once; or `started` and `failed`, or `failed` alone,
-- with nothing inserted.
pub write_audits :
    (s : Settings) (lib : Libraries) (env : WriteEnv) (call : Call) (f : Frame) (w : Writer)
    → env.to_pandas ≡ inl f
    → Audited call f w (after (write_to_clickhouse s lib env call w))
unfolding write_to_clickhouse attempt write_frame
write_audits s lib env call f w framed =
    let skipped = log-statuses lib call (some f) "skipped_empty" none w in
    let kept = log-inserted lib call (some f) "skipped_empty" none w in
    let tried =
      Tried→Audited s lib env call f w (write_rows s lib env call f w)
        (write_rows-Tried s lib env call f w) in
    grind arith

-- A call whose frame cannot be read audits one failure, and inserts nothing.
pub unread_frame_audits :
    (s : Settings) (lib : Libraries) (env : WriteEnv) (call : Call) (error : String) (w : Writer)
    → env.to_pandas ≡ inr error
    → Added ("failed" ∷ []) w (after (write_to_clickhouse s lib env call w))
unfolding write_to_clickhouse attempt
unread_frame_audits s lib env call error w unread = grind (arith, handle_failure-Added)

-- An attempt on rows, from the start of a call.
pub attempt-Tried :
    (s : Settings) (lib : Libraries) (env : WriteEnv) (call : Call) (f : Frame) (w : Writer)
    → env.to_pandas ≡ inl f
    → (f.rows ≡ []) ⊎ Tried call f w (attempt s lib env call w)
unfolding attempt write_frame
attempt-Tried s lib env call f w framed =
    let tried = write_rows-Tried s lib env call f w in grind arith
