-- ===== src/Writer/Decisions.antt =====
-- spark_jobs/ch_writer.py: the client cache, the failure counts and what is raised.
use coinwhale_data_pipeline.Prelude.{
  ℕ, ◌+◌, ◌≤◌, ◌<◌, ◌≡◌, refl, ap, ◌∙◌, ◌⊎◌, inl, inr, String, false, Option, some, List, [], ◌∷◌,
  Bool-cases, ◌=ˢ◌, eq_iff, arith,
}
use coinwhale_data_pipeline.Writer.{
  Settings, Frame, Client, Writer, ClientEnv, discard_client, renew_client, get_client,
  classify_ch_error, count_of, set_count, drop_count, record_failure, reset_failure_count,
}
use coinwhale_data_pipeline.Writer.Audit.{Libraries, Call}
use coinwhale_data_pipeline.Writer.Write.{
  WriteEnv, after, Attempt, finished, thrown, log_write_audit_event, insert_frame, with_client,
  write_rows, write_frame, attempt, throttled_cleanup, decide, persist, note_failure,
  handle_failure, write_to_clickhouse,
}

-- A client that `get_client` returns is the cached one, and its last check or its creation is less
-- than the ping interval ago, when that interval is not zero.
pub get_client_is_checked :
    (s : Settings) (env : ClientEnv) (w : Writer) (c : Client)
    → 1 ≤ s.ping_interval
    → (get_client s env w).0 ≡ inl c
    → ((get_client s env w).1.client ≡ some c)
      × (env.now < (get_client s env w).1.last_healthcheck + s.ping_interval)
unfolding get_client renew_client
get_client_is_checked s env w c interval got = ground arith

count_of-set_count :
    (table : String) (n : ℕ) (counts : List (String × ℕ))
    → count_of (set_count table n counts) table ≡ n
unfolding count_of set_count
count_of-set_count table n [] = let same = (eq_iff table table).1 refl in ground arith
count_of-set_count table n ((t, k) ∷ rest) =
    let later = count_of-set_count table n rest in ground arith

count_of-drop_count :
    (table : String) (counts : List (String × ℕ)) → count_of (drop_count table counts) table ≡ 0
unfolding count_of drop_count
count_of-drop_count table [] = refl
count_of-drop_count table ((t, k) ∷ rest) =
    let later = count_of-drop_count table rest in ground arith

count_of-set_other :
    (table other : String) (n : ℕ) (counts : List (String × ℕ))
    → table =ˢ other ≡ false
    → count_of (set_count table n counts) other ≡ count_of counts other
unfolding count_of set_count
count_of-set_other table other n [] differs = ground arith
count_of-set_other table other n ((t, k) ∷ rest) differs =
    let later = count_of-set_other table other n rest differs in
    elim (Bool-cases (t =ˢ table)) [
      | inl same ↦
          let t_table = (eq_iff t table).0 same in
          let t_other = ap (λ x. x =ˢ other) t_table ∙ differs in ground arith
      | inr not_same ↦ ground arith
    ]

count_of-drop_other :
    (table other : String) (counts : List (String × ℕ))
    → table =ˢ other ≡ false
    → count_of (drop_count table counts) other ≡ count_of counts other
unfolding count_of drop_count
count_of-drop_other table other [] differs = refl
count_of-drop_other table other ((t, k) ∷ rest) differs =
    let later = count_of-drop_other table other rest differs in
    elim (Bool-cases (t =ˢ table)) [
      | inl same ↦
          let t_table = (eq_iff t table).0 same in
          let t_other = ap (λ x. x =ˢ other) t_table ∙ differs in ground arith
      | inr not_same ↦ ground arith
    ]

-- What an attempt leaves of the counts: a success clears the table's, an empty frame and an exception
-- change nothing.
get_client-counts :
    (s : Settings) (env : ClientEnv) (w : Writer)
    → (get_client s env w).1.failure_counts ≡ w.failure_counts
unfolding get_client renew_client
get_client-counts s env w = ground arith

abbrev pub failed_consecutively : Writer → String → ℕ
failed_consecutively w table = count_of w.failure_counts table

pub note_failure-count :
    (lib : Libraries) (call : Call) (pdf : Option Frame) (type : String) (w : Writer)
    → failed_consecutively (note_failure lib call pdf type w) call.table_name
      ≡ failed_consecutively w call.table_name + 1
unfolding note_failure log_write_audit_event record_failure discard_client
note_failure-count lib call pdf type w =
    let counted =
      count_of-set_count call.table_name (failed_consecutively w call.table_name + 1)
        w.failure_counts in
    ground arith

persist-count :
    (s : Settings) (env : WriteEnv) (call : Call) (pdf : Option Frame) (error type : String)
    (w : Writer)
    → (after (persist s env call pdf error type w)).failure_counts ≡ w.failure_counts
unfolding persist decide throttled_cleanup
persist-count s env call pdf error type w = ground arith

-- A failing call counts one more failure of its table, whether it returns or raises.
pub handle_failure_counts :
    (s : Settings) (lib : Libraries) (env : WriteEnv) (call : Call) (pdf : Option Frame)
    (error : String) (w : Writer)
    → failed_consecutively (after (handle_failure s lib env call pdf error w)) call.table_name
      ≡ failed_consecutively w call.table_name + 1
unfolding handle_failure
handle_failure_counts s lib env call pdf error w =
    let noted = note_failure-count lib call pdf (classify_ch_error error) w in
    let kept =
      persist-count s env call pdf error (classify_ch_error error)
        (note_failure lib call pdf (classify_ch_error error) w) in
    ground arith

-- What an attempt leaves of the counts of failures.
abbrev Counted : Call → Writer → Attempt → Type 0
Counted call w (finished w') =
    (w'.failure_counts ≡ w.failure_counts)
    ⊎ (w'.failure_counts ≡ drop_count call.table_name w.failure_counts)
Counted call w (thrown pdf e w') = w'.failure_counts ≡ w.failure_counts

attempt-Counted :
    (s : Settings) (lib : Libraries) (env : WriteEnv) (call : Call) (w : Writer)
    → Counted call w (attempt s lib env call w)
unfolding attempt write_frame write_rows with_client insert_frame log_write_audit_event
    reset_failure_count get_client renew_client
attempt-Counted s lib env call w = ground arith

handle_failure-other :
    (s : Settings) (lib : Libraries) (env : WriteEnv) (call : Call) (pdf : Option Frame)
    (error : String) (w : Writer) (other : String)
    → call.table_name =ˢ other ≡ false
    → failed_consecutively (after (handle_failure s lib env call pdf error w)) other
      ≡ failed_consecutively w other
unfolding handle_failure note_failure log_write_audit_event record_failure discard_client
handle_failure-other s lib env call pdf error w other differs =
    let type = classify_ch_error error in
    let kept = persist-count s env call pdf error type (note_failure lib call pdf type w) in
    let counted =
      count_of-set_other call.table_name other (failed_consecutively w call.table_name + 1)
        w.failure_counts differs in
    ground arith

-- A call of `write_to_clickhouse` leaves the failure counts of the other tables as they were.
write_isolates_tables :
    (s : Settings) (lib : Libraries) (env : WriteEnv) (call : Call) (w : Writer) (other : String)
    → call.table_name =ˢ other ≡ false
    → failed_consecutively (after (write_to_clickhouse s lib env call w)) other
      ≡ failed_consecutively w other
unfolding write_to_clickhouse
write_isolates_tables s lib env call w other differs =
    let counted = attempt-Counted s lib env call w in
    let dropped = count_of-drop_other call.table_name other w.failure_counts differs in
    grind (arith, handle_failure-other)

-- What `n` calls for a table come to, each with a frame that fails.
pub data Failing (s : Settings) (lib : Libraries) (call : Call) (w : Writer)
    : ℕ → Writer → Type 0 where
  none_yet : Failing s lib call w 0 w
  one_more :
      {n : ℕ} {v : Writer}
      → Failing s lib call w n v
      → (env : WriteEnv) (pdf : Option Frame) (error : String) (v' : Writer)
      → attempt s lib env call v ≡ thrown pdf error v'
      → Failing s lib call w (n + 1) (after (write_to_clickhouse s lib env call v))

-- The failures of a table are counted through: `n` calls in a row whose attempt raises add `n` to its
-- count, whatever becomes of each.
failures_add_up :
    (s : Settings) (lib : Libraries) (call : Call) (w v : Writer) (n : ℕ)
    → Failing s lib call w n v
    → failed_consecutively v call.table_name ≡ failed_consecutively w call.table_name + n
unfolding write_to_clickhouse
failures_add_up s lib call w v n none_yet = omega arith
failures_add_up s lib call w v n (one_more {n = k} {v = u} before env pdf error v' threw) =
    let so_far = failures_add_up s lib call w u k before in
    let counted = attempt-Counted s lib env call u in
    let here = handle_failure_counts s lib env call pdf error v' in ground arith
