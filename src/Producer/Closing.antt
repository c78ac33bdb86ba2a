-- ===== src/Producer/Closing.antt =====
-- common/kafka_utils.py: what a producer goes through from its creation to its close.
use coinwhale_data_pipeline.Prelude.{ℕ, ◌+◌, ◌≤◌, ◌≡◌, refl, String, true, Option, List, arith}
use coinwhale_data_pipeline.Producer.{
  Backend, Message, Producer, init, decrement_pending, record_delivery_success,
  record_delivery_failure, accept,
}
use coinwhale_data_pipeline.Producer.Dlq.{
  Report, FailureEnv, dlq_handler, count_dlq_failure, write_fallback, produce_dead_letter,
  dead_letter,
}
use coinwhale_data_pipeline.Producer.Send.{returned, after, SendEnv, send, on_success, on_failure}
use coinwhale_data_pipeline.Producer.BadRow.{send_bad_row, bad_row}
use coinwhale_data_pipeline.Producer.Close.{
  FlushAnswer, flushed, flush_raised, flush, after_flush, flush_error, count_flush_timeout, close,
}
use coinwhale_data_pipeline.Producer.Accounting.{
  settled, tracked, poll-Serves, HonestReports, send_counts_once, handle_delivery_failure-settled,
}

-- The reports that a flush serves.
abbrev pub served : FlushAnswer → List Report
served (flushed rs n) = rs
served (flush_raised rs) = rs

-- What a producer of a backend and a dead-letter topic can come to in `n` calls of `send`, with the
-- callbacks, flushes, bad rows and the close between them.
pub data Reached (b : Backend) (t : String) : ℕ → Producer → Type 0 where
  start : Reached b t 0 (init b t)
  sends :
      {n : ℕ} {p : Producer}
      → Reached b t n p
      → (env : SendEnv) (m : Message) → HonestReports env p
      → env.serializable ≡ true
      → Reached b t (n + 1) (after (send env m p))
  flushes :
      {n : ℕ} {p : Producer}
      → Reached b t n p
      → (a : FlushAnswer) → tracked (served a) ≤ p.pending_deliveries
      → Reached b t n (flush a p)
  closes :
      {n : ℕ} {p : Producer}
      → Reached b t n p
      → (a : FlushAnswer) → tracked (served a) ≤ p.pending_deliveries
      → Reached b t n (close a p)
  succeeds :
      {n : ℕ} {p : Producer}
      → Reached b t n p
      → 1 ≤ p.pending_deliveries
      → Reached b t n (on_success p)
  fails :
      {n : ℕ} {p : Producer}
      → Reached b t n p
      → (env : FailureEnv) (m : Message) (e : String)
      → tracked env.reports + 1 ≤ p.pending_deliveries
      → Reached b t n (on_failure env m e p)
  bad_rows :
      {n : ℕ} {p : Producer}
      → Reached b t n p
      → (env : FailureEnv) (topic type : String) (key collector : Option String)
      → tracked env.reports ≤ p.pending_deliveries
      → Reached b t n (send_bad_row env topic type key collector p)

pub flush-settled :
    (a : FlushAnswer) (p : Producer)
    → tracked (served a) ≤ p.pending_deliveries
    → settled (flush a p) ≡ settled p
unfolding flush after_flush flush_error count_flush_timeout
flush-settled (flushed rs n) p held = let s = poll-Serves rs p in ground arith
flush-settled (flush_raised rs) p held = let s = poll-Serves rs p in ground arith

pub close-settled :
    (a : FlushAnswer) (p : Producer)
    → tracked (served a) ≤ p.pending_deliveries
    → settled (close a p) ≡ settled p
unfolding close
close-settled a p held =
    let kept = flush-settled a (record p { closed = true }) held in ground arith

pub on_failure-settled :
    (env : FailureEnv) (m : Message) (e : String) (p : Producer)
    → tracked env.reports + 1 ≤ p.pending_deliveries
    → settled (on_failure env m e p) ≡ settled p
unfolding on_failure record_delivery_failure decrement_pending
on_failure-settled env m e p held =
    let kept =
      handle_delivery_failure-settled env m e (record_delivery_failure (decrement_pending p))
        (omega arith) in
    ground arith

pub send_bad_row-settled :
    (env : FailureEnv) (topic type : String) (key collector : Option String) (p : Producer)
    → tracked env.reports ≤ p.pending_deliveries
    → settled (send_bad_row env topic type key collector p) ≡ settled p
unfolding send_bad_row produce_dead_letter dlq_handler write_fallback count_dlq_failure accept
send_bad_row-settled env topic type key collector p held =
    let s =
      poll-Serves env.reports
        (accept (dead_letter p.dlq_topic (bad_row topic key collector) type) p) in
    ground arith

-- Of `n` calls of `send`, each with a value that can be serialized and a client that reports only
-- messages that it holds, and whatever callbacks, flushes, bad rows and closes came between, the
-- deliveries that succeeded, those that failed and the pending ones add up to `n`.
pub deliveries_add_up :
    (b : Backend) (t : String) (n : ℕ) (p : Producer) → Reached b t n p → settled p ≡ n
unfolding init on_success record_delivery_success decrement_pending
deliveries_add_up b t n p start = refl
deliveries_add_up b t n p (sends {n = k} {p = q} before env m honest ok) =
    let so_far = deliveries_add_up b t k q before in
    let once = send_counts_once env m q honest ok in omega arith
deliveries_add_up b t n p (flushes {n = k} {p = q} before a held) =
    let so_far = deliveries_add_up b t k q before in
    let kept = flush-settled a q held in omega arith
deliveries_add_up b t n p (closes {n = k} {p = q} before a held) =
    let so_far = deliveries_add_up b t k q before in
    let kept = close-settled a q held in omega arith
deliveries_add_up b t n p (succeeds {n = k} {p = q} before held) =
    let so_far = deliveries_add_up b t k q before in ground arith
deliveries_add_up b t n p (fails {n = k} {p = q} before env m e held) =
    let so_far = deliveries_add_up b t k q before in
    let kept = on_failure-settled env m e q held in omega arith
deliveries_add_up b t n p (bad_rows {n = k} {p = q} before env topic type key collector held) =
    let so_far = deliveries_add_up b t k q before in
    let kept = send_bad_row-settled env topic type key collector q held in omega arith

-- A second `close` changes nothing, whatever the clients answer.
pub close_twice : (a a' : FlushAnswer) (p : Producer) → close a' (close a p) ≡ close a p
unfolding close flush after_flush flush_error count_flush_timeout
close_twice (flushed rs n) a' p =
    let s = poll-Serves rs (record p { closed = true }) in ground arith
close_twice (flush_raised rs) a' p =
    let s = poll-Serves rs (record p { closed = true }) in ground arith

-- `close` on an open producer leaves it closed, and a `send` behind it reaches no client: it counts
-- a failed delivery, and nothing else changes.
pub send_after_close :
    (a : FlushAnswer) (env : SendEnv) (m : Message) (p : Producer)
    → send env m (close a p) ≡ returned (record_delivery_failure (close a p))
unfolding send close flush after_flush flush_error count_flush_timeout
send_after_close (flushed rs n) env m p =
    let s = poll-Serves rs (record p { closed = true }) in ground arith
send_after_close (flush_raised rs) env m p =
    let s = poll-Serves rs (record p { closed = true }) in ground arith
