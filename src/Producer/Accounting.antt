-- ===== src/Producer/Accounting.antt =====
-- common/kafka_utils.py: how the calls of `send` are counted in the state of the wrapper.
use coinwhale_data_pipeline.Prelude.{
  ℕ, ◌+◌, ◌-◌, ◌≤◌, ◌≡◌, String, Bool, true, false, Option, none, some, List, [], ◌∷◌, arith,
}
use coinwhale_data_pipeline.Producer.{
  Body, event, dead, Message, Producer, classify_error, increment_pending, decrement_pending,
  record_delivery_success, record_delivery_failure, accept,
}
use coinwhale_data_pipeline.Producer.Dlq.{
  Report, count_dlq_failure, write_fallback, dlq_handler, dlq_in_callback,
  record_dlq_delivery_failure, handle_in_callback, reported, on_delivery, serve, poll, FailureEnv,
  dead_letter, produce_dead_letter, handle_delivery_failure,
}
use coinwhale_data_pipeline.Producer.Send.{
  after, SendEnv, fail_send, queue_message, retry_produce, send_confluent, send_kafka_python, send,
}

-- The calls of `send` that are accounted for.
abbrev pub settled : Producer → ℕ
settled p = p.delivery_success_count + p.delivery_failure_count + p.pending_deliveries

-- The counters of deliveries are untouched, and so is what decides between branches.
pub record SameCounts (p q : Producer) : Type 0 where
  pub pending : q.pending_deliveries ≡ p.pending_deliveries
  pub success : q.delivery_success_count ≡ p.delivery_success_count
  pub failure : q.delivery_failure_count ≡ p.delivery_failure_count
  pub attempts : q.send_attempt_count ≡ p.send_attempt_count
  pub closed : q.closed ≡ p.closed
  pub backend : q.backend ≡ p.backend
  pub dlq_topic : q.dlq_topic ≡ p.dlq_topic

dlq_handler-SameCounts :
    (m : Message) (t : String) (w : Bool) (p : Producer) → SameCounts p (dlq_handler m t w p)
unfolding dlq_handler write_fallback count_dlq_failure
dlq_handler-SameCounts m t true p = ground arith
dlq_handler-SameCounts m t false p = ground arith

dlq_in_callback-SameCounts :
    (m : Message) (t : String) (v w : Bool) (p : Producer)
    → SameCounts p (dlq_in_callback m t v w p)
unfolding dlq_in_callback dlq_handler write_fallback count_dlq_failure
dlq_in_callback-SameCounts m t true w p = ground arith
dlq_in_callback-SameCounts m t false true p = ground arith
dlq_in_callback-SameCounts m t false false p = ground arith

handle_in_callback-SameCounts :
    (r : Report) (e : String) (p : Producer) → SameCounts p (handle_in_callback r e p)
unfolding handle_in_callback count_dlq_failure
handle_in_callback-SameCounts r e p = grind (arith, dlq_in_callback-SameCounts)

-- The messages among the reports whose callback counts a delivery.
abbrev pub is_tracked : Body → ℕ
is_tracked (event v) = 1
is_tracked (dead d) = 0

abbrev pub tracked : List Report → ℕ
tracked [] = 0
tracked (r ∷ rs) = is_tracked r.message.body + tracked rs

-- `n` reports of pending messages were served: each went over to the successes or the failures.
pub record Serves (n : ℕ) (p q : Producer) : Type 0 where
  pub pending : q.pending_deliveries ≡ p.pending_deliveries - n
  pub settles : n ≤ p.pending_deliveries → settled q ≡ settled p
  pub attempts : q.send_attempt_count ≡ p.send_attempt_count
  pub closed : q.closed ≡ p.closed
  pub backend : q.backend ≡ p.backend
  pub dlq_topic : q.dlq_topic ≡ p.dlq_topic

reported-Serves : (r : Report) (e : Option String) (p : Producer) → Serves 1 p (reported r e p)
unfolding reported record_delivery_success record_delivery_failure decrement_pending
reported-Serves r none p = ground arith
reported-Serves r (some e) p =
    let same = handle_in_callback-SameCounts r e (record_delivery_failure (decrement_pending p)) in
    ground arith

serve-Serves : (r : Report) (b : Body) (p : Producer) → Serves (is_tracked b) p (serve r b p)
unfolding serve on_delivery record_dlq_delivery_failure write_fallback count_dlq_failure
serve-Serves r (event v) p =
    let one = reported-Serves r r.error (record p { in_delivery_callback = true }) in ground arith
serve-Serves r (dead d) p = ground arith

pub poll-Serves : (rs : List Report) (p : Producer) → Serves (tracked rs) p (poll rs p)
unfolding poll
poll-Serves [] p = ground arith
poll-Serves (r ∷ rs) p =
    let first = serve-Serves r r.message.body p in
    let rest = poll-Serves rs (serve r r.message.body p) in ground arith

-- A failure that is handled: the dead letter itself is not tracked, so only the poll behind it settles anything.
pub handle_delivery_failure-settled :
    (env : FailureEnv) (m : Message) (e : String) (p : Producer)
    → tracked env.reports ≤ p.pending_deliveries
    → settled (handle_delivery_failure env m e p) ≡ settled p
unfolding handle_delivery_failure produce_dead_letter dlq_handler dlq_in_callback write_fallback
    count_dlq_failure accept
handle_delivery_failure-settled env m e p held =
    let served =
      poll-Serves env.reports (accept (dead_letter p.dlq_topic m (classify_error e)) p) in
    ground arith

-- The client reports each message at most once, and only messages that it holds.
pub record HonestReports (env : SendEnv) (p : Producer) : Type 0 where
  pub first : tracked env.first_reports ≤ p.pending_deliveries + 1
  pub full : tracked env.full_reports ≤ p.pending_deliveries
  pub second : tracked env.full_reports + tracked env.second_reports ≤ p.pending_deliveries + 1
  pub failure : tracked env.full_reports + tracked env.failure.reports ≤ p.pending_deliveries

queue_message-settled :
    (m : Message) (rs : List Report) (p : Producer)
    → tracked rs ≤ p.pending_deliveries + 1
    → settled (queue_message m rs p) ≡ settled p + 1
unfolding queue_message increment_pending accept
queue_message-settled m rs p held =
    let served = poll-Serves rs (increment_pending (accept m p)) in ground arith

fail_send-settled :
    (env : SendEnv) (m : Message) (e : String) (p : Producer)
    → tracked env.failure.reports ≤ p.pending_deliveries
    → settled (fail_send env m e p) ≡ settled p + 1
unfolding fail_send record_delivery_failure
fail_send-settled env m e p held =
    let kept = handle_delivery_failure-settled env.failure m e (record_delivery_failure p) held in
    ground arith

retry_produce-settled :
    (env : SendEnv) (m : Message) (p : Producer)
    → tracked env.second_reports ≤ p.pending_deliveries + 1
    → tracked env.failure.reports ≤ p.pending_deliveries
    → settled (retry_produce env m p) ≡ settled p + 1
unfolding retry_produce
retry_produce-settled env m p second failure =
    let queued = queue_message-settled m env.second_reports p second in
    grind (arith, fail_send-settled)

send_confluent-settled :
    (env : SendEnv) (m : Message) (p : Producer)
    → HonestReports env p
    → env.serializable ≡ true
    → settled (after (send_confluent env m p)) ≡ settled p + 1
unfolding send_confluent
send_confluent-settled env m p honest ok =
    let served = poll-Serves env.full_reports p in
    let retried = retry_produce-settled env m (poll env.full_reports p) in
    let queued = queue_message-settled m env.first_reports p honest.first in
    let failing = honest.failure in grind (arith, fail_send-settled)

send_kafka_python-settled :
    (env : SendEnv) (m : Message) (p : Producer)
    → HonestReports env p
    → settled (after (send_kafka_python env m p)) ≡ settled p + 1
unfolding send_kafka_python increment_pending accept
send_kafka_python-settled env m p honest =
    let failing = honest.failure in grind (arith, fail_send-settled)

-- A call of `send` with a value that can be serialized is counted once, as pending, delivered or
-- failed, when the client reports only messages that it holds; on a closed producer too.
pub send_counts_once :
    (env : SendEnv) (m : Message) (p : Producer)
    → HonestReports env p
    → env.serializable ≡ true
    → settled (after (send env m p)) ≡ settled p + 1
unfolding send record_delivery_failure
send_counts_once env m p honest ok =
    let counted = record p { send_attempt_count = p.send_attempt_count + 1 } in
    let counted_honest : HonestReports env counted = record {
      first = honest.first;
      full = honest.full;
      second = honest.second;
      failure = honest.failure;
    } in
    grind (
      arith,
      send_confluent-settled env m counted counted_honest ok,
      send_kafka_python-settled env m counted counted_honest,
    )
