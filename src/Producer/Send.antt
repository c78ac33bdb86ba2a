-- ===== src/Producer/Send.antt =====
-- common/kafka_utils.py: `send`, `_send_confluent`, `_add_delivery_callbacks` and `send_batch`.
use coinwhale_data_pipeline.Prelude.{◌+◌, String, Bool, List, [], ◌∷◌, if◌then◌else◌}
use coinwhale_data_pipeline.Producer.{
  confluent, kafka_python, Message, Producer, increment_pending, decrement_pending,
  record_delivery_success, record_delivery_failure, accept,
}
use coinwhale_data_pipeline.Producer.Dlq.{
  Answer, accepted, buffer_full, failed, Report, poll, FailureEnv, handle_delivery_failure,
}

-- A call of `send` returns, or raises with what it has changed.
pub data Outcome : Type 0 where
  returned raised : Producer → Outcome

abbrev pub after : Outcome → Producer
after (returned p) = p
after (raised p) = p

-- What the libraries answer during one call of `send`: whether the value can be serialized, the
-- client's answer and the reports of the poll behind it, the reports of the poll on a full queue,
-- the answer to the second try and its poll, and the failure's handling.
pub record SendEnv : Type 0 where
  pub serializable : Bool
  pub first : Answer
  pub first_reports : List Report
  pub full_reports : List Report
  pub second : Answer
  pub second_reports : List Report
  pub failure : FailureEnv

-- `_record_delivery_failure` and `_handle_delivery_failure`, which stand together.
unfoldable pub fail_send : SendEnv → Message → String → Producer → Producer
fail_send env m error p = handle_delivery_failure env.failure m error (record_delivery_failure p)

-- `produce`, `_increment_pending` and `poll(0)`, once the client takes the message
unfoldable pub queue_message : Message → List Report → Producer → Producer
queue_message m reports p = poll reports (increment_pending (accept m p))

-- The second try, after a poll on a full queue.
unfoldable pub retry_produce : SendEnv → Message → Producer → Producer
retry_produce env m p = elim env.second [
  | accepted ↦ queue_message m env.second_reports p
  | buffer_full ↦ fail_send env m "Local: Queue full" p
  | failed error ↦ fail_send env m error p
]

-- The value is serialized before the `try`.
unfoldable pub send_confluent : SendEnv → Message → Producer → Outcome
unfolding retry_produce
send_confluent env m p =
    if env.serializable
    then returned (elim env.first [
      | accepted ↦ queue_message m env.first_reports p
      | buffer_full ↦ retry_produce env m (poll env.full_reports p)
      | failed error ↦ fail_send env m error p
    ])
    else raised p

-- kafka-python serializes inside `producer.send`, within the `try`, and has no full queue to report.
unfoldable pub send_kafka_python : SendEnv → Message → Producer → Outcome
send_kafka_python env m p =
    if env.serializable
    then returned (elim env.first [
      | accepted ↦ increment_pending (accept m p)
      | buffer_full ↦ fail_send env m "KafkaTimeoutError" p
      | failed error ↦ fail_send env m error p
    ])
    else returned (fail_send env m "not JSON serializable" p)

unfoldable pub send : SendEnv → Message → Producer → Outcome
unfolding send_kafka_python
send env m p =
    if p.closed
    then returned (record_delivery_failure p)
    else (let counted = record p { send_attempt_count = p.send_attempt_count + 1 } in
        elim p.backend [
          | confluent ↦ send_confluent env m counted
          | kafka_python ↦ send_kafka_python env m counted
        ])

-- `on_success` and `on_failure` of `_add_delivery_callbacks`, which kafka-python runs.
unfoldable pub on_success : Producer → Producer
on_success p = record_delivery_success (decrement_pending p)

unfoldable pub on_failure : FailureEnv → Message → String → Producer → Producer
on_failure env m error p =
    handle_delivery_failure env m error (record_delivery_failure (decrement_pending p))

-- `send` for each value; an exception ends the loop.
unfoldable pub send_batch : List (SendEnv × Message) → Producer → Outcome
send_batch [] p = returned p
send_batch ((env, m) ∷ rest) p = elim (send env m p) [
  | returned p' ↦ send_batch rest p'
  | raised p' ↦ raised p'
]
