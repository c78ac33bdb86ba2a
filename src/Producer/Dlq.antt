-- ===== src/Producer/Dlq.antt =====
-- common/kafka_utils.py: `_handle_delivery_failure`, `_record_dlq_delivery_failure` and the delivery
-- callbacks, which `poll` runs.
use coinwhale_data_pipeline.Prelude.{
  ◌+◌, String, Bool, true, false, ◌&&◌, Option, none, some, List, [], ◌∷◌, ◌++◌, ◌=ˢ◌,
  if◌then◌else◌,
}
use coinwhale_data_pipeline.Producer.{
  Backend, confluent, kafka_python, DeadLetter, Body, event, dead, Message, FallbackRow, Producer,
  classify_error, decrement_pending, record_delivery_success, record_delivery_failure, or_unknown,
  accept,
}

-- What a call of a client library answers: it takes the message, its queue is full, or it raises.
pub data Answer : Type 0 where
  accepted buffer_full : Answer
  failed : String → Answer

unfoldable pub count_dlq_failure : Producer → Producer
count_dlq_failure p = record p { dlq_failure_count = p.dlq_failure_count + 1 }

-- `write_bad_row_fallback`; an `OSError` writes nothing
unfoldable pub write_fallback : Bool → FallbackRow → Producer → Producer
write_fallback true row p = record p { fallback = p.fallback ++ row ∷ [] }
write_fallback false row p = p

unfoldable pub fallback_row : Message → String → FallbackRow
fallback_row m error_type = record {
  error_type = error_type;
  collector = or_unknown m.collector;
  topic = or_unknown (some m.topic);
  key = m.key;
}

-- The handler of an error on the way to the dead letter: count it, and try the fallback file.
unfoldable pub dlq_handler : Message → String → Bool → Producer → Producer
dlq_handler m error_type written p =
    write_fallback written (fallback_row m error_type) (count_dlq_failure p)

-- The branch in a delivery callback of confluent-kafka: no message may be produced there, so the row
-- goes to the fallback file. If that raises, the handler tries again.
unfoldable pub dlq_in_callback : Message → String → Bool → Bool → Producer → Producer
dlq_in_callback m error_type first_write second_write p =
    let counted = count_dlq_failure p in
    if first_write
    then write_fallback true (fallback_row m error_type) counted
    else dlq_handler m error_type second_write counted

-- A delivery report: the message, the error if there is one, and whether the fallback file can be
-- written the first and the second time.
pub record Report : Type 0 where
  pub message : Message
  pub error : Option String
  pub first_write : Bool
  pub second_write : Bool

-- `_record_dlq_delivery_failure`, the callback of a dead letter that fails. The context that it
-- writes is that of the original message.
unfoldable pub record_dlq_delivery_failure : DeadLetter → Bool → Producer → Producer
record_dlq_delivery_failure d written p =
    write_fallback written
      (record {
        error_type = d.error_type;
        collector = d.collector;
        topic = or_unknown (some d.original_topic);
        key = d.original_key;
      })
      (count_dlq_failure p)

-- `_handle_delivery_failure` with the callback flag set, on confluent-kafka.
unfoldable pub handle_in_callback : Report → String → Producer → Producer
handle_in_callback r error p =
    if r.message.topic =ˢ p.dlq_topic
    then count_dlq_failure p
    else dlq_in_callback r.message (classify_error error) r.first_write r.second_write p

-- The body of the callback, by the error that it is given.
unfoldable pub reported : Report → Option String → Producer → Producer
reported r none p = record_delivery_success (decrement_pending p)
reported r (some error) p =
    handle_in_callback r error (record_delivery_failure (decrement_pending p))

-- The closure `on_delivery` of `_send_confluent`.
unfoldable pub on_delivery : Report → Producer → Producer
on_delivery r p =
    let entered = record p { in_delivery_callback = true } in
    record (reported r r.error entered) { in_delivery_callback = false }

-- The callback of one report: a tracked message, or a dead letter.
unfoldable pub serve : Report → Body → Producer → Producer
serve r (event v) p = on_delivery r p
serve r (dead d) p = elim r.error [
  | none ↦ p
  | some error ↦ record_dlq_delivery_failure d r.first_write p
]

-- `producer.poll(…)` of confluent-kafka: the callbacks of the reports that are ready.
unfoldable pub poll : List Report → Producer → Producer
unfolding serve
poll [] p = p
poll (r ∷ rs) p = poll rs (serve r r.message.body p)

-- The dead letter for a message that failed.
unfoldable pub dead_letter : String → Message → String → Message
dead_letter dlq_topic m error_type = record {
  topic = dlq_topic;
  key = m.key;
  partition = none;
  collector = m.collector;
  body = dead (record {
    original_topic = m.topic;
    original_key = m.key;
    original_partition = m.partition;
    error_type = error_type;
    collector = or_unknown m.collector;
  });
}

-- What the libraries and the file system answer while a failure is handled: the client's answer to
-- the dead letter, the reports that the poll behind it serves, and the two writes.
pub record FailureEnv : Type 0 where
  pub answer : Answer
  pub reports : List Report
  pub first_write : Bool
  pub second_write : Bool

-- The dead letter is taken, and on confluent-kafka a poll follows; any exception is handled.
unfoldable pub produce_dead_letter : FailureEnv → Message → String → Producer → Producer
produce_dead_letter env m error_type p = elim env.answer [
  | accepted ↦
      let sent = accept (dead_letter p.dlq_topic m error_type) p in
      elim p.backend [ confluent ↦ poll env.reports sent | kafka_python ↦ sent ]
  | buffer_full ↦ dlq_handler m error_type env.second_write p
  | failed error ↦ dlq_handler m error_type env.second_write p
]

abbrev pub is_confluent : Backend → Bool
is_confluent confluent = true
is_confluent kafka_python = false

unfoldable pub handle_delivery_failure : FailureEnv → Message → String → Producer → Producer
handle_delivery_failure env m error p =
    if m.topic =ˢ p.dlq_topic
    then count_dlq_failure p
    else if is_confluent p.backend && p.in_delivery_callback
    then dlq_in_callback m (classify_error error) env.first_write env.second_write p
    else produce_dead_letter env m (classify_error error) p
