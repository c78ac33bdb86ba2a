-- ===== src/Producer/BadRow.antt =====
-- common/kafka_utils.py: `send_bad_row`, which goes round `send` on its way to the dead letters.
use coinwhale_data_pipeline.Prelude.{String, ◌||◌, Option, none, ◌=ˢ◌, if◌then◌else◌}
use coinwhale_data_pipeline.Producer.{Message, Producer, event}
use coinwhale_data_pipeline.Producer.Dlq.{FailureEnv, produce_dead_letter, dlq_handler}
use coinwhale_data_pipeline.Value.{null}

-- The bad row as a message of its original topic; its payload stays in the context.
unfoldable pub bad_row : String → Option String → Option String → Message
bad_row original_topic key collector = record {
  topic = original_topic;
  key = key;
  partition = none;
  collector = collector;
  body = event null;
}

unfoldable pub send_bad_row :
    FailureEnv → String → String → Option String → Option String → Producer → Producer
send_bad_row env original_topic error_type key collector p =
    let m = bad_row original_topic key collector in
    if original_topic =ˢ p.dlq_topic || p.closed
    then dlq_handler m error_type env.first_write p
    else produce_dead_letter env m error_type p
