-- ===== src/Collector.antt =====
-- collectors/base_collector.py: the state of `BaseBinanceCollector`, `_send_to_kafka`, `_send_bad_row`
-- and the recording of errors. What runs in the thread pool is a queue of jobs. Prometheus metrics,
-- the health records and the dashboard are left out.
pub mod Pool
pub mod Loop
pub mod Accounted
pub mod Outcomes
pub mod Waits
pub mod Trying
mod Examples
use coinwhale_data_pipeline.Prelude.{
  ℕ, ◌+◌, leb, ℤ, pos, ◌+ℤ◌, leb_ℤ, String, Bool, true, false, Option, none, some, List, [], ◌∷◌,
  ◌++◌, ◌=ˢ◌, if◌then◌else◌, upper,
}
use coinwhale_data_pipeline.Value.{Value, null, int, str, dict, Fields, end, field}
use coinwhale_data_pipeline.Routing.{Config, PartitionRoute, build_partition_route}
use coinwhale_data_pipeline.Routing.Topics.{get_topic}
use coinwhale_data_pipeline.Schema.{
  Checked, passes, fails, raises, TopicContract, Dates, Time, time, no_time, time_raises,
}
use coinwhale_data_pipeline.Schema.Events.{validate_collector_event, infer_topic_time}
use coinwhale_data_pipeline.Producer.{Backend, event, Message, Producer}
use coinwhale_data_pipeline.Producer as Kafka

-- What a collector is made with, and the configuration that it reads. Times and waits are in
-- milliseconds.
pub record Settings : Type 0 where
  pub symbol : String
  pub market_type : String
  pub class_name : String
  pub dash_name : String
  pub startup_verify_messages : ℕ
  pub idle_reconnect_ms : ℕ
  pub contracts : String → Option TopicContract
  pub dates : Dates
  pub config : Config

-- A call that the collector hands to the thread pool: of `send`, `send_bad_row` or `flush`.
pub data Job : Type 0 where
  send_job : Message → Job
  bad_row_job : String → String → Job
  flush_job : Job

-- The fields of the collector, with the delay of `start` and the waits that it slept.
pub record Collector : Type 0 where
  pub running : Bool
  pub total_count : ℕ
  pub sec_count : ℕ
  pub last_report_ms : ℤ
  pub printed_samples : ℕ
  pub messages_since_flush : ℕ
  pub consecutive_errors : ℕ
  -- the error types of `_record_error` and the reasons of `_record_reconnect`
  pub errors : List String
  pub reconnects : List String
  pub jobs : List Job
  pub kafka : Producer
  pub reconnect_delay : ℕ
  pub slept : List ℕ

-- `__init__`, and the delay at the head of `start`. The producer is the one of the process, which all
-- collectors and pollers share.
unfoldable pub init : Producer → ℤ → Collector
init kafka now = record {
  running = true;
  total_count = 0;
  sec_count = 0;
  last_report_ms = now;
  printed_samples = 0;
  messages_since_flush = 0;
  consecutive_errors = 0;
  errors = [];
  reconnects = [];
  jobs = [];
  kafka = kafka;
  reconnect_delay = 3000;
  slept = [];
}

unfoldable pub record_error : String → Collector → Collector
record_error error_type c = record c {
  consecutive_errors = c.consecutive_errors + 1;
  errors = c.errors ++ error_type ∷ [];
}

unfoldable pub record_source_success : Collector → Collector
record_source_success c = record c { consecutive_errors = 0 }

unfoldable pub record_reconnect : String → Collector → Collector
record_reconnect reason c = record c { reconnects = c.reconnects ++ reason ∷ [] }

-- `loop.run_in_executor`
unfoldable pub submit : Job → Collector → Collector
submit job c = record c { jobs = c.jobs ++ job ∷ [] }

-- `_send_bad_row`
unfoldable pub send_bad_row : String → String → Collector → Collector
send_bad_row topic error_type c = submit (bad_row_job topic error_type) (record_error error_type c)

-- What a call of `_send_to_kafka` meets: the clock, and `is_json_serializable` of the message.
pub record Clock : Type 0 where
  pub ts_ms : ℤ
  pub is_json_serializable : Bool

time_value : Time → Value
time_value (time ts) = int ts
time_value _ = null

-- The text of the message, under its keys in their order.
unfoldable pub message_value : Settings → String → String → Time → Value → ℤ → Value
unfolding time_value
message_value s stream topic event_time payload ts_ms = dict (
    field "schema_version" (int (pos 1)) (
      field "event_time_ms" (time_value event_time) (
        field "ingested_at_ms" (int ts_ms) (
          field "source" (str stream) (
            field "collector" (str s.class_name) (
              field "symbol" (str (upper s.symbol)) (
                field "topic" (str topic) (
                  field "stream" (str stream)
                    (field "data" payload (field "ts" (int ts_ms) end))))))))))

-- The startup messages are flushed.
unfoldable pub verify_startup : Settings → Collector → Collector
verify_startup s c = if leb c.total_count s.startup_verify_messages then submit flush_job c else c

-- The end of `_send_to_kafka`, on the route of the message.
unfoldable pub submit_send :
    Settings → String → Value → Option PartitionRoute → Collector → Collector
submit_send s topic body none c = record_error "kafka_send" c
submit_send s topic body (some route) c =
    let m : Message = record {
      topic = topic;
      key = some route.key;
      partition = route.partition;
      collector = some s.dash_name;
      body = event body;
    } in
    let sent = submit (send_job m) (record_source_success c) in
    verify_startup s (record sent { messages_since_flush = sent.messages_since_flush + 1 })

unfoldable pub route_of : Settings → String → ℤ → Value → Option PartitionRoute
route_of s topic ts_ms (dict payload) =
    build_partition_route s.config topic (upper s.symbol) ts_ms payload
route_of s topic ts_ms _ = none

-- What is done with the answer of the validation. An empty error type is as good as none.
unfoldable pub send_checked :
    Settings → Clock → String → Value → Value → Checked → Collector → Collector
unfolding route_of
send_checked s k topic payload body raises c = record_error "kafka_send" c
send_checked s k topic payload body (fails error) c =
    send_bad_row topic (if error =ˢ "" then "schema_validation_failed" else error) c
send_checked s k topic payload body passes c =
    if k.is_json_serializable
    then submit_send s topic body (route_of s topic k.ts_ms payload) c
    else send_bad_row topic "json_serialization_error" c

unfoldable pub send_timed :
    Settings → Clock → String → String → Value → Time → Collector → Collector
send_timed s k topic stream payload time_raises c = record_error "kafka_send" c
send_timed s k topic stream payload event_time c =
    send_checked s k topic payload (message_value s stream topic event_time payload k.ts_ms)
      (validate_collector_event s.dates s.contracts topic stream (upper s.symbol) payload k.ts_ms) c

-- `_send_to_kafka`, which is the `process_data` of every collector. The time of the event is read
-- before the validation; any exception is an error of its own.
unfoldable pub send_to_kafka : Settings → Clock → String → Value → Collector → Collector
send_to_kafka s k stream payload c =
    let topic = get_topic stream s.market_type in
    send_timed s k topic stream payload (infer_topic_time s.dates payload (s.contracts topic)) c
