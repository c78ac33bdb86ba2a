-- ===== src/Producer.antt =====
-- common/kafka_utils.py: the state of `KafkaProducerWrapper` and its counters. The client libraries
-- are outside: what they answer comes as arguments, and what they accept is the field `produced`.
-- Metrics and log lines are left out; they change nothing here and their errors are caught.
pub mod Dlq
pub mod Send
pub mod BadRow
pub mod Close
pub mod Accounting
pub mod DeadLetters
pub mod Closing
mod Examples
use coinwhale_data_pipeline.Prelude.{
  ℕ, ◌+◌, ◌-◌, String, Bool, true, false, ◌||◌, Option, none, some, List, [], ◌∷◌, ◌++◌, ◌=ˢ◌,
  if◌then◌else◌, contains, lower, strip,
}
use coinwhale_data_pipeline.Value.{Value}

pub data Backend : Type 0 where
  confluent kafka_python : Backend

-- The dead letter that is sent for a failed message or a bad row; the texts cut for logs are left
-- out.
pub record DeadLetter : Type 0 where
  pub original_topic : String
  pub original_key : Option String
  pub original_partition : Option ℕ
  pub error_type : String
  pub collector : String

pub data Body : Type 0 where
  event : Value → Body
  dead : DeadLetter → Body

-- A message that a client library took, with what its delivery callback closes over.
pub record Message : Type 0 where
  pub topic : String
  pub key : Option String
  pub partition : Option ℕ
  pub collector : Option String
  pub body : Body

-- A line of the local fallback file.
pub record FallbackRow : Type 0 where
  pub error_type : String
  pub collector : String
  pub topic : String
  pub key : Option String

pub record Producer : Type 0 where
  pub backend : Backend
  pub dlq_topic : String
  pub closed : Bool
  pub in_delivery_callback : Bool
  pub pending_deliveries : ℕ
  pub send_attempt_count : ℕ
  pub delivery_success_count : ℕ
  pub delivery_failure_count : ℕ
  pub flush_timeout_count : ℕ
  pub dlq_failure_count : ℕ
  pub produced : List Message
  pub fallback : List FallbackRow

-- `_init_runtime_state`, on a new client
unfoldable pub init : Backend → String → Producer
init backend dlq_topic = record {
  backend = backend;
  dlq_topic = dlq_topic;
  closed = false;
  in_delivery_callback = false;
  pending_deliveries = 0;
  send_attempt_count = 0;
  delivery_success_count = 0;
  delivery_failure_count = 0;
  flush_timeout_count = 0;
  dlq_failure_count = 0;
  produced = [];
  fallback = [];
}

-- `_resolve_backend` from KAFKA_PRODUCER_BACKEND and whether confluent-kafka is installed; `none` is
-- the `RuntimeError`.
unfoldable pub resolve_backend : String → Bool → Option Backend
resolve_backend setting installed =
    let requested = lower (strip setting) in
    if requested =ˢ "confluent" || requested =ˢ "librdkafka"
    then (if installed then some confluent else none)
    else if requested =ˢ "kafka-python" || requested =ˢ "python" || requested =ˢ "legacy"
    then some kafka_python
    else if installed
    then some confluent
    else some kafka_python

-- The type of an error, from its text.
unfoldable pub classify_error : String → String
classify_error text =
    let error = lower text in
    if contains error "timeout" || contains error "timed out"
    then "connection_timeout"
    else if contains error "connection" || contains error "connect"
    then "connection_error"
    else if contains error "serialization"
        || contains error "serializable"
        || contains error "encode"
    then "serialization_error"
    else if contains error "size" || contains error "too large"
    then "message_too_large"
    else "unknown_error"

unfoldable pub increment_pending : Producer → Producer
increment_pending p = record p { pending_deliveries = p.pending_deliveries + 1 }

-- `max(pending - 1, 0)`
unfoldable pub decrement_pending : Producer → Producer
decrement_pending p = record p { pending_deliveries = p.pending_deliveries - 1 }

unfoldable pub record_delivery_success : Producer → Producer
record_delivery_success p = record p { delivery_success_count = p.delivery_success_count + 1 }

unfoldable pub record_delivery_failure : Producer → Producer
record_delivery_failure p = record p { delivery_failure_count = p.delivery_failure_count + 1 }

-- `name or "unknown"`
unfoldable pub or_unknown : Option String → String
or_unknown none = "unknown"
or_unknown (some s) = if s =ˢ "" then "unknown" else s

-- A client library takes a message.
unfoldable pub accept : Message → Producer → Producer
accept m p = record p { produced = p.produced ++ m ∷ [] }
