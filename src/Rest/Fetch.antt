-- ===== src/Rest/Fetch.antt =====
-- collectors/rest_poller.py: `_validate_rest_message`, and the delivery of a payload that both pollers
-- write out. `validate_collector_event` is a parameter here: its error type, if it has one.
use coinwhale_data_pipeline.Prelude.{ℕ, ℤ, Bool, String, Option, none, some, if◌then◌else◌, ◌=ˢ◌}
use coinwhale_data_pipeline.Value.{Float, Value, int, str, dict, Fields, end, field}
use coinwhale_data_pipeline.Routing.{Config, PartitionRoute, build_partition_route}
use coinwhale_data_pipeline.Producer.{Message, event, Producer}
use coinwhale_data_pipeline.Producer.Dlq.{FailureEnv}
use coinwhale_data_pipeline.Producer.Send.{returned, raised, SendEnv, send}
use coinwhale_data_pipeline.Producer.BadRow.{send_bad_row}

-- What a request comes to: an answer with its status, `Retry-After` and body, a timeout, an error of
-- the client, or any other exception.
pub data Body : Type 0 where
  json : Value → Body
  undecodable : Body

pub data Reply : Type 0 where
  answered : ℕ → Option String → Body → Reply
  timed_out client_error other_error : Reply

-- A request with what the other components meet behind it.
pub record Request : Type 0 where
  pub reply : Reply
  pub ts_ms : ℤ
  pub random : Float
  pub random_after : Float
  -- the error type of `validate_collector_event`, by the payload
  pub validate : Fields → Option String
  -- `is_json_serializable` of the message, which asks `json.dumps`
  pub is_json_serializable : Bool
  pub bad_row : FailureEnv
  pub send : SendEnv

pub record Source : Type 0 where
  pub collector : String
  pub path : String
  pub stream_name : String
  pub topic : String

unfoldable pub message_value : Source → String → Fields → ℤ → Value
message_value src symbol payload ts_ms = dict (
    field "symbol" (str symbol) (
      field "stream" (str src.stream_name)
        (field "data" (dict payload) (field "ts" (int ts_ms) end))))

-- The error type of a payload that is refused. An empty error type is as good as none where it is
-- given. `send` serializes by orjson where that is installed, so that a value that passes here may
-- fail there.
unfoldable pub row_error : Request → Fields → Option String
row_error rq payload = elim (rq.validate payload) [
  | some error ↦ some (if error =ˢ "" then "schema_validation_failed" else error)
  | none ↦ if rq.is_json_serializable then none else some "json_serialization_error"
]

unfoldable pub validate_rest_message :
    Request → Source → String → Fields → Producer → Option String × Producer
validate_rest_message rq src symbol payload kafka = elim (row_error rq payload) [
  | none ↦ (none, kafka)
  | some error ↦
      (some error, send_bad_row rq.bad_row src.topic error (some symbol) (some src.collector) kafka)
]

-- A payload is refused, sent, or an exception leaves the code between.
pub data Delivery : Type 0 where
  refused : String → Producer → Delivery
  sent : Producer → Delivery
  broke : Producer → Delivery

unfoldable pub send_payload :
    Request → Source → String → Fields → Option PartitionRoute → Producer → Delivery
send_payload rq src symbol payload none kafka = broke kafka
send_payload rq src symbol payload (some route) kafka =
    let message : Message = record {
      topic = src.topic;
      key = some route.key;
      partition = route.partition;
      collector = some src.collector;
      body = event (message_value src symbol payload rq.ts_ms);
    } in
    elim (send rq.send message kafka) [ returned after ↦ sent after | raised after ↦ broke after ]

unfoldable pub deliver : Config → Request → Source → String → Fields → Producer → Delivery
deliver c rq src symbol payload kafka =
    let checked = validate_rest_message rq src symbol payload kafka in
    elim checked.0 [
      | some error ↦ refused error checked.1
      | none ↦
          send_payload rq src symbol payload
            (build_partition_route c src.topic symbol rq.ts_ms payload) checked.1
    ]
