-- ===== src/Collector/Examples.antt =====
-- Runs of the collector's theorems on a trade stream that is refused, connects, and goes idle.
use coinwhale_data_pipeline.Prelude.{
  ℕ, ◌≡◌, refl, pos, true, false, none, some, List, [], ◌∷◌, arith,
}
use coinwhale_data_pipeline.Value.{Value, bits, int, float, null, dict, end, field}
use coinwhale_data_pipeline.Schema.{Dates, no_moment}
use coinwhale_data_pipeline.Producer.{confluent}
use coinwhale_data_pipeline.Producer as Kafka
use coinwhale_data_pipeline.Producer.Close.{FlushAnswer, flushed}
use coinwhale_data_pipeline.Collector.{
  Settings, Collector, init, Clock, record_error, send_to_kafka,
}
use coinwhale_data_pipeline.Collector.Loop.{
  object, Event, message, silence, connection_closed, Arrival, connected, refused, Attempt, start,
}
use coinwhale_data_pipeline.Collector.Outcomes.{
  Outcome, send_to_kafka_outcome, payload_without_fields_is_dropped,
}
use coinwhale_data_pipeline.Collector.Waits.{IsUniform, InBounds, start-InBounds, held}
use coinwhale_data_pipeline.Collector.Trying.{Ends, start-Ends, IsPending, start_keeps_trying}
use coinwhale_data_pipeline.Fixtures.{floats, config}

abbrev dates : Dates
dates = record { py = floats; zero = bits 0; is_digits = λ s. false; iso_ms = λ s. no_moment }

abbrev settings : Settings
settings = record {
  symbol = "btcusdt";
  market_type = "futures";
  class_name = "DepthKlineAggTradeCollector";
  dash_name = "DepthKlineAggTradeCollector:BTCUSDT:aggTrade";
  startup_verify_messages = 5;
  idle_reconnect_ms = 15000;
  contracts = λ topic. none;
  dates = dates;
  config = config;
}

abbrev clock : Clock
clock = record { ts_ms = pos 20000000500; is_json_serializable = true }

abbrev trade : Value
trade = dict (
    field "p" (float (bits 65000))
      (field "a" (int (pos 1)) (field "T" (int (pos 20000000000)) end)))

abbrev fresh : Collector
fresh = init (Kafka.init confluent "dlq-producer") (pos 0)

abbrev frame : Event
frame = message (object (some "btcusdt@aggTrade") (some trade)) clock 2000 (pos 2000)

abbrev at : Event → Arrival
at e = record { stopped = false; event = e }

abbrev highest : ℕ → ℕ → ℕ
highest a b = b

-- A connection that is refused, one that closes behind a frame, one that goes idle, and a refused one.
abbrev refusal : Attempt
refusal = record {
  stopped = false;
  connection = refused;
  uniform = highest;
  stopped_asleep = false;
  cancelled_asleep = false;
}

abbrev closing : Attempt
closing = record refusal { connection = connected 1000 (at frame ∷ at connection_closed ∷ []) }

abbrev idling : Attempt
idling = record refusal {
  connection = connected 3000 (at (silence 4000) ∷ at (silence 18000) ∷ []);
}

abbrev attempts : List Attempt
attempts = refusal ∷ closing ∷ idling ∷ refusal ∷ []

abbrev answer : FlushAnswer
answer = flushed [] 0

start_keeps_trying_example : IsPending (start settings answer attempts fresh)
unfolding init Kafka.init
start_keeps_trying_example =
    start_keeps_trying settings answer attempts fresh
      (
        (refl, refl, refl, tt),
        (
          (refl, refl, refl, ((refl, tt), ((refl, tt), tt))),
          ((refl, refl, refl, ((refl, tt), ((refl, tt), tt))), ((refl, refl, refl, tt), tt)),
        ),
      )
      refl

highest-IsUniform : IsUniform highest
highest-IsUniform a b le = (le, omega arith)

start-InBounds_example : InBounds (held (start settings answer attempts fresh))
unfolding init
start-InBounds_example =
    start-InBounds settings answer attempts fresh
      (highest-IsUniform, (highest-IsUniform, (highest-IsUniform, (highest-IsUniform, tt))))
      (record { low = omega arith; high = omega arith; waits = tt })

start-Ends_example : Ends fresh.kafka attempts (start settings answer attempts fresh)
start-Ends_example = start-Ends settings answer attempts fresh

send_to_kafka_outcome_example :
    Outcome settings clock "btcusdt@aggTrade" trade fresh
      (send_to_kafka settings clock "btcusdt@aggTrade" trade fresh)
send_to_kafka_outcome_example = send_to_kafka_outcome settings clock "btcusdt@aggTrade" trade fresh

payload_without_fields_is_dropped_example :
    send_to_kafka settings clock "btcusdt@aggTrade" null fresh ≡ record_error "kafka_send" fresh
payload_without_fields_is_dropped_example =
    payload_without_fields_is_dropped settings clock "btcusdt@aggTrade" null fresh (λ no. no)
