-- ===== src/Collector/Loop.antt =====
-- collectors/base_collector.py: `start` and `_report_metrics`. The frames of the WebSocket, the clocks
-- and the random draws are arguments, as lists of what arrives.
use coinwhale_data_pipeline.Prelude.{
  ℕ, ◌+◌, ◌*◌, ◌/◌, min, ltb, leb, ℤ, pos, ◌+ℤ◌, leb_ℤ, String, Bool, true, false, not, ◌&&◌,
  Option, none, some, List, [], ◌∷◌, ◌++◌, if◌then◌else◌,
}
use coinwhale_data_pipeline.Value.{Value, dict, end}
use coinwhale_data_pipeline.Producer.Close.{FlushAnswer}
use coinwhale_data_pipeline.Producer.Close as Close
use coinwhale_data_pipeline.Collector.{
  Settings, Collector, Clock, record_error, record_reconnect, send_to_kafka,
}

-- A frame of the socket: no JSON, JSON that is no object, or an object with its `stream` and its
-- `data`, where it has them. The stream of Binance's frames is a text.
pub data Frame : Type 0 where
  not_json not_object : Frame
  object : Option String → Option Value → Frame

-- What ends a wait for a frame: the frame, with the clocks that its handling reads, the timeout, the
-- close of the connection, another exception, or the cancellation of the task.
pub data Event : Type 0 where
  message : Frame → Clock → ℕ → ℤ → Event
  silence : ℕ → Event
  connection_closed other_error cancelled : Event

-- An event, and whether a signal handler stopped the collector in the wait for it.
pub record Arrival : Type 0 where
  pub stopped : Bool
  pub event : Event

-- `_report_metrics`, at a wall clock
unfoldable pub report_metrics : ℤ → Collector → Collector
report_metrics now c =
    if leb_ℤ (c.last_report_ms +ℤ pos 1000) now
    then record c { sec_count = 0; last_report_ms = now }
    else c

or_text : String → Option String → String
or_text default none = default
or_text default (some s) = s

or_empty : Option Value → Value
or_empty none = dict end
or_empty (some v) = v

unfoldable pub process : Settings → Clock → Frame → Collector → Collector
unfolding or_text or_empty
process s k not_json c = record_error "json_parse" c
process s k not_object c = record_error "process" c
process s k (object stream data_of) c =
    let sampled =
      if ltb c.printed_samples 5 then record c { printed_samples = c.printed_samples + 1 } else c in
    send_to_kafka s k (or_text "unknown" stream) (or_empty data_of) sampled

-- The handling of one frame, without the loop's own variables.
unfoldable pub receive : Settings → Clock → Frame → ℤ → Collector → Collector
receive s k frame wall c =
    report_metrics wall (
      process s k frame (record c { total_count = c.total_count + 1; sec_count = c.sec_count + 1 }))

-- How one turn of the inner loop goes on: with `saw_message` and `last_message_at`, to the backoff,
-- to the outer `except`, or to the end of the collector.
pub data Turn : Type 0 where
  goes_on : Bool → ℕ → Collector → Turn
  breaks errs ends : Collector → Turn

-- The first frame of a connection resets the delay.
unfoldable pub reset_delay : Bool → Collector → Collector
reset_delay true c = c
reset_delay false c = record c { reconnect_delay = 3000 }

unfoldable pub arrive : Settings → Event → Bool → ℕ → Collector → Turn
arrive s (message frame k now wall) saw last c =
    goes_on true now (receive s k frame wall (reset_delay saw c))
arrive s (silence now) saw last c =
    if leb (last + s.idle_reconnect_ms) now
    then breaks (record_reconnect "idle_timeout" (record_error "ws_idle_timeout" c))
    else goes_on saw last c
arrive s connection_closed saw last c = breaks (record_reconnect "connection_closed" c)
arrive s other_error saw last c = errs c
arrive s cancelled saw last c = ends (record c { running = false })

-- How a connection is left: for the backoff, by the end of the collector, or not yet.
pub data Left : Type 0 where
  drops stops waits : Collector → Left

unfoldable pub connect_error : Collector → Collector
connect_error c = record_reconnect "connect_error" (record_error "ws_connect_error" c)

unfoldable pub stop : Bool → Collector → Collector
stop signalled c = record c { running = c.running && not signalled }

-- The inner loop, over what arrives on one connection.
unfoldable pub listen : Settings → List Arrival → Bool → ℕ → Collector → Left
listen s [] saw last c = if c.running then waits c else drops c
listen s (a ∷ rest) saw last c = elim c.running [
  | false ↦ drops c
  | true ↦ elim (arrive s a.event saw last (stop a.stopped c)) [
    | goes_on saw' last' c' ↦ listen s rest saw' last' c'
    | breaks c' ↦ drops c'
    | errs c' ↦ drops (connect_error c')
    | ends c' ↦ stops c'
  ]
]

-- What becomes of `websockets.connect`.
pub data Connection : Type 0 where
  connected : ℕ → List Arrival → Connection
  refused : Connection
  connect_cancelled : Connection

unfoldable pub connect : Settings → Connection → Collector → Left
connect s (connected now arrivals) c = listen s arrivals false now c
connect s refused c = drops (connect_error c)
connect s connect_cancelled c = stops (record c { running = false })

-- A turn of the outer loop: whether a signal came while it connected, the connection, the draw of
-- `random.uniform`, and whether a signal or a cancellation came in the sleep.
pub record Attempt : Type 0 where
  pub stopped : Bool
  pub connection : Connection
  pub uniform : ℕ → ℕ → ℕ
  pub stopped_asleep : Bool
  pub cancelled_asleep : Bool

-- `jittered_sleep`, from the delay
unfoldable pub jittered_sleep : (ℕ → ℕ → ℕ) → ℕ → ℕ
jittered_sleep uniform delay =
    let sleep_for = min delay 60000 in min 60000 (uniform (sleep_for / 2) (sleep_for * 3 / 2))

unfoldable pub sleep : Attempt → Collector → Collector
sleep t c = record c { slept = c.slept ++ jittered_sleep t.uniform c.reconnect_delay ∷ [] }

-- The delay after the sleep.
unfoldable pub double_delay : Collector → Collector
double_delay c = record c { reconnect_delay = min (c.reconnect_delay * 2) 60000 }

-- How `start` stands: it finished, an exception left it, or it waits for more to happen.
pub data Started : Type 0 where
  finished escaped pending : Collector → Started

-- The lines behind the outer loop.
unfoldable pub finish : FlushAnswer → Collector → Started
finish answer c = finished (record c { kafka = Close.close answer c.kafka })

-- A cancellation in the sleep is outside of the `try`; a signal may have come before it.
unfoldable pub start : Settings → FlushAnswer → List Attempt → Collector → Started
start s answer [] c = if c.running then pending c else finish answer c
start s answer (t ∷ rest) c = elim c.running [
  | false ↦ finish answer c
  | true ↦ elim (connect s t.connection (stop t.stopped c)) [
    | waits c' ↦ pending c'
    | stops c' ↦ finish answer c'
    | drops c' ↦ elim c'.running [
      | false ↦ finish answer c'
      | true ↦ elim t.cancelled_asleep [
        | true ↦ escaped (stop t.stopped_asleep (sleep t c'))
        | false ↦ start s answer rest (double_delay (stop t.stopped_asleep (sleep t c')))
      ]
    ]
  ]
]
