-- ===== src/Collector/Waits.antt =====
-- collectors/base_collector.py: what the handling of frames leaves alone, and the delays of `start`.
use coinwhale_data_pipeline.Prelude.{
  ℕ, ◌+◌, ◌*◌, ◌/◌, ◌≤◌, ◌≡◌, min, ℤ, String, Bool, true, false, Option, none, some, List, [], ◌∷◌,
  ◌++◌, All, arith, subst, sym,
}
use coinwhale_data_pipeline.Value.{Value}
use coinwhale_data_pipeline.Routing.{PartitionRoute}
use coinwhale_data_pipeline.Schema.{
  Checked, passes, fails, raises, Time, time, no_time, time_raises,
}
use coinwhale_data_pipeline.Producer.Close.{FlushAnswer}
use coinwhale_data_pipeline.Collector.{
  Settings, Collector, Clock, record_error, record_source_success, record_reconnect, submit,
  send_bad_row, verify_startup, submit_send, send_checked, send_timed, send_to_kafka,
}
use coinwhale_data_pipeline.Collector.Accounted.{turned}
use coinwhale_data_pipeline.Collector.Loop.{
  Frame, not_json, not_object, object, Event, message, silence, connection_closed, other_error,
  cancelled, Arrival, report_metrics, process, receive, reset_delay, arrive, Left, drops, stops,
  waits, connect_error, stop, listen, Connection, connected, refused, connect_cancelled, connect,
  Attempt, jittered_sleep, sleep, double_delay, Started, finished, escaped, pending, finish, start,
}

-- The loop's own state is untouched, and the producer is.
pub record SameWaits (c c' : Collector) : Type 0 where
  pub running : c'.running ≡ c.running
  pub delay : c'.reconnect_delay ≡ c.reconnect_delay
  pub slept : c'.slept ≡ c.slept
  pub kafka : c'.kafka ≡ c.kafka

submit_send-SameWaits :
    (s : Settings) (topic : String) (body : Value) (route : Option PartitionRoute) (c : Collector)
    → SameWaits c (submit_send s topic body route c)
unfolding submit_send verify_startup submit record_error record_source_success
submit_send-SameWaits s topic body none c = ground arith
submit_send-SameWaits s topic body (some route) c = ground arith

send_checked-SameWaits :
    (s : Settings) (k : Clock) (topic : String) (payload body : Value) (r : Checked) (c : Collector)
    → SameWaits c (send_checked s k topic payload body r c)
unfolding send_checked send_bad_row submit record_error
send_checked-SameWaits s k topic payload body raises c = ground arith
send_checked-SameWaits s k topic payload body (fails e) c = ground arith
send_checked-SameWaits s k topic payload body passes c = grind (arith, submit_send-SameWaits)

send_timed-SameWaits :
    (s : Settings) (k : Clock) (topic stream : String) (payload : Value) (t : Time) (c : Collector)
    → SameWaits c (send_timed s k topic stream payload t c)
unfolding send_timed record_error
send_timed-SameWaits s k topic stream payload time_raises c = ground arith
send_timed-SameWaits s k topic stream payload (time ts) c = grind (arith, send_checked-SameWaits)
send_timed-SameWaits s k topic stream payload no_time c = grind (arith, send_checked-SameWaits)

process-SameWaits :
    (s : Settings) (k : Clock) (f : Frame) (c : Collector) → SameWaits c (process s k f c)
unfolding process record_error send_to_kafka
process-SameWaits s k not_json c = ground arith
process-SameWaits s k not_object c = ground arith
process-SameWaits s k (object stream data_of) c = grind (arith, send_timed-SameWaits)

pub receive-SameWaits :
    (s : Settings) (k : Clock) (f : Frame) (wall : ℤ) (c : Collector)
    → SameWaits c (receive s k f wall c)
unfolding receive report_metrics
receive-SameWaits s k f wall c =
    let processed =
      process-SameWaits s k f
        (record c { total_count = c.total_count + 1; sec_count = c.sec_count + 1 }) in
    ground arith

-- A wait between half the first delay and the longest.
abbrev pub InRange : ℕ → Type 0
InRange w = (1500 ≤ w) × (w ≤ 60000)

-- The delay is between the first and the longest, and so are the waits, but for the jitter.
pub record InBounds (c : Collector) : Type 0 where
  pub low : 3000 ≤ c.reconnect_delay
  pub high : c.reconnect_delay ≤ 60000
  pub waits : All InRange c.slept

-- The documented range of `random.uniform`.
abbrev pub IsUniform : (ℕ → ℕ → ℕ) → Type 0
IsUniform u = (a b : ℕ) → a ≤ b → (a ≤ u a b) × (u a b ≤ b)

All-snoc : (ws : List ℕ) (w : ℕ) → All InRange ws → InRange w → All InRange (ws ++ w ∷ [])
All-snoc [] w all one = (one, tt)
All-snoc (x ∷ ws) w all one = (all.0, All-snoc ws w all.1 one)

jittered_sleep-InRange :
    (u : ℕ → ℕ → ℕ) (delay : ℕ) → IsUniform u → 3000 ≤ delay → InRange (jittered_sleep u delay)
unfolding jittered_sleep
jittered_sleep-InRange u delay uniform low =
    let base = min delay 60000 in
    let drawn = uniform (base / 2) (base * 3 / 2) (omega arith) in (omega arith, omega arith)

sleep-InBounds :
    (t : Attempt) (c : Collector) → IsUniform t.uniform → InBounds c → InBounds (sleep t c)
unfolding sleep
sleep-InBounds t c uniform b = record {
  low = b.low;
  high = b.high;
  waits =
      All-snoc c.slept (jittered_sleep t.uniform c.reconnect_delay) b.waits
        (jittered_sleep-InRange t.uniform c.reconnect_delay uniform b.low);
}

double_delay-InBounds : (c : Collector) → InBounds c → InBounds (double_delay c)
unfolding double_delay
double_delay-InBounds c b =
    let low = b.low in record { low = omega arith; high = omega arith; waits = b.waits }

same-InBounds : (c c' : Collector) → SameWaits c c' → InBounds c → InBounds c'
same-InBounds c c' same b = record {
  low = subst (λ d. 3000 ≤ d) (sym same.delay) b.low;
  high = subst (λ d. d ≤ 60000) (sym same.delay) b.high;
  waits = subst (λ ws. All InRange ws) (sym same.slept) b.waits;
}

reset_delay-InBounds : (saw : Bool) (c : Collector) → InBounds c → InBounds (reset_delay saw c)
unfolding reset_delay
reset_delay-InBounds true c b = b
reset_delay-InBounds false c b = record { low = omega arith; high = omega arith; waits = b.waits }

arrive-InBounds :
    (s : Settings) (e : Event) (saw : Bool) (last : ℕ) (c : Collector)
    → InBounds c
    → InBounds (turned (arrive s e saw last c))
unfolding arrive record_reconnect record_error
arrive-InBounds s (message f k now wall) saw last c b =
    same-InBounds (reset_delay saw c) (receive s k f wall (reset_delay saw c))
      (receive-SameWaits s k f wall (reset_delay saw c)) (reset_delay-InBounds saw c b)
arrive-InBounds s (silence now) saw last c b = ground arith
arrive-InBounds s connection_closed saw last c b = record {
  low = b.low;
  high = b.high;
  waits = b.waits;
}
arrive-InBounds s other_error saw last c b = b
arrive-InBounds s cancelled saw last c b = record { low = b.low; high = b.high; waits = b.waits }

-- The collector behind a connection, and behind `start`.
abbrev pub left : Left → Collector
left (drops c) = c
left (stops c) = c
left (waits c) = c

abbrev pub held : Started → Collector
held (finished c) = c
held (escaped c) = c
held (pending c) = c

connect_error-InBounds : (c : Collector) → InBounds c → InBounds (connect_error c)
unfolding connect_error record_reconnect record_error
connect_error-InBounds c b = record { low = b.low; high = b.high; waits = b.waits }

stop-InBounds : (signal : Bool) (c : Collector) → InBounds c → InBounds (stop signal c)
unfolding stop
stop-InBounds signal c b = record { low = b.low; high = b.high; waits = b.waits }

listen-InBounds :
    (s : Settings) (as_ : List Arrival) (saw : Bool) (last : ℕ) (c : Collector)
    → InBounds c
    → InBounds (left (listen s as_ saw last c))
unfolding listen
listen-InBounds s [] saw last c b = ground arith
listen-InBounds s (a ∷ rest) saw last c b =
    let first =
      arrive-InBounds s a.event saw last (stop a.stopped c) (stop-InBounds a.stopped c b) in
    let later : (saw' : Bool) (last' : ℕ) (c' : Collector)
        → InBounds c'
        → InBounds (left (listen s rest saw' last' c')) =
      λ saw' last' c' b'. listen-InBounds s rest saw' last' c' b' in
    grind (arith, later, connect_error-InBounds)

connect-InBounds :
    (s : Settings) (k : Connection) (c : Collector) → InBounds c → InBounds (left (connect s k c))
unfolding connect
connect-InBounds s (connected now arrivals) c b = listen-InBounds s arrivals false now c b
connect-InBounds s refused c b = connect_error-InBounds c b
connect-InBounds s connect_cancelled c b = record { low = b.low; high = b.high; waits = b.waits }

-- Whatever the connections of a collector bring, every wait between two of them lasts between 1.5 and
-- 60 seconds, and the delay stays between 3 and 60 seconds, when the delay and the waits so far are
-- in these bounds and every draw of `random.uniform` is within its documented range.
pub start-InBounds :
    (s : Settings) (answer : FlushAnswer) (ts : List Attempt) (c : Collector)
    → All (λ (t : Attempt). IsUniform t.uniform) ts
    → InBounds c
    → InBounds (held (start s answer ts c))
unfolding start finish
start-InBounds s answer [] c uniform b = ground arith
start-InBounds s answer (t ∷ rest) c uniform b =
    let joined = connect-InBounds s t.connection (stop t.stopped c) (stop-InBounds t.stopped c b) in
    let slept : (c' : Collector) → InBounds c' → InBounds (sleep t c') =
      λ c' b'. sleep-InBounds t c' uniform.0 b' in
    let later : (c' : Collector) → InBounds c' → InBounds (held (start s answer rest c')) =
      λ c' b'. start-InBounds s answer rest c' uniform.1 b' in
    grind (arith, slept, later, stop-InBounds, double_delay-InBounds)
