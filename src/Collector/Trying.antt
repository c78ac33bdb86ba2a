-- ===== src/Collector/Trying.antt =====
-- collectors/base_collector.py: how `start` goes on after failures, how long it waits, and how it ends.
use native.Mathlib.Nat.{mul_comm, mul_assoc, mul-le-mul_left}
use coinwhale_data_pipeline.Prelude.{
  leb, ap, ◌∙◌, sym, ℕ, zero, suc, ◌+◌, ◌*◌, ◌^◌, ◌≤◌, ◌≡◌, refl, inl, inr, min, Bool, true, false,
  List, [], ◌∷◌, ◌||◌, any, All, length, length-append, arith, Bool-cases,
}
use coinwhale_data_pipeline.Producer.Close.{FlushAnswer}
use coinwhale_data_pipeline.Producer.Close as Close
use coinwhale_data_pipeline.Collector.{Settings, Collector, record_error, record_reconnect}
use coinwhale_data_pipeline.Collector.Loop.{
  Event, message, silence, connection_closed, other_error, cancelled, Arrival, Turn, ends,
  reset_delay, arrive, Left, drops, stops, waits, connect_error, stop, listen, Connection,
  connected, refused, connect_cancelled, connect, Attempt, jittered_sleep, sleep, double_delay,
  Started, finished, escaped, pending, finish, start,
}
use coinwhale_data_pipeline.Collector.Accounted.{turned}
use coinwhale_data_pipeline.Collector.Waits.{receive-SameWaits}
use coinwhale_data_pipeline.Producer.{Producer}
use coinwhale_data_pipeline.Producer.Close.{
  flushed, flush_raised, flush, after_flush, flush_error, count_flush_timeout,
}
use coinwhale_data_pipeline.Producer.Accounting.{poll-Serves}

-- Nothing cancels the task or stops the collector.
abbrev IsCalmEvent : Event → Type 0
IsCalmEvent cancelled = ⊥
IsCalmEvent _ = Unit

abbrev IsCalmConnection : Connection → Type 0
IsCalmConnection (connected now arrivals) =
    All (λ (a : Arrival). (a.stopped ≡ false) × IsCalmEvent a.event) arrivals
IsCalmConnection refused = Unit
IsCalmConnection connect_cancelled = ⊥

abbrev IsCalm : Attempt → Type 0
IsCalm t =
    (t.stopped ≡ false)
    × (t.stopped_asleep ≡ false)
    × (t.cancelled_asleep ≡ false)
    × IsCalmConnection t.connection

-- What a turn of the inner loop keeps: the producer, and `running` but for a cancellation.
abbrev Stays : Collector → Turn → Type 0
Stays c (ends c') = (c'.kafka ≡ c.kafka) × (c'.running ≡ false)
Stays c t = ((turned t).kafka ≡ c.kafka) × ((turned t).running ≡ c.running)

arrive-Stays :
    (s : Settings) (e : Event) (saw : Bool) (last : ℕ) (c : Collector)
    → Stays c (arrive s e saw last c)
unfolding arrive record_reconnect record_error reset_delay
arrive-Stays s (message f k now wall) true last c =
    let same = receive-SameWaits s k f wall c in (same.kafka, same.running)
arrive-Stays s (message f k now wall) false last c =
    let same = receive-SameWaits s k f wall (record c { reconnect_delay = 3000 }) in
    (same.kafka, same.running)
arrive-Stays s (silence now) saw last c = ground arith
arrive-Stays s connection_closed saw last c = (refl, refl)
arrive-Stays s other_error saw last c = (refl, refl)
arrive-Stays s cancelled saw last c = (refl, refl)

-- How a connection is left: the producer is as it was.
abbrev Leaves : Producer → Left → Type 0
Leaves p (drops c) = c.kafka ≡ p
Leaves p (stops c) = (c.kafka ≡ p) × (c.running ≡ false)
Leaves p (waits c) = (c.kafka ≡ p) × (c.running ≡ true)

listen-Leaves :
    (s : Settings) (arrivals : List Arrival) (saw : Bool) (last : ℕ) (c : Collector)
    → Leaves c.kafka (listen s arrivals saw last c)
unfolding listen connect_error stop record_reconnect record_error
listen-Leaves s [] saw last c = ground arith
listen-Leaves s (a ∷ rest) saw last c =
    let first = arrive-Stays s a.event saw last (stop a.stopped c) in
    let later : (saw' : Bool) (last' : ℕ) (c' : Collector)
        → Leaves c'.kafka (listen s rest saw' last' c') =
      λ saw' last' c'. listen-Leaves s rest saw' last' c' in
    grind (arith, later)

connect-Leaves : (s : Settings) (k : Connection) (c : Collector) → Leaves c.kafka (connect s k c)
unfolding connect connect_error record_reconnect record_error
connect-Leaves s (connected now arrivals) c = listen-Leaves s arrivals false now c
connect-Leaves s refused c = refl
connect-Leaves s connect_cancelled c = (refl, refl)

close-closed : (a : FlushAnswer) (p : Producer) → (Close.close a p).closed ≡ true
unfolding Close.close flush after_flush flush_error count_flush_timeout
close-closed (flushed rs n) p =
    let served = poll-Serves rs (record p { closed = true }) in ground arith
close-closed (flush_raised rs) p =
    let served = poll-Serves rs (record p { closed = true }) in ground arith

-- How `start` may stand, from a producer and the turns of the outer loop.
abbrev pub Ends : Producer → List Attempt → Started → Type 0
Ends p ts (finished c) = (c.running ≡ false) × (c.kafka.closed ≡ true)
Ends p ts (escaped c) =
    ((c.running || any (λ (t : Attempt). t.stopped_asleep) ts) ≡ true)
    × (any (λ (t : Attempt). t.cancelled_asleep) ts ≡ true)
    × (c.kafka ≡ p)
Ends p ts (pending c) = (c.running ≡ true) × (c.kafka ≡ p)

later_turn :
    (p : Producer) (t : Attempt) (ts : List Attempt) (r : Started) → Ends p ts r → Ends p (t ∷ ts) r
later_turn p t ts (finished c) ended = ended
later_turn p t ts (escaped c) ended = ground arith
later_turn p t ts (pending c) ended = ended

-- `start` finishes only when the collector is stopped, and leaves a closed producer behind; as long as
-- it waits, the loop leaves the producer alone; and where an exception leaves it, the task was
-- cancelled in a sleep, the producer is not closed by it, and the collector still has `running` set
-- unless a signal stopped it in a sleep.
pub start-Ends :
    (s : Settings) (answer : FlushAnswer) (ts : List Attempt) (c : Collector)
    → Ends c.kafka ts (start s answer ts c)
unfolding start stop sleep double_delay finish
start-Ends s answer [] c = grind (arith, close-closed)
start-Ends s answer (t ∷ rest) c =
    let joined = connect-Leaves s t.connection (stop t.stopped c) in
    let later : (c' : Collector) → Ends c'.kafka (t ∷ rest) (start s answer rest c') =
      λ c'. later_turn c'.kafka t rest (start s answer rest c') (start-Ends s answer rest c') in
    grind (arith, later, close-closed)

-- On a connection where nothing stops the collector, it goes on to the backoff or it waits.
abbrev KeepsRunning : Left → Type 0
KeepsRunning (drops c) = c.running ≡ true
KeepsRunning (stops c) = ⊥
KeepsRunning (waits c) = c.running ≡ true

abbrev RunsOn : Turn → Type 0
RunsOn (ends c) = ⊥
RunsOn t = (turned t).running ≡ true

arrive-RunsOn :
    (s : Settings) (e : Event) (saw : Bool) (last : ℕ) (c : Collector)
    → IsCalmEvent e
    → c.running ≡ true
    → RunsOn (arrive s e saw last c)
unfolding arrive record_reconnect
arrive-RunsOn s (message f k now wall) saw last c calm runs =
    let stays = arrive-Stays s (message f k now wall) saw last c in ground arith
arrive-RunsOn s (silence now) saw last c calm runs =
    let stays = arrive-Stays s (silence now) saw last c in ground arith
arrive-RunsOn s connection_closed saw last c calm runs = runs
arrive-RunsOn s other_error saw last c calm runs = runs
arrive-RunsOn s cancelled saw last c calm runs = elim calm [ ]

listen-KeepsRunning :
    (s : Settings) (arrivals : List Arrival) (saw : Bool) (last : ℕ) (c : Collector)
    → All (λ (a : Arrival). (a.stopped ≡ false) × IsCalmEvent a.event) arrivals
    → c.running ≡ true
    → KeepsRunning (listen s arrivals saw last c)
unfolding listen connect_error stop record_reconnect record_error
listen-KeepsRunning s [] saw last c calm runs = ground arith
listen-KeepsRunning s (a ∷ rest) saw last c calm runs =
    let still = calm.0.0 in
    let first = arrive-RunsOn s a.event saw last (stop a.stopped c) calm.0.1 (ground arith) in
    let later : (saw' : Bool) (last' : ℕ) (c' : Collector)
        → c'.running ≡ true
        → KeepsRunning (listen s rest saw' last' c') =
      λ saw' last' c' runs'. listen-KeepsRunning s rest saw' last' c' calm.1 runs' in
    grind (arith, later)

connect-KeepsRunning :
    (s : Settings) (k : Connection) (c : Collector)
    → IsCalmConnection k
    → c.running ≡ true
    → KeepsRunning (connect s k c)
unfolding connect connect_error record_reconnect record_error
connect-KeepsRunning s (connected now arrivals) c calm runs =
    listen-KeepsRunning s arrivals false now c calm runs
connect-KeepsRunning s refused c calm runs = runs
connect-KeepsRunning s connect_cancelled c calm runs = elim calm [ ]

abbrev pub IsPending : Started → Type 0
IsPending (pending c) = c.running ≡ true
IsPending _ = ⊥

-- As long as nothing stops the collector and nothing cancels its task, `start` does not end: after any
-- number of connections that were refused, closed, idle or ended by an exception it waits for more,
-- with `running` set.
pub start_keeps_trying :
    (s : Settings) (answer : FlushAnswer) (ts : List Attempt) (c : Collector)
    → All IsCalm ts
    → c.running ≡ true
    → IsPending (start s answer ts c)
unfolding start stop sleep double_delay
start_keeps_trying s answer [] c calm runs = ground arith
start_keeps_trying s answer (t ∷ rest) c calm runs =
    let still = calm.0.0 in
    let awake = calm.0.1 in
    let uncancelled = calm.0.2 in
    let joined = connect-KeepsRunning s t.connection (stop t.stopped c) calm.0.3 (ground arith) in
    let later : (c' : Collector) → c'.running ≡ true → IsPending (start s answer rest c') =
      λ c' runs'. start_keeps_trying s answer rest c' calm.1 runs' in
    grind (arith, later)

-- An attempt whose connection is refused, with nothing that stops the collector.
abbrev IsRefused : Attempt → Type 0
IsRefused t = IsCalm t × (t.connection ≡ refused)

-- Where a collector waits with a delay and a number of sleeps.
abbrev WaitsWith : ℕ → ℕ → Started → Type 0
WaitsWith delay sleeps (pending c) = (c.reconnect_delay ≡ delay) × (length c.slept ≡ sleeps)
WaitsWith delay sleeps _ = ⊥

pow-pos : (n : ℕ) → 1 ≤ 2 ^ n
pow-pos zero = omega arith
pow-pos (suc n) = omega (arith, pow-pos n)

min-scale : (e p : ℕ) → 1 ≤ p → min (min e 60000 * p) 60000 ≡ min (e * p) 60000
min-scale e p positive = elim (Bool-cases (leb e 60000)) [
  | inl small ↦ ap (λ x. min (x * p) 60000) (ground arith)
  | inr large ↦
      let capped : min e 60000 ≡ 60000 = ground arith in
      let least : 60000 ≤ e = ground arith in
      let grows = mul-le-mul_left p least in
      ap (λ x. min (x * p) 60000) capped ∙ omega (arith, mul_comm p e)
]

doubled : (d n : ℕ) → min (min (d * 2) 60000 * 2 ^ n) 60000 ≡ min (d * 2 ^ suc n) 60000
doubled d n =
    let scaled = min-scale (d * 2) (2 ^ n) (pow-pos n) in
    let moved = mul_assoc d 2 (2 ^ n) in
    let power : 2 ^ suc n ≡ 2 * 2 ^ n = omega arith in
    scaled ∙ ap (λ x. min x 60000) (moved ∙ ap (λ x. d * x) (sym power))

-- After `n` refused connections in a row, the collector slept `n` times more, and its delay is the
-- delay before times the power of two, up to 60 seconds; from a delay of at most 60 seconds.
refused_delay :
    (s : Settings) (answer : FlushAnswer) (ts : List Attempt) (c : Collector)
    → All IsRefused ts
    → c.running ≡ true
    → c.reconnect_delay ≤ 60000
    → WaitsWith
        (min (c.reconnect_delay * 2 ^ length ts) 60000)
        (length c.slept + length ts)
        (start s answer ts c)
unfolding start stop sleep double_delay connect connect_error record_reconnect record_error
refused_delay s answer [] c calm runs small = ground arith
refused_delay s answer (t ∷ rest) c calm runs small =
    let still = calm.0.0.0 in
    let awake = calm.0.0.1 in
    let uncancelled = calm.0.0.2 in
    let refusal = calm.0.1 in
    let next = min (c.reconnect_delay * 2) 60000 in
    let again : Collector =
      double_delay (stop t.stopped_asleep (sleep t (connect_error (stop t.stopped c)))) in
    let later = refused_delay s answer rest again calm.1 (ground arith) (omega arith) in
    let powers = doubled c.reconnect_delay (length rest) in
    let longer = length-append c.slept (jittered_sleep t.uniform c.reconnect_delay ∷ []) in
    ground arith
