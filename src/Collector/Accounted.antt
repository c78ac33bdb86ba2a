-- ===== src/Collector/Accounted.antt =====
-- collectors/base_collector.py: the events that a collector hands on, through the thread pool, to the
-- producer's `send`.
use coinwhale_data_pipeline.Prelude.{ℕ, ◌+◌, ◌≡◌, ℤ, Bool, List, [], ◌∷◌, ◌++◌}
use coinwhale_data_pipeline.Value.{Value}
use coinwhale_data_pipeline.Producer.{Producer}
use coinwhale_data_pipeline.Collector.{Settings, Job, send_job, Collector, init}
use coinwhale_data_pipeline.Collector.Pool.{JobEnv, run_one}
use coinwhale_data_pipeline.Collector.Loop.{
  Event, Attempt, Turn, goes_on, breaks, errs, ends, arrive, connect_error, stop, sleep,
  double_delay,
}

-- A job's share in the events that wait in the pool.
abbrev pub is_send : Job → ℕ
is_send (send_job m) = 1
is_send _ = 0

-- The events that are handed to the pool and not yet to the producer.
abbrev pub waiting : List Job → ℕ
waiting [] = 0
waiting (j ∷ js) = is_send j + waiting js

-- The producer is not touched, and what is submitted waits.
record Submits (c c' : Collector) : Type 0 where
  kafka : c'.kafka ≡ c.kafka
  balance : waiting c'.jobs + c.messages_since_flush ≡ waiting c.jobs + c'.messages_since_flush

-- The collector that a turn of the inner loop leaves.
abbrev pub turned : Turn → Collector
turned (goes_on saw last c) = c
turned (breaks c) = c
turned (errs c) = c
turned (ends c) = c

-- What a collector can come to, with the number of events that the pool handed to `send` for it: whatever
-- arrives, the lines of the outer loop, and jobs that the pool takes in any order. The producer is
-- shared by the process, so that it may change in any way between these steps.
pub data Reached (s : Settings) : ℕ → Collector → Type 0 where
  begins : (p : Producer) (now : ℤ) → Reached s 0 (init p now)
  shares :
      {n : ℕ} {c : Collector}
      → Reached s n c
      → (p : Producer) → Reached s n (record c { kafka = p })
  arrives :
      {n : ℕ} {c : Collector}
      → Reached s n c
      → (e : Event) (saw : Bool) (last : ℕ) → Reached s n (turned (arrive s e saw last c))
  stops : {n : ℕ} {c : Collector} → Reached s n c → (signal : Bool) → Reached s n (stop signal c)
  errors : {n : ℕ} {c : Collector} → Reached s n c → Reached s n (connect_error c)
  sleeps : {n : ℕ} {c : Collector} → Reached s n c → (a : Attempt) → Reached s n (sleep a c)
  doubles : {n : ℕ} {c : Collector} → Reached s n c → Reached s n (double_delay c)
  runs :
      {n : ℕ} {c : Collector}
      → Reached s n c
      → (env : JobEnv) (before : List Job) (j : Job) (rest : List Job) → c.jobs ≡ before ++ j ∷ rest
      → Reached s (is_send j + n) (run_one s env before j rest c)
