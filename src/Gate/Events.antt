-- ===== src/Gate/Events.antt =====
-- spark_jobs/quality_gate.py: `write_quality_event` with its client cache and its fallback file. What
-- ClickHouse and the file system answer comes as an argument; an insert is one row.
use coinwhale_data_pipeline.Prelude.{
  ℕ, ◌+◌, ◌≡◌, ◌⊎◌, ltb, Bool, true, false, List, [], ◌∷◌, ◌++◌, if◌then◌else◌, arith,
}
use coinwhale_data_pipeline.Gate.Summary.{QualityEvent, lag_value}

-- The module's cache, the table and the fallback files.
pub record Store : Type 0 where
  pub client : Bool
  pub last_healthcheck : ℕ
  pub inserted : List QualityEvent
  pub fallback : List QualityEvent

-- The clock, and whether the ping, the connection, the insert and the fallback's write work.
pub record StoreEnv : Type 0 where
  pub now : ℕ
  pub ping_interval : ℕ
  pub ping_answers : Bool
  pub connects : Bool
  pub inserts : Bool
  pub writes : Bool

-- `_get_quality_event_client`: whether there is a client behind it.
renew_client : StoreEnv → Store → Bool × Store
renew_client env s =
    if env.connects
    then (true, record s { client = true; last_healthcheck = env.now })
    else (false, record s { client = false })

unfoldable pub get_quality_event_client : StoreEnv → Store → Bool × Store
unfolding renew_client
get_quality_event_client env s =
    if s.client
    then if ltb env.now (s.last_healthcheck + env.ping_interval)
      then (true, s)
      else if env.ping_answers
      then (true, record s { last_healthcheck = env.now })
      else renew_client env s
    else renew_client env s

unfoldable pub discard_quality_event_client : Store → Store
discard_quality_event_client s = record s { client = false; last_healthcheck = 0 }

-- The values of the row that is inserted.
unfoldable pub row_of : QualityEvent → QualityEvent
row_of e = record e {
  event_lag_p95_ms = lag_value e.event_lag_p95_ms;
  event_lag_p99_ms = lag_value e.event_lag_p99_ms;
}

-- The call returns, or an exception of the fallback's write leaves it.
pub data Written : Type 0 where
  returned raised : Store → Written

unfoldable pub fallback_quality_event : StoreEnv → QualityEvent → Store → Written
fallback_quality_event env e s =
    if env.writes then returned (record s { fallback = s.fallback ++ e ∷ [] }) else raised s

-- The cleanup of old artifacts behind it changes none of the state here.
unfoldable pub write_quality_event : StoreEnv → QualityEvent → Store → Written
write_quality_event env e s =
    let got = get_quality_event_client env s in
    if got.0
    then if env.inserts
      then returned (record got.1 { inserted = got.1.inserted ++ row_of e ∷ [] })
      else fallback_quality_event env e (discard_quality_event_client got.1)
    else fallback_quality_event env e (discard_quality_event_client got.1)

-- Where an event is, behind a call.
abbrev pub IsRecorded : StoreEnv → QualityEvent → Store → Written → Type 0
IsRecorded env e s (returned s') =
    ((s'.inserted ≡ s.inserted ++ row_of e ∷ []) × (s'.fallback ≡ s.fallback) × (s'.client ≡ true))
    ⊎ ((s'.inserted ≡ s.inserted) × (s'.fallback ≡ s.fallback ++ e ∷ []) × (s'.client ≡ false))
IsRecorded env e s (raised s') =
    (env.writes ≡ false)
    × (s'.inserted ≡ s.inserted)
    × (s'.fallback ≡ s.fallback)
    × (s'.client ≡ false)

-- A call that returns has recorded the event once: as a row of the table, with the client kept, or in
-- the fallback file, with the client dropped. A call raises only when the fallback file cannot be
-- written, and then the event is recorded nowhere.
pub write_quality_event-IsRecorded :
    (env : StoreEnv) (e : QualityEvent) (s : Store)
    → IsRecorded env e s (write_quality_event env e s)
unfolding write_quality_event get_quality_event_client renew_client discard_quality_event_client
    fallback_quality_event
write_quality_event-IsRecorded env e s = ground arith
