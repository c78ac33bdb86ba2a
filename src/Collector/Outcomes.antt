-- ===== src/Collector/Outcomes.antt =====
-- collectors/base_collector.py: what becomes of an event that a collector receives.
use mathlib.Core.List.{append_assoc}
use coinwhale_data_pipeline.Prelude.{
  ◌+◌, leb, ◌≡◌, refl, ◌⊎◌, inl, inr, String, true, false, Option, none, some, List, [], ◌∷◌, ◌++◌,
  Bool-cases, if◌then◌else◌, upper, arith, ◌=ˢ◌,
}
use coinwhale_data_pipeline.Value.{Value, null, bool, int, float, str, list, dict}
use coinwhale_data_pipeline.Routing.{PartitionRoute}
use coinwhale_data_pipeline.Routing.Topics.{get_topic}
use coinwhale_data_pipeline.Schema.{
  Checked, passes, fails, raises, Time, time, no_time, time_raises,
}
use coinwhale_data_pipeline.Schema.Events.{validate_collector_event, infer_topic_time}
use coinwhale_data_pipeline.Producer.{event, Message}
use coinwhale_data_pipeline.Collector.{
  Settings, Job, send_job, bad_row_job, flush_job, Collector, Clock, record_error,
  record_source_success, submit, send_bad_row, verify_startup, submit_send, route_of, send_checked,
  send_timed, send_to_kafka,
}

-- The flush behind a startup message.
abbrev pub startup_jobs : Settings → Collector → List Job
startup_jobs s c = if leb c.total_count s.startup_verify_messages then flush_job ∷ [] else []

-- The event goes out, in one message of its topic; the errors are over.
abbrev pub GoesOut : Settings → String → Collector → Collector → Type 0
GoesOut s topic c c' =
    (m : Message) × (m.topic ≡ topic)
    × (c'.jobs ≡ c.jobs ++ send_job m ∷ startup_jobs s c)
    × (c'.consecutive_errors ≡ 0)
    × (c'.messages_since_flush ≡ c.messages_since_flush + 1)

-- The event is put aside as a bad row, with an error type that is recorded.
abbrev pub IsPutAside : String → Collector → Collector → Type 0
IsPutAside topic c c' =
    (error : String) × ((error =ˢ "") ≡ false)
    × (c'.jobs ≡ c.jobs ++ bad_row_job topic error ∷ [])
    × (c'.errors ≡ c.errors ++ error ∷ [])
    × (c'.consecutive_errors ≡ c.consecutive_errors + 1)

-- The event is dropped, with an error that is recorded.
abbrev pub IsDropped : Collector → Collector → Type 0
IsDropped c c' =
    (c'.jobs ≡ c.jobs)
    × (c'.errors ≡ c.errors ++ "kafka_send" ∷ [])
    × (c'.consecutive_errors ≡ c.consecutive_errors + 1)

submit_send-GoesOut :
    (s : Settings) (topic : String) (body : Value) (r : Option PartitionRoute) (c : Collector)
    → GoesOut s topic c (submit_send s topic body r c) ⊎ IsDropped c (submit_send s topic body r c)
unfolding submit_send verify_startup submit record_error record_source_success
submit_send-GoesOut s topic body none c = inr (refl, refl, refl)
submit_send-GoesOut s topic body (some route) c =
    let m : Message = record {
      topic = topic;
      key = some route.key;
      partition = route.partition;
      collector = some s.dash_name;
      body = event body;
    } in
    let regroup = append_assoc c.jobs (send_job m ∷ []) (flush_job ∷ []) in
    inl (m, refl, grind (arith, regroup), ground arith, ground arith)

-- The tests that an event passes when it goes out.
abbrev pub IsFit : Settings → Clock → String → Value → Type 0
IsFit s k stream payload =
    (validate_collector_event s.dates s.contracts (get_topic stream s.market_type) stream
        (upper s.symbol) payload k.ts_ms
      ≡ passes)
    × (k.is_json_serializable ≡ true)

abbrev pub Outcome : Settings → Clock → String → Value → Collector → Collector → Type 0
Outcome s k stream payload c c' =
    (IsFit s k stream payload × GoesOut s (get_topic stream s.market_type) c c')
    ⊎ (IsPutAside (get_topic stream s.market_type) c c' ⊎ IsDropped c c')

module _ (s : Settings) (k : Clock) (stream : String) (payload : Value) where
  checked-Outcome :
      (body : Value) (r : Checked) (c : Collector)
      → validate_collector_event s.dates s.contracts
          (get_topic stream s.market_type)
          stream
          (upper s.symbol)
          payload
          k.ts_ms
        ≡ r
      → Outcome s k stream payload c
          (send_checked s k (get_topic stream s.market_type) payload body r c)
  unfolding send_checked send_bad_row submit record_error
  checked-Outcome body raises c is = inr (inr (refl, refl, refl))
  checked-Outcome body (fails e) c is = elim (Bool-cases (e =ˢ "")) [
    | inl blank ↦
        inr (inl ("schema_validation_failed", refl, ground arith, ground arith, ground arith))
    | inr told ↦ inr (inl (e, told, ground arith, ground arith, ground arith))
  ]
  checked-Outcome body passes c is = elim (Bool-cases k.is_json_serializable) [
    | inl fit ↦
        let sent =
          submit_send-GoesOut s (get_topic stream s.market_type) body
            (route_of s (get_topic stream s.market_type) k.ts_ms payload) c in
        ground arith
    | inr unfit ↦
        inr (inl ("json_serialization_error", refl, ground arith, ground arith, ground arith))
  ]

  timed-Outcome :
      (t : Time) (c : Collector)
      → Outcome s k stream payload c
          (send_timed s k (get_topic stream s.market_type) stream payload t c)
  unfolding send_timed record_error
  timed-Outcome time_raises c = inr (inr (refl, refl, refl))
  timed-Outcome (time ts) c = checked-Outcome _ _ c refl
  timed-Outcome no_time c = checked-Outcome _ _ c refl

  -- Every event that a collector receives has one of three ends. It goes out: it passes the validation
  -- and can be serialized, one message of its topic is handed to the pool, with a flush behind it among
  -- the first messages, and the count of errors starts again. Or it is put aside as a bad row with an
  -- error type, or it is dropped; either way one error is recorded, and no message is handed on.
  pub send_to_kafka_outcome :
      (c : Collector) → Outcome s k stream payload c (send_to_kafka s k stream payload c)
  unfolding send_to_kafka
  send_to_kafka_outcome c =
      timed-Outcome
        (infer_topic_time s.dates payload (s.contracts (get_topic stream s.market_type))) c

-- A payload that is no object.
abbrev pub IsObject : Value → Type 0
IsObject (dict fs) = Unit
IsObject _ = ⊥

-- An event whose payload is no object is dropped with the error `kafka_send`: the time of the event is
-- read before the validation, so that no bad row is written for it.
pub payload_without_fields_is_dropped :
    (s : Settings) (k : Clock) (stream : String) (payload : Value) (c : Collector)
    → ¬ IsObject payload
    → send_to_kafka s k stream payload c ≡ record_error "kafka_send" c
unfolding send_to_kafka send_timed infer_topic_time
payload_without_fields_is_dropped s k stream null c none_ = refl
payload_without_fields_is_dropped s k stream (bool b) c none_ = refl
payload_without_fields_is_dropped s k stream (int n) c none_ = refl
payload_without_fields_is_dropped s k stream (float x) c none_ = refl
payload_without_fields_is_dropped s k stream (str t) c none_ = refl
payload_without_fields_is_dropped s k stream (list vs) c none_ = refl
payload_without_fields_is_dropped s k stream (dict fs) c none_ = absurd (none_ tt)
