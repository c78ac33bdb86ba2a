-- ===== src/Rest/OpenInterest.antt =====
-- collectors/rest_poller.py: `OpenInterestPoller`, one turn of its loop and its `stop`.
use coinwhale_data_pipeline.Prelude.{
  ℕ, ◌+◌, String, Bool, false, Option, none, some, if◌then◌else◌, ◌==◌, List, [], ◌∷◌,
}
use coinwhale_data_pipeline.Value.{Float, Value, null, dict}
use coinwhale_data_pipeline.Routing.{Config}
use coinwhale_data_pipeline.Producer.{Producer}
use coinwhale_data_pipeline.Producer.Close.{FlushAnswer, close}
use coinwhale_data_pipeline.Rest.{
  Arithmetic, BackoffState, max_float, record_success, record_failure,
}
use coinwhale_data_pipeline.Rest.Fetch.{
  Body, json, undecodable, Reply, answered, timed_out, client_error, other_error, Request, Source,
  refused, sent, broke, deliver,
}

pub record Poller : Type 0 where
  pub symbol : String
  pub interval : Float
  pub running : Bool
  pub total_count : ℕ
  pub backoff : BackoffState
  pub kafka : Producer

unfoldable pub open_interest : Source
open_interest = record {
  collector = "OpenInterestPoller";
  path = "/fapi/v1/openInterest";
  stream_name = "openInterest";
  topic = "binance-openinterest";
}

-- What the `try` of a turn comes to: how long to sleep, or an exception.
pub data Tried : Type 0 where
  rests : Float → Poller → Tried
  threw : Poller → Tried

-- A turn ends in a sleep, or an exception escapes and ends the poller.
pub data Turn : Type 0 where
  sleeps : Float → Poller → Turn
  crashes : Poller → Turn

module _ (ar : Arithmetic) (c : Config) where
  -- `record_failure`, and the longer of the interval and its delay
  unfoldable pub back_off : Option ℕ → Option String → Float → Poller → Tried
  back_off status header random p =
      let failed = record_failure ar status header random p.backoff in
      let counted = record p { backoff = failed.0 } in
      elim failed.1 [
        | some delay ↦ rests (max_float ar p.interval delay) counted
        | none ↦ threw counted
      ]

  -- A payload of status 200. JSON's `null` passes all the tests for data and changes nothing.
  unfoldable pub receive : Request → Value → Poller → Tried
  receive rq null p = rests p.interval p
  receive rq (dict payload) p = elim (deliver c rq open_interest p.symbol payload p.kafka) [
    | refused error kafka ↦ back_off (some 200) none rq.random (record p { kafka = kafka })
    | broke kafka ↦ threw (record p { kafka = kafka })
    | sent kafka ↦ rests p.interval (record p {
      kafka = kafka;
      total_count = p.total_count + 1;
      backoff = record_success ar p.backoff;
    })
  ]
  receive rq _ p = back_off (some 200) none rq.random p

  unfoldable pub decode : Request → Body → Poller → Tried
  decode rq (json v) p = receive rq v p
  decode rq undecodable p = back_off (some 200) none rq.random p

  unfoldable pub respond : Request → ℕ → Option String → Body → Poller → Tried
  unfolding decode
  respond rq code header body p =
      if code == 200 then decode rq body p else back_off (some code) header rq.random p

  -- A handler of an exception, in which `record_failure` may raise again.
  unfoldable pub handler : Tried → Turn
  handler (rests s p) = sleeps s p
  handler (threw p) = crashes p

  unfoldable pub rescue : Request → Tried → Turn
  unfolding handler
  rescue rq (rests s p) = sleeps s p
  rescue rq (threw p) = handler (back_off none none rq.random_after p)

  unfoldable pub turn_of : Request → Reply → Poller → Turn
  turn_of rq (answered code header body) p = rescue rq (respond rq code header body p)
  turn_of rq timed_out p = handler (back_off none none rq.random p)
  turn_of rq client_error p = handler (back_off none none rq.random p)
  turn_of rq other_error p = handler (back_off none none rq.random_after p)

  -- The body of the loop, without the sleep.
  unfoldable pub turn : Request → Poller → Turn
  turn rq p = turn_of rq rq.reply p

-- The loop over the requests to come, while `running`: the poller and the sleeps.
pub data Run : Type 0 where
  at : Poller → Run
  crashed : Poller → Run

unfoldable pub start : Arithmetic → Config → List Request → Poller → Run
start ar c [] p = at p
start ar c (rq ∷ rqs) p =
    if p.running
    then (elim (turn ar c rq p) [ sleeps s p' ↦ start ar c rqs p' | crashes p' ↦ crashed p' ])
    else at p

unfoldable pub stop : FlushAnswer → Poller → Poller
stop answer p = record p { running = false; kafka = close answer p.kafka }
