-- ===== src/Rest/LongShort.antt =====
-- collectors/rest_poller.py: `LongShortRatioPoller`. Its endpoints stand with their states of
-- `backoff_by_path`, in the order of `_ENDPOINTS`.
use coinwhale_data_pipeline.Prelude.{
  ℕ, ◌+◌, String, Option, none, some, List, [], ◌∷◌, if◌then◌else◌, ◌==◌,
}
use coinwhale_data_pipeline.Value.{Float, Value, list, dict, cons}
use coinwhale_data_pipeline.Routing.{Config}
use coinwhale_data_pipeline.Producer.{Producer}
use coinwhale_data_pipeline.Rest.{
  Arithmetic, BackoffState, max_float, record_success, record_failure,
}
use coinwhale_data_pipeline.Rest.Fetch.{
  Body, json, undecodable, Reply, answered, timed_out, client_error, other_error, Request, Source,
  refused, sent, broke, deliver,
}

endpoint : String → String → String → Source
endpoint path stream topic = record {
  collector = "LongShortRatioPoller";
  path = path;
  stream_name = stream;
  topic = topic;
}

-- `_ENDPOINTS`, with the name of the class
unfoldable pub endpoints : List Source
unfolding endpoint
endpoints =
    endpoint "/futures/data/globalLongShortAccountRatio" "globalLongShortAccountRatio"
      "binance-ls-ratio"
    ∷ endpoint "/futures/data/topLongShortAccountRatio" "topLongShortAccountRatio"
        "binance-top-ls-account"
    ∷ endpoint "/futures/data/topLongShortPositionRatio" "topLongShortPositionRatio"
        "binance-top-ls-position"
    ∷ endpoint "/futures/data/takerlongshortRatio" "takerLongShortRatio" "binance-taker-ls-ratio"
    ∷ []

-- What a call of `_fetch_and_send` shares with the others.
pub record Shared : Type 0 where
  pub symbol : String
  pub total_count : ℕ
  pub kafka : Producer

-- A call returns a cooldown, or an exception leaves it.
pub data Fetched : Type 0 where
  cooldown : Float → BackoffState → Shared → Fetched
  threw : BackoffState → Shared → Fetched

-- `data[0] if isinstance(data, list) and data else data`
unfoldable pub first_record : Value → Value
first_record (list (cons v vs)) = v
first_record v = v

-- The states that a round leaves alone.
unfoldable pub states : List (Request × Source × BackoffState) → List BackoffState
states [] = []
states ((rq, src, b) ∷ rest) = b ∷ states rest

module _ (ar : Arithmetic) (c : Config) where
  unfoldable pub back_off : Option ℕ → Option String → Float → BackoffState → Shared → Fetched
  back_off status header random b sh =
      let failed = record_failure ar status header random b in
      elim failed.1 [ some delay ↦ cooldown delay failed.0 sh | none ↦ threw failed.0 sh ]

  unfoldable pub receive : Request → Source → Value → BackoffState → Shared → Fetched
  receive rq src (dict payload) b sh = elim (deliver c rq src sh.symbol payload sh.kafka) [
    | refused error kafka ↦ back_off (some 200) none rq.random b (record sh { kafka = kafka })
    | broke kafka ↦ threw b (record sh { kafka = kafka })
    | sent kafka ↦
        cooldown ar.zero (record_success ar b)
          (record sh { kafka = kafka; total_count = sh.total_count + 1 })
  ]
  receive rq src _ b sh = back_off (some 200) none rq.random b sh

  unfoldable pub decode : Request → Source → Body → BackoffState → Shared → Fetched
  decode rq src (json v) b sh = receive rq src (first_record v) b sh
  decode rq src undecodable b sh = back_off (some 200) none rq.random b sh

  unfoldable pub respond :
      Request → Source → ℕ → Option String → Body → BackoffState → Shared → Fetched
  respond rq src code header body b sh =
      if code == 200 then decode rq src body b sh else back_off (some code) header rq.random b sh

  -- The handler of any other exception.
  unfoldable pub rescue : Request → Fetched → Fetched
  rescue rq (cooldown s b sh) = cooldown s b sh
  rescue rq (threw b sh) = back_off none none rq.random_after b sh

  unfoldable pub fetch_of : Request → Source → Reply → BackoffState → Shared → Fetched
  fetch_of rq src (answered code header body) b sh =
      rescue rq (respond rq src code header body b sh)
  fetch_of rq src timed_out b sh = back_off none none rq.random b sh
  fetch_of rq src client_error b sh = back_off none none rq.random b sh
  fetch_of rq src other_error b sh = back_off none none rq.random_after b sh

  unfoldable pub fetch_and_send : Request → Source → BackoffState → Shared → Fetched
  fetch_and_send rq src b sh = fetch_of rq src rq.reply b sh

  -- A round over the endpoints: the longest cooldown so far, the states after it, and what is shared;
  -- `none` for the cooldown where an exception ends the poller.
  unfoldable pub round :
      Float
      → List (Request × Source × BackoffState)
      → Shared
      → Option Float × List BackoffState × Shared
  round so_far [] sh = (some so_far, [], sh)
  round so_far ((rq, src, b) ∷ rest) sh = elim (fetch_and_send rq src b sh) [
    | threw b' sh' ↦ (none, b' ∷ states rest, sh')
    | cooldown s b' sh' ↦
        let longest = max_float ar so_far s in
        let later = round longest rest sh' in
        if ar.py.lt ar.zero longest
        then (some longest, b' ∷ states rest, sh')
        else (later.0, b' ∷ later.1, later.2)
  ]

  -- The sleep after a round: `max(self.interval, cooldown)`
  unfoldable pub sleep_after : Float → Float → Float
  sleep_after interval longest = max_float ar interval longest
