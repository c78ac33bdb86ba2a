-- ===== src/Rest/Rounds.antt =====
-- collectors/rest_poller.py: what a fetch and a round of the long/short poller do.
use coinwhale_data_pipeline.Prelude.{
  ℕ, ◌+◌, ◌<◌, ◌≤◌, ◌≡◌, ◌⊎◌, String, Option, none, some, List, [], ◌∷◌, length, arith,
}
use coinwhale_data_pipeline.Value.{Float, Value, null, bool, int, float, str, list, dict}
use coinwhale_data_pipeline.Routing.{Config}
use coinwhale_data_pipeline.Rest.{Arithmetic, BackoffState, record_success, record_failure}
use coinwhale_data_pipeline.Rest.Fetch.{
  Body, json, undecodable, Reply, answered, timed_out, client_error, other_error, Request, Source,
}
use coinwhale_data_pipeline.Rest.LongShort.{
  Shared, Fetched, cooldown, threw, first_record, states, back_off, receive, decode, respond,
  rescue, fetch_of, fetch_and_send, round,
}

length-states : (rest : List (Request × Source × BackoffState)) → length (states rest) ≡ length rest
unfolding states
length-states [] = omega arith
length-states ((rq, src, b) ∷ rest) = omega (arith, length-states rest)

module _ (ar : Arithmetic) (c : Config) where
  -- The payload went out: it is counted, the endpoint's failures are cleared, and no cooldown asked.
  abbrev pub Collected : Shared → Float → BackoffState → Shared → Type 0
  Collected sh s b' sh' =
      (sh'.total_count ≡ sh.total_count + 1) × (b'.consecutive_failures ≡ 0) × (s ≡ ar.zero)

  -- Nothing is collected, the endpoint has a failure more, and its delay is the cooldown.
  abbrev pub Missed : BackoffState → Shared → Float → BackoffState → Shared → Type 0
  Missed b sh s b' sh' =
      (sh'.total_count ≡ sh.total_count)
      × (b.consecutive_failures < b'.consecutive_failures)
      × (s ≡ b'.current_backoff_seconds)

  abbrev Left : BackoffState → Shared → Fetched → Type 0
  Left b sh (cooldown s b' sh') = Collected sh s b' sh' ⊎ Missed b sh s b' sh'
  Left b sh (threw b' sh') =
      (sh'.total_count ≡ sh.total_count) × (b.consecutive_failures ≤ b'.consecutive_failures)

  back_off-Left :
      (status : Option ℕ) (header : Option String) (random : Float) (b : BackoffState) (sh : Shared)
      → Left b sh (back_off ar c status header random b sh)
  unfolding back_off record_failure
  back_off-Left status header random b sh = ground arith

  receive-Left :
      (rq : Request) (src : Source) (v : Value) (b : BackoffState) (sh : Shared)
      → Left b sh (receive ar c rq src v b sh)
  unfolding receive record_success
  receive-Left rq src (dict payload) b sh = grind (arith, back_off-Left)
  receive-Left rq src null b sh = back_off-Left (some 200) none rq.random b sh
  receive-Left rq src (bool x) b sh = back_off-Left (some 200) none rq.random b sh
  receive-Left rq src (int n) b sh = back_off-Left (some 200) none rq.random b sh
  receive-Left rq src (float x) b sh = back_off-Left (some 200) none rq.random b sh
  receive-Left rq src (str s) b sh = back_off-Left (some 200) none rq.random b sh
  receive-Left rq src (list vs) b sh = back_off-Left (some 200) none rq.random b sh

  respond-Left :
      (rq : Request) (src : Source) (code : ℕ) (header : Option String) (body : Body)
      (b : BackoffState) (sh : Shared)
      → Left b sh (respond ar c rq src code header body b sh)
  unfolding respond decode
  respond-Left rq src code header (json v) b sh =
      let received = receive-Left rq src (first_record v) b sh in
      let failed = back_off-Left (some code) header rq.random b sh in ground arith
  respond-Left rq src code header undecodable b sh = grind (arith, back_off-Left)

  rescue-Left :
      (rq : Request) (b : BackoffState) (sh : Shared) (f : Fetched)
      → Left b sh f
      → Left b sh (rescue ar c rq f)
  unfolding rescue back_off record_failure
  rescue-Left rq b sh (cooldown s b' sh') left = left
  rescue-Left rq b sh (threw b' sh') left = ground arith

  fetch_of-Left :
      (rq : Request) (src : Source) (r : Reply) (b : BackoffState) (sh : Shared)
      → Left b sh (fetch_of ar c rq src r b sh)
  unfolding fetch_of
  fetch_of-Left rq src (answered code header body) b sh =
      rescue-Left rq b sh (respond ar c rq src code header body b sh)
        (respond-Left rq src code header body b sh)
  fetch_of-Left rq src timed_out b sh = back_off-Left none none rq.random b sh
  fetch_of-Left rq src client_error b sh = back_off-Left none none rq.random b sh
  fetch_of-Left rq src other_error b sh = back_off-Left none none rq.random_after b sh

  -- A fetch that returns has collected one payload, cleared the endpoint's failures and asks for no
  -- cooldown, or has collected none, counted a failure more, and asks for the new delay; so for every
  -- reply, with JSON's `null` among them.
  pub fetch_collects_or_misses :
      (rq : Request) (src : Source) (b b' : BackoffState) (sh sh' : Shared) (s : Float)
      → fetch_and_send ar c rq src b sh ≡ cooldown s b' sh'
      → Collected sh s b' sh' ⊎ Missed b sh s b' sh'
  unfolding fetch_and_send
  fetch_collects_or_misses rq src b b' sh sh' s fetched =
      let left = fetch_of-Left rq src rq.reply b sh in ground arith

  abbrev pub RoundBounds : Float → List (Request × Source × BackoffState) → Shared → Type 0
  RoundBounds so_far rest sh =
      (sh.total_count ≤ (round ar c so_far rest sh).2.total_count)
      × ((round ar c so_far rest sh).2.total_count ≤ sh.total_count + length rest)
      × (length (round ar c so_far rest sh).1 ≡ length rest)

  -- A round collects at most one payload for each endpoint, and keeps a backoff state for each,
  -- whether it runs through, stops at a cooldown or ends in an exception.
  pub round_bounds :
      (so_far : Float) (rest : List (Request × Source × BackoffState)) (sh : Shared)
      → RoundBounds so_far rest sh
  unfolding round fetch_and_send
  round_bounds so_far [] sh = ground arith
  round_bounds so_far ((rq, src, b) ∷ rest) sh =
      let fetched = fetch_of-Left rq src rq.reply b sh in
      let untouched = length-states rest in
      let later : (x : Float) (y : Shared) → RoundBounds x rest y = λ x y. round_bounds x rest y in
      grind (arith, later)
