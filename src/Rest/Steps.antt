-- ===== src/Rest/Steps.antt =====
-- collectors/rest_poller.py: what one turn of the open-interest poller does.
use coinwhale_data_pipeline.Prelude.{
  ℕ, ◌+◌, ◌-◌, max, ◌<◌, ◌≤◌, ◌≡◌, ◌≢◌, ap, ◌∙◌, ◌⊎◌, String, Option, none, some, arith,
}
use coinwhale_data_pipeline.Value.{Float, Value, null, bool, int, float, str, list, dict}
use coinwhale_data_pipeline.Routing.{Config}
use coinwhale_data_pipeline.Rest.{
  Arithmetic, max_float, or_zero, record_success, record_failure, compute_backoff_delay,
  parse_retry_after, is_ban,
}
use coinwhale_data_pipeline.Rest.Fetch.{
  Body, json, undecodable, Reply, answered, timed_out, client_error, other_error, Request,
}
use coinwhale_data_pipeline.Rest.OpenInterest.{
  Poller, Tried, rests, threw, Turn, sleeps, crashes, back_off, receive, decode, respond, handler,
  rescue, turn_of, turn,
}

-- The payload went out: it is counted, the failures are cleared, and the sleep is the interval.
pub record Succeeded (p : Poller) (sleep : Float) (q : Poller) : Type 0 where
  pub total_count : q.total_count ≡ p.total_count + 1
  pub failures : q.backoff.consecutive_failures ≡ 0
  pub interval : sleep ≡ p.interval

-- The turn failed: nothing is counted as collected, a failure more is, and the sleep is the longer of
-- the interval and the delay that the state keeps.
pub record Failed (ar : Arithmetic) (p : Poller) (sleep : Float) (q : Poller) : Type 0 where
  pub total_count : q.total_count ≡ p.total_count
  pub failures : p.backoff.consecutive_failures < q.backoff.consecutive_failures
  pub backed_off : sleep ≡ max_float ar p.interval q.backoff.current_backoff_seconds

module _ (ar : Arithmetic) (c : Config) where
  -- What the `try` of a turn leaves, if it does not raise and if it does.
  abbrev Left : Poller → Tried → Type 0
  Left p (rests s q) = Succeeded p s q ⊎ Failed ar p s q
  Left p (threw q) =
      (q.total_count ≡ p.total_count)
      × (p.backoff.consecutive_failures ≤ q.backoff.consecutive_failures)
      × (q.interval ≡ p.interval)

  back_off-Left :
      (status : Option ℕ) (header : Option String) (random : Float) (p : Poller)
      → Left p (back_off ar c status header random p)
  unfolding back_off record_failure
  back_off-Left status header random p = ground arith

  receive-Left : (rq : Request) (v : Value) (p : Poller) → v ≢ null → Left p (receive ar c rq v p)
  unfolding receive record_success
  receive-Left rq null p given = ground arith
  receive-Left rq (dict payload) p given = grind (arith, back_off-Left)
  receive-Left rq (bool b) p given = back_off-Left (some 200) none rq.random p
  receive-Left rq (int n) p given = back_off-Left (some 200) none rq.random p
  receive-Left rq (float x) p given = back_off-Left (some 200) none rq.random p
  receive-Left rq (str s) p given = back_off-Left (some 200) none rq.random p
  receive-Left rq (list vs) p given = back_off-Left (some 200) none rq.random p

  -- The body of an answer with a payload other than JSON's `null`.
  abbrev HasPayload : Reply → Type 0
  HasPayload (answered code header (json v)) = v ≢ null
  HasPayload _ = Unit

  respond-Left :
      (rq : Request) (code : ℕ) (header : Option String) (body : Body) (p : Poller)
      → HasPayload (answered code header body)
      → Left p (respond ar c rq code header body p)
  unfolding respond decode
  respond-Left rq code header (json v) p given =
      let received = receive-Left rq v p given in
      let failed = back_off-Left (some code) header rq.random p in ground arith
  respond-Left rq code header undecodable p given = grind (arith, back_off-Left)

  -- A turn that ends in a sleep succeeds or fails.
  abbrev Ended : Poller → Turn → Type 0
  Ended p (sleeps s q) = Succeeded p s q ⊎ Failed ar p s q
  Ended p (crashes q) = Unit

  handler-Ended : (p : Poller) (t : Tried) → Left p t → Ended p (handler ar c t)
  unfolding handler
  handler-Ended p (rests s q) ended = ended
  handler-Ended p (threw q) ended = tt

  rescue-Ended : (rq : Request) (p : Poller) (t : Tried) → Left p t → Ended p (rescue ar c rq t)
  unfolding rescue handler back_off record_failure
  rescue-Ended rq p (rests s q) ended = ended
  rescue-Ended rq p (threw q) left = ground arith

  turn_of-Ended :
      (rq : Request) (r : Reply) (p : Poller) → HasPayload r → Ended p (turn_of ar c rq r p)
  unfolding turn_of
  turn_of-Ended rq (answered code header body) p given =
      rescue-Ended rq p (respond ar c rq code header body p)
        (respond-Left rq code header body p given)
  turn_of-Ended rq timed_out p given =
      handler-Ended p (back_off ar c none none rq.random p) (back_off-Left none none rq.random p)
  turn_of-Ended rq client_error p given =
      handler-Ended p (back_off ar c none none rq.random p) (back_off-Left none none rq.random p)
  turn_of-Ended rq other_error p given =
      handler-Ended p (back_off ar c none none rq.random_after p)
        (back_off-Left none none rq.random_after p)

  -- A turn that ends in a sleep, on any reply but a body of JSON's `null`, either succeeds or fails:
  -- it counts a collected payload, clears the failures and sleeps for the interval, or it counts no
  -- payload, raises the number of failures, and sleeps for the interval or the new delay.
  pub turn_succeeds_or_fails :
      (rq : Request) (p q : Poller) (sleep : Float)
      → HasPayload rq.reply
      → turn ar c rq p ≡ sleeps sleep q
      → Succeeded p sleep q ⊎ Failed ar p sleep q
  unfolding turn
  turn_succeeds_or_fails rq p q sleep given ends =
      let ended = turn_of-Ended rq rq.reply p given in ground arith

  -- A body of JSON's `null` with status 200 leaves the poller as it was: it is neither a success nor
  -- a failure.
  pub null_body_is_silent :
      (rq : Request) (header : Option String) (p : Poller)
      → rq.reply ≡ answered 200 header (json null)
      → turn ar c rq p ≡ sleeps p.interval p
  unfolding turn turn_of respond decode receive rescue
  null_body_is_silent rq header p replied = ground arith

  -- Once the scaled base delay is no double any more, a timeout ends the poller: the `OverflowError`
  -- of the delay escapes the handler.
  pub overflow_ends_the_poller :
      (rq : Request) (p : Poller)
      → rq.reply ≡ timed_out
      → ar.scale (or_zero ar p.backoff.base_delay_seconds) p.backoff.consecutive_failures ≡ none
      → turn ar c rq p
        ≡ crashes (record p {
          backoff = record p.backoff { consecutive_failures = p.backoff.consecutive_failures + 1 };
        })
  unfolding turn turn_of handler back_off record_failure compute_backoff_delay parse_retry_after
      is_ban
  overflow_ends_the_poller rq p replied overflows =
      let n = p.backoff.consecutive_failures in
      let count : max (n + 1) 1 - 1 ≡ n = omega arith in
      let scaled = ap (ar.scale (or_zero ar p.backoff.base_delay_seconds)) count ∙ overflows in
      grind arith
