-- ===== src/Rest.antt =====
-- collectors/rest_poller.py: the delays of `compute_backoff_delay` and the state `RestBackoffState`.
-- Double arithmetic and the dates of HTTP are a parameter; metrics and log lines are left out.
pub mod Fetch
pub mod OpenInterest
pub mod LongShort
pub mod Bounds
pub mod Steps
pub mod Rounds
mod Examples
use coinwhale_data_pipeline.Prelude.{
  ℕ, ◌+◌, ◌-◌, max, String, Bool, true, false, not, ◌&&◌, ◌||◌, Option, none, some, ◌=ˢ◌,
  if◌then◌else◌, leb, ◌==◌, strip,
}
use mathlib.Core.Option
use coinwhale_data_pipeline.Value.{Float, PyFloats}

-- What CPython's doubles and the standard library answer.
pub record Arithmetic : Type 0 where
  pub py : PyFloats
  pub zero : Float
  pub one : Float
  pub two : Float
  pub add : Float → Float → Float
  pub sub : Float → Float → Float
  pub mul : Float → Float → Float
  -- `x * 2 ** n`: `none` is the `OverflowError` of an integer that no double holds
  pub scale : Float → ℕ → Option Float
  -- the seconds from now until a date of a `Retry-After` header: `none` if it does not parse
  pub http_date : String → Option Float

-- The fields of `RestBackoffState` that decide; `random` of a failure is an argument.
pub record BackoffState : Type 0 where
  pub base_delay_seconds : Float
  pub max_backoff_seconds : Float
  pub ban_cooldown_seconds : Float
  pub jitter_ratio : Float
  pub consecutive_failures : ℕ
  pub current_backoff_seconds : Float

module _ (ar : Arithmetic) where
  -- Python's `max(a, b)` and `min(a, b)`: `a`, unless `b` is strictly better
  unfoldable pub max_float : Float → Float → Float
  max_float a b = if ar.py.lt a b then b else a

  unfoldable pub min_float : Float → Float → Float
  min_float a b = if ar.py.lt b a then b else a

  -- `float(x or 0.0)`
  unfoldable pub or_zero : Float → Float
  or_zero x = if ar.py.nonzero x then x else ar.zero

  -- The parts of a header that is not empty.
  unfoldable pub parse_seconds : String → Option Float → Option Float
  parse_seconds value (some seconds) = some (max_float seconds ar.zero)
  parse_seconds value none = Option.map (λ seconds. max_float seconds ar.zero) (ar.http_date value)

  unfoldable pub parse_retry_after : Option String → Option Float
  unfolding parse_seconds
  parse_retry_after none = none
  parse_retry_after (some header) =
      let value = strip header in
      if value =ˢ "" then none else parse_seconds value (ar.py.of_text value)

  unfoldable pub jittered_delay : Float → Float → Float → Float
  jittered_delay delay jitter_ratio random =
      let ratio = max_float (or_zero jitter_ratio) ar.zero in
      let factor = ar.add (ar.sub ar.one ratio) (ar.mul (ar.mul random ratio) ar.two) in
      if ar.py.le ratio ar.zero || ar.py.le delay ar.zero
      then max_float delay ar.zero
      else max_float (ar.mul delay factor) ar.zero

  unfoldable pub is_ban : Option ℕ → Bool
  is_ban none = false
  is_ban (some code) = code == 418 || code == 403

  unfoldable pub is_limited : Option ℕ → Bool
  is_limited none = false
  is_limited (some code) = code == 429

  unfoldable pub is_server_error : Option ℕ → Bool
  is_server_error none = false
  is_server_error (some code) = leb 500 code && leb code 599

  unfoldable pub is_given : {A : Type 0} → Option A → Bool
  is_given none = false
  is_given (some a) = true

  -- `retry_after_delay or 0.0`
  unfoldable pub seconds_or_zero : Option Float → Float
  seconds_or_zero none = ar.zero
  seconds_or_zero (some y) = or_zero y

  -- The exponential delay, with the branches behind it.
  unfoldable pub exponential_delay : Option ℕ → Option Float → Float → Float → Float
  unfolding is_limited is_server_error is_given
  exponential_delay status retry base delay =
      if is_limited status && not (is_given retry)
      then max_float delay base
      else if is_given status && is_server_error status
      then max_float delay base
      else if is_given status && not (is_server_error status)
      then max_float delay base
      else delay

  -- `none` is the `OverflowError` of the product.
  unfoldable pub compute_backoff_delay :
      Option ℕ → Option String → ℕ → BackoffState → Float → Option Float
  unfolding is_ban is_limited is_given seconds_or_zero exponential_delay
  compute_backoff_delay status header failures b random =
      let retry = parse_retry_after header in
      let max_delay = max_float (or_zero b.max_backoff_seconds) ar.zero in
      let capped : Float → Float =
        λ delay. min_float (jittered_delay delay b.jitter_ratio random) max_delay in
      let base = or_zero b.base_delay_seconds in
      let general =
        if is_ban status
        then some (capped (max_float (or_zero b.ban_cooldown_seconds) (seconds_or_zero retry)))
        else Option.map (λ delay. capped (exponential_delay status retry base delay))
            (ar.scale base (max failures 1 - 1)) in
      elim retry [
        | some seconds ↦ if is_limited status then some (capped seconds) else general
        | none ↦ general
      ]

  unfoldable pub record_success : BackoffState → BackoffState
  record_success b = record b { consecutive_failures = 0; current_backoff_seconds = ar.zero }

  -- The state, and the delay unless computing it raises.
  unfoldable pub record_failure :
      Option ℕ → Option String → Float → BackoffState → BackoffState × Option Float
  record_failure status header random b =
      let counted = record b { consecutive_failures = b.consecutive_failures + 1 } in
      let delay = compute_backoff_delay status header counted.consecutive_failures counted random in
      (
        elim delay [
          | none ↦ counted
          | some seconds ↦ record counted { current_backoff_seconds = seconds }
        ],
        delay,
      )

unfoldable pub rest_error_type_for_status : ℕ → String
rest_error_type_for_status code =
    if code == 429
    then "rate_limited"
    else if code == 418 || code == 403
    then "ban_cooldown"
    else if leb 500 code && leb code 599
    then "server_error"
    else "http_error"
