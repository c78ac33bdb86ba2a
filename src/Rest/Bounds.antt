-- ===== src/Rest/Bounds.antt =====
-- collectors/rest_poller.py: how long a poller backs off. A delay is compared by Python's `<`, of
-- which only `not x < x` is used.
use coinwhale_data_pipeline.Prelude.{
  ℕ, ◌-◌, max, ◌≡◌, ◌≢◌, String, false, Option, none, some, arith,
}
use coinwhale_data_pipeline.Value.{Float}
use coinwhale_data_pipeline.Rest.{
  Arithmetic, BackoffState, max_float, min_float, or_zero, jittered_delay, compute_backoff_delay,
}

module _ (ar : Arithmetic) (irreflexive : (x : Float) → ar.py.lt x x ≡ false) where
  min_float-le : (a b : Float) → ar.py.lt b (min_float ar a b) ≡ false
  unfolding min_float
  min_float-le a b = let same = irreflexive b in ground arith

  max_float-ge : (a b : Float) → ar.py.lt (max_float ar a b) b ≡ false
  unfolding max_float
  max_float-ge a b = let same = irreflexive b in ground arith

  min_float-ge :
      (a b x : Float)
      → ar.py.lt a x ≡ false
      → ar.py.lt b x ≡ false
      → ar.py.lt (min_float ar a b) x ≡ false
  unfolding min_float
  min_float-ge a b x ha hb = ground arith

  jittered_delay-ge : (d j r : Float) → ar.py.lt (jittered_delay ar d j r) ar.zero ≡ false
  unfolding jittered_delay
  jittered_delay-ge d j r = grind (arith, max_float-ge)

  -- A delay that is computed is not above the configured maximum, and not negative, for every
  -- status, `Retry-After` header, number of failures and random number.
  pub compute_backoff_delay_bounds :
      (status : Option ℕ) (header : Option String) (failures : ℕ) (b : BackoffState)
      (random delay : Float)
      → compute_backoff_delay ar status header failures b random ≡ some delay
      → (ar.py.lt (max_float ar (or_zero ar b.max_backoff_seconds) ar.zero) delay ≡ false)
        × (ar.py.lt delay ar.zero ≡ false)
  unfolding compute_backoff_delay
  compute_backoff_delay_bounds status header failures b random delay computed =
      grind (arith, min_float-le, min_float-ge, max_float-ge, jittered_delay-ge)

-- The delay can be computed wherever the scaled base delay, two to the number of failures less one
-- times the base, is still a double.
pub compute_backoff_delay_total :
    (ar : Arithmetic) (status : Option ℕ) (header : Option String) (failures : ℕ) (b : BackoffState)
    (random : Float)
    → ar.scale (or_zero ar b.base_delay_seconds) (max failures 1 - 1) ≢ none
    → compute_backoff_delay ar status header failures b random ≢ none
unfolding compute_backoff_delay
compute_backoff_delay_total ar status header failures b random fits = ground arith
