-- ===== src/RowHash/Numbers.antt =====
-- spark_jobs/row_hash_policy.py: `_normalize_decimal`, on decimals as Python has them.
use coinwhale_data_pipeline.Prelude.{
  ℕ, zero, suc, ◌+◌, ◌-◌, ◌*◌, ◌/◌, ◌%◌, ◌^◌, leb, ltb, ◌==◌, String, ◌<>◌, Bool, Option, none,
  some, if◌then◌else◌, show_ℕ,
}

-- A decimal: a finite one has a sign, a coefficient, and an exponent of ten, which is positive or
-- counts the decimal places.
pub data Exponent : Type 0 where
  tens places : ℕ → Exponent

pub data Decimal : Type 0 where
  finite : Bool → ℕ → Exponent → Decimal
  infinite not_a_number : Decimal

-- Division rounded half up.
unfoldable pub round_half_up : ℕ → ℕ → ℕ
round_half_up n d = (2 * n + d) / (2 * d)

-- The coefficient at twelve decimal places, rounded half up: `quantize(FLOAT_SCALE)`.
unfoldable pub quantized : ℕ → Exponent → ℕ
unfolding round_half_up
quantized n (tens k) = n * 10 ^ (k + 12)
quantized n (places k) = if leb k 12 then n * 10 ^ (12 - k) else round_half_up n (10 ^ (k - 12))

-- `quantize` raises where the coefficient has more digits than the context's precision of 28.
unfoldable pub quantize : ℕ → Exponent → Option ℕ
quantize n e = let q = quantized n e in if ltb q (10 ^ 28) then some q else none

-- A fraction of `k` digits without its trailing zeros: the digits and their number.
unfoldable pub trim_zeros : ℕ → ℕ → ℕ × ℕ
trim_zeros zero n = (0, n)
trim_zeros (suc k) n = let rest = trim_zeros k (n / 10) in if n % 10 == 0 then rest else (suc k, n)

zeros : ℕ → String
zeros zero = ""
zeros (suc k) = "0" <> zeros k

digit_count : ℕ → ℕ → ℕ
digit_count zero n = 1
digit_count (suc fuel) n = let rest = digit_count fuel (n / 10) in if ltb n 10 then 1 else suc rest

-- `n` in `k` digits, with zeros in front; `n` has at most twelve.
unfoldable pub padded : ℕ → ℕ → String
unfolding zeros digit_count
padded k n = zeros (k - digit_count 12 n) <> show_ℕ n

-- The fixed notation of `n` units of the twelfth decimal place.
unfoldable pub fixed_text : ℕ → String
fixed_text n =
    let trimmed = trim_zeros 12 (n % 10 ^ 12) in
    if trimmed.0 == 0
    then show_ℕ (n / 10 ^ 12)
    else show_ℕ (n / 10 ^ 12) <> ("." <> padded trimmed.0 trimmed.1)

signed_text : Bool → ℕ → String
signed_text negative n =
    if negative then (if n == 0 then "0" else "-" <> fixed_text n) else fixed_text n

-- The text of a decimal that is no NaN and not zero; `none` is `InvalidOperation`, which is not
-- caught. An infinity has no quantized value.
unfoldable pub number_text : Decimal → Option String
unfolding signed_text
number_text not_a_number = some "__NULL__"
number_text infinite = none
number_text (finite negative n e) =
    if n == 0
    then some "0"
    else elim (quantize n e) [ none ↦ none | some q ↦ some (signed_text negative q) ]
