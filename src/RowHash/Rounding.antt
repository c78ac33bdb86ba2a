-- ===== src/RowHash/Rounding.antt =====
-- spark_jobs/row_hash_policy.py: the rounding of numbers, and the decimals with the same text.
use native.Mathlib.Nat.{
  mul_comm, mul_assoc, mul-div-mul_left, add-mul-div_left, div-eq_of_lt, one-le-pow, pow-succ',
}
use coinwhale_data_pipeline.Prelude.{
  ℕ, zero, suc, ◌+◌, ◌-◌, ◌*◌, ◌/◌, ◌^◌, ◌≤◌, ◌≡◌, ap, sym, ◌∙◌, inl, inr, leb, ◌==◌, Bool,
  Bool-cases, arith,
}
use coinwhale_data_pipeline.RowHash.Numbers.{
  places, finite, round_half_up, quantized, quantize, number_text,
}

-- A common factor does not count.
round_half_up-scale : (n d c : ℕ) → 1 ≤ c → round_half_up (n * c) (d * c) ≡ round_half_up n d
unfolding round_half_up
round_half_up-scale n d c positive =
    let top : 2 * (n * c) + d * c ≡ c * (2 * n + d) = grind (arith, mul_comm) in
    let bottom : 2 * (d * c) ≡ c * (2 * d) = grind (arith, mul_comm) in
    ap (λ x. x / (2 * (d * c))) top
    ∙ ap (λ x. c * (2 * n + d) / x) bottom
    ∙ mul-div-mul_left (2 * n + d) (2 * d) positive

round_half_up-whole : (n c : ℕ) → 1 ≤ c → round_half_up (n * c) c ≡ n
unfolding round_half_up
round_half_up-whole n c positive =
    let top : 2 * (n * c) + c ≡ c + 2 * c * n = grind (arith, mul_comm) in
    let small : c / (2 * c) ≡ 0 = div-eq_of_lt (omega arith) in
    let split = add-mul-div_left c n {y = 2 * c} (omega arith) in
    ap (λ x. x / (2 * c)) top ∙ split ∙ omega arith

pow-add : (m n : ℕ) → 10 ^ (m + n) ≡ 10 ^ m * 10 ^ n
pow-add zero n = let sum : 0 + n ≡ n = omega arith in ap (λ x. 10 ^ x) sum ∙ omega arith
pow-add (suc m) n =
    let sum : suc m + n ≡ suc (m + n) = omega arith in
    ap (λ x. 10 ^ x) sum
    ∙ pow-succ' 10 (m + n)
    ∙ ap (λ x. 10 * x) (pow-add m n)
    ∙ sym (mul_assoc 10 (10 ^ m) (10 ^ n))
    ∙ ap (λ x. x * 10 ^ n) (sym (pow-succ' 10 m))

-- The powers of ten that shift a decimal's digits.
ten-shift : (i j k : ℕ) → k ≡ i + j → 10 ^ k ≡ 10 ^ i * 10 ^ j
ten-shift i j k sum = ap (λ x. 10 ^ x) sum ∙ pow-add i j

-- A coefficient with `j` zeros more, and `j` places more.
quantized-zeros : (n k j : ℕ) → quantized (n * 10 ^ j) (places (k + j)) ≡ quantized n (places k)
unfolding quantized
quantized-zeros n k j = elim (Bool-cases (leb (k + j) 12)) [
  | inl few ↦
      let shift = ten-shift j (12 - (k + j)) (12 - k) (ground arith) in grind (arith, mul_assoc)
  | inr many ↦ elim (Bool-cases (leb k 12)) [
    | inl fewer ↦
        let c = 10 ^ (k + j - 12) in
        let shift = ten-shift (12 - k) (k + j - 12) j (ground arith) in
        let moved : n * 10 ^ j ≡ n * 10 ^ (12 - k) * c =
          ap (λ x. n * x) shift ∙ sym (mul_assoc n (10 ^ (12 - k)) c) in
        let whole =
          round_half_up-whole (n * 10 ^ (12 - k)) c (one-le-pow (k + j - 12) 10 (omega arith)) in
        let here : quantized (n * 10 ^ j) (places (k + j)) ≡ round_half_up (n * 10 ^ j) c =
          ground arith in
        let there : quantized n (places k) ≡ n * 10 ^ (12 - k) = ground arith in
        here ∙ ap (λ x. round_half_up x c) moved ∙ whole ∙ sym there
    | inr more ↦
        let shift = ten-shift (k - 12) j (k + j - 12) (ground arith) in
        let scaled =
          round_half_up-scale n (10 ^ (k - 12)) (10 ^ j) (one-le-pow j 10 (omega arith)) in
        let here : quantized (n * 10 ^ j) (places (k + j))
            ≡ round_half_up (n * 10 ^ j) (10 ^ (k + j - 12)) =
          ground arith in
        let there : quantized n (places k) ≡ round_half_up n (10 ^ (k - 12)) = ground arith in
        here ∙ ap (λ x. round_half_up (n * 10 ^ j) x) shift ∙ scaled ∙ sym there
  ]
]

is-zero-scale : (n p : ℕ) → 1 ≤ p → (n * p == 0) ≡ (n == 0)
is-zero-scale zero p positive = ground arith
is-zero-scale (suc m) p positive =
    let more : 1 ≤ suc m * p = grind (arith, mul_comm) in ground arith

-- Zeros behind the last decimal place of a number change neither its text in the hash nor whether the
-- text exists.
pub trailing_zeros_are_dropped :
    (negative : Bool) (n k j : ℕ)
    → number_text (finite negative (n * 10 ^ j) (places (k + j)))
      ≡ number_text (finite negative n (places k))
unfolding number_text quantize
trailing_zeros_are_dropped negative n k j =
    let same = quantized-zeros n k j in
    let zero_alike = is-zero-scale n (10 ^ j) (one-le-pow j 10 (omega arith)) in grind arith
