-- ===== src/Routing/Spans.antt =====
-- The partition spans of `get_symbol_partition_span`, by the index of a symbol.
use coinwhale_data_pipeline.Prelude.{
  ℕ, suc, zero, ◌+◌, ◌*◌, ◌/◌, ◌%◌, ◌≤◌, ◌<◌, min, ◌≡◌, inl, inr, arith, ltb, Bool-cases,
}
use native.Mathlib.Nat.{div-add-mod, mod-lt}
use coinwhale_data_pipeline.Routing.{span_of}

-- Where the span of index `i` starts if there are enough partitions.
abbrev start_at : ℕ → ℕ → ℕ → ℕ
start_at p n i = p / n * i + min i (p % n)

module _ (p n : ℕ) (enough : n ≤ p) where
  span_start : (i : ℕ) → (span_of p n i).0 ≡ start_at p n i
  unfolding span_of
  span_start i = ground arith

  -- A span ends where the next one starts.
  span_next : (i : ℕ) → (span_of p n i).1 ≡ start_at p n (i + 1)
  unfolding span_of
  span_next i = ground arith

  start_mono : (i j : ℕ) → i ≤ j → start_at p n i ≤ start_at p n j
  start_mono i j h = grind arith

  start_last : 0 < n → start_at p n n ≡ p
  start_last h = omega (arith, div-add-mod p n, mod-lt p h)

  -- With at least one partition for each symbol no span is empty.
  start_lt : 0 < n → (i : ℕ) → start_at p n i < start_at p n (i + 1)
  start_lt h i = let one : 1 ≤ p / n = quotient_pos h in grind arith
    where
      quotient_pos : 0 < n → 1 ≤ p / n
      quotient_pos k = grind (arith, div-add-mod p n, mod-lt p k)

  pub span_ordered : (i j : ℕ) → i < j → (span_of p n i).1 ≤ (span_of p n j).0
  span_ordered i j h = rw (span_next i, span_start j) (start_mono (i + 1) j (omega arith))

  -- A partition below the start of index `k` lies in a span of a lower index.
  covered_below :
      (q k : ℕ)
      → q < start_at p n k
      → (i : ℕ) × (i < k) × ((span_of p n i).0 ≤ q) × (q < (span_of p n i).1)
  covered_below q zero h = absurd (omega arith)
  covered_below q (suc k) h = elim (Bool-cases (ltb q (start_at p n k))) [
    | inl below ↦ let (i, l, s, e) = covered_below q k (ground arith) in (i, omega arith, s, e)
    | inr above ↦ (k, omega arith, ground (arith, span_start k), omega (arith, span_next k))
  ]

  pub span_covers :
      0 < n
      → (q : ℕ) → q < p
      → (i : ℕ) × (i < n) × ((span_of p n i).0 ≤ q) × (q < (span_of p n i).1)
  span_covers h q b = covered_below q n (omega (arith, start_last h))

-- Symbols that share partitions have one each.
shared_bounds :
    (p n i : ℕ) → 0 < p → p < n → ((span_of p n i).0 < (span_of p n i).1) × ((span_of p n i).1 ≤ p)
unfolding span_of
shared_bounds p n i h few = ground (arith, mod-lt i h)

own_bounds :
    (p n i : ℕ) → n ≤ p → i < n → ((span_of p n i).0 < (span_of p n i).1) × ((span_of p n i).1 ≤ p)
own_bounds p n i enough k = (
  rw (span_start p n enough i, span_next p n enough i) (start_lt p n enough (omega arith) i),
  rw (span_next p n enough i)
      (rw (start_last p n enough (omega arith)) at (start_mono p n enough (i + 1) n (omega arith))),
)

-- Every span is non-empty and ends within the partitions, also where symbols share partitions.
pub span_bounds :
    (p n i : ℕ) → 0 < p → i < n → ((span_of p n i).0 < (span_of p n i).1) × ((span_of p n i).1 ≤ p)
span_bounds p n i h k = elim (Bool-cases (ltb p n)) [
  | inl few ↦ shared_bounds p n i h (ground arith)
  | inr enough ↦ own_bounds p n i (ground arith) k
]
