-- ===== src/Gate/Split.antt =====
-- spark_jobs/quality_gate.py: which rows the gate keeps, which it puts aside, and which it loses.
use coinwhale_data_pipeline.Prelude.{
  suc, ◌+◌, ◌≡◌, refl, ap, ◌∙◌, String, Bool, true, false, not, ◌&&◌, ◌||◌, any, none, some, List,
  [], ◌∷◌, map, keep, length, if◌then◌else◌, arith,
}
use coinwhale_data_pipeline.Gate.{Bool3, and3, not3, is_true, and_from, and_all}
use coinwhale_data_pipeline.Gate.Rows.{
  Cell, Spark, Limits, Frame, Gated, invalid_reasons, gate_row, apply_quality_gate, valid_rows,
  invalid_rows,
}

-- A condition that is NULL.
abbrev pub is_unknown : Bool3 → Bool
is_unknown none = true
is_unknown (some b) = false

-- The verdict on a list of conditions against a row.
abbrev pub verdict_of : Bool → Bool → Bool3
verdict_of true unknown = some false
verdict_of false true = none
verdict_of false false = some true

and3-verdict :
    (t u : Bool) (c : Bool3)
    → and3 (verdict_of t u) (not3 c) ≡ verdict_of (t || is_true c) (u || is_unknown c)
unfolding and3 not3 is_true
and3-verdict true u c = refl
and3-verdict false true none = refl
and3-verdict false true (some true) = refl
and3-verdict false true (some false) = refl
and3-verdict false false none = refl
and3-verdict false false (some true) = refl
and3-verdict false false (some false) = refl

not3-verdict : (c : Bool3) → not3 c ≡ verdict_of (is_true c) (is_unknown c)
unfolding not3 is_true
not3-verdict none = refl
not3-verdict (some true) = refl
not3-verdict (some false) = refl

or_assoc : (a b c : Bool) → (a || b || c) ≡ (a || (b || c))
or_assoc true b c = refl
or_assoc false b c = refl

module _ {A : Type 0} where
  abbrev pub some_true : List (Bool3 × A) → Bool
  some_true cs = any (λ c. is_true c.0) cs

  abbrev pub some_unknown : List (Bool3 × A) → Bool
  some_unknown cs = any (λ c. is_unknown c.0) cs

  and_from-verdict :
      (t u : Bool) (cs : List (Bool3 × A))
      → and_from (verdict_of t u) (map (λ c. not3 c.0) cs)
        ≡ verdict_of (t || some_true cs) (u || some_unknown cs)
  unfolding and_from
  and_from-verdict t u [] = grind arith
  and_from-verdict t u (c ∷ cs) =
      ap (λ b. and_from b (map (λ c. not3 c.0) cs)) (and3-verdict t u c.0)
      ∙ and_from-verdict (t || is_true c.0) (u || is_unknown c.0) cs
      ∙ ap (λ b. verdict_of b (u || is_unknown c.0 || some_unknown cs))
          (or_assoc t (is_true c.0) (some_true cs))
      ∙ ap (verdict_of (t || (is_true c.0 || some_true cs)))
          (or_assoc u (is_unknown c.0) (some_unknown cs))

  and_all-verdict :
      (cs : List (Bool3 × A))
      → and_all (map (λ c. not3 c.0) cs) ≡ verdict_of (some_true cs) (some_unknown cs)
  unfolding and_all
  and_all-verdict [] = refl
  and_all-verdict (c ∷ cs) =
      ap (λ b. and_from b (map (λ c. not3 c.0) cs)) (not3-verdict c.0)
      ∙ and_from-verdict (is_true c.0) (is_unknown c.0) cs

module _ (sp : Spark) (l : Limits) (topic : String) (columns : List String) where
  -- The flag of a row is false when one of the conditions against it is true, NULL when none is true
  -- and one is NULL, and true when all are false.
  pub gate_verdict :
      (row : String → Cell)
      → (gate_row sp l topic columns row).dq_is_valid
        ≡ verdict_of
            (some_true (invalid_reasons sp l topic columns row))
            (some_unknown (invalid_reasons sp l topic columns row))
  unfolding gate_row
  gate_verdict row = and_all-verdict (invalid_reasons sp l topic columns row)

-- The rows that are in neither part.
abbrev pub undecided : List Gated → List Gated
undecided df = keep (λ g. is_unknown g.dq_is_valid) df

split_lengths :
    (df : List Gated)
    → length df ≡ length (valid_rows df) + length (invalid_rows df) + length (undecided df)
unfolding valid_rows invalid_rows is_true not3
split_lengths [] = refl
split_lengths (g ∷ df) = let later = split_lengths df in ground arith

length-kept :
    (b c : Bool) (x : Gated) (y : String → Cell) (xs : List Gated) (ys : List (String → Cell))
    → b ≡ c
    → length xs ≡ length ys
    → length (if b then x ∷ xs else xs) ≡ length (if c then y ∷ ys else ys)
length-kept b c x y xs ys same rest = ground arith

module _ (sp : Spark) (l : Limits) (topic : String) (df : Frame) where
  -- A row of the frame against which no condition is true and one is NULL.
  abbrev pub is_lost : (String → Cell) → Bool
  is_lost row =
      not (some_true (invalid_reasons sp l topic df.columns row))
      && some_unknown (invalid_reasons sp l topic df.columns row)

  verdict-lost : (t u : Bool) (v : Bool3) → v ≡ verdict_of t u → is_unknown v ≡ (not t && u)
  verdict-lost true u v h = grind arith
  verdict-lost false true v h = grind arith
  verdict-lost false false v h = grind arith

  lost-undecided :
      (rows : List (String → Cell))
      → length (undecided (map (gate_row sp l topic df.columns) rows)) ≡ length (keep is_lost rows)
  lost-undecided [] = refl
  lost-undecided (row ∷ rest) =
      let later = lost-undecided rest in
      let here =
        verdict-lost (some_true (invalid_reasons sp l topic df.columns row))
          (some_unknown (invalid_reasons sp l topic df.columns row))
          (gate_row sp l topic df.columns row).dq_is_valid
          (gate_verdict sp l topic df.columns row) in
      length-kept _ _ (gate_row sp l topic df.columns row) row _ _ here later

  pub length-gated :
      (rows : List (String → Cell))
      → length (map (gate_row sp l topic df.columns) rows) ≡ length rows
  length-gated [] = refl
  length-gated (row ∷ rest) = ap suc (length-gated rest)

  -- The valid rows, the invalid rows, and the rows against which no condition is true and some condition
  -- is NULL, add up to the rows of the frame.
  pub gate_loses_unknown_rows :
      length df.rows
      ≡ length (valid_rows (apply_quality_gate sp l topic df))
        + length (invalid_rows (apply_quality_gate sp l topic df))
        + length (keep is_lost df.rows)
  unfolding apply_quality_gate
  gate_loses_unknown_rows =
      let split = split_lengths (map (gate_row sp l topic df.columns) df.rows) in
      let all = length-gated df.rows in let lost = lost-undecided df.rows in omega arith
