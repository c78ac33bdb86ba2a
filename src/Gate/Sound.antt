-- ===== src/Gate/Sound.antt =====
-- spark_jobs/quality_gate.py: what a row satisfies that the gate finds valid.
use mathlib.Core.Option.{some-injective}
use coinwhale_data_pipeline.Prelude.{
  ℤ, pos, ltb_ℤ, ◌-ℤ◌, ◌≡◌, refl, ap, sym, subst, String, Bool, true, false, ◌&&◌, Option, none,
  some, List, [], ◌∷◌, map, All, is_in, arith, ◌=ˢ◌, eq_iff,
}
use coinwhale_data_pipeline.Value.{Float}
use coinwhale_data_pipeline.Gate.{Bool3, and3, or3, is_true, or_from, or_all}
use coinwhale_data_pipeline.Gate.Topics.{
  critical_columns_by_topic, non_negative_columns_by_topic, columns_of,
}
use coinwhale_data_pipeline.Gate.Rows.{
  Cell, Spark, Limits, is_null, existing_columns, less, differs3, minus3, above3, below3, not_null3,
  parse_status_of, event_ms_of, event_lag_of, not_parsed, critical_null, negative, inverted,
  out_of_time, invalid_reasons, gate_row,
}
use coinwhale_data_pipeline.Gate.Split.{verdict_of, some_true, some_unknown, gate_verdict}

or3-false : (a b : Bool3) → or3 a b ≡ some false → (a ≡ some false) × (b ≡ some false)
unfolding or3
or3-false (some true) b h = ground arith
or3-false (some false) b h = (refl, h)
or3-false none (some true) h = ground arith
or3-false none (some false) h = ground arith
or3-false none none h = ground arith

or_from-false :
    (b : Bool3) (bs : List Bool3)
    → or_from b bs ≡ some false
    → (b ≡ some false) × All (λ c. c ≡ some false) bs
unfolding or_from
or_from-false b [] h = (h, tt)
or_from-false b (c ∷ cs) h =
    let later = or_from-false (or3 b c) cs h in
    let here = or3-false b c later.0 in (here.0, (here.1, later.1))

or_all-false : (bs : List Bool3) → or_all bs ≡ some false → All (λ c. c ≡ some false) bs
unfolding or_all
or_all-false [] h = tt
or_all-false (b ∷ bs) h = or_from-false b bs h

All-of_map :
    (f : String → Bool3) (P : String → Type 0) (names : List String)
    → ((n : String) → f n ≡ some false → P n)
    → All (λ c. c ≡ some false) (map f names)
    → All P names
All-of_map f P [] one all = tt
All-of_map f P (n ∷ ns) one all = (one n all.0, All-of_map f P ns one all.1)

-- Every condition is false where none is true and none is NULL.
conditions-All :
    (cs : List (Bool3 × String))
    → some_true cs ≡ false
    → some_unknown cs ≡ false
    → All (λ c. c.0 ≡ some false) cs
unfolding is_true
conditions-All [] no_true known = tt
conditions-All ((some true, r) ∷ cs) no_true known = ground arith
conditions-All ((some false, r) ∷ cs) no_true known = (refl, conditions-All cs no_true known)
conditions-All ((none, r) ∷ cs) no_true known = ground arith

less-false :
    (lt : Float → Float → Bool) (a b : Option Float)
    → less lt a b ≡ some false
    → (x : Float) × (y : Float) × (a ≡ some x) × (b ≡ some y) × (lt x y ≡ false)
unfolding less
less-false lt none b h = ground arith
less-false lt (some a) none h = ground arith
less-false lt (some a) (some b) h = (a, b, refl, refl, some-injective (lt a b) false h)

differs3-false : (o : Option String) (t : String) → differs3 o t ≡ some false → o ≡ some t
unfolding differs3
differs3-false none t h = ground arith
differs3-false (some s) t h =
    let same : (s =ˢ t) ≡ true = ground arith in ap some ((eq_iff s t).0 same)

-- The lag of an event is within the limits.
abbrev pub IsInTime : Limits → Option ℤ → Type 0
IsInTime l none = Unit
IsInTime l (some ms) =
    (ltb_ℤ l.late_ms (l.now_ms -ℤ ms) ≡ false)
    × (ltb_ℤ (l.now_ms -ℤ ms) (pos 0 -ℤ l.future_ms) ≡ false)

IsInTime-of :
    (l : Limits) (o : Option ℤ)
    → and3 (not_null3 o) (
        or3
          (above3 (minus3 l.now_ms o) l.late_ms)
          (below3 (minus3 l.now_ms o) (pos 0 -ℤ l.future_ms)))
      ≡ some false
    → IsInTime l o
unfolding and3 not_null3 or3 above3 below3 minus3
IsInTime-of l none h = tt
IsInTime-of l (some ms) h =
    let parts =
      or3-false (above3 (some (l.now_ms -ℤ ms)) l.late_ms)
        (below3 (some (l.now_ms -ℤ ms)) (pos 0 -ℤ l.future_ms)) h in
    (some-injective _ _ parts.0, some-injective _ _ parts.1)

module _ (sp : Spark) (l : Limits) (topic : String) (columns : List String) where
  abbrev pub IsNumber : (String → Cell) → String → Type 0
  IsNumber row n = (x : Float) × (sp.as_double (row n) ≡ some x) × (sp.lt x sp.zero_double ≡ false)

  -- What the gate promises of a row: it was parsed, no critical column is NULL, every column that must
  -- not be negative is a number that is not, the bid is not above the ask, and the event's time, where
  -- it has one, is within the limits.
  pub record Sound (row : String → Cell) : Type 0 where
    pub parsed : parse_status_of sp l topic columns row ≡ some "ok"
    pub critical :
        All
          (λ n. is_null (row n) ≡ false)
          (existing_columns columns (columns_of topic critical_columns_by_topic))
    pub numbers :
        All
          (IsNumber row)
          (existing_columns columns (columns_of topic non_negative_columns_by_topic))
    pub ordered :
        (is_in "bid_price" columns && is_in "ask_price" columns) ≡ true
        → (ask : Float) × (bid : Float) × (sp.as_double (row "ask_price") ≡ some ask)
          × (sp.as_double (row "bid_price") ≡ some bid)
          × (sp.lt ask bid ≡ false)
    pub in_time : IsInTime l (event_ms_of sp l topic columns row)

  IsNumber-of :
      (row : String → Cell) (n : String)
      → less sp.lt (sp.as_double (row n)) (some sp.zero_double) ≡ some false
      → IsNumber row n
  IsNumber-of row n h =
      let found = less-false sp.lt (sp.as_double (row n)) (some sp.zero_double) h in
      let zero : sp.zero_double ≡ found.1 = some-injective _ _ found.3 in
      (found.0, found.2, subst (λ z. sp.lt found.0 z ≡ false) (sym zero) found.4)

  ordered-of :
      (row : String → Cell)
      → (is_in "bid_price" columns && is_in "ask_price" columns) ≡ true
      → inverted sp l topic columns row ≡ some false
      → less sp.lt (sp.as_double (row "ask_price")) (sp.as_double (row "bid_price")) ≡ some false
  unfolding inverted
  ordered-of row both h = ground arith

  reasons-Sound :
      (row : String → Cell)
      → All (λ c. c.0 ≡ some false) (invalid_reasons sp l topic columns row)
      → Sound row
  unfolding invalid_reasons not_parsed critical_null negative inverted out_of_time event_lag_of
  reasons-Sound row all = record {
    parsed = differs3-false (parse_status_of sp l topic columns row) "ok" all.0;
    critical =
        All-of_map (λ n. some (is_null (row n))) (λ n. is_null (row n) ≡ false)
          (existing_columns columns (columns_of topic critical_columns_by_topic))
          (λ n h. some-injective _ _ h) (or_all-false _ all.1.0);
    numbers =
        All-of_map (λ n. less sp.lt (sp.as_double (row n)) (some sp.zero_double)) (IsNumber row)
          (existing_columns columns (columns_of topic non_negative_columns_by_topic))
          (IsNumber-of row) (or_all-false _ all.1.1.0);
    ordered = λ both.
        less-false sp.lt (sp.as_double (row "ask_price")) (sp.as_double (row "bid_price"))
          (ordered-of row both all.1.1.1.0);
    in_time = IsInTime-of l (event_ms_of sp l topic columns row) all.1.1.1.1.0;
  }

  verdict-true : (t u : Bool) → is_true (verdict_of t u) ≡ true → (t ≡ false) × (u ≡ false)
  unfolding is_true
  verdict-true true u h = ground arith
  verdict-true false true h = ground arith
  verdict-true false false h = (refl, refl)

  -- A row that the gate keeps as valid satisfies what the gate promises, NULL values included: it was
  -- parsed, no critical column is NULL, the columns that must not be negative hold numbers that are
  -- not, the bid is not above the ask, and the time of the event is within the limits.
  pub gate_row-Sound :
      (row : String → Cell)
      → is_true (gate_row sp l topic columns row).dq_is_valid ≡ true
      → Sound row
  gate_row-Sound row valid =
      let reasons = invalid_reasons sp l topic columns row in
      let judged =
        verdict-true (some_true reasons) (some_unknown reasons)
          (subst (λ v. is_true v ≡ true) (gate_verdict sp l topic columns row) valid) in
      reasons-Sound row (conditions-All reasons judged.0 judged.1)
