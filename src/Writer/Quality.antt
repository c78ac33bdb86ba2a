-- ===== src/Writer/Quality.antt =====
-- spark_jobs/ch_writer.py: `evaluate_write_quality`, the warnings of a batch.
use Prim.Native.Nat.{Ordering}
use Prim.Native.String.{compare}
use coinwhale_data_pipeline.Prelude.{
  ℕ, ◌*◌, String, Bool, true, not, ◌&&◌, Option, none, some, List, [], ◌∷◌, ◌++◌, ◌≡◌, refl, ◌↔◌,
  arith, all, any, keep, ◌=ˢ◌, if◌then◌else◌, ltb, leb,
}
use coinwhale_data_pipeline.Writer.{
  Warning, missing_critical_column, critical_nulls, high_null_rate, high_nan_rate, missing_checksum,
  missing_time_column,
}

-- `_CRITICAL_COLUMNS_BY_TABLE`
unfoldable pub critical_columns_for_table : String → List String
critical_columns_for_table table =
    if table =ˢ "stream.price"
    then "symbol" ∷ "ts" ∷ []
    else if table =ˢ "stream.oi"
    then "symbol" ∷ "ts" ∷ "open_interest" ∷ []
    else if table =ˢ "stream.funding"
    then "symbol" ∷ "ts" ∷ "funding_rate" ∷ "mark_price" ∷ []
    else if table =ˢ "stream.cvd"
    then "symbol" ∷ "ts" ∷ "futures_cvd_delta" ∷ "spot_cvd_delta" ∷ []
    else if table =ˢ "stream.liquidation"
    then "symbol" ∷ "ts" ∷ []
    else if table =ˢ "stream.market_metrics"
    then "symbol" ∷ "ts" ∷ []
    else if table =ˢ "stream.ls_ratio"
    then "symbol" ∷ "ts" ∷ "ratio_type" ∷ "ls_ratio" ∷ []
    else []

unfoldable pub time_columns : List String
time_columns = "ts" ∷ "event_time" ∷ "event_ts" ∷ "timestamp" ∷ "window_start" ∷ "window_end" ∷ []

abbrev pub has : List String → String → Bool
has columns column = any (λ c. c =ˢ column) columns

-- `counts.get(column, 0)`
abbrev pub tally : List (String × ℕ) → String → ℕ
tally [] column = 0
tally ((c, n) ∷ rest) column = if c =ˢ column then n else tally rest column

-- The loop over the critical columns: its warnings, and the columns that were there.
unfoldable pub critical_warnings : List (String × ℕ) → List String → List String → List Warning
critical_warnings nulls columns [] = []
critical_warnings nulls columns (c ∷ cs) =
    let rest = critical_warnings nulls columns cs in
    if not (has columns c)
    then missing_critical_column c ∷ rest
    else if ltb 0 (tally nulls c)
    then critical_nulls c (tally nulls c) ∷ rest
    else rest

-- `count / row_count >= 0.30`, multiplied out: rounding a quotient moves it across 0.30 only at more
-- than 2^50 rows.
unfoldable pub reaches_threshold : ℕ → ℕ → Bool
reaches_threshold count row_count = leb (3 * row_count) (10 * count)

-- The loops over the other columns, which differ in the warning.
unfoldable pub rate_warnings :
    (String → ℕ → Warning) → ℕ → List String → List (String × ℕ) → List Warning
rate_warnings warning row_count critical [] = []
rate_warnings warning row_count critical ((c, n) ∷ rest) =
    let others = rate_warnings warning row_count critical rest in
    if not (has critical c) && reaches_threshold n row_count then warning c n ∷ others else others

-- `sorted(counts.items())`; the columns are keys of a dict, and so differ.
insert_count : String × ℕ → List (String × ℕ) → List (String × ℕ)
insert_count x [] = x ∷ []
insert_count (c, n) ((d, k) ∷ rest) =
    let later = insert_count (c, n) rest in
    elim (compare c d) [ Ordering.gt ↦ (d, k) ∷ later | _ ↦ (c, n) ∷ (d, k) ∷ rest ]

unfoldable pub sorted_counts : List (String × ℕ) → List (String × ℕ)
unfolding insert_count
sorted_counts [] = []
sorted_counts (x ∷ xs) = insert_count x (sorted_counts xs)

-- `not checksum`
abbrev pub lacks_checksum : Option String → Bool
lacks_checksum none = true
lacks_checksum (some s) = s =ˢ ""

unfoldable pub evaluate_write_quality :
    String
    → ℕ
    → Option String
    → List (String × ℕ)
    → List (String × ℕ)
    → List String
    → List Warning × List String
evaluate_write_quality table row_count checksum nulls nans columns =
    let critical = critical_columns_for_table table in
    if ltb 0 row_count
    then (
      critical_warnings nulls columns critical
          ++ rate_warnings high_null_rate row_count critical (sorted_counts nulls)
          ++ rate_warnings high_nan_rate row_count critical (sorted_counts nans)
          ++ (if lacks_checksum checksum then missing_checksum ∷ [] else [])
          ++ (if not (any (has columns) time_columns) then missing_time_column ∷ [] else []),
      keep (has columns) critical,
    )
    else ([], [])

-- A batch has no warning for its critical columns just when each of them is there and none has a
-- null counted.
pub no_critical_warnings_iff :
    (nulls : List (String × ℕ)) (columns critical : List String)
    → (critical_warnings nulls columns critical ≡ [])
      ↔ (all (λ c. has columns c && not (ltb 0 (tally nulls c))) critical ≡ true)
unfolding critical_warnings
no_critical_warnings_iff nulls columns [] = (λ h. refl, λ h. refl)
no_critical_warnings_iff nulls columns (c ∷ cs) =
    let rest = no_critical_warnings_iff nulls columns cs in ground arith
