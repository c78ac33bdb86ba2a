-- ===== src/RowHash/Equal.antt =====
-- spark_jobs/row_hash_policy.py: which rows have the same hash.
use coinwhale_data_pipeline.Prelude.{
  lookup, ◌≡◌, refl, String, ◌<>◌, some, List, [], ◌∷◌, ◌++◌, All, all, arith, strip, split_once,
}
use coinwhale_data_pipeline.RowHash.Tables.{RowHashColumns, table_hash_columns}
use coinwhale_data_pipeline.RowHash.{
  Row, Outside, has_column, canonical_table_name, hash_columns, canonical_items, build_row_hash,
}

-- The names of the tables behind `stream.` and `stream_shadow.`.
abbrev pub tables : List String
tables = "price" ∷ "oi" ∷ "cvd" ∷ "funding" ∷ "liquidation" ∷ "market_metrics" ∷ "ls_ratio" ∷ []

-- Two rows agree on a column: both lack it, or both have it with the same value.
abbrev pub Agree : Row → Row → String → Type 0
Agree row row' column = lookup column row ≡ lookup column row'

module _ (o : Outside) where
  -- A row has the same hash under the name of a stream table and under that of its shadow table.
  pub shadow_hash :
      (row : Row)
      → All
          (λ (t : String).
            build_row_hash o ("stream." <> t) row ≡ build_row_hash o ("stream_shadow." <> t) row)
          tables
  unfolding build_row_hash canonical_table_name strip hash_columns split_once
  shadow_hash row = (refl, (refl, (refl, (refl, (refl, (refl, (refl, tt)))))))

  has_all :
      (columns : List String) (row row' : Row)
      → All (Agree row row') columns
      → all (λ c. has_column c row) columns ≡ all (λ c. has_column c row') columns
  unfolding has_column
  has_all [] row row' agree = refl
  has_all (c ∷ cs) row row' agree =
      let later = has_all cs row row' agree.1 in let here = agree.0 in grind arith

  same_items :
      (columns : List String) (row row' : Row)
      → All (Agree row row') columns
      → canonical_items o columns row ≡ canonical_items o columns row'
  unfolding canonical_items
  same_items [] row row' agree = refl
  same_items (c ∷ cs) row row' agree =
      let later = same_items cs row row' agree.1 in let here = agree.0 in grind arith

  All-take : (P : String → Type 0) (xs ys : List String) → All P (xs ++ ys) → All P xs
  All-take P [] ys given = tt
  All-take P (x ∷ xs) ys given = (given.0, All-take P xs ys given.1)

  hash_columns-Agree :
      (table : String) (columns : RowHashColumns) (row row' : Row)
      → All (Agree row row') (columns.required ++ columns.optional)
      → hash_columns o table (some columns) row ≡ hash_columns o table (some columns) row'
  unfolding hash_columns
  hash_columns-Agree table columns row row' agree =
      let required = All-take (Agree row row') columns.required columns.optional agree in
      let present = has_all columns.required row row' required in
      let items = same_items (columns.required ++ columns.optional) row row' agree in grind arith

  -- Two rows have the same hash, or end in the same error, when they agree on the columns that the
  -- policy lists for the table: other columns and the order of the columns do not count.
  pub only_listed_columns_count :
      (table_name table : String) (columns : RowHashColumns) (row row' : Row)
      → canonical_table_name table_name ≡ some table
      → lookup table table_hash_columns ≡ some columns
      → All (Agree row row') (columns.required ++ columns.optional)
      → build_row_hash o table_name row ≡ build_row_hash o table_name row'
  unfolding build_row_hash
  only_listed_columns_count table_name table columns row row' named listed agree =
      let same = hash_columns-Agree table columns row row' agree in grind arith
