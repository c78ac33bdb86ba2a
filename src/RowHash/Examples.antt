-- ===== src/RowHash/Examples.antt =====
-- Runs of the row hash's theorems on rows of open interest.
use coinwhale_data_pipeline.Prelude.{
  lookup, ◌≡◌, refl, ◌<>◌, true, false, none, some, [], ◌∷◌, show_ℤ, join, map, strip, split_once,
}
use coinwhale_data_pipeline.RowHash.{
  Row, Outside, text, other, null, build_row_hash, canonical_table_name,
}
use coinwhale_data_pipeline.RowHash.Numbers.{finite, places, number_text}
use coinwhale_data_pipeline.RowHash.Equal.{only_listed_columns_count}
use coinwhale_data_pipeline.RowHash.Rounding.{trailing_zeros_are_dropped}

-- A library where every number reads as 1.25, and the digest is the items themselves.
abbrev outside : Outside
outside = record {
  is_nan = λ x. false;
  float_text = λ x. "1.25";
  decimal_text = λ d. "1.25";
  moment_text = λ m. "2024-01-01";
  day_text = λ us. "2024-01-01";
  decimal_of = λ s. some (finite false 125 (places 2));
  from_iso = λ s. none;
  iso_ms = show_ℤ;
  digest = λ version table items. version <> (table <> join "," (map (λ i. i.0 <> i.1) items));
}

abbrev row : Row
row =
    ("symbol", text "BTCUSDT")
    ∷ ("ts", text "2024-01-01T00:00:00Z")
    ∷ ("open_interest", other "125")
    ∷ ("oi_change_pct", null)
    ∷ []

-- The same row in another order, with a column that the policy does not list.
abbrev reordered : Row
reordered =
    ("note", text "late")
    ∷ ("oi_change_pct", null)
    ∷ ("open_interest", other "125")
    ∷ ("ts", text "2024-01-01T00:00:00Z")
    ∷ ("symbol", text "BTCUSDT")
    ∷ []

only_listed_columns_count_example :
    build_row_hash outside "stream.oi" row ≡ build_row_hash outside "stream.oi" reordered
unfolding canonical_table_name lookup strip split_once
only_listed_columns_count_example =
    only_listed_columns_count outside "stream.oi" "stream_shadow.oi"
      (record {
        required = "symbol" ∷ "ts" ∷ "open_interest" ∷ "oi_change_pct" ∷ [];
        optional = "oi_change" ∷ [];
      })
      row reordered refl refl (refl, (refl, (refl, (refl, (refl, tt)))))

trailing_zeros_are_dropped_example :
    number_text (finite true 12500 (places 4)) ≡ number_text (finite true 125 (places 2))
trailing_zeros_are_dropped_example = trailing_zeros_are_dropped true 125 2 2
