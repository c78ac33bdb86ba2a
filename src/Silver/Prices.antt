-- ===== src/Silver/Prices.antt =====
-- A run of the price rows: a rollup with a complete row of each market, and one without an ask.
use coinwhale_data_pipeline.Prelude.{
  ℕ, ◌+◌, ◌-◌, ◌*◌, ltb, leb, ◌==◌, refl, true, false, some, none, [], ◌∷◌, lookup, List,
}
use coinwhale_data_pipeline.Value.{Float, bits}
use coinwhale_data_pipeline.Silver.Price.{
  Doubles, Books, BookRow, PriceRow, update_rollup_bt, price_row,
}
use coinwhale_data_pipeline.Silver.Priced.{IsPriced, or_else, newest, rollup_prices-IsPriced}

abbrev count : Float → ℕ
count (bits n) = n

-- Whole numbers in the place of doubles.
abbrev doubles : Doubles
doubles = record {
  zero = bits 0;
  two = bits 2;
  hundred = bits 100;
  lt = λ a b. ltb (count a) (count b);
  le = λ a b. leb (count a) (count b);
  eq = λ a b. count a == count b;
  is_nan = λ a. false;
  add = λ a b. bits (count a + count b);
  sub = λ a b. bits (count a - count b);
  mul = λ a b. bits (count a * count b);
  div = λ a b. a;
}

abbrev rollup : List BookRow
rollup =
    (record {
      market = some "futures";
      symbol = some "BTCUSDT";
      bid_price = some (bits 100);
      ask_price = some (bits 101);
      event_time_sec = some (bits 50);
    })
    ∷ (record {
      market = some "spot";
      symbol = some "BTCUSDT";
      bid_price = some (bits 98);
      ask_price = some (bits 99);
      event_time_sec = some (bits 20);
    })
    ∷ (record {
      market = some "futures";
      symbol = some "BTCUSDT";
      bid_price = some (bits 104);
      ask_price = none;
      event_time_sec = some (bits 55);
    })
    ∷ []

abbrev empty_books : Books
empty_books = record { futures_book = []; spot_book = [] }

abbrev mark : PriceRow
mark = record {
  ts = "2024-01-01 00:00:00";
  symbol = "BTCUSDT";
  mark_price = bits 100;
  funding_rate = bits 0;
  index_price = bits 99;
}

-- The futures' snapshot is fresh, without the row that has no ask; the spot's is stale.
rollup_prices-IsPriced_example :
    IsPriced doubles
      (bits 15)
      (bits 60)
      (or_else (newest false "BTCUSDT" rollup) none)
      (or_else (newest true "BTCUSDT" rollup) none)
      (price_row doubles (bits 15) (bits 60) (update_rollup_bt rollup empty_books) mark)
unfolding lookup
rollup_prices-IsPriced_example =
    rollup_prices-IsPriced doubles (bits 15) (bits 60) rollup empty_books mark refl refl
