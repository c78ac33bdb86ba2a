-- ===== src/Silver/Price.antt =====
-- spark_jobs/silver/price.py: the books of bid and ask that PriceInsight keeps between batches, and the
-- columns that `process_batch` computes from them. Spark sorts and collects the rows, and the rows that
-- a book without a market takes have a symbol; double arithmetic is a parameter.
use coinwhale_data_pipeline.Prelude.{
  String, Bool, not, ◌&&◌, Option, none, some, List, [], ◌∷◌, map, ◌=ˢ◌, if◌then◌else◌, lookup,
}
use coinwhale_data_pipeline.Value.{Float}

-- `<`, `<=`, `==` and the operations of doubles
pub record Doubles : Type 0 where
  pub zero : Float
  pub two : Float
  pub hundred : Float
  pub lt : Float → Float → Bool
  pub le : Float → Float → Bool
  pub eq : Float → Float → Bool
  pub is_nan : Float → Bool
  pub add : Float → Float → Float
  pub sub : Float → Float → Float
  pub mul : Float → Float → Float
  pub div : Float → Float → Float

pub record BookTickerSnapshot : Type 0 where
  pub bid : Float
  pub ask : Float
  pub event_time_sec : Float

-- `_futures_book` and `_spot_book`, with the newest entries first
pub record Books : Type 0 where
  pub futures_book : List (String × BookTickerSnapshot)
  pub spot_book : List (String × BookTickerSnapshot)

-- A row of bookticker data; a cell without a value is NULL.
pub record BookRow : Type 0 where
  pub market : Option String
  pub symbol : Option String
  pub bid_price : Option Float
  pub ask_price : Option Float
  pub event_time_sec : Option Float

unfoldable pub snapshot_of : Option Float → Option Float → Option Float → Option BookTickerSnapshot
snapshot_of none ask time = none
snapshot_of (some bid) none time = none
snapshot_of (some bid) (some ask) none = none
snapshot_of (some bid) (some ask) (some time) =
    some (record { bid = bid; ask = ask; event_time_sec = time })

unfoldable pub put :
    String
    → Option BookTickerSnapshot
    → List (String × BookTickerSnapshot)
    → List (String × BookTickerSnapshot)
put symbol none book = book
put symbol (some snapshot) book = (symbol, snapshot) ∷ book

-- The loop of `_update_futures_bt` and of `_update_spot_bt`, on the book of its market.
unfoldable pub update_bt :
    List (String × BookRow)
    → List (String × BookTickerSnapshot)
    → List (String × BookTickerSnapshot)
unfolding put snapshot_of
update_bt [] book = book
update_bt ((symbol, row) ∷ rows) book =
    update_bt rows (put symbol (snapshot_of row.bid_price row.ask_price row.event_time_sec) book)

unfoldable pub put_market :
    Option String → Option String → Option BookTickerSnapshot → Books → Books
unfolding put
put_market none symbol snapshot books = books
put_market (some market) none snapshot books = books
put_market (some market) (some symbol) snapshot books =
    if market =ˢ "spot"
    then record books { spot_book = put symbol snapshot books.spot_book }
    else record books { futures_book = put symbol snapshot books.futures_book }

unfoldable pub update_rollup_bt : List BookRow → Books → Books
unfolding put_market snapshot_of
update_rollup_bt [] books = books
update_rollup_bt (row ∷ rows) books = update_rollup_bt rows (
    put_market row.market row.symbol (snapshot_of row.bid_price row.ask_price row.event_time_sec)
      books)

-- The columns of one market in a row, and whether the snapshot is fresh.
pub record Quote : Type 0 where
  pub bid : Float
  pub ask : Float
  pub book_event_time_sec : Float
  pub fresh : Bool

pub record PriceRow : Type 0 where
  pub ts : String
  pub symbol : String
  pub mark_price : Float
  pub funding_rate : Float
  pub index_price : Float

pub record PriceOut : Type 0 where
  pub ts : String
  pub symbol : String
  pub futures_bid : Float
  pub futures_ask : Float
  pub futures_spread : Float
  pub spot_bid : Float
  pub spot_ask : Float
  pub spot_spread : Float
  pub basis_pct : Float
  pub mark_price : Float
  pub funding_rate : Float
  pub index_price : Float

module _ (d : Doubles) (stale_after_sec batch_processed_at_sec : Float) where
  unfoldable pub is_fresh : Float → Bool
  is_fresh time = d.lt d.zero time && d.le (d.sub batch_processed_at_sec time) stale_after_sec

  -- What a row's symbol maps to: zeros without a snapshot.
  unfoldable pub or_zeros : Option BookTickerSnapshot → BookTickerSnapshot
  or_zeros none = record { bid = d.zero; ask = d.zero; event_time_sec = d.zero }
  or_zeros (some snapshot) = snapshot

  unfoldable pub quote_of : BookTickerSnapshot → Quote
  quote_of s = record {
    bid = if is_fresh s.event_time_sec then s.bid else d.zero;
    ask = if is_fresh s.event_time_sec then s.ask else d.zero;
    book_event_time_sec = s.event_time_sec;
    fresh = is_fresh s.event_time_sec;
  }

  -- `_apply_bookticker_snapshot` on a row
  unfoldable pub apply_bookticker_snapshot : String → List (String × BookTickerSnapshot) → Quote
  unfolding quote_of or_zeros
  apply_bookticker_snapshot symbol snapshots = quote_of (or_zeros (lookup symbol snapshots))

  unfoldable pub spread_of : Quote → Float
  spread_of q = if q.fresh then d.sub q.ask q.bid else d.zero

  unfoldable pub mid_of : Quote → Float
  mid_of q = d.div (d.add q.bid q.ask) d.two

  -- `fillna(0.0)`
  unfoldable pub fill : Float → Float
  fill x = if d.is_nan x then d.zero else x

  unfoldable pub basis_of : Quote → Quote → Float
  unfolding mid_of fill
  basis_of futures spot =
      if futures.fresh && spot.fresh && not (d.eq (mid_of spot) d.zero)
      then fill (d.mul (d.div (d.sub (mid_of futures) (mid_of spot)) (mid_of spot)) d.hundred)
      else fill d.zero

  unfoldable pub priced : PriceRow → Quote → Quote → PriceOut
  unfolding spread_of basis_of
  priced row futures spot = record {
    ts = row.ts;
    symbol = row.symbol;
    futures_bid = futures.bid;
    futures_ask = futures.ask;
    futures_spread = spread_of futures;
    spot_bid = spot.bid;
    spot_ask = spot.ask;
    spot_spread = spread_of spot;
    basis_pct = basis_of futures spot;
    mark_price = row.mark_price;
    funding_rate = row.funding_rate;
    index_price = row.index_price;
  }

  unfoldable pub price_row : Books → PriceRow → PriceOut
  unfolding priced apply_bookticker_snapshot
  price_row books row =
      priced row (apply_bookticker_snapshot row.symbol books.futures_book)
        (apply_bookticker_snapshot row.symbol books.spot_book)

  -- The frame that `process_batch` inserts.
  unfoldable pub price_rows : Books → List PriceRow → List PriceOut
  unfolding price_row
  price_rows books rows = map (price_row books) rows
