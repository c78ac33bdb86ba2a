-- ===== src/Gate/Topics.antt =====
-- spark_jobs/quality_gate.py: the hot topics, and the columns that are critical and that must not be
-- negative for each topic.
use coinwhale_data_pipeline.Prelude.{
  String, Bool, false, Option, none, some, List, [], ◌∷◌, ◌=ˢ◌, if◌then◌else◌, is_in,
}

abbrev pub hot_path_topics : List String
hot_path_topics =
    "binance-trade" ∷ "spot-trade" ∷ "binance-bookticker" ∷ "spot-bookticker" ∷ "binance-markprice"
    ∷ "binance-openinterest" ∷ "rollup-trade-cvd-1s" ∷ "rollup-bookticker-1s" ∷ "binance-ticker"
    ∷ []

unfoldable pub is_hot_path_topic : Option String → Bool
is_hot_path_topic none = false
is_hot_path_topic (some topic) = if topic =ˢ "" then false else is_in topic hot_path_topics

abbrev pub critical_columns_by_topic : List (String × List String)
critical_columns_by_topic =
    ("binance-trade", "symbol" ∷ "price" ∷ "quantity" ∷ "event_time_sec" ∷ [])
    ∷ ("spot-trade", "symbol" ∷ "price" ∷ "quantity" ∷ "event_time_sec" ∷ [])
    ∷ ("binance-bookticker", "symbol" ∷ "bid_price" ∷ "ask_price" ∷ "event_time_sec" ∷ [])
    ∷ ("spot-bookticker", "symbol" ∷ "bid_price" ∷ "ask_price" ∷ "event_time_sec" ∷ [])
    ∷ (
      "binance-markprice",
      "symbol" ∷ "mark_price" ∷ "funding_rate" ∷ "index_price" ∷ "event_time_sec" ∷ [],
    )
    ∷ ("binance-openinterest", "symbol" ∷ "open_interest" ∷ "event_time_sec" ∷ [])
    ∷ ("rollup-trade-cvd-1s", "symbol" ∷ "event_time_sec" ∷ [])
    ∷ ("rollup-bookticker-1s", "symbol" ∷ "bid_price" ∷ "ask_price" ∷ "event_time_sec" ∷ [])
    ∷ ("binance-ticker", "symbol" ∷ "event_time_sec" ∷ [])
    ∷ []

abbrev pub non_negative_columns_by_topic : List (String × List String)
non_negative_columns_by_topic =
    ("binance-trade", "price" ∷ "quantity" ∷ [])
    ∷ ("spot-trade", "price" ∷ "quantity" ∷ [])
    ∷ ("binance-bookticker", "bid_price" ∷ "ask_price" ∷ [])
    ∷ ("spot-bookticker", "bid_price" ∷ "ask_price" ∷ [])
    ∷ ("binance-markprice", "mark_price" ∷ "index_price" ∷ [])
    ∷ ("binance-openinterest", "open_interest" ∷ [])
    ∷ (
      "rollup-trade-cvd-1s",
      "futures_taker_buy_qty" ∷ "futures_taker_sell_qty" ∷ "futures_trade_count"
          ∷ "spot_taker_buy_qty" ∷ "spot_taker_sell_qty" ∷ "spot_trade_count" ∷ "whale_buy_count"
          ∷ "whale_sell_count" ∷ "whale_buy_qty" ∷ "whale_sell_qty" ∷ [],
    )
    ∷ ("rollup-bookticker-1s", "bid_price" ∷ "ask_price" ∷ "message_count" ∷ [])
    ∷ []

-- `dict.get(topic, ())`
unfoldable pub columns_of : String → List (String × List String) → List String
columns_of topic [] = []
columns_of topic ((t, columns) ∷ rest) = if t =ˢ topic then columns else columns_of topic rest
