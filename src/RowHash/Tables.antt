-- ===== src/RowHash/Tables.antt =====
-- spark_jobs/row_hash_policy.py: the columns of each table and their kinds.
use coinwhale_data_pipeline.Prelude.{String, List, [], ◌∷◌}

pub record RowHashColumns : Type 0 where
  pub required : List String
  pub optional : List String

abbrev pub table_hash_columns : List (String × RowHashColumns)
table_hash_columns =
    (
      "stream_shadow.price",
      record {
        required =
            "symbol" ∷ "ts" ∷ "futures_bid" ∷ "futures_ask" ∷ "futures_spread" ∷ "spot_bid"
            ∷ "spot_ask" ∷ "spot_spread" ∷ "basis_pct" ∷ "mark_price" ∷ "funding_rate"
            ∷ "index_price" ∷ [];
        optional = "futures_mid" ∷ "spot_mid" ∷ "spread_bps" ∷ "market_spread_bps" ∷ [];
      },
    )
    ∷ (
      "stream_shadow.oi",
      record {
        required = "symbol" ∷ "ts" ∷ "open_interest" ∷ "oi_change_pct" ∷ [];
        optional = "oi_change" ∷ [];
      },
    )
    ∷ (
      "stream_shadow.cvd",
      record {
        required =
            "symbol" ∷ "ts" ∷ "futures_taker_buy_vol" ∷ "futures_taker_sell_vol"
            ∷ "futures_cvd_delta" ∷ "futures_trade_count" ∷ "spot_taker_buy_vol"
            ∷ "spot_taker_sell_vol" ∷ "spot_cvd_delta" ∷ "spot_trade_count" ∷ "whale_buy_count"
            ∷ "whale_sell_count" ∷ "whale_buy_vol" ∷ "whale_sell_vol" ∷ [];
        optional =
            "futures_buy_volume" ∷ "futures_sell_volume" ∷ "spot_buy_volume" ∷ "spot_sell_volume"
            ∷ "market" ∷ "source" ∷ [];
      },
    )
    ∷ (
      "stream_shadow.funding",
      record {
        required =
            "symbol" ∷ "ts" ∷ "funding_rate" ∷ "mark_price" ∷ "index_price" ∷ "next_funding_time"
            ∷ "mark_premium_pct" ∷ [];
        optional = [];
      },
    )
    ∷ (
      "stream_shadow.liquidation",
      record {
        required =
            "symbol" ∷ "ts" ∷ "liq_long_count" ∷ "liq_long_vol" ∷ "liq_long_usd" ∷ "liq_short_count"
            ∷ "liq_short_vol" ∷ "liq_short_usd" ∷ [];
        optional = "side" ∷ "source_event_id" ∷ "liquidation_side" ∷ "liquidation_value" ∷ [];
      },
    )
    ∷ (
      "stream_shadow.market_metrics",
      record {
        required =
            "symbol" ∷ "ts" ∷ "price_change_pct" ∷ "weighted_avg_price" ∷ "last_price"
            ∷ "volume_24h" ∷ "quote_volume_24h" ∷ "high_24h" ∷ "low_24h" ∷ "open_price_24h" ∷ [];
        optional = "composite_price" ∷ [];
      },
    )
    ∷ (
      "stream_shadow.ls_ratio",
      record {
        required = "symbol" ∷ "ts" ∷ "ratio_type" ∷ "ls_ratio" ∷ "long_ratio" ∷ "short_ratio" ∷ [];
        optional = "period" ∷ "long_account" ∷ "short_account" ∷ "long_short_ratio" ∷ [];
      },
    )
    ∷ []

abbrev pub timestamp_columns : List String
timestamp_columns =
    "ts" ∷ "next_funding_time" ∷ "window_start" ∷ "window_end" ∷ "event_time" ∷ "event_ts"
    ∷ "timestamp" ∷ []

abbrev pub string_columns : List String
string_columns =
    "symbol" ∷ "ratio_type" ∷ "market" ∷ "source" ∷ "side" ∷ "source_event_id" ∷ "period" ∷ []
