-- ===== src/Fixtures/Rollup.antt =====
-- A frame of two rollups of trades, one of which lacks a count, and casts that read the cells as they are.
use coinwhale_data_pipeline.Prelude.{
  ℤ, pos, String, Option, none, some, List, [], ◌∷◌, ◌=ˢ◌, if◌then◌else◌,
}
use coinwhale_data_pipeline.Value.{Float, bits}
use coinwhale_data_pipeline.Gate.Rows.{Cell, null, text, long, double, Spark, Frame, Limits}
use coinwhale_data_pipeline.Gate.Summary.{Percentiles, Batch}
use coinwhale_data_pipeline.Fixtures.{float_lt}

abbrev pub text_of : Cell → Option String
text_of (text s) = some s
text_of _ = none

abbrev pub ms_of : Cell → Option ℤ
ms_of (long n) = some n
ms_of _ = none

abbrev pub double_of : Cell → Option Float
double_of (double x) = some x
double_of _ = none

abbrev pub spark : Spark
spark = record {
  as_double = double_of;
  as_long = ms_of;
  as_ms = ms_of;
  as_text = text_of;
  lt = float_lt;
  zero_double = bits 0;
  to_json = λ row. "{}";
}

abbrev pub limits : Limits
limits = record {
  now_ms = pos 5000;
  late_ms = pos 600000;
  future_ms = pos 60000;
  schema_version = none;
}

abbrev pub whole : String → Cell
whole name =
    if name =ˢ "symbol"
    then text "BTCUSDT"
    else if name =ˢ "event_time_sec"
    then long (pos 4000)
    else double (bits 7)

-- The same row without its count of buys by whales.
abbrev pub partial : String → Cell
partial name = if name =ˢ "whale_buy_count" then null else whole name

abbrev pub names : List String
names = "symbol" ∷ "event_time_sec" ∷ "whale_buy_count" ∷ []

abbrev pub frame : Frame
frame = record { columns = names; rows = whole ∷ partial ∷ [] }

abbrev pub percentiles : Percentiles
percentiles = record { p95 = λ lags. none; p99 = λ lags. none }

abbrev pub batch : Batch
batch = record {
  pipeline = "silver_cvd";
  stage = "silver_pre_aggregate";
  topic = "rollup-trade-cvd-1s";
  checkpoint = "cvd";
  batch_id = pos 3;
  write_rows = none;
  output_count = some 1;
}
