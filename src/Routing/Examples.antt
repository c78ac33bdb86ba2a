-- ===== src/Routing/Examples.antt =====
-- Runs of the routing's theorems on a hot topic with six partitions and two routing symbols.
use coinwhale_data_pipeline.Prelude.{
  ℕ, ◌≤◌, ◌<◌, ◌≡◌, ◌≢◌, refl, ◌⊎◌, pos, String, none, some, [], upper, strip, split, split_once,
  show_ℕ, eq_iff, arith,
}
use coinwhale_data_pipeline.Value.{Fields, end, field, int}
use coinwhale_data_pipeline.Routing.{
  Config, PartitionRoute, get_topic_partition_count, member, get_symbol_partition_span,
  get_active_lane_count, active_lane_overrides, build_partition_route, index, with_symbol,
  routing_universe, span_of, build_routing_seed, stable_hash, route_of_seed, lane_route,
  clamp_lanes, from_bytes,
}
use coinwhale_data_pipeline.Routing.Topics.{is_hot}
use coinwhale_data_pipeline.Routing.Lanes.{
  parse_active_lane_overrides, collect_overrides, parse_token, lane_override, find,
}
use coinwhale_data_pipeline.Routing.Symbols.{IsSplit, spans_disjoint}
use coinwhale_data_pipeline.Routing.Routes.{
  IsLaneRoute, build_partition_route-IsLaneRoute, bad_lane_entry_raises, span_lanes,
}
use coinwhale_data_pipeline.Fixtures.{config}

abbrev topic : String
topic = "binance-trade"

abbrev payload : Fields
payload = field "a" (int (pos 12)) end

topic-IsSplit : IsSplit config topic
unfolding is_hot get_topic_partition_count
topic-IsSplit = (refl, ground arith)

two_symbols : 2 ≤ get_topic_partition_count config topic
two_symbols = topic-IsSplit.1

btc_is_not_eth : upper "BTCUSDT" ≢ upper "ETHUSDT"
unfolding upper
btc_is_not_eth e = let same = (eq_iff "BTCUSDT" "ETHUSDT").1 e in cc

four_below : 4 < get_topic_partition_count config topic
unfolding get_topic_partition_count is_hot
four_below = omega arith

spans_disjoint_example :
    ((get_symbol_partition_span config topic "BTCUSDT").1
      ≤ (get_symbol_partition_span config topic "ETHUSDT").0)
    ⊎ ((get_symbol_partition_span config topic "ETHUSDT").1
        ≤ (get_symbol_partition_span config topic "BTCUSDT").0)
unfolding member upper
spans_disjoint_example =
    spans_disjoint config topic topic-IsSplit "BTCUSDT" "ETHUSDT" two_symbols refl refl
      btc_is_not_eth

abbrev btc_route : PartitionRoute
btc_route = record {
  key = "BTCUSDT-lane-1";
  partition = some 1;
  shard = some 1;
  shard_count = 3;
  active_shard_count = 3;
  partition_count = 6;
}

routed : build_partition_route config topic "btcusdt" (pos 1000) payload ≡ some btc_route
unfolding build_partition_route is_hot get_topic_partition_count get_symbol_partition_span upper
    member index with_symbol routing_universe span_of build_routing_seed stable_hash route_of_seed
    lane_route get_active_lane_count active_lane_overrides parse_active_lane_overrides strip
    collect_overrides split parse_token split_once lane_override find clamp_lanes from_bytes show_ℕ
routed = refl

build_partition_route-IsLaneRoute_example :
    (q : ℕ) × (k : ℕ) × IsLaneRoute config topic "btcusdt" btc_route q k
build_partition_route-IsLaneRoute_example =
    build_partition_route-IsLaneRoute config topic "btcusdt" (pos 1000) payload btc_route
      topic-IsSplit routed

abbrev misconfigured : Config
misconfigured = record config { active_lanes_env = "trade=BTCUSDT:2" }

misconfigured-IsSplit : IsSplit misconfigured topic
unfolding is_hot get_topic_partition_count
misconfigured-IsSplit = (refl, ground arith)

lanes : 2 ≤ span_lanes misconfigured topic "btcusdt"
unfolding get_topic_partition_count is_hot get_symbol_partition_span upper member index with_symbol
    routing_universe span_of
lanes = omega arith

bad_lane_entry_raises_example :
    build_partition_route misconfigured topic "btcusdt" (pos 1000) payload ≡ none
unfolding split split_once strip
bad_lane_entry_raises_example =
    bad_lane_entry_raises misconfigured topic "btcusdt" (pos 1000) payload [] "trade=BTCUSDT:2" []
      "trade" "BTCUSDT:2" "BTCUSDT" "2" misconfigured-IsSplit refl refl refl refl refl lanes
