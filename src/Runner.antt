-- ===== src/Runner.antt =====
-- collectors/run_all.py, the constructors of the collectors that it creates, and the names of the streams
-- in utils/binance_stream_enum.py. A collector stands here for what it subscribes to and whether it runs;
-- Collector and Rest have the rest of its state. Creating a Kafka producer is taken not to raise.
pub mod Streams
mod Examples
use coinwhale_data_pipeline.Prelude.{
  ℕ, ◌*◌, String, Bool, true, false, Option, none, some, List, [], ◌∷◌, ◌++◌, map, length, ◌=ˢ◌,
  if◌then◌else◌, lower, upper,
}
use coinwhale_data_pipeline.Routing.Topics.{Endpoint, futures_endpoint}

pub data BinanceStreamType : Type 0 where
  trade agg_trade kline kline_1m book_ticker depth mini_ticker ticker : BinanceStreamType
  open_interest funding_rate taker_long_short_ratio mark_price : BinanceStreamType
  liquidation_order composite_index : BinanceStreamType

unfoldable pub value : BinanceStreamType → String
value trade = "trade"
value agg_trade = "aggTrade"
value kline = "kline"
value kline_1m = "kline_1m"
value book_ticker = "bookTicker"
value depth = "depth@100ms"
value mini_ticker = "miniTicker"
value ticker = "ticker"
value open_interest = "openInterest"
value funding_rate = "fundingRate"
value taker_long_short_ratio = "takerLongShortRatio"
value mark_price = "markPrice@1s"
value liquidation_order = "forceOrder"
value composite_index = "compositeIndex"

-- `SPOT_WS_URL`, and the two URLs of the futures
pub data BaseUrl : Type 0 where
  spot_url : BaseUrl
  futures_url : Endpoint → BaseUrl

-- The URL that a collector connects to is its base, with `symbol@stream` of each stream.
pub record WsCollector : Type 0 where
  pub class_name : String
  pub symbol : String
  pub streams : List BinanceStreamType
  pub base_url : BaseUrl
  pub running : Bool

pub record RestPoller : Type 0 where
  pub class_name : String
  pub symbol : String
  pub interval : ℕ
  pub running : Bool

-- `BaseBinanceCollector.__init__`, where no URL is given; `none` is the `ValueError` of mixed endpoints
unfoldable pub init_collector :
    String → String → String → List BinanceStreamType → Option WsCollector
unfolding futures_endpoint value
init_collector class_name market_type symbol streams =
    if market_type =ˢ "spot"
    then some (record {
      class_name = class_name;
      symbol = lower symbol;
      streams = streams;
      base_url = spot_url;
      running = true;
    })
    else elim (futures_endpoint (map value streams)) [
      | none ↦ none
      | some endpoint ↦ some (record {
        class_name = class_name;
        symbol = lower symbol;
        streams = streams;
        base_url = futures_url endpoint;
        running = true;
      })
    ]

unfoldable pub all_created : List (Option WsCollector) → Option (List WsCollector)
all_created [] = some []
all_created (created ∷ rest) =
    let later = all_created rest in
    elim created [ none ↦ none | some c ↦ elim later [ none ↦ none | some cs ↦ some (c ∷ cs) ] ]

abbrev pub ls_poller : String → RestPoller
ls_poller symbol = record {
  class_name = "LongShortRatioPoller";
  symbol = upper symbol;
  interval = 300;
  running = true;
}

abbrev pub oi_poller : String → RestPoller
oi_poller symbol = record {
  class_name = "OpenInterestPoller";
  symbol = upper symbol;
  interval = 5;
  running = true;
}

-- `create_collectors_for_symbol`, in the order of the list that it returns; `sym` is the symbol in lower
-- case.
unfoldable pub ws_collectors_for : String → Option (List WsCollector)
unfolding all_created init_collector
ws_collectors_for sym = all_created (
    init_collector "DepthKlineAggTradeCollector" "futures" sym (depth ∷ [])
    ∷ init_collector "DepthKlineAggTradeCollector" "futures" sym (kline_1m ∷ agg_trade ∷ [])
    ∷ init_collector "FuturesInsightCollector" "futures" sym (book_ticker ∷ [])
    ∷ init_collector "FuturesInsightCollector" "futures" sym (mark_price ∷ liquidation_order ∷ [])
    ∷ init_collector "SpotCollector" "spot" sym (agg_trade ∷ book_ticker ∷ kline_1m ∷ depth ∷ [])
    ∷ init_collector "SpotTickerCollector" "spot" sym (mini_ticker ∷ ticker ∷ [])
    ∷ init_collector "MarketMetricsCollector" "futures" sym (mini_ticker ∷ ticker ∷ [])
    ∷ [])

unfoldable pub create_collectors_for_symbol : String → Option (List WsCollector × List RestPoller)
unfolding ws_collectors_for
create_collectors_for_symbol symbol = elim (ws_collectors_for (lower symbol)) [
  | none ↦ none
  | some ws ↦ some (ws, oi_poller symbol ∷ ls_poller symbol ∷ [])
]

-- What `main` makes of the symbols: its collectors and pollers, and the number of topics that it prints.
pub record Tasks : Type 0 where
  pub all_ws_collectors : List WsCollector
  pub all_rest_pollers : List RestPoller

unfoldable pub tasks_of : List String → Option Tasks
unfolding create_collectors_for_symbol
tasks_of [] = some (record { all_ws_collectors = []; all_rest_pollers = [] })
tasks_of (symbol ∷ symbols) =
    let rest = tasks_of symbols in
    elim (create_collectors_for_symbol symbol) [
      | none ↦ none
      | some here ↦ elim rest [
        | none ↦ none
        | some later ↦ some (record {
          all_ws_collectors = here.0 ++ later.all_ws_collectors;
          all_rest_pollers = here.1 ++ later.all_rest_pollers;
        })
      ]
    ]

unfoldable pub topic_count : List String → ℕ
topic_count symbols = 18 * length symbols

stopped_collector : WsCollector → WsCollector
stopped_collector c = record c { running = false }

stopped_poller : RestPoller → RestPoller
stopped_poller p = record p { running = false }

-- `shutdown_handler`; `stop` of a poller resets its flag, and closes its producer, which is not here
unfoldable pub shutdown : Tasks → Tasks
unfolding stopped_collector stopped_poller
shutdown t = record {
  all_ws_collectors = map stopped_collector t.all_ws_collectors;
  all_rest_pollers = map stopped_poller t.all_rest_pollers;
}

-- A stream of a symbol at a base URL.
pub record Subscription : Type 0 where
  pub base_url : BaseUrl
  pub symbol : String
  pub stream : String

abbrev pub subscription : WsCollector → BinanceStreamType → Subscription
subscription c s = record { base_url = c.base_url; symbol = c.symbol; stream = value s }

-- The streams in the URL of a collector, and of all.
abbrev pub subscriptions : List WsCollector → List Subscription
subscriptions [] = []
subscriptions (c ∷ cs) = map (subscription c) c.streams ++ subscriptions cs
