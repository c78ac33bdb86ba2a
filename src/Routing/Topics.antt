-- ===== src/Routing/Topics.antt =====
-- common/config.py: the topic maps of `Config` and `get_topic`.
use coinwhale_data_pipeline.Prelude.{
  String, Bool, false, ◌||◌, Option, none, some, List, [], ◌∷◌, ◌=ˢ◌, if◌then◌else◌, contains,
}

abbrev pub high_frequency_topics : List String
high_frequency_topics =
    "binance-bookticker" ∷ "spot-bookticker" ∷ "binance-trade" ∷ "spot-trade" ∷ "binance-depth"
    ∷ "spot-depth" ∷ []

member_of : List String → String → Bool
member_of [] topic = false
member_of (t ∷ ts) topic = (t =ˢ topic) || member_of ts topic

-- `topic in HIGH_FREQUENCY_TOPICS`
unfoldable pub is_hot : String → Bool
unfolding member_of
is_hot topic = member_of high_frequency_topics topic

-- the stream names and their topics, in the order of the dict
abbrev pub topic_map : List (String × String)
topic_map =
    ("bookTicker", "binance-bookticker")
    ∷ ("depth", "binance-depth")
    ∷ ("trade", "binance-trade")
    ∷ ("aggTrade", "binance-trade")
    ∷ ("kline", "binance-kline")
    ∷ ("forceOrder", "binance-liquidation")
    ∷ ("markPrice", "binance-markprice")
    ∷ ("openInterest", "binance-openinterest")
    ∷ ("globalLongShortAccountRatio", "binance-ls-ratio")
    ∷ ("topLongShortAccountRatio", "binance-top-ls-account")
    ∷ ("topLongShortPositionRatio", "binance-top-ls-position")
    ∷ ("takerLongShortRatio", "binance-taker-ls-ratio")
    ∷ ("miniTicker", "binance-ticker")
    ∷ ("ticker", "binance-ticker")
    ∷ ("compositeIndex", "binance-composite-index")
    ∷ []

abbrev pub spot_topic_map : List (String × String)
spot_topic_map =
    ("aggTrade", "spot-trade")
    ∷ ("bookTicker", "spot-bookticker")
    ∷ ("kline", "spot-kline")
    ∷ ("depth", "spot-depth")
    ∷ ("miniTicker", "spot-ticker")
    ∷ ("ticker", "spot-ticker")
    ∷ []

-- the first entry whose key stands in the stream's name
unfoldable pub first_match : List (String × String) → String → String
first_match [] stream = "binance-other"
first_match ((key, topic) ∷ rest) stream =
    if contains stream key then topic else first_match rest stream

unfoldable pub get_topic : String → String → String
unfolding first_match
get_topic stream market =
    first_match (if market =ˢ "spot" then spot_topic_map else topic_map) stream

-- the futures streams of the two WebSocket endpoints
abbrev pub futures_public_streams : List String
futures_public_streams = "bookTicker" ∷ "depth@100ms" ∷ "depth" ∷ []

abbrev pub futures_market_streams : List String
futures_market_streams =
    "aggTrade" ∷ "kline_1m" ∷ "markPrice@1s" ∷ "markPrice" ∷ "forceOrder" ∷ "miniTicker" ∷ "ticker"
    ∷ "compositeIndex" ∷ []

meets : List String → List String → Bool
unfolding member_of
meets [] names = false
meets (s ∷ ss) names = member_of names s || meets ss names

pub data Endpoint : Type 0 where
  public market : Endpoint

-- `get_futures_ws_url_for_streams`; `none` is the `ValueError`
unfoldable pub futures_endpoint : List String → Option Endpoint
unfolding meets
futures_endpoint streams =
    if meets streams futures_public_streams
    then (if meets streams futures_market_streams then none else some public)
    else if meets streams futures_market_streams
    then some market
    else some public
