-- ===== src/Schema/Events.antt =====
-- common/collector_schema.py: `validate_collector_event`, with its checks of topics without a contract.
use coinwhale_data_pipeline.Prelude.{
  ℤ, pos, leb_ℤ, String, ◌<>◌, Bool, true, false, ◌&&◌, ◌||◌, Option, none, some, List, [], ◌∷◌,
  ◌=ˢ◌, if◌then◌else◌, lower, contains, ends_with,
}
use coinwhale_data_pipeline.Value.{Value, list, dict, Fields, get}
use coinwhale_data_pipeline.Schema.{
  Checked, passes, fails, raises, ◌then◌, TopicContract, Dates, Time, time_raises, Like, alike,
  unlike, like_raises, default_time_fields, first_time, infer_event_time_ms, is_number_like,
  validate_optional_timestamps,
}
use coinwhale_data_pipeline.Schema.Rules.{has_any, validate_contract}

is_list : Value → Bool
is_list (list vs) = true
is_list _ = false

numeric : Like → String → Checked
numeric alike key = passes
numeric unlike key = fails ("schema_kline_" <> key <> "_invalid")
numeric like_raises key = raises

check_order : Value → Checked
check_order (dict order) =
    if has_any order ("S" ∷ "s" ∷ []) then passes else fails "schema_liquidation_side_missing"
check_order _ = fails "schema_liquidation_order_missing"

unfoldable pub check_depth : Fields → Checked
unfolding is_list
check_depth payload =
    if (is_list (get payload "b") && is_list (get payload "a"))
      || (is_list (get payload "bids") && is_list (get payload "asks"))
    then passes
    else fails "schema_depth_levels_missing"

unfoldable pub check_ratio : Fields → Checked
check_ratio payload =
    if has_any payload ("longShortRatio" ∷ "buySellRatio" ∷ [])
    then passes
    else fails "schema_ratio_missing"

unfoldable pub check_liquidation : Fields → Checked
unfolding check_order
check_liquidation payload = check_order (get payload "o")

module _ (d : Dates) where
  unfoldable pub check_prices : Fields → List String → Checked
  unfolding numeric
  check_prices kline [] = passes
  check_prices kline (key ∷ rest) =
      numeric (is_number_like d (get kline key)) key then check_prices kline rest

  unfoldable pub check_kline : Fields → Value → Checked
  check_kline payload (dict kline) =
      validate_optional_timestamps d kline ("t" ∷ "T" ∷ "E" ∷ "timestamp" ∷ "time" ∷ "ts" ∷ [])
      then check_prices kline ("o" ∷ "h" ∷ "l" ∷ "c" ∷ "v" ∷ [])
  check_kline payload _ = check_prices payload ("o" ∷ "h" ∷ "l" ∷ "c" ∷ "v" ∷ [])

  -- A topic without a contract is checked by its name.
  unfoldable pub check_by_name : String → String → Fields → Checked
  check_by_name topic stream payload =
      if ends_with topic "depth"
      then check_depth payload
      else if ends_with topic "kline" || contains (lower stream) "kline"
      then check_kline payload (get payload "k")
      else if contains topic "ls-ratio"
          || contains topic "ls-account"
          || contains topic "ls-position"
      then check_ratio payload
      else if ends_with topic "liquidation"
      then check_liquidation payload
      else passes

  check_topic : Option TopicContract → String → String → Fields → ℤ → Checked
  check_topic (some c) topic stream payload ts_ms = validate_contract d topic c payload ts_ms
  check_topic none topic stream payload ts_ms =
      validate_optional_timestamps d payload (default_time_fields d)
      then check_by_name topic stream payload

  check_payload : Option TopicContract → String → String → Value → ℤ → Checked
  unfolding check_topic
  check_payload c topic stream (dict payload) ts_ms = check_topic c topic stream payload ts_ms
  check_payload c topic stream _ ts_ms = fails "schema_payload_invalid"

  -- The contracts of config/topic_contracts.json are an argument.
  unfoldable pub validate_collector_event :
      (String → Option TopicContract) → String → String → String → Value → ℤ → Checked
  unfolding check_payload
  validate_collector_event contracts topic stream symbol payload ts_ms =
      if topic =ˢ ""
      then fails "schema_topic_missing"
      else if symbol =ˢ ""
      then fails "schema_symbol_missing"
      else if leb_ℤ ts_ms (pos 0)
      then fails "schema_timestamp_invalid"
      else check_payload (contracts topic) topic stream payload ts_ms

  -- `infer_event_time_ms` for a topic: a payload without `get` raises.
  unfoldable pub infer_topic_time : Value → Option TopicContract → Time
  infer_topic_time (dict payload) (some c) = infer_event_time_ms d c payload
  infer_topic_time (dict payload) none = first_time d payload (default_time_fields d)
  infer_topic_time _ c = time_raises
