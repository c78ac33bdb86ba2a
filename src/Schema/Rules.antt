-- ===== src/Schema/Rules.antt =====
-- common/collector_schema.py: `_validate_contract`, the checks of a contract in their order.
use coinwhale_data_pipeline.Prelude.{
  ℤ, pos, ◌+ℤ◌, ltb_ℤ, String, ◌<>◌, Bool, true, false, not, ◌&&◌, ◌||◌, Option, none, some, List,
  [], ◌∷◌, any, ◌=ˢ◌, if◌then◌else◌, ends_with,
}
use coinwhale_data_pipeline.Value.{Float, Value, bool, int, float, str, Fields, get, is_blank}
use coinwhale_data_pipeline.Schema.{
  Checked, passes, fails, raises, ◌then◌, Rule, positive, bid_lte_ask, non_negative_any, other,
  TopicContract, Dates, time, no_time, time_raises, infer_event_time_ms,
  validate_optional_timestamps, validate_type,
}

-- `_field_error_type`
unfoldable pub field_error_type : String → String → String
field_error_type topic key =
    if ends_with topic "trade" && (key =ˢ "p")
    then "schema_trade_price_invalid"
    else if ends_with topic "trade" && (key =ˢ "q")
    then "schema_trade_quantity_invalid"
    else if ends_with topic "trade"
        && (key =ˢ "a" || key =ˢ "t" || key =ˢ "trade_id" || key =ˢ "agg_trade_id")
    then "schema_trade_id_invalid"
    else if ends_with topic "bookticker" && (key =ˢ "b")
    then "schema_bookticker_bid_invalid"
    else if ends_with topic "bookticker" && (key =ˢ "a")
    then "schema_bookticker_ask_invalid"
    else if ends_with topic "markprice" && (key =ˢ "p")
    then "schema_markprice_invalid"
    else if ends_with topic "markprice" && (key =ˢ "r")
    then "schema_funding_rate_invalid"
    else if ends_with topic "openinterest" && (key =ˢ "openInterest" || key =ˢ "open_interest")
    then "schema_openinterest_invalid"
    else "schema_" <> key <> "_invalid"

unfoldable pub has_any : Fields → List String → Bool
has_any payload keys = any (λ k. not (is_blank (get payload k))) keys

module _ (d : Dates) where
  -- The event's time, against the clock of the collector.
  unfoldable pub check_event_time : TopicContract → Fields → ℤ → Checked
  check_event_time c payload ts_ms = elim (infer_event_time_ms d c payload) [
    | time ts ↦ if ltb_ℤ (ts_ms +ℤ pos 60000) ts then fails "schema_event_time_future" else passes
    | no_time ↦ if c.require_event_time then fails "schema_trade_time_missing" else passes
    | time_raises ↦ raises
  ]

  unfoldable pub check_required : String → Fields → List (String × String) → Checked
  check_required topic payload [] = passes
  check_required topic payload ((key, expected) ∷ rest) =
      let later = check_required topic payload rest in
      if is_blank (get payload key)
      then fails (field_error_type topic key)
      else validate_type d payload key expected (field_error_type topic key) then later

  unfoldable pub check_required_any : Fields → List (List String) → Checked
  check_required_any payload [] = passes
  check_required_any payload (keys ∷ rest) =
      let later = check_required_any payload rest in
      if has_any payload keys then later else fails "schema_required_any_missing"

  -- The loops over `field_types` and `optional_fields`
  unfoldable pub check_types : String → Fields → List (String × String) → Checked
  check_types topic payload [] = passes
  check_types topic payload ((key, expected) ∷ rest) =
      validate_type d payload key expected (field_error_type topic key)
      then check_types topic payload rest

  -- `float(value)`, or an exception
  unfoldable pub float_of : Value → Option Float
  float_of (bool true) = d.py.of_int (pos 1)
  float_of (bool false) = d.py.of_int (pos 0)
  float_of (int n) = d.py.of_int n
  float_of (float x) = some x
  float_of (str s) = d.py.of_text s
  float_of _ = none

  unfoldable pub check_positive : String → Option Float → Checked
  check_positive key none = raises
  check_positive key (some x) =
      if d.py.le x d.zero then fails ("schema_" <> key <> "_non_positive") else passes

  unfoldable pub check_crossed : Option Float → Option Float → Checked
  check_crossed none ask = raises
  check_crossed (some bid) none = raises
  check_crossed (some bid) (some ask) =
      if d.py.lt ask bid then fails "schema_bid_ask_crossed" else passes

  -- `all(float(value) < 0 …)` over the values that are not blank, `none` where a float raises, after
  -- whether there is a value
  unfoldable pub all_negative : Fields → List String → Bool → Option Bool
  all_negative payload [] seen = some seen
  all_negative payload (k ∷ ks) seen =
      let later = all_negative payload ks true in
      let skipped = all_negative payload ks seen in
      if is_blank (get payload k) then skipped else elim (float_of (get payload k)) [
        | none ↦ none
        | some x ↦ if d.py.lt x d.zero then later else some false
      ]

  check_negative : Option Bool → Checked
  check_negative none = raises
  check_negative (some true) = fails "schema_negative_value"
  check_negative (some false) = passes

  unfoldable pub check_rule : Fields → Rule → Checked
  unfolding check_positive check_crossed check_negative
  check_rule payload (positive key) = check_positive key (float_of (get payload key))
  check_rule payload (bid_lte_ask bid ask) =
      check_crossed (float_of (get payload bid)) (float_of (get payload ask))
  check_rule payload (non_negative_any keys) = check_negative (all_negative payload keys false)
  check_rule payload other = passes

  unfoldable pub check_rules : Fields → List Rule → Checked
  check_rules payload [] = passes
  check_rules payload (r ∷ rs) = check_rule payload r then check_rules payload rs

  unfoldable pub validate_contract : String → TopicContract → Fields → ℤ → Checked
  validate_contract topic c payload ts_ms =
      validate_optional_timestamps d payload c.event_time_fields
      then check_event_time c payload ts_ms
      then check_required topic payload c.required_fields
      then check_required_any payload c.required_any
      then check_types topic payload c.field_types
      then check_types topic payload c.optional_fields
      then check_rules payload c.quality_rules
