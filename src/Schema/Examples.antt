-- ===== src/Schema/Examples.antt =====
-- A run of the contract's theorem on a trade whose price is a whole number.
use coinwhale_data_pipeline.Prelude.{refl, pos, true, false, [], ◌∷◌}
use coinwhale_data_pipeline.Value.{bits, int, float, Fields, end, field, get, is_blank}
use coinwhale_data_pipeline.Schema.{
  no_moment, TopicContract, Dates, positive, scaled, is_number_like, coerce_timestamp_ms,
  first_time, infer_event_time_ms, validate_optional_timestamps, validate_type,
}
use coinwhale_data_pipeline.Schema.Rules.{
  has_any, check_event_time, check_required, check_required_any, check_types, check_positive,
  check_rule, check_rules, float_of, validate_contract,
}
use coinwhale_data_pipeline.Schema.Accepted.{Accepted, validate_contract-Accepted}
use coinwhale_data_pipeline.Fixtures.{floats}

abbrev dates : Dates
dates = record { py = floats; zero = bits 0; is_digits = λ s. false; iso_ms = λ s. no_moment }

abbrev trade_contract : TopicContract
trade_contract = record {
  event_time_fields = "T" ∷ [];
  require_event_time = true;
  required_fields = ("p", "number") ∷ [];
  required_any = ("a" ∷ "t" ∷ []) ∷ [];
  field_types = [];
  optional_fields = [];
  quality_rules = positive "p" ∷ [];
}

abbrev trade : Fields
trade =
    field "p" (float (bits 65000)) (field "a" (int (pos 1)) (field "T" (int (pos 20000000000)) end))

validate_contract-Accepted_example :
    Accepted dates "binance-trade" trade_contract trade (pos 20000000000)
unfolding validate_contract validate_optional_timestamps get is_blank coerce_timestamp_ms scaled
    check_event_time infer_event_time_ms first_time check_required validate_type is_number_like
    check_required_any has_any check_types check_rules check_rule check_positive float_of
validate_contract-Accepted_example =
    validate_contract-Accepted dates "binance-trade" trade_contract trade (pos 20000000000) refl
