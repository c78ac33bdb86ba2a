-- ===== src/Schema/Accepted.antt =====
-- common/collector_schema.py: what is known of an event that a contract accepts.
use coinwhale_data_pipeline.Prelude.{
  ℤ, pos, ◌+ℤ◌, ltb_ℤ, ◌≡◌, refl, String, true, false, Option, none, some, List, [], ◌∷◌, All,
  if◌then◌else◌, arith,
}
use coinwhale_data_pipeline.Value.{Float, Fields, get, is_blank}
use coinwhale_data_pipeline.Schema.{
  Checked, passes, fails, raises, ◌then◌, Rule, positive, bid_lte_ask, TopicContract, Dates, Time,
  time, no_time, time_raises, infer_event_time_ms, validate_type,
}
use coinwhale_data_pipeline.Schema.Rules.{
  field_error_type, has_any, check_event_time, check_required, check_required_any, check_rule,
  check_rules, float_of, check_positive, check_crossed, validate_contract,
}

-- Checks behind one another pass just when each does.
then-passes : (a b : Checked) → (a then b) ≡ passes → (a ≡ passes) × (b ≡ passes)
then-passes passes b h = (refl, h)
then-passes (fails e) b h = cc
then-passes raises b h = cc

-- The time of an event, where it has one, is at most a minute ahead of the collector's clock, and it
-- has one where the contract asks for it.
abbrev pub InTime : TopicContract → ℤ → Time → Type 0
InTime c ts_ms (time ts) = ltb_ℤ (ts_ms +ℤ pos 60000) ts ≡ false
InTime c ts_ms no_time = c.require_event_time ≡ false
InTime c ts_ms time_raises = ⊥

module _ (d : Dates) where
  -- A rule of a contract holds: a positive field is a float that is not at most zero, and a bid is not
  -- above its ask.
  abbrev pub RuleHolds : Fields → Rule → Type 0
  RuleHolds payload (positive key) =
      (x : Float) × (float_of d (get payload key) ≡ some x) × (d.py.le x d.zero ≡ false)
  RuleHolds payload (bid_lte_ask b a) =
      (x : Float) × (y : Float) × (float_of d (get payload b) ≡ some x)
      × (float_of d (get payload a) ≡ some y)
      × (d.py.lt y x ≡ false)
  RuleHolds payload _ = Unit

  -- What an accepted event satisfies.
  pub record Accepted (topic : String) (c : TopicContract) (payload : Fields) (ts_ms : ℤ)
      : Type 0 where
    pub in_time : InTime c ts_ms (infer_event_time_ms d c payload)
    pub required :
        All
          (λ (f : String × String).
            (is_blank (get payload f.0) ≡ false)
            × (validate_type d payload f.0 f.1 (field_error_type topic f.0) ≡ passes))
          c.required_fields
    pub any_of : All (λ (ks : List String). has_any payload ks ≡ true) c.required_any
    pub rules : All (RuleHolds payload) c.quality_rules

  check_event_time-InTime :
      (c : TopicContract) (payload : Fields) (ts_ms : ℤ)
      → check_event_time d c payload ts_ms ≡ passes
      → InTime c ts_ms (infer_event_time_ms d c payload)
  unfolding check_event_time
  check_event_time-InTime c payload ts_ms h = ground arith

  check_required-All :
      (topic : String) (payload : Fields) (fs : List (String × String))
      → check_required d topic payload fs ≡ passes
      → All
          (λ (f : String × String).
            (is_blank (get payload f.0) ≡ false)
            × (validate_type d payload f.0 f.1 (field_error_type topic f.0) ≡ passes))
          fs
  unfolding check_required
  check_required-All topic payload [] h = tt
  check_required-All topic payload ((key, expected) ∷ rest) h =
      let later = check_required-All topic payload rest in ground arith

  check_required_any-All :
      (payload : Fields) (kss : List (List String))
      → check_required_any d payload kss ≡ passes
      → All (λ (ks : List String). has_any payload ks ≡ true) kss
  unfolding check_required_any
  check_required_any-All payload [] h = tt
  check_required_any-All payload (ks ∷ rest) h =
      let later = check_required_any-All payload rest in ground arith

  check_positive_holds :
      (key : String) (o : Option Float)
      → check_positive d key o ≡ passes
      → (x : Float) × (o ≡ some x) × (d.py.le x d.zero ≡ false)
  unfolding check_positive
  check_positive_holds key none h = cc
  check_positive_holds key (some x) h = (x, refl, ground arith)

  check_crossed_holds :
      (o o' : Option Float)
      → check_crossed d o o' ≡ passes
      → (x : Float) × (y : Float) × (o ≡ some x) × (o' ≡ some y) × (d.py.lt y x ≡ false)
  unfolding check_crossed
  check_crossed_holds none o' h = cc
  check_crossed_holds (some x) none h = cc
  check_crossed_holds (some x) (some y) h = (x, y, refl, refl, ground arith)

  check_rule-RuleHolds :
      (payload : Fields) (r : Rule) → check_rule d payload r ≡ passes → RuleHolds payload r
  unfolding check_rule
  check_rule-RuleHolds payload (positive key) h =
      check_positive_holds key (float_of d (get payload key)) h
  check_rule-RuleHolds payload (bid_lte_ask b a) h =
      check_crossed_holds (float_of d (get payload b)) (float_of d (get payload a)) h
  check_rule-RuleHolds payload (Rule.non_negative_any ks) h = tt
  check_rule-RuleHolds payload Rule.other h = tt

  check_rules-All :
      (payload : Fields) (rs : List Rule)
      → check_rules d payload rs ≡ passes
      → All (RuleHolds payload) rs
  unfolding check_rules
  check_rules-All payload [] h = tt
  check_rules-All payload (r ∷ rs) h =
      let (here, later) = then-passes (check_rule d payload r) (check_rules d payload rs) h in
      (check_rule-RuleHolds payload r here, check_rules-All payload rs later)

  -- An event that a contract accepts has a time that is not more than a minute ahead, where it has
  -- one, and has one where the contract requires it; each required field is there with its type, one
  -- field of each group is there, a positive price or quantity is not at most zero, and no bid is
  -- above its ask.
  pub validate_contract-Accepted :
      (topic : String) (c : TopicContract) (payload : Fields) (ts_ms : ℤ)
      → validate_contract d topic c payload ts_ms ≡ passes
      → Accepted topic c payload ts_ms
  unfolding validate_contract
  validate_contract-Accepted topic c payload ts_ms h =
      let (times, h1) = then-passes _ _ h in
      let (in_time, h2) = then-passes _ _ h1 in
      let (required, h3) = then-passes _ _ h2 in
      let (any_of, h4) = then-passes _ _ h3 in
      let (types, h5) = then-passes _ _ h4 in
      let (optional, rules) = then-passes _ _ h5 in
      record {
        in_time = check_event_time-InTime c payload ts_ms in_time;
        required = check_required-All topic payload c.required_fields required;
        any_of = check_required_any-All payload c.required_any any_of;
        rules = check_rules-All payload c.quality_rules rules;
      }
