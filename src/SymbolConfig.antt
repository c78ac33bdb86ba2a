-- ===== src/SymbolConfig.antt =====
-- common/symbol_config.py: the normalization of symbol lists and the checks of
-- the universe of symbols. The parsed YAML file is an argument, as a value; of two keys of the same
-- name the reader keeps one, so a mapping has each key once.
pub mod Normal
pub mod Universe
pub mod Reading
pub mod Splitlines
pub mod Yaml
pub mod Printed
pub mod ReadBack
pub mod Below
pub mod RoundTrip
pub mod Texts
pub mod Lines
mod Fuel
pub mod Places
mod Examples
use coinwhale_data_pipeline.Prelude.{
  ℕ, zero, suc, ◌-◌, String, Bool, true, false, not, ◌&&◌, ◌||◌, Option, none, some, List, [], ◌∷◌,
  ◌++◌, all, ◌=ˢ◌, if◌then◌else◌, strip, upper, lower, split, is_in,
}
use coinwhale_data_pipeline.Value.{
  Value, null, bool, int, float, str, list, dict, Items, nil, cons, Fields, end, field, get,
  has_key, PyFloats, show,
}

-- `none` is the `SymbolConfigError` of a function, here and below.
infixl 55 ◌and_then◌
abbrev pub ◌and_then◌ {ℓ κ} : {A : Type ℓ} {B : Type κ} → Option A → (A → Option B) → Option B
none and_then f = none
some a and_then f = f a

unfoldable pub non_empty : List String → Option (List String)
non_empty [] = none
non_empty (s ∷ ss) = some (s ∷ ss)

module _ (py : PyFloats) where
  -- The symbols so far are those that were seen.
  unfoldable pub normalize_from : Items → List String → Option (List String)
  normalize_from nil symbols = some symbols
  normalize_from (cons raw rest) symbols =
      let symbol = upper (strip (show py raw)) in
      let later = normalize_from rest (symbols ++ symbol ∷ []) in
      if symbol =ˢ "" then none else if is_in symbol symbols then none else later

  unfoldable pub normalize_symbols : Value → Option (List String)
  unfolding non_empty
  normalize_symbols (list raw) = normalize_from raw [] and_then non_empty
  normalize_symbols _ = none

  unfoldable pub as_items : List String → Items
  as_items [] = nil
  as_items (s ∷ ss) = cons (str s) (as_items ss)

  -- `parse_symbol_list`; the default is returned as it is.
  unfoldable pub parse_symbol_list : Option String → List String → Option (List String)
  unfolding as_items
  parse_symbol_list none default = some default
  parse_symbol_list (some raw) default =
      if strip raw =ˢ "" then some default else normalize_symbols (list (as_items (split 44 raw)))

  -- `_market_config`
  in_exchange : Value → String → Option Fields
  in_exchange (dict markets) market_key = elim (get markets market_key) [
    | null ↦ none
    | bool b ↦ none
    | int n ↦ none
    | float x ↦ none
    | str s ↦ none
    | list vs ↦ none
    | dict market ↦ some market
  ]
  in_exchange _ market_key = none

  in_symbols : Value → String → String → Option Fields
  unfolding in_exchange
  in_symbols (dict exchanges) exchange_key market_key =
      in_exchange (get exchanges exchange_key) market_key
  in_symbols _ exchange_key market_key = none

  unfoldable pub market_config : Fields → String → String → Option Fields
  unfolding in_symbols
  market_config config exchange market =
      in_symbols (get config "symbols") (lower (strip exchange)) (lower (strip market))

  -- The symbols of one market, behind those so far.
  collect_market : Value → List String → Option (List String)
  collect_market (dict market) found =
      normalize_symbols (get market "collect") and_then λ collect. some (found ++ collect)
  collect_market _ found = none

  unfoldable pub collect_markets : Fields → List String → Option (List String)
  unfolding collect_market
  collect_markets end found = some found
  collect_markets (field market cfg rest) found =
      collect_market cfg found and_then λ found'. collect_markets rest found'

  collect_exchange : Value → List String → Option (List String)
  collect_exchange (dict (field m cfg rest)) found = collect_markets (field m cfg rest) found
  collect_exchange _ found = none

  unfoldable pub collect_exchanges : Fields → List String → Option (List String)
  unfolding collect_exchange
  collect_exchanges end found = some found
  collect_exchanges (field exchange cfg rest) found =
      collect_exchange cfg found and_then λ found'. collect_exchanges rest found'

  unfoldable pub all_collect_symbols : Value → Option (List String)
  all_collect_symbols (dict (field e cfg rest)) = collect_exchanges (field e cfg rest) []
  all_collect_symbols _ = none

  -- The core and the display symbols are among those that are collected.
  unfoldable pub check_universe : List String → List String → List String → Option (Unit {0})
  check_universe core display collected =
      if all (λ s. is_in s collected) core
      then if all (λ s. is_in s collected || is_in s core) display then some tt else none
      else none

  -- `validate_symbol_universe`: `some tt` where it returns.
  unfoldable pub validate_symbol_universe : Fields → Option (Unit {0})
  unfolding all_collect_symbols
  validate_symbol_universe config = normalize_symbols (get config "core_symbols") and_then λ core.
      normalize_symbols (get config "display_symbols") and_then λ display.
      all_collect_symbols (get config "symbols") and_then λ collected.
      check_universe core display collected

  -- `load_symbol_config` on the parsed file, then the list under a key or of a market.
  unfoldable pub get_symbols : Fields → String → Option (List String)
  get_symbols config key =
      validate_symbol_universe config and_then λ checked. normalize_symbols (get config key)

  unfoldable pub get_collect_symbols : Fields → String → String → Option (List String)
  get_collect_symbols config exchange market = validate_symbol_universe config and_then λ checked.
      market_config config exchange market and_then λ market_cfg.
      normalize_symbols (get market_cfg "collect")

  unfoldable pub known_of : String → Option (List String) → Option String
  known_of symbol none = none
  known_of symbol (some allowed) = if is_in symbol allowed then some symbol else none

  -- `validate_known_symbol` with the list of the symbols that are allowed
  unfoldable pub validate_known_symbol : Value → List String → Option String
  unfolding known_of as_items
  validate_known_symbol symbol allowed =
      let normalized = upper (strip (show py symbol)) in
      if normalized =ˢ ""
      then none
      else known_of normalized (normalize_symbols (list (as_items allowed)))
