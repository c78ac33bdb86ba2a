-- ===== src/SymbolConfig/Examples.antt =====
-- Runs of the theorems on a configuration of one exchange with one market.
use coinwhale_data_pipeline.Prelude.{refl, [], ◌∷◌, is_in, strip, upper}
use coinwhale_data_pipeline.Value.{str, list, dict, Items, nil, cons, Fields, end, field, get, show}
use coinwhale_data_pipeline.SymbolConfig.{
  normalize_from, normalize_symbols, non_empty, collect_markets, collect_exchanges,
  all_collect_symbols, check_universe, validate_symbol_universe,
}
use coinwhale_data_pipeline.SymbolConfig.Universe.{Universe, validate_symbol_universe-Universe}
use coinwhale_data_pipeline.SymbolConfig.Printed.{Entries, done, scalar, sequence, mapping}
use coinwhale_data_pipeline.Fixtures.{floats}

abbrev listed : Items
listed = cons (str " btcusdt") (cons (str "ETHUSDT") nil)

abbrev universe : Fields
universe = field "core_symbols" (list (cons (str "BTCUSDT") nil)) (
    field "display_symbols" (list (cons (str "ethusdt") nil)) (
      field "symbols"
        (dict (
          field "binance" (dict (field "futures" (dict (field "collect" (list listed) end)) end))
            end))
        end))

validate_symbol_universe-Universe_example : Universe floats universe
unfolding validate_symbol_universe normalize_symbols normalize_from non_empty all_collect_symbols
    collect_exchanges collect_markets check_universe strip upper is_in show get
validate_symbol_universe-Universe_example = validate_symbol_universe-Universe floats universe refl

-- The beginning of config/symbols.yaml.
abbrev document : Entries
document =
    mapping "symbols"
      (mapping "binance"
        (mapping "spot"
          (scalar "quote_currency" "USDT" (sequence "collect" "BTCUSDT" ("ETHUSDT" ∷ []) done))
          done)
        done)
      (sequence "core_symbols" "BTCUSDT" [] done)
