-- ===== src/SymbolConfig/Universe.antt =====
-- common/symbol_config.py: what a configuration satisfies that `validate_symbol_universe` accepts.
use coinwhale_data_pipeline.Prelude.{
  subst, ◌≡◌, refl, inl, inr, String, Bool, true, ◌||◌, Option, none, some, List, [], ◌∷◌, is_in,
  All, all, Bool-cases, arith, strip, upper,
}
use coinwhale_data_pipeline.Value.{Value, list, Fields, get, PyFloats, show}
use coinwhale_data_pipeline.SymbolConfig.{
  ◌and_then◌, normalize_symbols, all_collect_symbols, check_universe, validate_symbol_universe,
  as_items, validate_known_symbol, known_of,
}

-- A step that returns came from a step before it that returned.
and_then-some :
    {A B : Type 0} (o : Option A) (f : A → Option B) (b : B)
    → (o and_then f) ≡ some b
    → (a : A) × (o ≡ some a) × (f a ≡ some b)
and_then-some none f b h = ground arith
and_then-some (some a) f b h = (a, refl, h)

all-All : (p : String → Bool) (xs : List String) → all p xs ≡ true → All (λ x. p x ≡ true) xs
all-All p [] h = tt
all-All p (x ∷ xs) h = let later = all-All p xs in (ground arith, all-All p xs (ground arith))

module _ (py : PyFloats) where
  -- The lists of an accepted configuration: the core symbols are collected in some market, and the
  -- display symbols are collected or are core symbols.
  pub record Universe (config : Fields) : Type 0 where
    pub core : List String
    pub display : List String
    pub collected : List String
    pub core_read : normalize_symbols py (get config "core_symbols") ≡ some core
    pub display_read : normalize_symbols py (get config "display_symbols") ≡ some display
    pub collected_read : all_collect_symbols py (get config "symbols") ≡ some collected
    pub core_within : All (λ s. is_in s collected ≡ true) core
    pub display_within : All (λ s. (is_in s collected || is_in s core) ≡ true) display

  -- A configuration that is accepted has core symbols, display symbols and collected symbols; every
  -- core symbol is collected in some market, and every display symbol is collected or a core symbol.
  pub validate_symbol_universe-Universe :
      (config : Fields) → validate_symbol_universe py config ≡ some tt → Universe config
  unfolding validate_symbol_universe check_universe
  validate_symbol_universe-Universe config h =
      let core = and_then-some (normalize_symbols py (get config "core_symbols")) _ tt h in
      let display =
        and_then-some (normalize_symbols py (get config "display_symbols")) _ tt core.2 in
      let collected =
        and_then-some (all_collect_symbols py (get config "symbols")) _ tt display.2 in
      let checked = collected.2 in
      record {
        core = core.0;
        display = display.0;
        collected = collected.0;
        core_read = core.1;
        display_read = display.1;
        collected_read = collected.1;
        core_within = all-All (λ s. is_in s collected.0) core.0 (ground arith);
        display_within =
            all-All (λ s. is_in s collected.0 || is_in s core.0) display.0 (ground arith);
      }

  known_of-Among :
      (s t : String) (o : Option (List String))
      → known_of py s o ≡ some t
      → (s ≡ t) × ((symbols : List String) × (o ≡ some symbols) × (is_in t symbols ≡ true))
  unfolding known_of
  known_of-Among s t none h = ground arith
  known_of-Among s t (some symbols) h = elim (Bool-cases (is_in s symbols)) [
    | inl among ↦
        let same : s ≡ t = ground arith in
        (same, (symbols, refl, subst (λ x. is_in x symbols ≡ true) same among))
    | inr not_among ↦ ground arith
  ]

  -- `validate_known_symbol` returns a symbol only if it is the argument's text, stripped and in upper
  -- case, and among the allowed symbols, which it normalizes as well.
  pub validate_known_symbol-Among :
      (raw : Value) (allowed : List String) (s : String)
      → validate_known_symbol py raw allowed ≡ some s
      → (upper (strip (show py raw)) ≡ s)
        × ((symbols : List String) × (normalize_symbols py (list (as_items py allowed))
              ≡ some symbols)
            × (is_in s symbols ≡ true))
  unfolding validate_known_symbol
  validate_known_symbol-Among raw allowed s h =
      let normalized = upper (strip (show py raw)) in
      let found : known_of py normalized (normalize_symbols py (list (as_items py allowed)))
          ≡ some s =
        ground arith in
      known_of-Among normalized s (normalize_symbols py (list (as_items py allowed))) found
