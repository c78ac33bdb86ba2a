-- ===== src/SymbolConfig/Reading.antt =====
-- common/symbol_config.py: a list of symbols written with commas and read again.
use text.Mathlib.TextLemmas.{cons-append, nil-append}
use mathlib.Core.Option.{some-injective}
use Prim.Native.Char.{Char, code}
use Prim.Native.String as Native
use coinwhale_data_pipeline.Prelude.{
  All-append, ◌==◌, ◌≤◌, ◌≡◌, refl, ap, subst, ◌∙◌, inl, inr, String, ◌<>◌, false, some, List, [],
  ◌∷◌, ◌++◌, ◌=ˢ◌, strip, upper, split, onto_first, join, All, length, Bool-cases, arith,
  strip-IsTrimmed, strip-not_blank, strip-upper, strip_idem, IsTrimmed, IsItem, strip-IsItem,
  upper-IsItem,
}
use coinwhale_data_pipeline.Value.{list, PyFloats, show}
use coinwhale_data_pipeline.SymbolConfig.{
  normalize_from, normalize_symbols, non_empty, as_items, parse_symbol_list,
}
use coinwhale_data_pipeline.SymbolConfig.Normal.{
  IsSymbol, AreNew, normalize_symbols-Normalized, normalize_again, kept-non_empty,
}

split_item : (s : String) → IsItem s → split 44 s ≡ s ∷ []
unfolding split
split_item Native.[] item = refl
split_item (Native.◌∷◌ c s) item = rw (item.0, split_item s item.1) refl

split_comma : (s t : String) → IsItem s → split 44 (s <> ("," <> t)) ≡ s ∷ split 44 t
unfolding split
split_comma Native.[] t item =
    ap (split 44) (nil-append ("," <> t) ∙ cons-append (Native.char_at "," 0) "" t)
    ∙ ap (λ r. "" ∷ split 44 r) (nil-append t)
split_comma (Native.◌∷◌ c s) t item =
    ap (split 44) (cons-append c s ("," <> t)) ∙ rw (item.0, split_comma s t item.1) refl

-- The commas between the items are found again.
split-join :
    (x : String) (xs : List String)
    → IsItem x
    → All IsItem xs
    → split 44 (join "," (x ∷ xs)) ≡ x ∷ xs
unfolding join
split-join x [] item items = split_item x item
split-join x (y ∷ ys) item items =
    split_comma x (join "," (y ∷ ys)) item ∙ ap (λ l. x ∷ l) (split-join y ys items.0 items.1)

onto_first-All :
    (c : Char) (parts : List String)
    → (code c == 44) ≡ false
    → All IsItem parts
    → All IsItem (onto_first c parts)
onto_first-All c [] other items = ((other, tt), tt)
onto_first-All c (s ∷ parts) other items = ((other, items.0), items.1)

split-All : (s : String) → All IsItem (split 44 s)
unfolding split
split-All Native.[] = (tt, tt)
split-All (Native.◌∷◌ c s) = elim (Bool-cases (code c == 44)) [
  | inl comma ↦ rw comma (tt, split-All s)
  | inr other ↦ rw other (onto_first-All c (split 44 s) other (split-All s))
]

joined-not_blank :
    (x : String) (xs : List String)
    → IsTrimmed x
    → (x =ˢ "") ≡ false
    → (strip (join "," (x ∷ xs)) =ˢ "") ≡ false
unfolding join
joined-not_blank Native.[] xs trimmed filled = ground arith
joined-not_blank (Native.◌∷◌ c s) [] trimmed filled = strip-not_blank c s trimmed
joined-not_blank (Native.◌∷◌ c s) (y ∷ ys) trimmed filled =
    ap (λ r. strip r =ˢ "") (cons-append c s ("," <> join "," (y ∷ ys)))
    ∙ strip-not_blank c (s <> ("," <> join "," (y ∷ ys))) trimmed

module _ (py : PyFloats) where
  items_kept :
      (parts seen xs : List String)
      → All IsItem parts
      → All IsItem seen
      → normalize_from py (as_items py parts) seen ≡ some xs
      → All IsItem xs
  unfolding normalize_from as_items show
  items_kept [] seen xs items before h = subst (λ l. All IsItem l) (some-injective seen xs h) before
  items_kept (p ∷ ps) seen xs items before h =
      let symbol = upper (strip p) in
      let here : IsItem symbol = upper-IsItem (strip p) (strip-IsItem p items.0) in
      items_kept ps (seen ++ symbol ∷ []) xs items.1
        (All-append IsItem seen (symbol ∷ []) before (here, tt)) (ground arith)

  symbol-IsTrimmed : (s : String) → IsSymbol s → IsTrimmed s
  symbol-IsTrimmed s symbol =
      subst IsTrimmed (strip-upper (strip s) ∙ ap upper (strip_idem s) ∙ symbol.0)
        (strip-IsTrimmed (upper (strip s)))

  read_from :
      (parts xs : List String)
      → normalize_symbols py (list (as_items py parts)) ≡ some xs
      → normalize_from py (as_items py parts) [] ≡ some xs
  unfolding normalize_symbols
  read_from parts xs h = (kept-non_empty (normalize_from py (as_items py parts) []) xs h).0

  reading_again :
      (xs default : List String)
      → All IsSymbol xs
      → AreNew [] xs
      → All IsItem xs
      → 1 ≤ length xs
      → parse_symbol_list py (some (join "," xs)) default ≡ some xs
  unfolding parse_symbol_list normalize_symbols non_empty
  reading_again [] default symbols new items filled = ground arith
  reading_again (x ∷ xs) default symbols new items filled =
      let kept = joined-not_blank x xs (symbol-IsTrimmed x symbols.0) symbols.0.1 in
      let again = normalize_again py (x ∷ xs) [] symbols new in
      rw (kept, split-join x xs items.0 items.1, again) refl

  -- Symbols that were read from a text, written with commas between them, are read back as the same
  -- list, whatever the defaults; the text is not blank.
  pub parse_symbol_list_round_trip :
      (raw : String) (default default' xs : List String)
      → (strip raw =ˢ "") ≡ false
      → parse_symbol_list py (some raw) default ≡ some xs
      → parse_symbol_list py (some (join "," xs)) default' ≡ some xs
  unfolding parse_symbol_list
  parse_symbol_list_round_trip raw default default' xs filled h =
      let read : normalize_symbols py (list (as_items py (split 44 raw))) ≡ some xs =
        ground arith in
      let told = normalize_symbols-Normalized py (as_items py (split 44 raw)) xs read in
      let items =
        items_kept (split 44 raw) [] xs (split-All raw) tt (read_from (split 44 raw) xs read) in
      reading_again xs default' told.symbols told.distinct items told.filled
