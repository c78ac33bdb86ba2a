-- ===== src/SymbolConfig/Normal.antt =====
-- common/symbol_config.py: the symbols of a list that was accepted, and reading such a list again.
use mathlib.Core.List.{append-nil, append_assoc}
use mathlib.Core.Option.{some-injective}
use coinwhale_data_pipeline.Prelude.{
  ℕ, suc, ◌≤◌, ◌≡◌, refl, ap, sym, subst, ◌∙◌, String, false, Option, none, some, List, [], ◌∷◌,
  ◌++◌, ◌=ˢ◌, strip, upper, is_in, All, length, arith, upper_idem, strip_idem, strip-upper,
}
use coinwhale_data_pipeline.Value.{list, Items, nil, cons, PyFloats, show}
use coinwhale_data_pipeline.SymbolConfig.{
  ◌and_then◌, normalize_from, normalize_symbols, non_empty, as_items,
}

-- A symbol that normalization leaves as it is.
abbrev pub IsSymbol : String → Type 0
IsSymbol s = (upper (strip s) ≡ s) × ((s =ˢ "") ≡ false)

-- Symbols that are not among those in front of them.
abbrev pub AreNew : List String → List String → Type 0
AreNew seen [] = Unit
AreNew seen (s ∷ ss) = (is_in s seen ≡ false) × AreNew (seen ++ s ∷ []) ss

upper-strip_idem : (s : String) → upper (strip (upper (strip s))) ≡ upper (strip s)
upper-strip_idem s =
    ap upper (strip-upper (strip s)) ∙ upper_idem (strip (strip s)) ∙ ap upper (strip_idem s)

abbrev pub count : Items → ℕ
count nil = 0
count (cons v vs) = suc (count vs)

pub kept-non_empty :
    (o : Option (List String)) (xs : List String)
    → (o and_then non_empty) ≡ some xs
    → (o ≡ some xs) × (1 ≤ length xs)
unfolding non_empty
kept-non_empty none xs h = ground arith
kept-non_empty (some []) xs h = ground arith
kept-non_empty (some (y ∷ ys)) xs h =
    (h, subst (λ l. 1 ≤ length l) (some-injective (y ∷ ys) xs h) (omega arith))

module _ (py : PyFloats) where
  -- What is appended to the symbols so far.
  record Appended (raw : Items) (seen xs : List String) : Type 0 where
    added : List String
    whole : xs ≡ seen ++ added
    symbols : All IsSymbol added
    fresh : AreNew seen added
    number : length added ≡ count raw

  normalize_from-Appended :
      (raw : Items) (seen xs : List String)
      → normalize_from py raw seen ≡ some xs
      → Appended raw seen xs
  unfolding normalize_from
  normalize_from-Appended nil seen xs h = record {
    added = [];
    whole = sym (some-injective seen xs h) ∙ sym (append-nil seen);
    symbols = tt;
    fresh = tt;
    number = refl;
  }
  normalize_from-Appended (cons v rest) seen xs h =
      let symbol = upper (strip (show py v)) in
      let filled : (symbol =ˢ "") ≡ false = ground arith in
      let new : is_in symbol seen ≡ false = ground arith in
      let later = normalize_from-Appended rest (seen ++ symbol ∷ []) xs (ground arith) in
      record {
        added = symbol ∷ later.added;
        whole = later.whole ∙ append_assoc seen (symbol ∷ []) later.added;
        symbols = ((upper-strip_idem (show py v), filled), later.symbols);
        fresh = (new, later.fresh);
        number = ap suc later.number;
      }

  -- What a list of symbols is that was accepted.
  pub record Normalized (raw : Items) (xs : List String) : Type 0 where
    pub symbols : All IsSymbol xs
    pub distinct : AreNew [] xs
    pub number : length xs ≡ count raw
    pub filled : 1 ≤ length xs

  -- A list that normalization accepts has as many symbols as values, at least one, no two alike, and
  -- each is stripped, in upper case and not empty.
  pub normalize_symbols-Normalized :
      (raw : Items) (xs : List String)
      → normalize_symbols py (list raw) ≡ some xs
      → Normalized raw xs
  unfolding normalize_symbols non_empty
  normalize_symbols-Normalized raw xs h =
      let kept = kept-non_empty (normalize_from py raw []) xs h in
      let told = normalize_from-Appended raw [] xs kept.0 in
      let same : xs ≡ told.added = told.whole in
      record {
        symbols = subst (λ l. All IsSymbol l) (sym same) told.symbols;
        distinct = subst (λ l. AreNew [] l) (sym same) told.fresh;
        number = ap length same ∙ told.number;
        filled = kept.1;
      }

  -- Symbols that are read again are accepted as they are.
  pub normalize_again :
      (xs seen : List String)
      → All IsSymbol xs
      → AreNew seen xs
      → normalize_from py (as_items py xs) seen ≡ some (seen ++ xs)
  unfolding normalize_from as_items show
  normalize_again [] seen symbols fresh = ap some (sym (append-nil seen))
  normalize_again (x ∷ xs) seen symbols fresh =
      let same = symbols.0.0 in
      let filled = symbols.0.1 in
      let new = fresh.0 in
      let later = normalize_again xs (seen ++ x ∷ []) symbols.1 fresh.1 in
      rw (same, filled, new) (later ∙ ap some (append_assoc seen (x ∷ []) xs))
