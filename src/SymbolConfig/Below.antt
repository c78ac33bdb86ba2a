-- ===== src/SymbolConfig/Below.antt =====
-- common/symbol_config.py: what the reader of simple YAML makes of the lines below a key.
use coinwhale_data_pipeline.Prelude.{
  ℕ, ◌+◌, ◌≤◌, leb, ◌≡◌, refl, sym, ap, ◌∙◌, String, true, false, none, some, List, [], ◌∷◌, ◌++◌,
  All, arith,
}
use coinwhale_data_pipeline.Value.{Value, str, list, dict, Items, nil, cons, Fields, field, has_key}
use coinwhale_data_pipeline.SymbolConfig.Yaml.{
  append_item, with_key, with_item, at, change, pop, child_of, is_item, is_list, is_dict, value_in,
  change_in, line_step, parse_items,
}
use coinwhale_data_pipeline.SymbolConfig.Places.{
  snoc, followed_by, followed_by-snoc, set-snoc, get-snoc, change-snoc, change_twice, at-change,
  pop_again,
}
use coinwhale_data_pipeline.SymbolConfig.Printed.{
  ◌then_text◌, Entries, item_lines, lines_of, items_value, fields_of, IsScalar,
}
use coinwhale_data_pipeline.SymbolConfig.ReadBack.{deeper, list_line}

is_list_lem : (vs : Items) → is_list (list vs) ≡ true
unfolding is_list
is_list_lem vs = refl

pub is_dict_lem : (fs : Fields) → is_dict (dict fs) ≡ true
unfolding is_dict
is_dict_lem fs = refl

unfoldable pub cat : Items → Items → Items
cat nil others = others
cat (cons v vs) others = cons v (cat vs others)

cat-append_item :
    (v : Value) (vs others : Items) → cat (append_item v vs) others ≡ cat vs (cons v others)
unfolding cat append_item
cat-append_item v nil others = refl
cat-append_item v (cons w vs) others = ap (λ us. cons w us) (cat-append_item v vs others)

cat-nil : (vs : Items) → cat vs nil ≡ vs
unfolding cat
cat-nil nil = refl
cat-nil (cons v vs) = ap (λ us. cons v us) (cat-nil vs)

parse_step :
    (n : ℕ) (content : String) (rest stack path : List (ℕ × String)) (root changed : Value)
    → line_step n content rest (pop n stack) root ≡ some (path, changed)
    → parse_items ((n, content) ∷ rest) stack root ≡ parse_items rest path changed
unfolding parse_items
parse_step n content rest stack path root changed taken =
    ap (λ o. elim o [ none ↦ none | some (p, r) ↦ parse_items rest p r ]) taken

-- What is read below one mapping of the document.
module _ (path : List (ℕ × String)) (root : Value) (held : is_dict (at path root) ≡ true) where
  -- The document, with the fields that the mapping has so far.
  abbrev pub so_far : Fields → Value
  so_far fs = change path (λ v. dict fs) root

  at-so_far : (fs : Fields) → at path (so_far fs) ≡ dict fs
  at-so_far fs = at-change path (λ v. dict fs) root held

  change-so_far :
      (f : Value → Value) (fs gs : Fields)
      → f (dict fs) ≡ dict gs
      → change path f (so_far fs) ≡ so_far gs
  change-so_far f fs gs same =
      change_twice path (λ v. dict fs) f root ∙ ap (λ w. change path (λ v. w) root) same

  -- Below a key that was just opened.
  module _ (n : ℕ) (key : String) (fs : Fields) (missing : has_key fs key ≡ false) where
    pub at-child : (w : Value) → at ((n, key) ∷ path) (so_far (snoc fs key w)) ≡ w
    unfolding at value_in
    at-child w = rw (at-so_far (snoc fs key w)) (get-snoc fs key w missing)

    pub change-child :
        (f : Value → Value) (w : Value)
        → change ((n, key) ∷ path) f (so_far (snoc fs key w)) ≡ so_far (snoc fs key (f w))
    unfolding change change_in
    change-child f w =
        change-so_far (change_in key f) (snoc fs key w) (snoc fs key (f w))
          (ap dict (change-snoc fs key w f missing))

    pub opened : (w : Value) → change path (with_key key w) (so_far fs) ≡ so_far (snoc fs key w)
    unfolding with_key
    opened w =
        change-so_far (with_key key w) fs (snoc fs key w) (ap dict (set-snoc fs key w missing))

    pub popped : pop (n + 2) ((n, key) ∷ path) ≡ (n, key) ∷ path
    unfolding pop
    popped = rw (deeper n) refl

    pub read_items :
        (ss : List String) (vs : Items) (rest : List (ℕ × String))
        → All IsScalar ss
        → parse_items
            (item_lines (n + 2) ss ++ rest)
            ((n, key) ∷ path)
            (so_far (snoc fs key (list vs)))
          ≡ parse_items rest
              ((n, key) ∷ path)
              (so_far (snoc fs key (list (cat vs (items_value ss)))))
    unfolding with_item
    read_items [] vs rest plain =
        ap (λ us. parse_items rest ((n, key) ∷ path) (so_far (snoc fs key (list us))))
          (sym (cat-nil vs))
    read_items (s ∷ ss) vs rest plain =
        let more = item_lines (n + 2) ss ++ rest in
        let document = so_far (snoc fs key (list vs)) in
        let below : is_list (at ((n, key) ∷ path) document) ≡ true =
          ap is_list (at-child (list vs)) ∙ is_list_lem vs in
        let line =
          ap (λ p. line_step (n + 2) ("- " then_text s) more p document) popped
          ∙ list_line (n + 2) s more ((n, key) ∷ path) document plain.0 below
          ∙ ap (λ d. some ((n, key) ∷ path, d)) (change-child (with_item (str s)) (list vs)) in
        parse_step (n + 2) ("- " then_text s) more ((n, key) ∷ path) ((n, key) ∷ path) document _
          line
        ∙ read_items ss (append_item (str s) vs) rest plain.1
        ∙ ap (λ us. parse_items rest ((n, key) ∷ path) (so_far (snoc fs key (list us))))
            (cat-append_item (str s) vs (items_value ss))

  -- What is left after the lines of a mapping: the rest, with the fields behind those of before; the stack
  -- is as it was for every key that is indented as deep as the mapping or less.
  abbrev pub IsTaken : ℕ → Entries → List (ℕ × String) → List (ℕ × String) → Fields → Type 0
  IsTaken n es rest stack fs =
      (left : List (ℕ × String)) × (parse_items (lines_of n es rest) stack (so_far fs)
        ≡ parse_items rest left (so_far (followed_by fs (fields_of es))))
      × ((m : ℕ) → m ≤ n → pop m left ≡ pop m stack)

  -- One entry and the rest of the mapping.
  pub resume :
      (n : ℕ) (es : Entries) (rest stack next lines : List (ℕ × String)) (fs : Fields)
      (key : String) (v : Value)
      → parse_items lines stack (so_far fs)
        ≡ parse_items (lines_of n es rest) next (so_far (snoc fs key v))
      → ((m : ℕ) → m ≤ n → pop m next ≡ pop m stack)
      → IsTaken n es rest next (snoc fs key v)
      → (left : List (ℕ × String)) × (parse_items lines stack (so_far fs)
          ≡ parse_items rest left (so_far (followed_by fs (field key v (fields_of es)))))
        × ((m : ℕ) → m ≤ n → pop m left ≡ pop m stack)
  resume n es rest stack next lines fs key v first same later = (
    later.0,
    first
        ∙ later.1
        ∙ ap (λ gs. parse_items rest later.0 (so_far gs))
            (followed_by-snoc fs key v (fields_of es)),
    λ m below. later.2 m below ∙ same m below,
  )

  -- The stack below the lines of a mapping's key.
  pub below_key :
      (n : ℕ) (key : String) (stack next : List (ℕ × String))
      → pop n stack ≡ path
      → ((m : ℕ) → m ≤ n → pop m next ≡ pop m ((n, key) ∷ path))
      → (m : ℕ) → m ≤ n
      → pop m next ≡ pop m stack
  unfolding pop
  below_key n key stack next top same m below =
      let dropped : leb m n ≡ true = ground arith in
      same m below ∙ rw dropped (ap (λ p. pop m p) (sym top) ∙ pop_again m n stack below)

  pub taken_line :
      (n : ℕ) (content : String) (more stack child : List (ℕ × String)) (fs gs : Fields)
      (changed : Value)
      → pop n stack ≡ path
      → (is_dict (at path (so_far fs)) ≡ true
          → line_step n content more path (so_far fs) ≡ some (child, changed))
      → changed ≡ so_far gs
      → parse_items ((n, content) ∷ more) stack (so_far fs) ≡ parse_items more child (so_far gs)
  taken_line n content more stack child fs gs changed top line same =
      let document : is_dict (at path (so_far fs)) ≡ true =
        ap is_dict (at-so_far fs) ∙ is_dict_lem fs in
      parse_step n content more stack child (so_far fs) changed
        (ap (λ p. line_step n content more p (so_far fs)) top ∙ line document)
      ∙ ap (λ d. parse_items more child d) same

pub sequence_child :
    (n : ℕ) (s : String) (ss : List String) (rest : List (ℕ × String))
    → child_of n (item_lines (n + 2) (s ∷ ss) ++ rest) ≡ list nil
unfolding child_of is_item
sequence_child n s ss rest = rw (deeper n) refl
