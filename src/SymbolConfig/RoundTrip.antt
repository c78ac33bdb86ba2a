-- ===== src/SymbolConfig/RoundTrip.antt =====
-- common/symbol_config.py: the reader of simple YAML gives back what stands in a printed document.
use coinwhale_data_pipeline.Prelude.{
  ℕ, ◌+◌, ◌≤◌, ◌≡◌, refl, sym, ap, ◌∙◌, String, true, some, List, [], ◌∷◌, ◌++◌, arith,
}
use coinwhale_data_pipeline.Value.{Value, str, list, dict, nil, Fields, end}
use coinwhale_data_pipeline.SymbolConfig.Yaml.{
  with_key, at, change, pop, child_of, is_dict, parse_items,
}
use coinwhale_data_pipeline.SymbolConfig.Places.{snoc, followed_by-end, pop_again}
use coinwhale_data_pipeline.SymbolConfig.Printed.{
  ◌then_text◌, Entries, done, scalar, sequence, mapping, item_lines, lines_of, items_value,
  fields_of, WellFormed,
}
use coinwhale_data_pipeline.SymbolConfig.ReadBack.{
  IsQuiet, printed-IsQuiet, inner_child, scalar_line, key_line,
}
use coinwhale_data_pipeline.SymbolConfig.Below.{
  is_dict_lem, read_items, popped, change-child, at-child, opened, so_far, IsTaken, cat, resume,
  below_key, taken_line, sequence_child,
}

-- The lines of a mapping are read as the mapping, wherever it stands in the document.
lines_are_read :
    (es : Entries) (n : ℕ) (path : List (ℕ × String)) (root : Value)
    (held : is_dict (at path root) ≡ true) (rest stack : List (ℕ × String)) (fs : Fields)
    → pop n stack ≡ path
    → WellFormed fs es
    → IsQuiet n rest
    → IsTaken path root held n es rest stack fs
unfolding cat
lines_are_read done n path root held rest stack fs top good quiet = (
  stack,
  ap (λ gs. parse_items rest stack (so_far path root held gs)) (sym (followed_by-end fs)),
  λ m below. refl,
)
lines_are_read (scalar key s es) n path root held rest stack fs top good quiet =
    let more = lines_of n es rest in
    let same : (m : ℕ) → m ≤ n → pop m path ≡ pop m stack =
      λ m below. ap (λ p. pop m p) (sym top) ∙ pop_again m n stack below in
    resume path root held n es rest stack path _ fs key (str s)
      (taken_line path root held n (key then_text (": " then_text s)) more stack path fs _ _ top
        (λ document.
          scalar_line n key s more path (so_far path root held fs) good.0 good.2 document)
        (opened path root held n key fs good.1 (str s)))
      same
      (lines_are_read es n path root held rest path (snoc fs key (str s))
        (same n (omega arith) ∙ top) good.3 quiet)
lines_are_read (sequence key s ss es) n path root held rest stack fs top good quiet =
    let more = item_lines (n + 2) (s ∷ ss) ++ lines_of n es rest in
    let document = so_far path root held fs in
    let same = below_key path root held n key stack ((n, key) ∷ path) top (λ m below. refl) in
    resume path root held n es rest stack ((n, key) ∷ path) _ fs key (list (items_value (s ∷ ss)))
      (taken_line path root held n (key then_text ":") more stack ((n, key) ∷ path) fs
          (snoc fs key (list nil)) _ top
          (λ held_there. key_line n key more path document good.0 held_there)
          (ap (λ c. change path (with_key key c) document)
              (sequence_child n s ss (lines_of n es rest))
            ∙ opened path root held n key fs good.1 (list nil))
        ∙ read_items path root held n key fs good.1 (s ∷ ss) nil (lines_of n es rest) good.2)
      same
      (lines_are_read es n path root held rest ((n, key) ∷ path)
        (snoc fs key (list (items_value (s ∷ ss)))) (same n (omega arith) ∙ top) good.3 quiet)
lines_are_read (mapping key inner es) n path root held rest stack fs top good quiet =
    let later = lines_of n es rest in
    let document = so_far path root held fs in
    let child = (n, key) ∷ path in
    let start = so_far path root held (snoc fs key (dict end)) in
    let held_inside : is_dict (at child start) ≡ true =
      ap is_dict (at-child path root held n key fs good.1 (dict end)) ∙ is_dict_lem end in
    let quiet_later = printed-IsQuiet n es rest quiet in
    let inside =
      lines_are_read inner (n + 2) child start held_inside later child end
        (popped path root held n key fs good.1) good.2 (λ m deep. quiet_later m (omega arith)) in
    let same =
      below_key path root held n key stack inside.0 top (λ m below. inside.2 m (omega arith)) in
    resume path root held n es rest stack inside.0 _ fs key (dict (fields_of inner))
      (taken_line path root held n (key then_text ":") (lines_of (n + 2) inner later) stack child fs
          (snoc fs key (dict end)) _ top
          (λ held_there.
            key_line n key (lines_of (n + 2) inner later) path document good.0 held_there)
          (ap (λ c. change path (with_key key c) document)
              (inner_child n end inner later good.2 quiet_later)
            ∙ opened path root held n key fs good.1 (dict end))
        ∙ ap (λ d. parse_items (lines_of (n + 2) inner later) child d)
            (sym (change-child path root held n key fs good.1 (λ v. dict end) (dict end)))
        ∙ inside.1
        ∙ ap (λ d. parse_items later inside.0 d)
            (change-child path root held n key fs good.1 (λ v. dict (fields_of inner)) (dict end)))
      same
      (lines_are_read es n path root held rest inside.0 (snoc fs key (dict (fields_of inner)))
        (same n (omega arith) ∙ top) good.3 quiet)

-- A document of mappings, lists and scalars, printed with two spaces of indentation for each level, is
-- read back by the reader of simple YAML as it was. The conditions are that its keys are trimmed and stand
-- once in their mapping, and that its scalars are trimmed and have no brackets or quotes around them.
pub printed_document_is_read :
    (es : Entries)
    → WellFormed end es
    → parse_items (lines_of 0 es []) [] (dict end) ≡ some (dict (fields_of es))
unfolding parse_items at pop child_of change
printed_document_is_read es good =
    (lines_are_read es 0 [] (dict end) (is_dict_lem end) [] [] end refl good (λ m below. refl)).1
