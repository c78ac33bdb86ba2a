-- ===== src/SymbolConfig/ReadBack.antt =====
-- common/symbol_config.py: what the reader of simple YAML makes of one printed line.
use coinwhale_data_pipeline.Prelude.{
  ℕ, ◌+◌, ◌≤◌, leb, ◌≡◌, refl, ap, ◌∙◌, String, true, false, some, List, ◌∷◌, arith, strip,
}
use coinwhale_data_pipeline.Value.{Value, str, dict, Fields, end}
use coinwhale_data_pipeline.SymbolConfig.Yaml.{
  size, is_item, item_text, with_key, with_item, at, change, child_of, is_list, is_dict, item_line,
  value_line, line_step,
}
use coinwhale_data_pipeline.SymbolConfig.Printed.{
  ◌then_text◌, Entries, done, scalar, sequence, mapping, lines_of, is_key, IsScalar, WellFormed,
  scalar_lem, split_at_colon, is_item_key, strip_space, key_lem,
}

-- No line that follows would make a list of a key indented as deep as `n` or deeper.
abbrev pub IsQuiet : ℕ → List (ℕ × String) → Type 0
IsQuiet n rest = (m : ℕ) → n ≤ m → child_of m rest ≡ dict end

not_deeper : (m n : ℕ) → n ≤ m → leb n m ≡ true
not_deeper m n below = ground arith

pub deeper : (n : ℕ) → leb (n + 2) n ≡ false
deeper n = ground arith

pub printed-IsQuiet :
    (n : ℕ) (es : Entries) (rest : List (ℕ × String))
    → IsQuiet n rest
    → IsQuiet n (lines_of n es rest)
unfolding child_of
printed-IsQuiet n done rest quiet = quiet
printed-IsQuiet n (scalar key s es) rest quiet = λ m below. rw (not_deeper m n below) refl
printed-IsQuiet n (sequence key s ss es) rest quiet = λ m below. rw (not_deeper m n below) refl
printed-IsQuiet n (mapping key inner es) rest quiet = λ m below. rw (not_deeper m n below) refl

-- A mapping opens with an empty mapping.
pub inner_child :
    (n : ℕ) (fields : Fields) (inner : Entries) (rest : List (ℕ × String))
    → WellFormed fields inner
    → IsQuiet n rest
    → child_of n (lines_of (n + 2) inner rest) ≡ dict end
unfolding child_of
inner_child n fields done rest good quiet = quiet n (omega arith)
inner_child n fields (scalar key s es) rest good quiet =
    rw (deeper n) (rw (is_item_key key (" " then_text s) good.0) refl)
inner_child n fields (sequence key s ss es) rest good quiet =
    rw (deeper n) (rw (is_item_key key "" good.0) refl)
inner_child n fields (mapping key inner es) rest good quiet =
    rw (deeper n) (rw (is_item_key key "" good.0) refl)

-- The two kinds of lines that a key begins.
value_scalar :
    (n : ℕ) (key s : String) (rest path : List (ℕ × String)) (root : Value)
    → IsScalar s
    → is_dict (at path root) ≡ true
    → value_line n key s rest path root ≡ some (path, change path (with_key key (str s)) root)
unfolding value_line
value_scalar n key s rest path root plain held =
    rw held (rw (plain.1) (rw (scalar_lem (size s) s plain) refl))

pub scalar_line :
    (n : ℕ) (key s : String) (rest path : List (ℕ × String)) (root : Value)
    → is_key key ≡ true
    → IsScalar s
    → is_dict (at path root) ≡ true
    → line_step n (key then_text (": " then_text s)) rest path root
      ≡ some (path, change path (with_key key (str s)) root)
unfolding line_step
scalar_line n key s rest path root good plain held =
    let parts = key_lem key good in
    let value : strip (" " then_text s) ≡ s = strip_space s ∙ plain.0 in
    rw (is_item_key key (" " then_text s) good) (
      rw (split_at_colon key (" " then_text s) parts.0) (
        ap (λ k. value_line n k (strip (" " then_text s)) rest path root) parts.1
        ∙ ap (λ v. value_line n key v rest path root) value
        ∙ value_scalar n key s rest path root plain held))

pub key_line :
    (n : ℕ) (key : String) (rest path : List (ℕ × String)) (root : Value)
    → is_key key ≡ true
    → is_dict (at path root) ≡ true
    → line_step n (key then_text ":") rest path root
      ≡ some ((n, key) ∷ path, change path (with_key key (child_of n rest)) root)
unfolding line_step value_line strip
key_line n key rest path root good held =
    let parts = key_lem key good in
    rw (is_item_key key "" good) (rw (split_at_colon key "" parts.0) (rw (parts.1) (rw held refl)))

-- An item below the key of a list.
pub list_line :
    (n : ℕ) (s : String) (rest path : List (ℕ × String)) (root : Value)
    → IsScalar s
    → is_list (at path root) ≡ true
    → line_step n ("- " then_text s) rest path root
      ≡ some (path, change path (with_item (str s)) root)
unfolding line_step item_line is_item item_text
list_line n s rest path root plain held = rw held (rw (scalar_lem (size s) s plain) refl)
