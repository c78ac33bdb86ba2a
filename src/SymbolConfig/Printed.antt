-- ===== src/SymbolConfig/Printed.antt =====
-- common/symbol_config.py: documents of the form that the reader of simple YAML takes, and their lines.
use coinwhale_data_pipeline.Prelude.{
  ℕ, suc, ◌+◌, ◌==◌, ◌≡◌, refl, String, Bool, true, false, not, ◌&&◌, ◌||◌, some, List, [], ◌∷◌,
  ◌++◌, All, ◌=ˢ◌, split_once, strip, lstrip, is_space, arith, eq_iff,
}
use Prim.Native.Char.{code}
use coinwhale_data_pipeline.Value.{str, list, dict, Items, nil, cons, Fields, end, field, has_key}
use coinwhale_data_pipeline.SymbolConfig.Places.{snoc}
use coinwhale_data_pipeline.SymbolConfig.Yaml.{parse_scalar, is_bracketed, is_quoted, is_item}

-- A text behind another.
infixr 60 ◌then_text◌
abbrev pub ◌then_text◌ : String → String → String
String.[] then_text t = t
(String.◌∷◌ c s) then_text t = String.◌∷◌ c (s then_text t)

-- A mapping: scalars, lists of scalars with an item or more, and mappings, under their keys.
pub data Entries : Type 0 where
  done : Entries
  scalar : String → String → Entries → Entries
  sequence : String → String → List String → Entries → Entries
  mapping : String → Entries → Entries → Entries

abbrev pub item_lines : ℕ → List String → List (ℕ × String)
item_lines n [] = []
item_lines n (s ∷ ss) = (n, "- " then_text s) ∷ item_lines n ss

-- The lines, with their indentations, in front of the lines that follow.
abbrev pub lines_of : ℕ → Entries → List (ℕ × String) → List (ℕ × String)
lines_of n done rest = rest
lines_of n (scalar key s es) rest = (n, key then_text (": " then_text s)) ∷ lines_of n es rest
lines_of n (sequence key s ss es) rest =
    (n, key then_text ":") ∷ (item_lines (n + 2) (s ∷ ss) ++ lines_of n es rest)
lines_of n (mapping key inner es) rest =
    (n, key then_text ":") ∷ lines_of (n + 2) inner (lines_of n es rest)

abbrev pub items_value : List String → Items
items_value [] = nil
items_value (s ∷ ss) = cons (str s) (items_value ss)

-- What the document means.
abbrev pub fields_of : Entries → Fields
fields_of done = end
fields_of (scalar key s es) = field key (str s) (fields_of es)
fields_of (sequence key s ss es) = field key (list (items_value (s ∷ ss))) (fields_of es)
fields_of (mapping key inner es) = field key (dict (fields_of inner)) (fields_of es)

abbrev pub has_colon : String → Bool
has_colon String.[] = false
has_colon (String.◌∷◌ c s) = code c == 58 || has_colon s

-- A key: trimmed, without a colon, and not empty or beginning with a dash.
abbrev pub is_key : String → Bool
is_key String.[] = false
is_key (String.◌∷◌ c s) =
    not (code c == 45)
    && not (has_colon (String.◌∷◌ c s))
    && (strip (String.◌∷◌ c s) =ˢ String.◌∷◌ c s)

-- A scalar: trimmed, not empty, and without brackets or quotes around it, so that it is read as it is.
abbrev pub IsScalar : String → Type 0
IsScalar s = (strip s ≡ s) × ((s =ˢ "") ≡ false) × (is_bracketed s ≡ false) × (is_quoted s ≡ false)

-- The keys of a mapping are keys, and each stands once; `fields` are those in front.
abbrev pub WellFormed : Fields → Entries → Type 0
WellFormed fields done = Unit
WellFormed fields (scalar key s es) =
    (is_key key ≡ true)
    × (has_key fields key ≡ false)
    × IsScalar s
    × WellFormed (snoc fields key (str s)) es
WellFormed fields (sequence key s ss es) =
    (is_key key ≡ true)
    × (has_key fields key ≡ false)
    × All IsScalar (s ∷ ss)
    × WellFormed (snoc fields key (list (items_value (s ∷ ss)))) es
WellFormed fields (mapping key inner es) =
    (is_key key ≡ true)
    × (has_key fields key ≡ false)
    × WellFormed end inner
    × WellFormed (snoc fields key (dict (fields_of inner))) es

pub scalar_lem : (fuel : ℕ) (s : String) → IsScalar s → parse_scalar (suc fuel) s ≡ some (str s)
unfolding parse_scalar
scalar_lem fuel s plain = rw (plain.0) (rw (plain.1) (rw (plain.2) (rw (plain.3) refl)))

-- The texts of a printed line.
pub split_at_colon :
    (key rest : String)
    → has_colon key ≡ false
    → split_once 58 (key then_text (":" then_text rest)) ≡ some (key, rest)
unfolding split_once
split_at_colon String.[] rest plain = refl
split_at_colon (String.◌∷◌ c s) rest plain =
    let parts : ((code c == 58) ≡ false) × (has_colon s ≡ false) = ground arith in
    rw (parts.0) (rw (split_at_colon s rest parts.1) refl)

pub is_item_key :
    (key rest : String) → is_key key ≡ true → is_item (key then_text (":" then_text rest)) ≡ false
unfolding is_item
is_item_key String.[] rest good = ground arith
is_item_key (String.◌∷◌ c String.[]) rest good = ground arith
is_item_key (String.◌∷◌ c (String.◌∷◌ d s)) rest good = ground arith

pub strip_space : (s : String) → strip (" " then_text s) ≡ strip s
unfolding strip lstrip is_space
strip_space s = refl

last_two : (a b c : Bool) → not a && not b && c ≡ true → (b ≡ false) × (c ≡ true)
last_two a b c good = ground arith

pub key_lem : (key : String) → is_key key ≡ true → (has_colon key ≡ false) × (strip key ≡ key)
key_lem String.[] good = ground arith
key_lem (String.◌∷◌ c s) good =
    let parts =
      last_two (code c == 45) (has_colon (String.◌∷◌ c s))
        (strip (String.◌∷◌ c s) =ˢ String.◌∷◌ c s) good in
    (parts.0, (eq_iff (strip (String.◌∷◌ c s)) (String.◌∷◌ c s)).0 parts.1)
