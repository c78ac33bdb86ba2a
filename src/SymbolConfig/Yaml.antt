-- ===== src/SymbolConfig/Yaml.antt =====
-- common/symbol_config.py: `_strip_comment`, `_parse_scalar` and `_parse_simple_yaml`. The containers on
-- the source's stack are parts of the document it builds: here they are paths of keys into it, the
-- innermost first, each with its indentation.
use coinwhale_data_pipeline.Prelude.{
  ℕ, zero, suc, ◌-◌, leb, ◌==◌, String, Bool, true, false, ◌&&◌, ◌||◌, Option, none, some, List, [],
  ◌∷◌, if◌then◌else◌, ◌=ˢ◌, split, split_once, strip, rstrip, prefix, starts_with, ends_with,
}
use Prim.Native.Char.{code}
use coinwhale_data_pipeline.Value.{
  Value, null, str, list, dict, Items, nil, cons, Fields, end, field, get,
}
use coinwhale_data_pipeline.SymbolConfig.Splitlines.{splitlines}

is_quote : ℕ → Bool
is_quote c = c == 39 || c == 34

-- The characters in front of a comment; the state is the quote that is not closed yet.
unfoldable pub before_comment : Option ℕ → String → String
unfolding is_quote
before_comment quote String.[] = String.[]
before_comment none (String.◌∷◌ c s) =
    let quoted = before_comment (some (code c)) s in
    let plain = before_comment none s in
    if code c == 35 then String.[] else String.◌∷◌ c (if is_quote (code c) then quoted else plain)
before_comment (some q) (String.◌∷◌ c s) =
    let still = before_comment (some q) s in
    let closed = before_comment none s in String.◌∷◌ c (if code c == q then closed else still)

unfoldable pub strip_comment : String → String
unfolding before_comment
strip_comment line = rstrip (before_comment none line)

-- the number of characters
abbrev pub size : String → ℕ
size String.[] = 0
size (String.◌∷◌ c s) = suc (size s)

unfoldable pub drop_one : String → String
drop_one String.[] = String.[]
drop_one (String.◌∷◌ c s) = s

-- `value[1:-1]`
unfoldable pub inside : String → String
unfolding drop_one
inside s = prefix (size s - 2) (drop_one s)

unfoldable pub is_bracketed : String → Bool
is_bracketed value = starts_with value "[" && ends_with value "]"

unfoldable pub is_quoted : String → Bool
is_quoted value =
    starts_with value "\"" && ends_with value "\"" || starts_with value "'" && ends_with value "'"

-- `[f(part) for part in parts]`
unfoldable pub each : (String → Option Value) → List String → Option Items
each f [] = some nil
each f (part ∷ parts) =
    let later = each f parts in
    elim (f part) [ none ↦ none | some v ↦ elim later [ none ↦ none | some vs ↦ some (cons v vs) ] ]

-- `_parse_scalar` on fuel; a part of a list is shorter than the list.
unfoldable pub parse_scalar : ℕ → String → Option Value
unfolding inside each
parse_scalar zero raw = none
parse_scalar (suc fuel) raw =
    let value = strip raw in
    let inner = strip (inside value) in
    let parts = each (parse_scalar fuel) (split 44 inner) in
    if value =ˢ ""
    then some (str "")
    else if is_bracketed value
    then if inner =ˢ ""
      then some (list nil)
      else elim parts [ none ↦ none | some vs ↦ some (list vs) ]
    else some (str (if is_quoted value then inside value else value))

unfoldable pub leading_spaces : String → ℕ
leading_spaces String.[] = 0
leading_spaces (String.◌∷◌ c s) =
    let rest = leading_spaces s in if code c == 32 then suc rest else 0

-- The lines that are not blank without their comments, with their indentations.
unfoldable pub items_of : List String → List (ℕ × String)
unfolding strip_comment leading_spaces
items_of [] = []
items_of (line ∷ lines) =
    let bare = strip_comment line in
    let later = items_of lines in
    if strip bare =ˢ "" then later else (leading_spaces bare, strip bare) ∷ later

-- `content.startswith("- ")`
unfoldable pub is_item : String → Bool
is_item String.[] = false
is_item (String.◌∷◌ c String.[]) = false
is_item (String.◌∷◌ c (String.◌∷◌ d s)) = code c == 45 && code d == 32

-- `content[2:]`
unfoldable pub item_text : String → String
unfolding drop_one
item_text content = drop_one (drop_one content)

-- `parent[key] = value`
unfoldable pub set : String → Value → Fields → Fields
set key value end = field key value end
set key value (field k v rest) =
    let later = set key value rest in if k =ˢ key then field k value rest else field k v later

unfoldable pub append_item : Value → Items → Items
append_item value nil = cons value nil
append_item value (cons v vs) = cons v (append_item value vs)

unfoldable pub with_key : String → Value → Value → Value
unfolding set
with_key key value (dict fs) = dict (set key value fs)
with_key key value other = other

unfoldable pub with_item : Value → Value → Value
unfolding append_item
with_item value (list vs) = list (append_item value vs)
with_item value other = other

unfoldable pub value_in : Value → String → Value
value_in (dict fs) key = get fs key
value_in other key = null

unfoldable pub at : List (ℕ × String) → Value → Value
unfolding value_in
at [] root = root
at ((indent, key) ∷ path) root = value_in (at path root) key

unfoldable pub change_field : String → (Value → Value) → Fields → Fields
change_field key f end = end
change_field key f (field k v rest) =
    let later = change_field key f rest in if k =ˢ key then field k (f v) rest else field k v later

unfoldable pub change_in : String → (Value → Value) → Value → Value
unfolding change_field
change_in key f (dict fs) = dict (change_field key f fs)
change_in key f other = other

-- The document after a change of the container at a path.
unfoldable pub change : List (ℕ × String) → (Value → Value) → Value → Value
unfolding change_in
change [] f root = f root
change ((indent, key) ∷ path) f root = change path (change_in key f) root

-- `while stack and indent <= stack[-1][0]: stack.pop()`
unfoldable pub pop : ℕ → List (ℕ × String) → List (ℕ × String)
pop indent [] = []
pop indent ((i, key) ∷ path) =
    let popped = pop indent path in if leb indent i then popped else (i, key) ∷ path

-- What a key without a value opens: a list, when the next line is indented more and is an item.
unfoldable pub child_of : ℕ → List (ℕ × String) → Value
child_of indent [] = dict end
child_of indent ((i, content) ∷ rest) =
    if leb i indent then dict end else if is_item content then list nil else dict end

unfoldable pub is_list : Value → Bool
is_list (list vs) = true
is_list _ = false

unfoldable pub is_dict : Value → Bool
is_dict (dict fs) = true
is_dict _ = false

-- A line on the document so far and the open containers; `none` is `SymbolConfigError`. A scalar has fuel
-- for each of its characters.
unfoldable pub item_line : String → List (ℕ × String) → Value → Option (List (ℕ × String) × Value)
unfolding at change with_item item_text is_list parse_scalar
item_line content path root =
    let item = item_text content in
    if is_list (at path root)
    then elim (parse_scalar (suc (size item)) item) [
      | none ↦ none
      | some v ↦ some (path, change path (with_item v) root)
    ]
    else none

unfoldable pub value_line :
    ℕ
    → String
    → String
    → List (ℕ × String)
    → List (ℕ × String)
    → Value
    → Option (List (ℕ × String) × Value)
unfolding at change with_key child_of is_dict parse_scalar
value_line indent key value rest path root =
    if is_dict (at path root)
    then if value =ˢ ""
      then some ((indent, key) ∷ path, change path (with_key key (child_of indent rest)) root)
      else elim (parse_scalar (suc (size value)) value) [
        | none ↦ none
        | some scalar ↦ some (path, change path (with_key key scalar) root)
      ]
    else none

unfoldable pub line_step :
    ℕ → String → List (ℕ × String) → List (ℕ × String) → Value → Option (List (ℕ × String) × Value)
unfolding item_line value_line is_item
line_step indent content rest path root =
    if is_item content then item_line content path root else elim (split_once 58 content) [
      | none ↦ none
      | some (k, v) ↦ value_line indent (strip k) (strip v) rest path root
    ]

unfoldable pub parse_items : List (ℕ × String) → List (ℕ × String) → Value → Option Value
unfolding line_step pop
parse_items [] stack root = some root
parse_items ((indent, content) ∷ rest) stack root =
    elim (line_step indent content rest (pop indent stack) root) [
      | none ↦ none
      | some (path, changed) ↦ parse_items rest path changed
    ]

unfoldable pub parse_simple_yaml : String → Option Value
unfolding items_of parse_items
parse_simple_yaml text = parse_items (items_of (splitlines text)) [] (dict end)

-- `_load_yaml` on the text of the file: PyYAML's `safe_load` reads it where it is installed.
unfoldable pub load_yaml : Option (String → Option Value) → String → Option Value
unfolding is_dict
load_yaml yaml raw =
    let read : Option Value = elim yaml [
      | none ↦ parse_simple_yaml raw
      | some safe_load ↦ safe_load raw
    ] in
    elim read [ none ↦ none | some parsed ↦ if is_dict parsed then some parsed else none ]
