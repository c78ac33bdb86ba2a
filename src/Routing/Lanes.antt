-- ===== src/Routing/Lanes.antt =====
-- common/config.py: the optional caps on active lanes, `_parse_active_lane_overrides` and the order
-- in which `get_active_lane_count` looks a cap up.
use coinwhale_data_pipeline.Prelude.{
  zero, suc, ℤ, pos, negsuc, String, Bool, true, false, ◌&&◌, ◌||◌, Option, none, some, List, [],
  ◌∷◌, ◌=ˢ◌, if◌then◌else◌, strip, split, split_once, upper, parse_int,
}

abbrev pub Overrides : Type 0
Overrides = List ((String × String) × ℤ)

same_key : String × String → String × String → Bool
same_key (t, s) (t', s') = (t =ˢ t') && (s =ˢ s')

-- `overrides[key] = lanes`
unfoldable pub put : String × String → ℤ → Overrides → Overrides
unfolding same_key
put key lanes [] = (key, lanes) ∷ []
put key lanes ((k, l) ∷ rest) =
    if same_key k key then (k, lanes) ∷ rest else (k, l) ∷ put key lanes rest

unfoldable pub find : String × String → Overrides → Option ℤ
unfolding same_key
find key [] = none
find key ((k, l) ∷ rest) = if same_key k key then some l else find key rest

positive : ℤ → Bool
positive (pos zero) = false
positive (pos (suc n)) = true
positive (negsuc n) = false

-- One entry, `topic:symbol=lanes`: what the loop's body adds, if it does not `continue`.
lane_entry : String → String → String → Option ((String × String) × ℤ)
unfolding positive
lane_entry topic symbol value = elim (parse_int (strip value)) [
  | none ↦ none
  | some lanes ↦
      if (topic =ˢ "") || (symbol =ˢ "")
      then none
      else if positive lanes
      then some ((topic, symbol), lanes)
      else none
]

-- The token without white space: split at the first `=`, then the left part at its first `:`. A
-- colon that stands only behind the `=` passes the test of the loop, and then unpacking fails:
-- `raise` is that `ValueError`.
pub data Token : Type 0 where
  skip raise : Token
  entry : String × String → ℤ → Token

of_option : Option ((String × String) × ℤ) → Token
of_option none = skip
of_option (some (key, lanes)) = entry key lanes

has_colon : String → Bool
has_colon s = elim (split_once 58 s) [ none ↦ false | some parts ↦ true ]

unfoldable pub parse_token : String → Token
unfolding lane_entry of_option has_colon
parse_token token = elim (split_once 61 token) [
  | none ↦ skip
  | some (left, value) ↦ elim (split_once 58 left) [
    | none ↦ if has_colon value then raise else skip
    | some (topic, symbol) ↦ of_option (lane_entry (strip topic) (upper (strip symbol)) value)
  ]
]

-- The loop over `raw.split(",")`; `none` is the `ValueError` of the unpacking.
unfoldable pub collect_overrides : List String → Overrides → Option Overrides
collect_overrides [] overrides = some overrides
collect_overrides (item ∷ items) overrides = elim (parse_token (strip item)) [
  | skip ↦ collect_overrides items overrides
  | raise ↦ none
  | entry key lanes ↦ collect_overrides items (put key lanes overrides)
]

unfoldable pub parse_active_lane_overrides : String → Option Overrides
parse_active_lane_overrides raw = collect_overrides (split 44 raw) []

first : Option ℤ → Option ℤ → Option ℤ
first none o = o
first (some l) o = some l

-- the first of the four keys that the overrides hold
unfoldable pub lane_override : Overrides → String → String → Option ℤ
unfolding first
lane_override overrides topic symbol = first (find (topic, symbol) overrides) (
    first (find (topic, "*") overrides)
      (first (find ("*", symbol) overrides) (find ("*", "*") overrides)))
