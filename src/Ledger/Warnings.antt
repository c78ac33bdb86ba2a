-- ===== src/Ledger/Warnings.antt =====
-- spark_jobs/batch_ledger_contract.py: `_string_list` and `_warning_types`.
use Prim.Native.Nat.{Ordering}
use Prim.Native.String.{compare}
use coinwhale_data_pipeline.Prelude.{String, List, [], ◌∷◌, if◌then◌else◌}
use coinwhale_data_pipeline.Value.{
  Value, str, list, dict, Items, nil, cons, get, PyFloats, truthy, show,
}

strings : PyFloats → Items → Items
strings py nil = nil
strings py (cons v vs) = cons (str (show py v)) (strings py vs)

-- `[str(item) for item in value]`, or nothing where the value is no list
unfoldable pub string_list : PyFloats → Value → Items
unfolding strings
string_list py (list vs) = strings py vs
string_list py _ = nil

-- `warning["type"]`, if the warning is a dict with a type that is true
type_onto : PyFloats → Value → List String → List String
type_onto py (dict fs) types =
    if truthy py (get fs "type") then show py (get fs "type") ∷ types else types
type_onto py _ types = types

unfoldable pub types_of : PyFloats → Items → List String
unfolding type_onto
types_of py nil = []
types_of py (cons w ws) = type_onto py w (types_of py ws)

-- `sorted(set(types))`: each type goes to its place, unless it stands there
unfoldable pub insert_sorted : String → List String → List String
insert_sorted s [] = s ∷ []
insert_sorted s (t ∷ ts) = elim (compare s t) [
  | Ordering.lt ↦ s ∷ t ∷ ts
  | Ordering.eq ↦ t ∷ ts
  | Ordering.gt ↦ t ∷ insert_sorted s ts
]

unfoldable pub sorted_set : List String → List String
unfolding insert_sorted
sorted_set [] = []
sorted_set (s ∷ ss) = insert_sorted s (sorted_set ss)

to_items : List String → Items
to_items [] = nil
to_items (s ∷ ss) = cons (str s) (to_items ss)

unfoldable pub warning_types : PyFloats → Value → Items
unfolding types_of sorted_set to_items
warning_types py (list ws) = to_items (sorted_set (types_of py ws))
warning_types py _ = nil
