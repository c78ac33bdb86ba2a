-- ===== src/SymbolConfig/Places.antt =====
-- common/symbol_config.py: the document that the reader of simple YAML builds, read and changed at a path.
use coinwhale_data_pipeline.Prelude.{
  ℕ, ◌≤◌, leb, ◌≡◌, refl, ap, ◌∙◌, fun_ext, String, true, false, List, [], ◌∷◌, ◌=ˢ◌, arith, inl,
  inr, Bool-cases, same_text,
}
use coinwhale_data_pipeline.Value.{
  Value, null, bool, int, float, str, list, dict, Fields, end, field, get, has_key,
}
use coinwhale_data_pipeline.SymbolConfig.Yaml.{
  set, at, change, pop, is_dict, value_in, change_field, change_in,
}

-- A field behind others, and two mappings one behind the other.
abbrev pub snoc : Fields → String → Value → Fields
snoc end key v = field key v end
snoc (field k w rest) key v = field k w (snoc rest key v)

abbrev pub followed_by : Fields → Fields → Fields
followed_by end others = others
followed_by (field k v rest) others = field k v (followed_by rest others)

pub followed_by-snoc :
    (fs : Fields) (key : String) (v : Value) (others : Fields)
    → followed_by (snoc fs key v) others ≡ followed_by fs (field key v others)
followed_by-snoc end key v others = refl
followed_by-snoc (field k w rest) key v others =
    ap (λ gs. field k w gs) (followed_by-snoc rest key v others)

pub followed_by-end : (fs : Fields) → followed_by fs end ≡ fs
followed_by-end end = refl
followed_by-end (field k v rest) = ap (λ gs. field k v gs) (followed_by-end rest)

-- The key of the first field is another one, and stands not in the rest.
absent :
    (k key : String) (v : Value) (rest : Fields)
    → has_key (field k v rest) key ≡ false
    → ((k =ˢ key) ≡ false) × (has_key rest key ≡ false)
unfolding has_key
absent k key v rest missing = elim (Bool-cases (k =ˢ key)) [
  | inl same ↦ let found : true ≡ false = rw same at missing in ground arith
  | inr other ↦ (other, rw other at missing)
]

pub set-snoc :
    (fs : Fields) (key : String) (v : Value) → has_key fs key ≡ false → set key v fs ≡ snoc fs key v
unfolding set
set-snoc end key v missing = refl
set-snoc (field k w rest) key v missing =
    let parts = absent k key w rest missing in
    rw (parts.0) (ap (λ gs. field k w gs) (set-snoc rest key v parts.1))

pub get-snoc :
    (fs : Fields) (key : String) (v : Value) → has_key fs key ≡ false → get (snoc fs key v) key ≡ v
unfolding get
get-snoc end key v missing = rw (same_text key) refl
get-snoc (field k w rest) key v missing =
    let parts = absent k key w rest missing in rw (parts.0) (get-snoc rest key v parts.1)

pub change-snoc :
    (fs : Fields) (key : String) (v : Value) (f : Value → Value)
    → has_key fs key ≡ false
    → change_field key f (snoc fs key v) ≡ snoc fs key (f v)
unfolding change_field
change-snoc end key v f missing = rw (same_text key) refl
change-snoc (field k w rest) key v f missing =
    let parts = absent k key w rest missing in
    rw (parts.0) (ap (λ gs. field k w gs) (change-snoc rest key v f parts.1))

change_field_twice :
    (key : String) (f g : Value → Value) (fs : Fields)
    → change_field key g (change_field key f fs) ≡ change_field key (λ v. g (f v)) fs
unfolding change_field
change_field_twice key f g end = refl
change_field_twice key f g (field k v rest) =
    let later = change_field_twice key f g rest in
    elim (Bool-cases (k =ˢ key)) [
      | inl same ↦ rw same (rw same refl)
      | inr other ↦ rw other (rw other (ap (λ gs. field k v gs) later))
    ]

change_in_twice :
    (key : String) (f g : Value → Value) (v : Value)
    → change_in key g (change_in key f v) ≡ change_in key (λ w. g (f w)) v
unfolding change_in
change_in_twice key f g null = refl
change_in_twice key f g (bool b) = refl
change_in_twice key f g (int n) = refl
change_in_twice key f g (float x) = refl
change_in_twice key f g (str s) = refl
change_in_twice key f g (list vs) = refl
change_in_twice key f g (dict fs) = ap dict (change_field_twice key f g fs)

-- Two changes at a path are one.
pub change_twice :
    (path : List (ℕ × String)) (f g : Value → Value) (root : Value)
    → change path g (change path f root) ≡ change path (λ v. g (f v)) root
unfolding change
change_twice [] f g root = refl
change_twice ((i, key) ∷ path) f g root =
    change_twice path (change_in key f) (change_in key g) root
    ∙ ap (λ h. change path h root) (fun_ext λ v. change_in_twice key f g v)

get-change_field :
    (key : String) (f : Value → Value) (fs : Fields)
    → is_dict (get fs key) ≡ true
    → get (change_field key f fs) key ≡ f (get fs key)
unfolding get change_field is_dict
get-change_field key f end held = ground arith
get-change_field key f (field k v rest) held = elim (Bool-cases (k =ˢ key)) [
  | inl same ↦ rw same (rw same refl)
  | inr other ↦
      let later = get-change_field key f rest (rw other at held) in rw other (rw other later)
]

value_in-change_in :
    (key : String) (f : Value → Value) (v : Value)
    → is_dict (value_in v key) ≡ true
    → (is_dict v ≡ true) × (value_in (change_in key f v) key ≡ f (value_in v key))
unfolding value_in change_in is_dict
value_in-change_in key f (dict fs) held = (refl, get-change_field key f fs held)
value_in-change_in key f null held = ground arith
value_in-change_in key f (bool b) held = ground arith
value_in-change_in key f (int n) held = ground arith
value_in-change_in key f (float x) held = ground arith
value_in-change_in key f (str s) held = ground arith
value_in-change_in key f (list vs) held = ground arith

-- What stands at a path after a change of the mapping there.
pub at-change :
    (path : List (ℕ × String)) (f : Value → Value) (root : Value)
    → is_dict (at path root) ≡ true
    → at path (change path f root) ≡ f (at path root)
unfolding at change
at-change [] f root held = refl
at-change ((i, key) ∷ path) f root held =
    let above = value_in-change_in key f (at path root) held in
    rw (at-change path (change_in key f) root above.0) (above.1)

-- A shorter indentation pops what a longer one pops.
pub pop_again : (m n : ℕ) (stack : List (ℕ × String)) → m ≤ n → pop m (pop n stack) ≡ pop m stack
unfolding pop
pop_again m n [] below = refl
pop_again m n ((i, key) ∷ stack) below = elim (Bool-cases (leb n i)) [
  | inl popped ↦
      let too : leb m i ≡ true = ground arith in rw popped (rw too (pop_again m n stack below))
  | inr kept ↦ rw kept refl
]
