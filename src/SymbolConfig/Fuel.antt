-- ===== src/SymbolConfig/Fuel.antt =====
-- common/symbol_config.py: the fuel of `_parse_scalar`.
use coinwhale_data_pipeline.Prelude.{
  ℕ, zero, suc, ◌-◌, ◌≤◌, ◌<◌, ◌==◌, ◌≡◌, refl, String, Bool, true, false, Option, none, some, List,
  [], ◌∷◌, All, inl, inr, Bool-cases, if◌then◌else◌, ◌=ˢ◌, split, onto_first, strip, lstrip, rstrip,
  rstrip_cons, prefix, is_space, arith,
}
use Prim.Native.Char.{code}
use coinwhale_data_pipeline.Value.{Value, Items, list, nil, cons}
use coinwhale_data_pipeline.SymbolConfig.Yaml.{
  size, drop_one, inside, is_bracketed, each, parse_scalar,
}

size_chosen :
    (b : Bool) (s t : String) (n : ℕ) → size s ≤ n → size t ≤ n → size (if b then s else t) ≤ n
size_chosen true s t n first second = first
size_chosen false s t n first second = second

size-rstrip : (s : String) → size (rstrip s) ≤ size s
unfolding rstrip rstrip_cons
size-rstrip String.[] = omega arith
size-rstrip (String.◌∷◌ c s) = let later = size-rstrip s in at_front (rstrip s) later
  where
    at_front : (t : String) → size t ≤ size s → size (rstrip_cons c t) ≤ suc (size s)
    at_front String.[] small =
        size_chosen (is_space c) String.[] (String.◌∷◌ c String.[]) (suc (size s)) (omega arith)
          (omega arith)
    at_front (String.◌∷◌ d t) small = omega (arith, small)

size-lstrip : (s : String) → size (lstrip s) ≤ size s
unfolding lstrip
size-lstrip String.[] = omega arith
size-lstrip (String.◌∷◌ c s) =
    let later = size-lstrip s in
    size_chosen (is_space c) (lstrip s) (String.◌∷◌ c s) (suc (size s)) (omega arith) (omega arith)

size-strip : (s : String) → size (strip s) ≤ size s
unfolding strip
size-strip s = omega (arith, size-rstrip (lstrip s), size-lstrip s)

size-prefix : (n : ℕ) (s : String) → size (prefix n s) ≤ n
unfolding prefix
size-prefix zero s = omega arith
size-prefix (suc n) String.[] = omega arith
size-prefix (suc n) (String.◌∷◌ c s) = omega (arith, size-prefix n s)

longer :
    (n : ℕ) (parts : List String) → All (λ p. size p ≤ n) parts → All (λ p. size p ≤ suc n) parts
longer n [] small = tt
longer n (p ∷ parts) small = (omega (arith, small.0), longer n parts small.1)

parts_small : (s : String) → All (λ p. size p ≤ size s) (split 44 s)
unfolding split
parts_small String.[] = (omega arith, tt)
parts_small (String.◌∷◌ c s) = let later = parts_small s in chosen (code c == 44) (split 44 s) later
  where
    put_first :
        (parts : List String)
        → All (λ p. size p ≤ size s) parts
        → All (λ p. size p ≤ suc (size s)) (onto_first c parts)
    put_first [] small = (omega arith, tt)
    put_first (p ∷ parts) small = (omega (arith, small.0), longer (size s) parts small.1)

    chosen :
        (b : Bool) (parts : List String)
        → All (λ p. size p ≤ size s) parts
        → All (λ p. size p ≤ suc (size s)) (if b then String.[] ∷ parts else onto_first c parts)
    chosen true parts small = (omega arith, longer (size s) parts small)
    chosen false parts small = put_first parts small

abbrev answered {ℓ} : {A : Type ℓ} → Option A → Bool
answered none = false
answered (some a) = true

each-answered :
    (f : String → Option Value) (parts : List String)
    → All (λ p. answered (f p) ≡ true) parts
    → answered (each f parts) ≡ true
unfolding each
each-answered f [] found = refl
each-answered f (p ∷ parts) found =
    both (f p) (each f parts) found.0 (each-answered f parts found.1)
  where
    both :
        (o : Option Value) (later : Option Items)
        → answered o ≡ true
        → answered later ≡ true
        → answered (elim o [
          | none ↦ none
          | some v ↦ elim later [ none ↦ none | some vs ↦ some (cons v vs) ]
        ])
          ≡ true
    both none later first second = first
    both (some v) none first second = second
    both (some v) (some vs) first second = refl

filled : (s : String) → (s =ˢ "") ≡ false → 0 < size s
filled String.[] other = ground arith
filled (String.◌∷◌ c s) other = omega arith

answers :
    (b c : Bool) (v : Value) (parts : Option Items)
    → answered parts ≡ true
    → answered (
        if b
        then if c then some (list nil) else elim parts [ none ↦ none | some vs ↦ some (list vs) ]
        else some v)
      ≡ true
answers true true v parts found = refl
answers true false v none found = found
answers true false v (some vs) found = refl
answers false c v parts found = refl

parts_parsed :
    (f : String → Option Value) (fuel : ℕ)
    → ((p : String) → size p < fuel → answered (f p) ≡ true)
    → (parts : List String) (n : ℕ) → n < fuel
    → All (λ p. size p ≤ n) parts
    → All (λ p. answered (f p) ≡ true) parts
parts_parsed f fuel parsed [] n below sizes = tt
parts_parsed f fuel parsed (p ∷ parts) n below sizes =
    (parsed p (omega (arith, sizes.0)), parts_parsed f fuel parsed parts n below sizes.1)

-- Fuel of one more than the characters of a text is enough for `_parse_scalar` to answer.
scalar_is_parsed :
    (fuel : ℕ) (raw : String) → size raw < fuel → answered (parse_scalar fuel raw) ≡ true
unfolding parse_scalar inside
scalar_is_parsed zero raw small = absurd (omega arith)
scalar_is_parsed (suc fuel) raw small =
    let value = strip raw in
    let inner = strip (inside value) in
    elim (Bool-cases (value =ˢ "")) [
      | inl empty ↦ rw empty refl
      | inr other ↦
          let long = filled value other in
          let short : size inner ≤ size value - 2 =
            omega
              (arith, size-strip (inside value), size-prefix (size value - 2) (drop_one value)) in
          let below : size inner < fuel = omega (arith, size-strip raw) in
          let parts = each-answered (parse_scalar fuel) (split 44 inner) (
            parts_parsed (λ p. parse_scalar fuel p) fuel (λ p. scalar_is_parsed fuel p)
              (split 44 inner) (size inner) below (parts_small inner)) in
          rw other (
            answers (is_bracketed value) (inner =ˢ "") _ (each (parse_scalar fuel) (split 44 inner))
              parts)
    ]
