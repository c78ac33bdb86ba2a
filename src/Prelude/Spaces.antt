-- ===== src/Prelude/Spaces.antt =====
-- White space and upper case do not meet: stripping and raising to upper case commute.
use Prim.Native.Nat.{ℕ, ◌-◌, ◌≤◌}
use Prim.Native.Char.{Char, code}
use Prim.Native.String.{String, char_at}
use mathlib.Core.Path.{◌≡◌, refl, ap, ◌∙◌, subst}
use mathlib.Core.Bool.{Bool, true, false, not, ◌&&◌}
use mathlib.Core.Logic.{inl, inr}
use text.Mathlib.TextEquality.{eq_iff}
use native.Mathlib.Omega.{arith}
use coinwhale_data_pipeline.Prelude.Tests.{Bool-cases, ◌==◌}
use coinwhale_data_pipeline.Prelude.Text.{
  is_space, between, lstrip, rstrip, rstrip_cons, strip, upper, upper_char, ◌=ˢ◌,
}
use coinwhale_data_pipeline.Prelude.Case.{holds_from, holds_at}
use coinwhale_data_pipeline.Prelude.Strip.{IsTrimmed, lstrip-IsTrimmed, rstrip-IsTrimmed}

-- the capital at a place, whether it is no white space, and no comma
abbrev is_letter : ℕ → Bool
is_letter k =
    not (is_space (char_at "ABCDEFGHIJKLMNOPQRSTUVWXYZ" k))
    && not (code (char_at "ABCDEFGHIJKLMNOPQRSTUVWXYZ" k) == 44)

letters : holds_from is_letter 0 25 ≡ true
unfolding holds_from is_space between
letters = refl

small-is_space : (c : Char) → 97 ≤ code c → code c ≤ 122 → is_space c ≡ false
unfolding is_space between
small-is_space c low high = ground arith

pub upper_char-is_space : (c : Char) → is_space (upper_char c) ≡ is_space c
unfolding upper_char between
upper_char-is_space c =
    let all = letters in ground (arith, holds_at is_letter 0 25 (code c - 97), small-is_space c)

pub upper_char-comma : (c : Char) → (code (upper_char c) == 44) ≡ (code c == 44)
unfolding upper_char between
upper_char-comma c = let all = letters in ground (arith, holds_at is_letter 0 25 (code c - 97))

lstrip-upper : (s : String) → lstrip (upper s) ≡ upper (lstrip s)
unfolding lstrip upper
lstrip-upper String.[] = refl
lstrip-upper (String.◌∷◌ c s) =
    let later = lstrip-upper s in
    elim (Bool-cases (is_space c)) [
      | inl space ↦ rw (upper_char-is_space c, space) later
      | inr other ↦ rw (upper_char-is_space c, other) refl
    ]

rstrip_cons-upper :
    (c : Char) (t : String) → rstrip_cons (upper_char c) (upper t) ≡ upper (rstrip_cons c t)
unfolding rstrip_cons upper
rstrip_cons-upper c String.[] = elim (Bool-cases (is_space c)) [
  | inl space ↦ rw (upper_char-is_space c, space) refl
  | inr other ↦ rw (upper_char-is_space c, other) refl
]
rstrip_cons-upper c (String.◌∷◌ d t) = refl

rstrip-upper : (s : String) → rstrip (upper s) ≡ upper (rstrip s)
unfolding rstrip upper
rstrip-upper String.[] = refl
rstrip-upper (String.◌∷◌ c s) =
    ap (rstrip_cons (upper_char c)) (rstrip-upper s) ∙ rstrip_cons-upper c (rstrip s)

pub strip-upper : (s : String) → strip (upper s) ≡ upper (strip s)
unfolding strip
strip-upper s = ap rstrip (lstrip-upper s) ∙ rstrip-upper (lstrip s)

pub strip-IsTrimmed : (s : String) → IsTrimmed (strip s)
unfolding strip
strip-IsTrimmed s = rstrip-IsTrimmed (lstrip s) (lstrip-IsTrimmed s)

IsFilled : String → Type 0
IsFilled String.[] = ⊥
IsFilled (String.◌∷◌ c s) = Unit

filled-not_blank : (s : String) → IsFilled s → (s =ˢ "") ≡ false
unfolding IsFilled
filled-not_blank s filled = elim (Bool-cases (s =ˢ "")) [
  | inl blank ↦ absurd (subst IsFilled ((eq_iff s "").0 blank) filled)
  | inr other ↦ other
]

rstrip_cons-not_blank :
    (c : Char) (t : String) → is_space c ≡ false → (rstrip_cons c t =ˢ "") ≡ false
unfolding rstrip_cons IsFilled
rstrip_cons-not_blank c String.[] other = rw other (filled-not_blank (String.◌∷◌ c String.[]) tt)
rstrip_cons-not_blank c (String.◌∷◌ d t) other = filled-not_blank (String.◌∷◌ c (String.◌∷◌ d t)) tt

-- A text with a character in front that is no white space is not blank.
pub strip-not_blank :
    (c : Char) (s : String) → is_space c ≡ false → (strip (String.◌∷◌ c s) =ˢ "") ≡ false
unfolding strip lstrip rstrip
strip-not_blank c s other = rw other (rstrip_cons-not_blank c (rstrip s) other)

-- No comma stands in a text.
abbrev pub IsItem : String → Type 0
IsItem String.[] = Unit
IsItem (String.◌∷◌ c s) = ((code c == 44) ≡ false) × IsItem s

lstrip-IsItem : (s : String) → IsItem s → IsItem (lstrip s)
unfolding lstrip
lstrip-IsItem String.[] item = tt
lstrip-IsItem (String.◌∷◌ c s) item =
    let later = lstrip-IsItem s item.1 in
    elim (Bool-cases (is_space c)) [ inl space ↦ rw space later | inr other ↦ rw other item ]

rstrip_cons-IsItem :
    (c : Char) (t : String) → (code c == 44) ≡ false → IsItem t → IsItem (rstrip_cons c t)
unfolding rstrip_cons
rstrip_cons-IsItem c String.[] here item = elim (Bool-cases (is_space c)) [
  | inl space ↦ rw space tt
  | inr other ↦ rw other (here, tt)
]
rstrip_cons-IsItem c (String.◌∷◌ d t) here item = (here, item)

rstrip-IsItem : (s : String) → IsItem s → IsItem (rstrip s)
unfolding rstrip
rstrip-IsItem String.[] item = tt
rstrip-IsItem (String.◌∷◌ c s) item =
    rstrip_cons-IsItem c (rstrip s) item.0 (rstrip-IsItem s item.1)

pub strip-IsItem : (s : String) → IsItem s → IsItem (strip s)
unfolding strip
strip-IsItem s item = rstrip-IsItem (lstrip s) (lstrip-IsItem s item)

pub upper-IsItem : (s : String) → IsItem s → IsItem (upper s)
unfolding upper
upper-IsItem String.[] item = tt
upper-IsItem (String.◌∷◌ c s) item = (upper_char-comma c ∙ item.0, upper-IsItem s item.1)
