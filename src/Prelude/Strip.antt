-- ===== src/Prelude/Strip.antt =====
-- A stripped text is not changed by stripping it again.
use Prim.Native.Char.{Char}
use Prim.Native.String.{String}
use mathlib.Core.Path.{◌≡◌, refl, ap, ◌∙◌}
use mathlib.Core.Bool.{Bool, true, false}
use mathlib.Core.Logic.{inl, inr}
use coinwhale_data_pipeline.Prelude.Tests.{if◌then◌else◌, Bool-cases}
use coinwhale_data_pipeline.Prelude.Text.{is_space, lstrip, rstrip, rstrip_cons, strip}

rstrip_one :
    (b : Bool) (c : Char)
    → is_space c ≡ b
    → rstrip (if b then String.[] else String.◌∷◌ c String.[])
      ≡ (if b then String.[] else String.◌∷◌ c String.[])
unfolding rstrip rstrip_cons
rstrip_one true c h = refl
rstrip_one false c h = rw h

rstrip_cons_idem :
    (c : Char) (t : String) → rstrip t ≡ t → rstrip (rstrip_cons c t) ≡ rstrip_cons c t
unfolding rstrip rstrip_cons
rstrip_cons_idem c String.[] h = rstrip_one (is_space c) c refl
rstrip_cons_idem c (String.◌∷◌ d t) h = rw (h, rstrip_cons)

rstrip_idem : (s : String) → rstrip (rstrip s) ≡ rstrip s
unfolding rstrip
rstrip_idem String.[] = refl
rstrip_idem (String.◌∷◌ c s) = rstrip_cons_idem c (rstrip s) (rstrip_idem s)

-- A text that does not begin with white space.
abbrev pub IsTrimmed : String → Type 0
IsTrimmed String.[] = Unit
IsTrimmed (String.◌∷◌ c s) = is_space c ≡ false

pub lstrip-IsTrimmed : (s : String) → IsTrimmed (lstrip s)
unfolding lstrip
lstrip-IsTrimmed String.[] = tt
lstrip-IsTrimmed (String.◌∷◌ c s) = elim (Bool-cases (is_space c)) [
  | inl space ↦ rw (space) (lstrip-IsTrimmed s)
  | inr other ↦ rw (other) other
]

pub lstrip_trimmed : (s : String) → IsTrimmed s → lstrip s ≡ s
unfolding lstrip
lstrip_trimmed String.[] h = refl
lstrip_trimmed (String.◌∷◌ c s) h = rw h

rstrip_cons-IsTrimmed : (c : Char) (t : String) → is_space c ≡ false → IsTrimmed (rstrip_cons c t)
unfolding rstrip_cons
rstrip_cons-IsTrimmed c String.[] h = rw h h
rstrip_cons-IsTrimmed c (String.◌∷◌ d t) h = h

pub rstrip-IsTrimmed : (s : String) → IsTrimmed s → IsTrimmed (rstrip s)
unfolding rstrip
rstrip-IsTrimmed String.[] h = tt
rstrip-IsTrimmed (String.◌∷◌ c s) h = rstrip_cons-IsTrimmed c (rstrip s) h

pub strip_idem : (s : String) → strip (strip s) ≡ strip s
unfolding strip
strip_idem s =
    ap rstrip
      (lstrip_trimmed (rstrip (lstrip s)) (rstrip-IsTrimmed (lstrip s) (lstrip-IsTrimmed s)))
    ∙ rstrip_idem (lstrip s)
