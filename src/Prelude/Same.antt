-- ===== src/Prelude/Same.antt =====
-- Equality of texts as a test, and `All` on lists that are joined or chosen.
use Prim.Native.String.{String}
use mathlib.Core.Path.{◌≡◌, refl, sym}
use mathlib.Core.Logic.{inl, inr}
use mathlib.Core.Bool.{Bool, true, false}
use mathlib.Core.List.{List, [], ◌∷◌, ◌++◌}
use native.Mathlib.Omega.{arith}
use text.Mathlib.TextEquality.{eq_iff}
use coinwhale_data_pipeline.Prelude.Tests.{if◌then◌else◌, Bool-cases}
use coinwhale_data_pipeline.Prelude.Text.{◌=ˢ◌}
use coinwhale_data_pipeline.Prelude.Lists.{All, keep}

pub same_text : (s : String) → (s =ˢ s) ≡ true
same_text s = (eq_iff s s).1 refl

pub flipped : (s t : String) → (s =ˢ t) ≡ false → (t =ˢ s) ≡ false
flipped s t apart = elim (Bool-cases (t =ˢ s)) [
  | inl same ↦
      let alike : (s =ˢ t) ≡ true = (eq_iff s t).1 (sym ((eq_iff t s).0 same)) in ground arith
  | inr other ↦ other
]

pub All-append {ℓ κ} :
    {A : Type ℓ} (P : A → Type κ) (xs ys : List A) → All P xs → All P ys → All P (xs ++ ys)
All-append P [] ys first second = second
All-append P (x ∷ xs) ys first second = (first.0, All-append P xs ys first.1 second)

pub All-chosen {ℓ κ} :
    {A : Type ℓ} (P : A → Type κ) (b : Bool) (xs ys : List A)
    → All P xs
    → All P ys
    → All P (if b then xs else ys)
All-chosen P true xs ys first second = first
All-chosen P false xs ys first second = second

pub All-keep {ℓ κ} :
    {A : Type ℓ} (P : A → Type κ) (p : A → Bool) (xs : List A) → All P xs → All P (keep p xs)
All-keep P p [] held = tt
All-keep P p (x ∷ xs) held =
    let later = All-keep P p xs held.1 in
    elim (Bool-cases (p x)) [ inl kept ↦ rw kept (held.0, later) | inr left ↦ rw left later ]
