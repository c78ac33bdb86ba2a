-- ===== src/Prelude/Pairs.antt =====
-- Relations between all pairs of a list, and properties of all elements that a test decides.
use mathlib.Core.Path.{◌≡◌}
use mathlib.Core.Logic.{inl, inr}
use mathlib.Core.Bool.{Bool, true, false, ◌&&◌}
use mathlib.Core.List.{List, [], ◌∷◌, ◌++◌}
use native.Mathlib.Omega.{arith}
use coinwhale_data_pipeline.Prelude.Tests.{if◌then◌else◌, Bool-cases}
use coinwhale_data_pipeline.Prelude.Lists.{All, all, keep}
use coinwhale_data_pipeline.Prelude.Same.{All-append, All-keep}

-- Each element stands in the relation with all that follow it.
abbrev pub Pairwise {ℓ κ} : {A : Type ℓ} → (A → A → Type κ) → List A → Type κ
Pairwise R [] = Unit
Pairwise R (x ∷ xs) = All (R x) xs × Pairwise R xs

module _ {ℓ κ} {A : Type ℓ} (R : A → A → Type κ) where
  pub Pairwise-append :
      (xs ys : List A)
      → Pairwise R xs
      → Pairwise R ys
      → All (λ x. All (R x) ys) xs
      → Pairwise R (xs ++ ys)
  Pairwise-append [] ys first second across = second
  Pairwise-append (x ∷ xs) ys first second across =
      (All-append (R x) xs ys first.0 across.0, Pairwise-append xs ys first.1 second across.1)

  pub Pairwise-chosen :
      (b : Bool) (xs ys : List A)
      → Pairwise R xs
      → Pairwise R ys
      → Pairwise R (if b then xs else ys)
  Pairwise-chosen true xs ys first second = first
  Pairwise-chosen false xs ys first second = second

  pub Pairwise-keep : (p : A → Bool) (xs : List A) → Pairwise R xs → Pairwise R (keep p xs)
  Pairwise-keep p [] pairs = tt
  Pairwise-keep p (x ∷ xs) pairs =
      let later = Pairwise-keep p xs pairs.1 in
      elim (Bool-cases (p x)) [
        | inl kept ↦ rw kept (All-keep (R x) p xs pairs.0, later)
        | inr left ↦ rw left later
      ]

pub all-All {ℓ κ} :
    {A : Type ℓ} (p : A → Bool) (P : A → Type κ)
    → ((x : A) → p x ≡ true → P x)
    → (xs : List A) → all p xs ≡ true
    → All P xs
all-All p P sound [] held = tt
all-All p P sound (x ∷ xs) held =
    let parts = both (p x) (all p xs) held in (sound x parts.0, all-All p P sound xs parts.1)
  where
    both : (b c : Bool) → b && c ≡ true → (b ≡ true) × (c ≡ true)
    both b c h = ground arith
