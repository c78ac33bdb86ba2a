-- ===== src/Prelude/Sorting.antt =====
-- Python's stable `sorted` by a test that the first of two elements may stand before the second.
use Prim.Native.Nat.{ℕ, zero, suc}
use mathlib.Core.Path.{◌≡◌, refl, ap}
use mathlib.Core.Logic.{inl, inr}
use mathlib.Core.Bool.{Bool, true, false}
use mathlib.Core.List.{List, [], ◌∷◌, ◌++◌, Perm}
use mathlib.Core.List.Perm
use coinwhale_data_pipeline.Prelude.Tests.{if◌then◌else◌, Bool-cases}
use coinwhale_data_pipeline.Prelude.Lists.{All, keep, take, drop}
use coinwhale_data_pipeline.Prelude.Pairs.{Pairwise}

module _ {ℓ} {A : Type ℓ} where
  unfoldable pub insert_by : (A → A → Bool) → A → List A → List A
  insert_by before x [] = x ∷ []
  insert_by before x (y ∷ ys) =
      let later = insert_by before x ys in if before x y then x ∷ y ∷ ys else y ∷ later

  unfoldable pub sort_by : (A → A → Bool) → List A → List A
  unfolding insert_by
  sort_by before [] = []
  sort_by before (x ∷ xs) = insert_by before x (sort_by before xs)

  All-drop {κ} : (P : A → Type κ) (n : ℕ) (xs : List A) → All P xs → All P (drop n xs)
  All-drop P zero xs held = held
  All-drop P (suc n) [] held = tt
  All-drop P (suc n) (x ∷ xs) held = All-drop P n xs held.1

  pub take-drop : (n : ℕ) (xs : List A) → take n xs ++ drop n xs ≡ xs
  take-drop zero xs = refl
  take-drop (suc n) [] = refl
  take-drop (suc n) (x ∷ xs) = ap (λ ys. x ∷ ys) (take-drop n xs)

  -- What stands before a place is related to all that stands from it on.
  pub take-Before {κ} :
      (R : A → A → Type κ) (n : ℕ) (xs : List A)
      → Pairwise R xs
      → All (λ x. All (R x) (drop n xs)) (take n xs)
  take-Before R zero xs pairs = tt
  take-Before R (suc n) [] pairs = tt
  take-Before R (suc n) (x ∷ xs) pairs = (All-drop (R x) n xs pairs.0, take-Before R n xs pairs.1)

  module _ (before : A → A → Bool) where
    insert_by-perm : (x : A) (ys : List A) → Perm (insert_by before x ys) (x ∷ ys)
    unfolding insert_by
    insert_by-perm x [] = Perm.rfl
    insert_by-perm x (y ∷ ys) = elim (Bool-cases (before x y)) [
      | inl first ↦ rw first Perm.rfl
      | inr later ↦ rw later (Perm.trans (Perm.cons y (insert_by-perm x ys)) (Perm.swap x y ys))
    ]

    pub sort_by-perm : (xs : List A) → Perm (sort_by before xs) xs
    unfolding sort_by
    sort_by-perm [] = Perm.rfl
    sort_by-perm (x ∷ xs) =
        Perm.trans (insert_by-perm x (sort_by before xs)) (Perm.cons x (sort_by-perm xs))

    insert_by-All {κ} :
        (P : A → Type κ) (x : A) (ys : List A) → P x → All P ys → All P (insert_by before x ys)
    unfolding insert_by
    insert_by-All P x [] here held = (here, tt)
    insert_by-All P x (y ∷ ys) here held = elim (Bool-cases (before x y)) [
      | inl first ↦ rw first (here, held)
      | inr later ↦ rw later (held.0, insert_by-All P x ys here held.1)
    ]

    pub sort_by-All {κ} : (P : A → Type κ) (xs : List A) → All P xs → All P (sort_by before xs)
    unfolding sort_by
    sort_by-All P [] held = tt
    sort_by-All P (x ∷ xs) held =
        insert_by-All P x (sort_by before xs) held.0 (sort_by-All P xs held.1)

    module _ (p : A → Bool) where
      keep-cons :
          (x : A) (xs ys : List A)
          → Perm (keep p xs) (keep p ys)
          → Perm (keep p (x ∷ xs)) (keep p (x ∷ ys))
      keep-cons x xs ys same = elim (Bool-cases (p x)) [
        | inl kept ↦ rw kept (Perm.cons x same)
        | inr left ↦ rw left same
      ]

      keep-swap : (x y : A) (ys : List A) → Perm (keep p (y ∷ x ∷ ys)) (keep p (x ∷ y ∷ ys))
      keep-swap x y ys = elim (Bool-cases (p x)) [
        | inl kept ↦ rw kept (elim (Bool-cases (p y)) [
          | inl too ↦ rw too (Perm.swap x y (keep p ys))
          | inr left ↦ rw left Perm.rfl
        ])
        | inr left ↦ rw left Perm.rfl
      ]

      keep-insert_by :
          (x : A) (ys : List A) → Perm (keep p (insert_by before x ys)) (keep p (x ∷ ys))
      unfolding insert_by
      keep-insert_by x [] = Perm.rfl
      keep-insert_by x (y ∷ ys) = elim (Bool-cases (before x y)) [
        | inl first ↦ rw first Perm.rfl
        | inr later ↦ rw later (
            Perm.trans (keep-cons y (insert_by before x ys) (x ∷ ys) (keep-insert_by x ys))
              (keep-swap x y ys))
      ]

      pub keep-sort_by : (xs : List A) → Perm (keep p (sort_by before xs)) (keep p xs)
      unfolding sort_by
      keep-sort_by [] = Perm.rfl
      keep-sort_by (x ∷ xs) =
          Perm.trans (keep-insert_by x (sort_by before xs))
            (keep-cons x (sort_by before xs) xs (keep-sort_by xs))

    -- A test that decides an order in both directions sorts by the order.
    module _ {κ} (R : A → A → Type κ) (stands : (x y : A) → before x y ≡ true → R x y)
        (follows : (x y : A) → before x y ≡ false → R y x)
        (step : (x y z : A) → R x y → R y z → R x z) where
      All-step : (x y : A) (ys : List A) → R x y → All (R y) ys → All (R x) ys
      All-step x y [] related held = tt
      All-step x y (z ∷ ys) related held =
          (step x y z related held.0, All-step x y ys related held.1)

      insert_by-Pairwise :
          (x : A) (ys : List A) → Pairwise R ys → Pairwise R (insert_by before x ys)
      unfolding insert_by
      insert_by-Pairwise x [] pairs = (tt, tt)
      insert_by-Pairwise x (y ∷ ys) pairs = elim (Bool-cases (before x y)) [
        | inl first ↦
            let near = stands x y first in rw first ((near, All-step x y ys near pairs.0), pairs)
        | inr later ↦
            rw later (
              insert_by-All (R y) x ys (follows x y later) pairs.0,
              insert_by-Pairwise x ys pairs.1,
            )
      ]

      pub sort_by-Pairwise : (xs : List A) → Pairwise R (sort_by before xs)
      unfolding sort_by
      sort_by-Pairwise [] = tt
      sort_by-Pairwise (x ∷ xs) = insert_by-Pairwise x (sort_by before xs) (sort_by-Pairwise xs)
