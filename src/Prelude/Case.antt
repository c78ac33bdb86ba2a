-- ===== src/Prelude/Case.antt =====
-- Facts about texts: two different texts are not both equal to a third, and upper or lower
-- case twice is the same once.
use Prim.Native.Nat.{ℕ, zero, suc, ◌+◌, ◌-◌, ◌≤◌}
use Prim.Native.Char.{Char, code}
use Prim.Native.String.{String, char_at}
use mathlib.Core.Path.{◌≡◌, refl, subst}
use mathlib.Core.Bool.{Bool, true, false, ◌&&◌}
use native.Mathlib.Omega.{arith}
use coinwhale_data_pipeline.Prelude.Tests.{leb}
use text.Mathlib.TextEquality.{eq_iff}
use coinwhale_data_pipeline.Prelude.Text.{upper, upper_char, lower, lower_char, ◌=ˢ◌}

-- `p` at `k` and at the `n` numbers behind it
unfoldable pub holds_from : (p : ℕ → Bool) → (k n : ℕ) → Bool
holds_from p k zero = p k
holds_from p k (suc n) = p k && holds_from p (suc k) n

pub holds_at : (p : ℕ → Bool) (k n x : ℕ) → k ≤ x → x ≤ k + n → holds_from p k n ≡ true → p x ≡ true
unfolding holds_from
holds_at p k zero x low high all =
    let same : k ≡ x = omega arith in subst (λ y. p y ≡ true) same all
holds_at p k (suc n) x low high all = let later = holds_at p (suc k) n x in ground arith

-- the letter is no lower-case letter
abbrev is_capital : ℕ → Bool
is_capital k = leb (code (char_at "ABCDEFGHIJKLMNOPQRSTUVWXYZ" k)) 90

capitals : holds_from is_capital 0 25 ≡ true
unfolding holds_from
capitals = refl

upper_char_idem : (c : Char) → upper_char (upper_char c) ≡ upper_char c
unfolding upper_char
upper_char_idem c = let all = capitals in ground (arith, holds_at is_capital 0 25 (code c - 97))

pub upper_idem : (s : String) → upper (upper s) ≡ upper s
unfolding upper
upper_idem String.[] = refl
upper_idem (String.◌∷◌ c s) = rw (upper_char_idem c, upper_idem s)

-- the letter is no capital
abbrev is_small : ℕ → Bool
is_small k = leb 97 (code (char_at "abcdefghijklmnopqrstuvwxyz" k))

smalls : holds_from is_small 0 25 ≡ true
unfolding holds_from
smalls = refl

lower_char_idem : (c : Char) → lower_char (lower_char c) ≡ lower_char c
unfolding lower_char
lower_char_idem c = let all = smalls in ground (arith, holds_at is_small 0 25 (code c - 65))

pub lower_idem : (s : String) → lower (lower s) ≡ lower s
unfolding lower
lower_idem String.[] = refl
lower_idem (String.◌∷◌ c s) = rw (lower_char_idem c, lower_idem s)

pub differs_from : (s a b : String) → (a =ˢ b) ≡ false → (s =ˢ a) ≡ true → (s =ˢ b) ≡ false
differs_from s a b d h = rw ((eq_iff s a).0 h) d
