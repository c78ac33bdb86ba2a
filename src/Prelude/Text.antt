-- ===== src/Prelude/Text.antt =====
-- Python's `str` methods that the pipeline calls, on native texts. Upper and lower case are those
-- of ASCII letters; white space is all that `str.strip` takes.
use Prim.Native.Nat.{ℕ, zero, suc, ◌+◌, ◌-◌, ◌*◌, ◌/◌, ◌%◌}
use Prim.Native.Char.{Char, code}
use Prim.Native.String.{String, ◌++◌, len, count, char_at, slice}
use mathlib.Core.Bool.{Bool, true, false, ◌&&◌, ◌||◌}
use mathlib.Core.Option.{Option, none, some}
use mathlib.Core.List.{List}
use text.Mathlib.Text
use coinwhale_data_pipeline.Prelude.Tests.{ltb, leb, ◌==◌, if◌then◌else◌}
use coinwhale_data_pipeline.Prelude.Int.{ℤ, pos, negsuc}

infix 50 ◌=ˢ◌
abbrev pub ◌=ˢ◌ : String → String → Bool
s =ˢ t = Text.◌==◌ s t

-- `sub in text`
abbrev pub contains : String → String → Bool
contains s sub = leb (Prim.Native.String.find s sub) (len s)

abbrev pub starts_with : String → String → Bool
starts_with = Text.starts_with

abbrev pub ends_with : String → String → Bool
ends_with s t = leb (len t) (len s) && (slice s (len s - len t) (len s) =ˢ t)

-- the bounds of a code
unfoldable pub between : ℕ → ℕ → ℕ → Bool
between lo hi n = leb lo n && leb n hi

-- `str.isspace` of one character
unfoldable pub is_space : Char → Bool
unfolding between
is_space c =
    between 9 13 (code c)
    || between 28 32 (code c)
    || code c == 133
    || code c == 160
    || code c == 5760
    || between 8192 8202 (code c)
    || between 8232 8233 (code c)
    || code c == 8239
    || code c == 8287
    || code c == 12288

unfoldable pub upper_char : Char → Char
unfolding between
upper_char c =
    if between 97 122 (code c) then char_at "ABCDEFGHIJKLMNOPQRSTUVWXYZ" (code c - 97) else c

unfoldable pub lower_char : Char → Char
unfolding between
lower_char c =
    if between 65 90 (code c) then char_at "abcdefghijklmnopqrstuvwxyz" (code c - 65) else c

unfoldable pub upper : String → String
unfolding upper_char
upper String.[] = String.[]
upper (String.◌∷◌ c s) = String.◌∷◌ (upper_char c) (upper s)

unfoldable pub lower : String → String
unfolding lower_char
lower String.[] = String.[]
lower (String.◌∷◌ c s) = String.◌∷◌ (lower_char c) (lower s)

unfoldable pub lstrip : String → String
lstrip String.[] = String.[]
lstrip (String.◌∷◌ c s) = let rest = lstrip s in if is_space c then rest else String.◌∷◌ c s

-- a character in front of a text that is stripped on the right
unfoldable pub rstrip_cons : Char → String → String
rstrip_cons c String.[] = if is_space c then String.[] else String.◌∷◌ c String.[]
rstrip_cons c (String.◌∷◌ d s) = String.◌∷◌ c (String.◌∷◌ d s)

unfoldable pub rstrip : String → String
unfolding rstrip_cons
rstrip String.[] = String.[]
rstrip (String.◌∷◌ c s) = rstrip_cons c (rstrip s)

unfoldable pub strip : String → String
unfolding lstrip rstrip rstrip_cons is_space
strip s = rstrip (lstrip s)

-- a character in front of the first part
abbrev pub onto_first : Char → List String → List String
onto_first c List.[] = List.◌∷◌ (String.◌∷◌ c String.[]) List.[]
onto_first c (List.◌∷◌ s parts) = List.◌∷◌ (String.◌∷◌ c s) parts

-- `text.split(sep)` for a separator of one character, given by its code
unfoldable pub split : ℕ → String → List String
split sep String.[] = List.◌∷◌ String.[] List.[]
split sep (String.◌∷◌ c s) =
    let parts = split sep s in
    if code c == sep then List.◌∷◌ String.[] parts else onto_first c parts

-- `text.split(sep, 1)`: what stands before and behind the first separator, if there is one
unfoldable pub split_once : ℕ → String → Option (String × String)
split_once sep String.[] = none
split_once sep (String.◌∷◌ c s) =
    let rest = split_once sep s in
    if code c == sep
    then some (String.[], s)
    else elim rest [ none ↦ none | some (l, r) ↦ some (String.◌∷◌ c l, r) ]

-- `sep.join(parts)`
unfoldable pub join : String → List String → String
join sep List.[] = String.[]
join sep (List.◌∷◌ s List.[]) = s
join sep (List.◌∷◌ s (List.◌∷◌ t parts)) = s ++ (sep ++ join sep (List.◌∷◌ t parts))

-- `text[:n]`
unfoldable pub prefix : ℕ → String → String
prefix zero s = String.[]
prefix (suc n) String.[] = String.[]
prefix (suc n) (String.◌∷◌ c s) = String.◌∷◌ c (prefix n s)

is_digit : Char → Bool
unfolding between
is_digit c = between 48 57 (code c)

-- The digits of an `int` literal, with single underscores between digits: the value so far, and
-- whether a digit stands right before.
digits_from : ℕ → Bool → String → Option ℕ
unfolding is_digit
digits_from n seen String.[] = if seen then some n else none
digits_from n seen (String.◌∷◌ c s) =
    let more = digits_from (10 * n + (code c - 48)) true s in
    let after = digits_from n false s in
    if is_digit c then more else if code c == 95 && seen then after else none

-- `int(text)` in base ten; `none` is the `ValueError`.
int_of_stripped : String → Option ℤ
unfolding digits_from
int_of_stripped String.[] = none
int_of_stripped (String.◌∷◌ c s) =
    if code c == 45
    then elim (digits_from 0 false s) [
      | none ↦ none
      | some n ↦ some (elim n [ zero ↦ pos 0 | suc m ↦ negsuc m ])
    ]
    else if code c == 43
    then elim (digits_from 0 false s) [ none ↦ none | some n ↦ some (pos n) ]
    else elim (digits_from 0 false (String.◌∷◌ c s)) [ none ↦ none | some n ↦ some (pos n) ]

unfoldable pub parse_int : String → Option ℤ
unfolding int_of_stripped strip
parse_int s = int_of_stripped (strip s)

-- The decimal digits of `n` in front of a text. Each round divides by ten, so `suc n` rounds are
-- more than enough.
decimal_onto : ℕ → ℕ → String → String
decimal_onto zero n acc = acc
decimal_onto (suc fuel) n acc =
    let digit = String.◌∷◌ (char_at "0123456789" (n % 10)) acc in
    let rest = decimal_onto fuel (n / 10) digit in if ltb n 10 then digit else rest

-- `str(n)`
unfoldable pub show_ℕ : ℕ → String
unfolding decimal_onto
show_ℕ n = decimal_onto (suc n) n ""

unfoldable pub show_ℤ : ℤ → String
unfolding show_ℕ
show_ℤ (pos n) = show_ℕ n
show_ℤ (negsuc n) = "-" ++ show_ℕ (suc n)

-- `x in xs`
unfoldable pub is_in : String → List String → Bool
is_in x List.[] = false
is_in x (List.◌∷◌ y ys) = (y =ˢ x) || is_in x ys

-- `dict.get` on the entries of a dict; of two entries with a key the first counts
unfoldable pub lookup {ℓ} : {A : Type ℓ} → String → List (String × A) → Option A
lookup key List.[] = none
lookup key (List.◌∷◌ (k, v) rest) = if k =ˢ key then some v else lookup key rest
