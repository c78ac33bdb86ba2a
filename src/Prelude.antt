-- ===== src/Prelude.antt =====
-- The names that the other modules share.
mod Tests
mod Lists
mod Int
mod Text
mod Case
mod Strip
mod Spaces
mod Same
mod Pairs
mod Sorting
pub use Tests.*
pub use Lists.*
pub use Int.*
unfoldable pub use Text.*
pub use Case.{upper_idem, lower_idem, differs_from}
pub use Strip.{strip_idem, IsTrimmed, lstrip_trimmed}
pub use Spaces.{
  strip-upper, strip-IsTrimmed, strip-not_blank, IsItem, strip-IsItem, upper-IsItem,
  upper_char-is_space,
}
unfoldable pub use Sorting.{insert_by, sort_by}
pub use Sorting.{take-drop, take-Before, sort_by-perm, sort_by-All, keep-sort_by, sort_by-Pairwise}
pub use Pairs.{Pairwise, Pairwise-append, Pairwise-chosen, Pairwise-keep, all-All}
pub use Same.{same_text, flipped, All-append, All-chosen, All-keep}
pub use Prim.Native.Nat.{ℕ, zero, suc, ◌+◌, ◌-◌, ◌*◌, ◌/◌, ◌%◌, ◌^◌, ◌≤◌, ◌<◌, min, max}
pub use Prim.Native.String.{String, ◌++◌ as ◌<>◌}
pub use mathlib.Core.Path.{◌≡◌, refl, sym, ap, fun_ext, subst, ◌∙◌}
pub use mathlib.Core.Logic.{◌≢◌, ◌↔◌, ◌⊎◌, inl, inr}
pub use mathlib.Core.Bool.{Bool, true, false, not, ◌&&◌, ◌||◌}
pub use mathlib.Core.Option.{Option, none, some}
pub use mathlib.Core.List.{List, [], ◌∷◌, ◌++◌, map, Perm}
pub use native.Mathlib.Omega.{arith}
pub use text.Mathlib.TextEquality.{eq_iff}
