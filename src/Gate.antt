-- ===== src/Gate.antt =====
-- spark_jobs/quality_gate.py: SQL's three-valued logic as Spark has it, the columns that the gate reads,
-- and the settings. A row is looked up by the names of its columns.
pub mod Topics
pub mod Rows
pub mod Summary
pub mod Events
pub mod Split
pub mod Sound
pub mod Counted
pub mod Artifacts
pub mod Days
pub mod Newest
pub mod Swept
mod Examples
use coinwhale_data_pipeline.Prelude.{
  ℕ, ℤ, pos, String, Bool, true, false, not, ◌&&◌, ◌||◌, Option, none, some, List, [], ◌∷◌, ◌=ˢ◌,
  if◌then◌else◌, strip, lower, is_in,
}

-- A Boolean of SQL: `none` is NULL.
abbrev pub Bool3 : Type 0
Bool3 = Option Bool

unfoldable pub and3 : Bool3 → Bool3 → Bool3
and3 (some false) b = some false
and3 (some true) b = b
and3 none (some false) = some false
and3 none (some true) = none
and3 none none = none

unfoldable pub or3 : Bool3 → Bool3 → Bool3
or3 (some true) b = some true
or3 (some false) b = b
or3 none (some true) = some true
or3 none (some false) = none
or3 none none = none

unfoldable pub not3 : Bool3 → Bool3
not3 none = none
not3 (some b) = some (not b)

-- `filter` keeps a row where the condition is true, and `when` takes its branch there.
unfoldable pub is_true : Bool3 → Bool
is_true none = false
is_true (some b) = b

-- `_and_all` and `_or_all`, which fold from the left
unfoldable pub and_from : Bool3 → List Bool3 → Bool3
and_from b [] = b
and_from b (c ∷ cs) = and_from (and3 b c) cs

unfoldable pub and_all : List Bool3 → Bool3
unfolding and_from
and_all [] = some true
and_all (b ∷ bs) = and_from b bs

unfoldable pub or_from : Bool3 → List Bool3 → Bool3
or_from b [] = b
or_from b (c ∷ cs) = or_from (or3 b c) cs

unfoldable pub or_all : List Bool3 → Bool3
unfolding or_from
or_all [] = some false
or_all (b ∷ bs) = or_from b bs

-- `gate_mode`, from the environment's text
unfoldable pub gate_mode : String → String
gate_mode setting =
    let mode = lower (strip setting) in
    if is_in mode ("shadow" ∷ "observe" ∷ "strict" ∷ []) then mode else "shadow"
