-- ===== src/Gate/Days.antt =====
-- spark_jobs/quality_gate.py: the days that the cleanup of the artifacts leaves.
use coinwhale_data_pipeline.Prelude.{
  ℕ, ◌+◌, ◌*◌, ◌≡◌, refl, ap, Bool, true, false, not, none, some, List, [], ◌∷◌, keep,
  if◌then◌else◌, ltb, arith,
}
use coinwhale_data_pipeline.Gate.Artifacts.{
  Day, Removal, removed, missing, refused, Swept, Disk, kept, counted, is_expired, sweep_days,
}

-- A removal that works or finds nothing any more.
abbrev pub IsAllowed : Removal → Type 0
IsAllowed removed = Unit
IsAllowed missing = Unit
IsAllowed (refused e) = ⊥

day_swept :
    (b : Bool) (r : Removal) (day : Day) (days left : List Day) (later : Swept Day)
    → IsAllowed r
    → later.error ≡ none
    → later.left ≡ left
    → let swept =
        if b
        then elim r [
          | removed ↦ counted later
          | missing ↦ later
          | refused e ↦ record { left = day ∷ days; count = 0; error = some e }
        ]
        else kept day later in
      (swept.error ≡ none) × (swept.left ≡ (if not b then day ∷ left else left))
day_swept true removed day days left later allowed fine same = (fine, same)
day_swept true missing day days left later allowed fine same = (fine, same)
day_swept true (refused e) day days left later allowed fine same = absurd allowed
day_swept false r day days left later allowed fine same = (fine, ap (λ ds. day ∷ ds) same)

module _ (disk : Disk) (now age_hours : ℕ) where
  pub sweep_days_lem :
      (days : List Day)
      → ((day : Day) → IsAllowed (disk.remove_day day))
      → ((sweep_days disk now age_hours days).error ≡ none)
        × ((sweep_days disk now age_hours days).left
            ≡ keep (λ day. not (is_expired now age_hours day)) days)
  unfolding sweep_days
  sweep_days_lem [] allowed = (refl, refl)
  sweep_days_lem (day ∷ days) allowed =
      let later = sweep_days_lem days allowed in
      day_swept (is_expired now age_hours day) (disk.remove_day day) day days _
        (sweep_days disk now age_hours days) (allowed day) later.0 later.1

-- A day's directory stays while its day, which ends 24 hours after its start, is not older than the age.
abbrev pub is_live : ℕ → ℕ → Day → Bool
is_live now age_hours day = elim day.starts_at [
  | none ↦ true
  | some start ↦ ltb now (start + (24 + age_hours) * 3600)
]

pub live_lem :
    (now age_hours : ℕ) (day : Day) → not (is_expired now age_hours day) ≡ is_live now age_hours day
unfolding is_expired
live_lem now age_hours day = ground arith
