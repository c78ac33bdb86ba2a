-- ===== src/Gate/Swept.antt =====
-- spark_jobs/quality_gate.py: what the cleanup of the artifacts leaves.
use coinwhale_data_pipeline.Prelude.{
  ℕ, zero, suc, ◌+◌, ◌-◌, ◌≡◌, refl, ap, sym, ◌∙◌, String, Bool, true, false, not, Option, none,
  some, List, [], ◌∷◌, length, subst, fun_ext, leb, ◌*◌, keep, drop, ◌=ˢ◌, if◌then◌else◌, ℤ,
  parse_int, arith,
}
use coinwhale_data_pipeline.Gate.Artifacts.{
  Day, File, Removal, removed, missing, refused, Swept, Disk, at_least, kept, counted, sweep_days,
  sort_files, is_old, sweep_old, sweep_excess, then_excess, sweep_files, Settings, Cleaned, cleaned,
  raised, finish, cleanup_quality_artifacts,
}
use coinwhale_data_pipeline.Gate.Days.{IsAllowed, sweep_days_lem, is_live, live_lem}
use coinwhale_data_pipeline.Gate.Newest.{KeepsNewest, newest}

file_removed :
    (b : Bool) (r : Removal) (f : File) (files recent : List File) (later : Swept File)
    → IsAllowed r
    → (later.error ≡ none) × (later.left ≡ recent)
    → let swept =
        if b
        then elim r [
          | removed ↦ counted later
          | missing ↦ later
          | refused e ↦ record { left = f ∷ files; count = 0; error = some e }
        ]
        else kept f later in
      (swept.error ≡ none) × (swept.left ≡ (if not b then f ∷ recent else recent))
file_removed true removed f files recent later allowed fine = fine
file_removed true missing f files recent later allowed fine = fine
file_removed true (refused e) f files recent later allowed fine = absurd allowed
file_removed false r f files recent later allowed fine = (fine.0, ap (λ fs. f ∷ fs) fine.1)

excess_removed :
    (r : Removal) (f : File) (files rest : List File) (later : Swept File)
    → IsAllowed r
    → (later.error ≡ none) × (later.left ≡ rest)
    → let swept : Swept File = elim r [
      | removed ↦ counted later
      | missing ↦ later
      | refused e ↦ record { left = f ∷ files; count = 0; error = some e }
    ] in
      (swept.error ≡ none) × (swept.left ≡ rest)
excess_removed removed f files rest later allowed fine = fine
excess_removed missing f files rest later allowed fine = fine
excess_removed (refused e) f files rest later allowed fine = absurd allowed

after_aging :
    (o : Option String) (rest : List File) (aged extra : Swept File)
    → o ≡ none
    → (extra.error ≡ none) × (extra.left ≡ rest)
    → let swept : Swept File = elim o [
      | some e ↦ aged
      | none ↦ record extra { count = aged.count + extra.count }
    ] in
      (swept.error ≡ none) × (swept.left ≡ rest)
after_aging none rest aged extra fine held = held
after_aging (some e) rest aged extra fine held = ground arith

module _ (disk : Disk) (now age_hours : ℕ) where
  -- A file that is there when it is looked at, and is not older than the age.
  abbrev pub is_recent : File → Bool
  is_recent f = elim (disk.stat f) [
    | none ↦ false
    | some modified ↦ not (is_old now age_hours modified)
  ]

  file_swept :
      (o : Option ℕ) (f : File) (files recent : List File) (later : Swept File)
      → IsAllowed (disk.unlink f)
      → (later.error ≡ none) × (later.left ≡ recent)
      → let swept : Swept File = elim o [
        | none ↦ later
        | some modified ↦
            if is_old now age_hours modified
            then elim (disk.unlink f) [
              | removed ↦ counted later
              | missing ↦ later
              | refused e ↦ record { left = f ∷ files; count = 0; error = some e }
            ]
            else kept f later
      ] in
        (swept.error ≡ none)
        × (swept.left ≡ (
            if (elim o [ none ↦ false | some modified ↦ not (is_old now age_hours modified) ])
            then f ∷ recent
            else recent))
  file_swept none f files recent later allowed fine = fine
  file_swept (some modified) f files recent later allowed fine =
      file_removed (is_old now age_hours modified) (disk.unlink f) f files recent later allowed fine

  sweep_old_lem :
      (files : List File)
      → ((f : File) → IsAllowed (disk.unlink f))
      → ((sweep_old disk now age_hours files).error ≡ none)
        × ((sweep_old disk now age_hours files).left ≡ keep is_recent files)
  unfolding sweep_old
  sweep_old_lem [] allowed = (refl, refl)
  sweep_old_lem (f ∷ files) allowed =
      file_swept (disk.stat f) f files _ (sweep_old disk now age_hours files) (allowed f)
        (sweep_old_lem files allowed)

  sweep_excess_lem :
      (n : ℕ) (files : List File)
      → ((f : File) → IsAllowed (disk.unlink f))
      → ((sweep_excess disk n files).error ≡ none)
        × ((sweep_excess disk n files).left ≡ drop n files)
  unfolding sweep_excess
  sweep_excess_lem zero files allowed = (refl, refl)
  sweep_excess_lem (suc n) [] allowed = (refl, refl)
  sweep_excess_lem (suc n) (f ∷ files) allowed =
      excess_removed (disk.unlink f) f files _ (sweep_excess disk n files) (allowed f)
        (sweep_excess_lem n files allowed)

  sweep_files_lem :
      (limit : ℕ) (files : List File)
      → ((f : File) → IsAllowed (disk.unlink f))
      → let recent = keep is_recent (sort_files files) in
        ((sweep_files disk now age_hours limit files).error ≡ none)
        × ((sweep_files disk now age_hours limit files).left ≡ drop (length recent - limit) recent)
  unfolding sweep_files then_excess
  sweep_files_lem limit files allowed =
      let aged = sweep_old disk now age_hours (sort_files files) in
      let old = sweep_old_lem (sort_files files) allowed in
      let extra = sweep_excess_lem (length aged.left - limit) aged.left allowed in
      after_aging aged.error _ aged (sweep_excess disk (length aged.left - limit) aged.left) old.0
        (extra.0, extra.1 ∙ ap (λ fs. drop (length fs - limit) fs) old.1)

-- A file that is there when it is looked at, and was changed no longer ago than the age.
abbrev pub is_young : Disk → ℕ → ℕ → File → Bool
is_young disk now age_hours f = elim (disk.stat f) [
  | none ↦ false
  | some modified ↦ leb now (modified + age_hours * 3600)
]

young_lem :
    (disk : Disk) (now age_hours : ℕ) (f : File)
    → is_recent disk now age_hours f ≡ is_young disk now age_hours f
unfolding is_old
young_lem disk now age_hours f = ground arith

-- What the cleanup promises of its result: of the days, those that are live, and of the young files the
-- newest.
abbrev pub IsBounded : Disk → ℕ → ℕ → ℕ → List Day → List File → Cleaned → Type 0
IsBounded disk now age_hours limit all_days all_files (raised e days files) = ⊥
IsBounded disk now age_hours limit all_days all_files (cleaned days files a b) =
    (days ≡ keep (is_live now age_hours) all_days)
    × KeepsNewest limit (keep (is_young disk now age_hours) all_files) files

finished :
    (disk : Disk) (now age_hours limit : ℕ) (all_days : List Day) (all_files : List File)
    (days : Swept Day) (files : Swept File) (o p : Option String)
    → o ≡ none
    → p ≡ none
    → IsBounded disk now age_hours limit all_days all_files
        (cleaned days.left files.left days.count files.count)
    → IsBounded disk now age_hours limit all_days all_files (elim o [
      | some e ↦ raised e days.left all_files
      | none ↦ elim p [
        | some e ↦ raised e days.left files.left
        | none ↦ cleaned days.left files.left days.count files.count
      ]
    ])
finished disk now age_hours limit all_days all_files days files none none fine well held = held
finished disk now age_hours limit all_days all_files days files none (some e) fine well held =
    absurd ground arith
finished disk now age_hours limit all_days all_files days files (some e) p fine well held =
    absurd ground arith

-- When the cleanup is enabled, its two numbers can be read and no removal is refused, it leaves exactly
-- the days that ended less than the age ago, or whose directory has no date as its name. Of the files that
-- are there when they are looked at and were changed no longer ago than the age it leaves no more than the limit: the left
-- and the removed ones are those files, no removed one is newer than one that is left, and as many are
-- removed as exceed the limit. The age is one hour or more, the limit ten files or more.
pub cleanup-IsBounded :
    (s : Settings) (disk : Disk) (now : ℕ) (days : List Day) (files : List File) (age limit : ℤ)
    → (s.cleanup_enabled =ˢ "1") ≡ true
    → parse_int s.max_age_hours ≡ some age
    → parse_int s.fallback_max_files ≡ some limit
    → ((day : Day) → IsAllowed (disk.remove_day day))
    → ((f : File) → IsAllowed (disk.unlink f))
    → IsBounded disk now
        (at_least 1 age)
        (at_least 10 limit)
        days
        files
        (cleanup_quality_artifacts s disk now days files)
unfolding cleanup_quality_artifacts finish
cleanup-IsBounded s disk now days files age limit on age_read limit_read days_go files_go =
    let hours = at_least 1 age in
    let most = at_least 10 limit in
    let swept = sweep_days_lem disk now hours days days_go in
    let kept_files = sweep_files_lem disk now hours most files files_go in
    let newest_files = newest most (is_recent disk now hours) files in
    rw on (
      rw age_read (
        rw limit_read (
          finished disk now hours most days files (sweep_days disk now hours days)
            (sweep_files disk now hours most files) _ _ swept.0 kept_files.0
            (
              swept.1 ∙ ap (λ p. keep p days) (fun_ext (live_lem now hours)),
              subst (KeepsNewest most (keep (is_young disk now hours) files)) (sym kept_files.1) (
                  subst
                    (λ p. KeepsNewest most (keep p files) (
                      drop (length (keep (is_recent disk now hours) (sort_files files)) - most)
                        (keep (is_recent disk now hours) (sort_files files))))
                    (fun_ext (young_lem disk now hours)) newest_files),
            ))))
