-- ===== src/Gate/Artifacts.antt =====
-- spark_jobs/quality_gate.py: `cleanup_quality_artifacts` and `_maybe_cleanup_quality_artifacts`, in whole
-- seconds. The directories and files that are found, and what their removal answers, are arguments.
use coinwhale_data_pipeline.Prelude.{
  ℕ, zero, suc, ◌+◌, ◌-◌, ◌*◌, max, leb, ltb, ◌==◌, ℤ, pos, negsuc, String, Bool, true, false, not,
  ◌&&◌, ◌||◌, Option, none, some, List, [], ◌∷◌, length, ◌=ˢ◌, if◌then◌else◌, sort_by, parse_int,
}
use Prim.Native.Nat.{Ordering}
use Prim.Native.String.{compare}

-- A day's directory: the second at which its day starts, if its name is a date.
pub record Day : Type 0 where
  pub name : String
  pub starts_at : Option ℕ

pub record File : Type 0 where
  pub path : String
  pub modified : ℕ

-- A removal works, finds nothing any more, or raises another error.
pub data Removal : Type 0 where
  removed missing : Removal
  refused : String → Removal

-- What is left of a list, how many were removed, and the error that ended the loop.
pub record Swept {ℓ} (A : Type ℓ) : Type ℓ where
  pub left : List A
  pub count : ℕ
  pub error : Option String

-- What the file system answers: the removals, and the time of a file when it is looked at again.
pub record Disk : Type 0 where
  pub remove_day : Day → Removal
  pub stat : File → Option ℕ
  pub unlink : File → Removal

-- `max(least, int(…))`
unfoldable pub at_least : ℕ → ℤ → ℕ
at_least least (pos n) = max least n
at_least least (negsuc n) = least

abbrev pub kept {ℓ} : {A : Type ℓ} → A → Swept A → Swept A
kept a s = record s { left = a ∷ s.left }

abbrev pub counted {ℓ} : {A : Type ℓ} → Swept A → Swept A
counted s = record s { count = s.count + 1 }

-- `day_start + timedelta(days=1) <= cutoff`, where the cutoff is the age before now
unfoldable pub is_expired : ℕ → ℕ → Day → Bool
is_expired now age_hours day = elim day.starts_at [
  | none ↦ false
  | some start ↦ leb (start + 86400 + age_hours * 3600) now
]

unfoldable pub sweep_days : Disk → ℕ → ℕ → List Day → Swept Day
unfolding is_expired
sweep_days disk now age_hours [] = record { left = []; count = 0; error = none }
sweep_days disk now age_hours (day ∷ days) =
    let later = sweep_days disk now age_hours days in
    if is_expired now age_hours day
    then elim (disk.remove_day day) [
      | removed ↦ counted later
      | missing ↦ later
      | refused e ↦ record { left = day ∷ days; count = 0; error = some e }
    ]
    else kept day later

-- `sorted` on the pairs of a time and a path
unfoldable pub is_before : File → File → Bool
is_before f g =
    ltb f.modified g.modified
    || f.modified == g.modified && (elim (compare f.path g.path) [ Ordering.gt ↦ false | _ ↦ true ])

unfoldable pub sort_files : List File → List File
unfolding is_before
sort_files = sort_by is_before

-- `path.stat().st_mtime < cutoff.timestamp()`
unfoldable pub is_old : ℕ → ℕ → ℕ → Bool
is_old now age_hours modified = ltb (modified + age_hours * 3600) now

-- The loop by age: the files that are retained. After an error the rest stays, too.
unfoldable pub sweep_old : Disk → ℕ → ℕ → List File → Swept File
unfolding is_old
sweep_old disk now age_hours [] = record { left = []; count = 0; error = none }
sweep_old disk now age_hours (f ∷ files) =
    let later = sweep_old disk now age_hours files in
    elim (disk.stat f) [
      | none ↦ later
      | some modified ↦
          if is_old now age_hours modified
          then elim (disk.unlink f) [
            | removed ↦ counted later
            | missing ↦ later
            | refused e ↦ record { left = f ∷ files; count = 0; error = some e }
          ]
          else kept f later
    ]

-- The loop over the first `excess` files that were retained.
unfoldable pub sweep_excess : Disk → ℕ → List File → Swept File
sweep_excess disk zero files = record { left = files; count = 0; error = none }
sweep_excess disk (suc n) [] = record { left = []; count = 0; error = none }
sweep_excess disk (suc n) (f ∷ files) =
    let later = sweep_excess disk n files in
    elim (disk.unlink f) [
      | removed ↦ counted later
      | missing ↦ later
      | refused e ↦ record { left = f ∷ files; count = 0; error = some e }
    ]

-- The end of the cleanup of the files, when the loop by age raised nothing.
unfoldable pub then_excess : Disk → ℕ → Swept File → Swept File
unfolding sweep_excess
then_excess disk limit aged =
    let extra = sweep_excess disk (length aged.left - limit) aged.left in
    elim aged.error [ some e ↦ aged | none ↦ record extra { count = aged.count + extra.count } ]

unfoldable pub sweep_files : Disk → ℕ → ℕ → ℕ → List File → Swept File
unfolding sort_files sweep_old then_excess
sweep_files disk now age_hours limit files =
    then_excess disk limit (sweep_old disk now age_hours (sort_files files))

pub record Settings : Type 0 where
  pub cleanup_enabled : String
  pub max_age_hours : String
  pub fallback_max_files : String

-- The days and the files that are left, or the error, with what was left at it.
pub data Cleaned : Type 0 where
  cleaned : List Day → List File → ℕ → ℕ → Cleaned
  raised : String → List Day → List File → Cleaned

unfoldable pub finish : List File → Swept Day → Swept File → Cleaned
finish files days swept = elim days.error [
  | some e ↦ raised e days.left files
  | none ↦ elim swept.error [
    | some e ↦ raised e days.left swept.left
    | none ↦ cleaned days.left swept.left days.count swept.count
  ]
]

-- `cleanup_quality_artifacts`, as it is called: the age and the limit are those of the environment.
unfoldable pub cleanup_quality_artifacts : Settings → Disk → ℕ → List Day → List File → Cleaned
unfolding at_least sweep_days sweep_files finish
cleanup_quality_artifacts s disk now days files =
    if not (s.cleanup_enabled =ˢ "1")
    then cleaned days files 0 0
    else elim (parse_int s.max_age_hours) [
      | none ↦ raised "ValueError" days files
      | some age ↦ elim (parse_int s.fallback_max_files) [
        | none ↦ raised "ValueError" days files
        | some limit ↦
            finish files (sweep_days disk now (at_least 1 age) days)
              (sweep_files disk now (at_least 1 age) (at_least 10 limit) files)
      ]
    ]

-- When the cleanup last ran, and the times of all its runs, the newest first.
pub record Schedule : Type 0 where
  pub last_cleanup_at : ℕ
  pub runs : List ℕ

-- `_maybe_cleanup_quality_artifacts`; the interval is that of the environment. What the cleanup raises is
-- printed.
unfoldable pub maybe_cleanup : ℕ → ℕ → Schedule → Schedule
maybe_cleanup interval now s =
    if ltb now (s.last_cleanup_at + interval)
    then s
    else record { last_cleanup_at = now; runs = now ∷ s.runs }
