-- ===== src/Writer/Cleanup.antt =====
-- spark_jobs/ch_writer.py: `_cleanup_old_dlq_files`. A metadata file stands for itself and the file
-- of rows beside it.
use coinwhale_data_pipeline.Prelude.{
  ℕ, zero, suc, ◌+◌, ◌-◌, ◌*◌, ◌≤◌, ◌<◌, ◌≡◌, refl, ap, sym, subst, map, drop, Bool, true, not,
  ◌&&◌, List, [], ◌∷◌, length, length-drop, if◌then◌else◌, sort_by, insert_by, sort_by-perm,
  sort_by-All, sort_by-Pairwise, take-drop, take-Before, length-take, All, ◌++◌, Perm, Pairwise,
  take, ltb, leb, ◌==◌, arith,
}
use coinwhale_data_pipeline.Writer.{Settings, DlqFile}

-- What the removal of a file meets: both files go, only the metadata file does, or none.
pub data Unlink : Type 0 where
  unlinked data_left refused : Unlink

-- A file of the listing, which is there or not any more.
pub data Entry : Type 0 where
  present : DlqFile → Entry
  gone : Entry

-- the key of `sorted(…, key=mtime)`, which is stable
is_before : DlqFile → DlqFile → Bool
is_before f g = leb f.modified g.modified

unfoldable pub sort_files : List DlqFile → List DlqFile
unfolding is_before
sort_files = sort_by is_before

-- `mtime < now - max_age`
abbrev pub is_old : Settings → ℕ → DlqFile → Bool
is_old s now f = ltb (f.modified + s.dlq_max_age_hours * 3600) now

-- The loop by age, with the number of removals that are counted.
unfoldable pub by_age : Settings → (DlqFile → Unlink) → ℕ → List DlqFile → List Entry × ℕ
by_age s unlink now [] = ([], 0)
by_age s unlink now (f ∷ fs) =
    let rest = by_age s unlink now fs in
    if is_old s now f
    then (elim (unlink f) [
      | unlinked ↦ (gone ∷ rest.0, rest.1 + 1)
      | data_left ↦ (gone ∷ rest.0, rest.1)
      | refused ↦ (present f ∷ rest.0, rest.1)
    ])
    else (present f ∷ rest.0, rest.1)

-- The loop over the first `n` files; the removal of a file that is gone raises.
unfoldable pub by_number : (DlqFile → Unlink) → ℕ → List Entry → List Entry × ℕ
by_number unlink zero entries = (entries, 0)
by_number unlink (suc n) [] = ([], 0)
by_number unlink (suc n) (gone ∷ rest) =
    let later = by_number unlink n rest in (gone ∷ later.0, later.1)
by_number unlink (suc n) (present f ∷ rest) =
    let later = by_number unlink n rest in
    elim (unlink f) [
      | unlinked ↦ (gone ∷ later.0, later.1 + 1)
      | data_left ↦ (gone ∷ later.0, later.1)
      | refused ↦ (present f ∷ later.0, later.1)
    ]

unfoldable pub left : List Entry → List DlqFile
left [] = []
left (present f ∷ rest) = f ∷ left rest
left (gone ∷ rest) = left rest

-- The files that remain, and the number that is returned.
unfoldable pub cleanup_old_dlq_files :
    Settings → (DlqFile → Unlink) → ℕ → List DlqFile → List DlqFile × ℕ
cleanup_old_dlq_files s unlink now files =
    let json_files = sort_files files in
    let aged = by_age s unlink now json_files in
    let counted = by_number unlink (length json_files - s.dlq_max_files + 1) aged.0 in
    if not s.dlq_cleanup_enabled
    then (files, 0)
    else if aged.1 == 0 && leb s.dlq_max_files (length json_files)
    then (left counted.0, counted.1)
    else (left aged.0, aged.1)

-- How many entries stand for files that are there.
length-left-by_age :
    (s : Settings) (unlink : DlqFile → Unlink) (now : ℕ) (fs : List DlqFile)
    → ((f : DlqFile) → unlink f ≡ unlinked)
    → length (left (by_age s unlink now fs).0) + (by_age s unlink now fs).1 ≡ length fs
unfolding by_age left
length-left-by_age s unlink now [] works = omega arith
length-left-by_age s unlink now (f ∷ fs) works =
    let rest = length-left-by_age s unlink now fs works in let here = works f in ground arith

by_age_none :
    (s : Settings) (unlink : DlqFile → Unlink) (now : ℕ) (fs : List DlqFile)
    → All (λ (f : DlqFile). now ≤ f.modified + s.dlq_max_age_hours * 3600) fs
    → by_age s unlink now fs ≡ (map present fs, 0)
unfolding by_age
by_age_none s unlink now [] young = refl
by_age_none s unlink now (f ∷ fs) young =
    let rest = by_age_none s unlink now fs young.1 in let here = young.0 in ground arith

left-by_number :
    (unlink : DlqFile → Unlink) (n : ℕ) (fs : List DlqFile)
    → ((f : DlqFile) → unlink f ≡ unlinked)
    → left (by_number unlink n (map present fs)).0 ≡ drop n fs
unfolding by_number left
left-by_number unlink zero [] works = refl
left-by_number unlink zero (f ∷ fs) works = ap (λ xs. f ∷ xs) (left-by_number unlink zero fs works)
left-by_number unlink (suc n) [] works = refl
left-by_number unlink (suc n) (f ∷ fs) works =
    let rest = left-by_number unlink n fs works in let here = works f in ground arith

-- A file that is as old as another, or older.
abbrev pub IsOlder : DlqFile → DlqFile → Type 0
IsOlder f g = f.modified ≤ g.modified

sort_files-Pairwise : (fs : List DlqFile) → Pairwise IsOlder (sort_files fs)
unfolding sort_files is_before
sort_files-Pairwise fs =
    sort_by-Pairwise is_before IsOlder (λ f g first. ground arith) (λ f g later. ground arith)
      (λ f g h near far. omega (arith, near, far)) fs

sort_files-perm : (fs : List DlqFile) → Perm (sort_files fs) fs
unfolding sort_files
sort_files-perm fs = sort_by-perm is_before fs

cleanup-drop :
    (s : Settings) (unlink : DlqFile → Unlink) (now : ℕ) (files : List DlqFile)
    → s.dlq_cleanup_enabled ≡ true
    → 1 ≤ s.dlq_max_files
    → All (λ (f : DlqFile). now ≤ f.modified + s.dlq_max_age_hours * 3600) files
    → ((f : DlqFile) → unlink f ≡ unlinked)
    → length (sort_files files) ≡ length files
    → (cleanup_old_dlq_files s unlink now files).0
      ≡ drop (length files + 1 - s.dlq_max_files) (sort_files files)
unfolding cleanup_old_dlq_files by_number sort_files
cleanup-drop s unlink now files on limit young works sorted =
    let aged = by_age_none s unlink now (sort_files files) (sort_by-All is_before _ files young) in
    let none_dropped = left-by_number unlink 0 (sort_files files) works in
    let oldest_dropped =
      left-by_number unlink (length (sort_files files) - s.dlq_max_files + 1) (sort_files files)
        works in
    grind arith

length-insert_by :
    (f : DlqFile) (fs : List DlqFile) → length (insert_by is_before f fs) ≡ length fs + 1
unfolding insert_by
length-insert_by f [] = omega arith
length-insert_by f (g ∷ fs) = let rest = length-insert_by f fs in ground arith

length-sort_files : (fs : List DlqFile) → length (sort_files fs) ≡ length fs
unfolding sort_files sort_by
length-sort_files [] = omega arith
length-sort_files (f ∷ fs) =
    let rest = length-sort_files fs in
    let here = length-insert_by f (sort_by is_before fs) in ground arith

-- Removed and remaining files: they are the files that there were, each removed one is as old as each
-- remaining one or older, as many are removed as it takes, and fewer than the limit remain.
abbrev pub KeepsNewest : ℕ → List DlqFile → List DlqFile → Type 0
KeepsNewest limit files remaining =
    (removed : List DlqFile) × Perm (removed ++ remaining) files
    × All (λ f. All (IsOlder f) remaining) removed
    × (length removed ≡ length files + 1 - limit)
    × (length remaining < limit)

-- With the cleanup on, a limit of at least one, no file older than the age and removals that all work, a
-- cleanup removes just the oldest files, so that fewer than the limit remain: the removed files and
-- the remaining ones are the files that there were, none of the removed is newer than one that remains,
-- and as many are removed as it takes.
pub cleanup_keeps_the_newest :
    (s : Settings) (unlink : DlqFile → Unlink) (now : ℕ) (files : List DlqFile)
    → s.dlq_cleanup_enabled ≡ true
    → 1 ≤ s.dlq_max_files
    → All (λ (f : DlqFile). now ≤ f.modified + s.dlq_max_age_hours * 3600) files
    → ((f : DlqFile) → unlink f ≡ unlinked)
    → KeepsNewest s.dlq_max_files files (cleanup_old_dlq_files s unlink now files).0
cleanup_keeps_the_newest s unlink now files on limit young works =
    let sorted = sort_files files in
    let same = length-sort_files files in
    let n = length files + 1 - s.dlq_max_files in
    subst (KeepsNewest s.dlq_max_files files)
      (sym (cleanup-drop s unlink now files on limit young works same))
      (
        take n sorted,
        subst (λ fs. Perm fs files) (sym (take-drop n sorted)) (sort_files-perm files),
        take-Before IsOlder n sorted (sort_files-Pairwise files),
        omega (arith, length-take n sorted, same),
        omega (arith, length-drop n sorted, same),
      )
