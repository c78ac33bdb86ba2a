-- ===== src/Gate/Newest.antt =====
-- spark_jobs/quality_gate.py: the newest of the files, which the limit on their number leaves.
use coinwhale_data_pipeline.Prelude.{
  ℕ, ◌-◌, ◌≤◌, ◌≡◌, ap, sym, subst, Bool, List, ◌++◌, length, length-drop, length-take, take, drop,
  take-drop, take-Before, keep, keep-sort_by, sort_by-Pairwise, Pairwise, Pairwise-keep, Perm, All,
  arith,
}
use coinwhale_data_pipeline.Gate.Artifacts.{File, is_before, sort_files}

-- A file that is as old as another, or older.
abbrev pub IsOlder : File → File → Type 0
IsOlder f g = f.modified ≤ g.modified

sort_files-Pairwise : (fs : List File) → Pairwise IsOlder (sort_files fs)
unfolding sort_files is_before
sort_files-Pairwise fs =
    sort_by-Pairwise is_before IsOlder (λ f g first. ground arith) (λ f g later. ground arith)
      (λ f g h near far. omega (arith, near, far)) fs

-- Of the files, the newest are left: none of the others is newer than one of them, and there are others
-- only beyond the limit.
abbrev pub KeepsNewest : ℕ → List File → List File → Type 0
KeepsNewest limit files left =
    (old : List File) × Perm (old ++ left) files
    × All (λ f. All (IsOlder f) left) old
    × (length old ≡ length (old ++ left) - limit)
    × (length left ≤ limit)

pub newest :
    (limit : ℕ) (p : File → Bool) (fs : List File)
    → let young = keep p (sort_files fs) in
      KeepsNewest limit (keep p fs) (drop (length young - limit) young)
unfolding sort_files
newest limit p fs =
    let young = keep p (sort_files fs) in
    let n = length young - limit in
    let joined = take-drop n young in
    (
      take n young,
      subst (λ gs. Perm gs (keep p fs)) (sym joined) (keep-sort_by is_before p fs),
      take-Before IsOlder n young
          (Pairwise-keep IsOlder p (sort_files fs) (sort_files-Pairwise fs)),
      omega (arith, length-take n young, ap length joined),
      omega (arith, length-drop n young),
    )
