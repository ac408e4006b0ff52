-- ===== src/FileSys/ByName.antt =====
-- `read_dentry_by_name` finds the first entry with the name.
use ece391_mp.Prelude.{
  ℕ, zero, suc, ◌+◌, ◌≤◌, ◌<◌, ◌≡◌, ◌≢◌, inl, inr, refl, arith, eq_cases, lt_cases, ==_ne, Option,
  none, some,
}
use ece391_mp.Prelude.Memory.{Memory}
use ece391_mp.FileSys.{
  FileSys, Dentry, inode_count, dentry_count, dentry_at, dentry_loop, read_dentry_by_name,
  read_dentry_by_index,
}
use ece391_mp.FileSys.Names.{Matches, name_loop_decides}

-- The entry is the first of the entries from `lo` up to `hi` that has the name, or none of them has it.
abbrev pub FirstMatch : FileSys → Memory → ℕ → ℕ → ℕ → Option Dentry → Type 0
FirstMatch fs m fname lo hi none = (i : ℕ) → lo ≤ i → i < hi → ¬ Matches (dentry_at fs i) m fname
FirstMatch fs m fname lo hi (some d) =
    (i : ℕ) × (lo ≤ i)
    × (i < hi)
    × (d ≡ dentry_at fs i)
    × Matches (dentry_at fs i) m fname
    × ((k : ℕ) → lo ≤ k → k < i → ¬ Matches (dentry_at fs k) m fname)

module _ (fs : FileSys) (m : Memory) (fname : ℕ) where
  skip_entry :
      (lo hi : ℕ) (o : Option Dentry)
      → ¬ Matches (dentry_at fs lo) m fname
      → FirstMatch fs m fname (lo + 1) hi o
      → FirstMatch fs m fname lo hi o
  skip_entry lo hi none no_match h =
      λ i le lt. elim (eq_cases lo i) [ inl e ↦ rw (← e) no_match | inr ne ↦ h i (omega arith) lt ]
  skip_entry lo hi (some d) no_match (i, le, lt, e, match, before) = (
    i,
    omega arith,
    lt,
    e,
    match,
    λ k p q. elim (eq_cases lo k) [ inl e ↦ rw (← e) no_match | inr ne ↦ before k (omega arith) q ],
  )

  dentry_loop_lem :
      (r i hi : ℕ) → i + r ≡ hi → FirstMatch fs m fname i hi (dentry_loop r i fs m fname)
  unfolding dentry_loop
  dentry_loop_lem zero i hi e = λ k le lt. absurd (omega arith)
  dentry_loop_lem (suc r) i hi e = elim (name_loop_decides (dentry_at fs i) m fname) [
    | inl (hit, match) ↦
        rw hit (i, omega arith, omega arith, refl, match, λ k p q. absurd (omega arith))
    | inr (miss, differs) ↦
        rw miss (skip_entry i hi _ differs (dentry_loop_lem r (i + 1) hi (omega arith)))
  ]

  module _ (dentry : ℕ) (f≢ : fname ≢ 0) (d≢ : dentry ≢ 0) (nonempty : m fname ≢ 0) where
    -- For a name that is not empty the result is the first of the `inode_count` entries that has the
    -- name, and -1 exactly when none of them has it.
    pub read_dentry_by_name-FirstMatch :
        FirstMatch fs m fname 0 (inode_count fs) (read_dentry_by_name fs m fname dentry)
    unfolding read_dentry_by_name
    read_dentry_by_name-FirstMatch =
        rw (==_ne fname 0 f≢, ==_ne dentry 0 d≢, ==_ne (m fname) 0 nonempty)
          (dentry_loop_lem (inode_count fs) 0 (inode_count fs) (omega arith))

    found_at :
        (i : ℕ) (o : Option Dentry)
        → i < inode_count fs
        → Matches (dentry_at fs i) m fname
        → ((k : ℕ) → k < i → ¬ Matches (dentry_at fs k) m fname)
        → FirstMatch fs m fname 0 (inode_count fs) o
        → o ≡ some (dentry_at fs i)
    found_at i none lt match before h = absurd (h i (omega arith) lt match)
    found_at i (some d) lt match before (k, le, lt', e, match', before') = elim (lt_cases i k) [
      | inl l ↦ absurd (before' i (omega arith) l match)
      | inr g ↦ elim (eq_cases i k) [
        | inl same ↦ rw (e, same)
        | inr ne ↦ absurd (before k (omega arith) match')
      ]
    ]

    -- The first entry with the name is also found when it stands behind the `dentry_count` entries of
    -- the directory, where `read_dentry_by_index` refuses it.
    pub read_dentry_by_name_past_count :
        (i : ℕ)
        → dentry_count fs ≤ i
        → i < inode_count fs
        → Matches (dentry_at fs i) m fname
        → ((k : ℕ) → k < i → ¬ Matches (dentry_at fs k) m fname)
        → (read_dentry_by_name fs m fname dentry ≡ some (dentry_at fs i))
          × (read_dentry_by_index fs i dentry ≡ none)
    unfolding read_dentry_by_index
    read_dentry_by_name_past_count i past lt match before =
        (found_at i _ lt match before read_dentry_by_name-FirstMatch, ground arith)
