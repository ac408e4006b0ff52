-- ===== src/Files/Open.antt =====
-- Which entry `open` fills, and with what.
use ece391_mp.Prelude.{
  ℕ, zero, suc, ◌+◌, ◌-◌, ◌%◌, ◌≤◌, ◌<◌, ◌≡◌, ◌≢◌, inl, inr, refl, arith, some, eq_cases, ◌==◌, leb,
  ◌&&◌, if◌then◌else◌,
}
use ece391_mp.Prelude.Words.{minus_one}
use ece391_mp.Prelude.Memory.{Memory}
use ece391_mp.CharUtil.{string_length}
use ece391_mp.FileSys.{FileSys, Dentry, file_type, inode_index, read_dentry_by_name}
use ece391_mp.Files.{Tables, Pcb, free_fd, put_name, open_entry, open_file}

-- The table of operations for a type of file.
unfoldable pub funcs_of : Tables → ℕ → ℕ
funcs_of tables type =
    if type == 0
    then tables.rtc_funcs
    else if type == 1
    then tables.dir_funcs
    else tables.fsys_funcs

-- The entry `fd` was the lowest unused one, and `q` is `p` with the file opened there; the other
-- entries, with their names, and the argument buffer are as they were.
pub record Opened (tables : Tables) (d : Dentry) (p q : Pcb) (fd : ℕ) : Type 0 where
  pub low : 2 ≤ fd
  pub high : fd ≤ 7
  pub unused : p.flags fd ≡ 0
  pub lowest : (e : ℕ) → 2 ≤ e → e < fd → p.flags e ≢ 0
  pub in_use : q.flags fd ≡ 1
  pub at_start : q.pos fd ≡ 0
  pub funcs : q.fops fd ≡ funcs_of tables (file_type d)
  pub inode : file_type d ≡ 2 → q.inode fd ≡ inode_index d
  pub others :
      (e : ℕ)
      → e ≢ fd
      → (q.flags e ≡ p.flags e)
        × (q.fops e ≡ p.fops e)
        × (q.pos e ≡ p.pos e)
        × (q.inode e ≡ p.inode e)
  pub other_names : (e i : ℕ) → e ≢ fd → q.file_name e i ≡ p.file_name e i
  pub arguments : (i : ℕ) → q.arg_buffer i ≡ p.arg_buffer i

free_fd_bounds :
    (rounds index e : ℕ) (flags : ℕ → ℕ)
    → flags e ≡ 0
    → index ≤ e
    → e < index + rounds
    → index + rounds ≤ 8
    → let fd = free_fd rounds index flags in (index ≤ fd) × (fd ≤ e) × (flags fd ≡ 0)
unfolding free_fd
free_fd_bounds zero index e flags z lo hi fits = absurd (omega arith)
free_fd_bounds (suc r) index e flags z lo hi fits = elim (eq_cases index e) [
  | inl same ↦ ground arith
  | inr ne ↦ ground (arith, free_fd_bounds r (index + 1) e flags z)
]

free_fd_lowest :
    (rounds index e : ℕ) (flags : ℕ → ℕ)
    → index ≤ e
    → e < index + rounds
    → e < free_fd rounds index flags
    → flags e ≢ 0
unfolding free_fd
free_fd_lowest zero index e flags lo hi lt = absurd (omega arith)
free_fd_lowest (suc r) index e flags lo hi lt = ground (arith, free_fd_lowest r (index + 1) e flags)

pub free_fd_none :
    (rounds index : ℕ) (flags : ℕ → ℕ)
    → ((e : ℕ) → index ≤ e → e < index + rounds → flags e ≢ 0)
    → free_fd rounds index flags ≡ minus_one
unfolding free_fd
free_fd_none zero index flags full = refl
free_fd_none (suc r) index flags full = ground (
  arith,
  full index,
  free_fd_none r (index + 1) flags (λ e lo hi. full e (omega arith) (omega arith)),
)

module _ (tables : Tables) (fs : FileSys) (m : Memory) (filename dentry : ℕ) (p : Pcb) where
  -- With no unused entry `open` returns -1 and changes nothing.
  pub open_file_full :
      ((e : ℕ) → 2 ≤ e → e < 8 → p.flags e ≢ 0)
      → open_file tables fs m filename dentry p ≡ (p, minus_one)
  unfolding open_file
  open_file_full full = ground (arith, free_fd_none 6 2 p.flags full)

  module _ (d : Dentry) (e n : ℕ) (found : read_dentry_by_name fs m filename dentry ≡ some d)
      (f≢ : filename ≢ 0) (known : file_type d < 3) (length : string_length m filename ≡ n)
      (lo : 2 ≤ e) (hi : e < 8) (unused : p.flags e ≡ 0) where
    abbrev fd : ℕ
    fd = free_fd 6 2 p.flags

    -- The bytes of the name's field: the name and its NUL for a regular file, and else what is there.
    abbrev pub named : Pcb → ℕ → ℕ → ℕ
    named p fd i = if file_type d == 2 && leb i n then m (filename + i) else p.file_name fd i

    opens : n ≤ 32 → open_file tables fs m filename dentry p ≡ open_entry tables m filename d fd p
    unfolding open_file
    opens short = ground (arith, free_fd_bounds 6 2 e p.flags unused)

    -- With an unused entry behind the terminal's two, open opens a file that read_dentry_by_name finds,
    -- of a known type and with a name that is not NULL and shorter than 32 bytes, in the lowest one, in
    -- use, with the operations of its type, at position 0 and with the inode of a regular file, and
    -- returns its index; the name and its NUL are put there for a regular file and nothing for the
    -- others; the other entries, with their names, and the argument buffer do not change.
    pub open_file-Opened :
        n < 32
        → let (q, fd) = open_file tables fs m filename dentry p in
          Opened tables d p q fd × ((i : ℕ) → q.file_name fd i ≡ named p fd i)
    unfolding open_entry put_name funcs_of
    open_file-Opened short =
        let b = free_fd_bounds 6 2 e p.flags unused lo hi (omega arith) in
        rw (opens (omega arith)) (
          record {
            low = ground arith;
            high = ground arith;
            unused = ground arith;
            lowest = λ k l h. ground (arith, free_fd_lowest 6 2 k p.flags l);
            in_use = ground arith;
            at_start = ground arith;
            funcs = ground arith;
            inode = λ regular. ground arith;
            others = λ k ne. ground arith;
            other_names = λ k i ne. ground arith;
            arguments = λ i. ground arith;
          },
          λ i. ground arith,
        )

    -- A regular file whose name has 32 bytes is opened too, when the lowest unused entry is not the last:
    -- the result is its index, and it is in use with the operations of files, the file's inode and the 32
    -- bytes of the name; the NUL of the name clears the low byte of the pointer to the operations of the
    -- next entry, which is in use as before.
    pub open_file_long_name :
        n ≡ 32
        → file_type d ≡ 2
        → fd < 7
        → let (q, k) = open_file tables fs m filename dentry p in
          (k ≡ fd)
          × (q.flags fd ≡ 1)
          × (q.fops fd ≡ tables.fsys_funcs)
          × (q.inode fd ≡ inode_index d)
          × ((i : ℕ) → i < 32 → q.file_name fd i ≡ m (filename + i))
          × (q.flags (fd + 1) ≡ p.flags (fd + 1))
          × (q.fops (fd + 1) ≡ p.fops (fd + 1) - p.fops (fd + 1) % 256)
    unfolding open_entry put_name
    open_file_long_name long regular inside = rw (opens (omega arith)) (
      ground arith,
      ground arith,
      ground arith,
      ground arith,
      λ i lt. ground arith,
      ground arith,
      ground arith,
    )
