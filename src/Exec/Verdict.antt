-- ===== src/Exec/Verdict.antt =====
-- Which files is_executable of student-distrib/utils/file_util.c takes for programs.
use ece391_mp.Prelude.{
  ℕ, ◌+◌, ◌-◌, ◌≤◌, ◌<◌, ◌≡◌, ◌≢◌, inr, refl, ap, ◌∙◌, arith, min, Option, none, some, ◌==◌,
  if◌then◌else◌,
}
use ece391_mp.Prelude.Words.{minus_one, is_neg}
use ece391_mp.Prelude.Memory.{Memory, IsString, Disjoint, store}
use ece391_mp.CharUtil.{substring, string_equal}
use ece391_mp.CharUtil.Copy.{IsSubstring, substring_inside, substring_outside}
use ece391_mp.CharUtil.Loops.{Outside}
use ece391_mp.FileSys.{
  FileSys, Dentry, inode_count, inode_index, inode_length, data_addr, read_data,
  read_dentry_by_name, read_file_bytes_by_name,
}
use ece391_mp.FileSys.Data.{content, HasRead, read_data_reads}
use ece391_mp.Exec.Execute.{Locals, is_executable}
use ece391_mp.Exec.Magic.{IsElf, is_elf, string_equal-elf}

-- The memory that `is_executable` reads the file in.
abbrev pub armed : Locals → Memory → Memory
armed l m = store m (l.first_bytes + 4) 0

-- The name is that of the file `d` of 4 bytes or more, which does not meet the arrays of
-- `is_executable`; the literal "ELF" stands apart from them.
pub record Names (fs : FileSys) (l : Locals) (m : Memory) (d : Dentry) : Type 0 where
  pub found : read_dentry_by_name fs (armed l m) l.executable l.dentry ≡ some d
  pub exists : inode_index d < inode_count fs
  pub long : 4 ≤ inode_length fs (armed l m) (inode_index d)
  pub small : inode_length fs (armed l m) (inode_index d) < 4294967296
  pub apart :
      (pos : ℕ)
      → pos < inode_length fs (armed l m) (inode_index d)
      → Outside (data_addr fs (armed l m) (inode_index d) pos) l.first_bytes 4
  pub bytes_ne : l.first_bytes ≢ 0
  pub magic_ne : l.magic ≢ 0
  pub arrays : Disjoint l.first_bytes 5 l.magic 4
  pub elf_ne : l.elf ≢ 0
  pub elf : IsElf m l.elf
  pub elf_bytes : Disjoint l.elf 4 l.first_bytes 5
  pub elf_magic : Disjoint l.elf 4 l.magic 4

module _ (fs : FileSys) (l : Locals) (m : Memory) (d : Dentry) (h : Names fs l m d) where
  abbrev pub first : ℕ → ℕ
  first pos = content fs (armed l m) (inode_index d) pos

  seen : Memory
  seen = (read_data fs (armed l m) (inode_index d) 0 l.first_bytes 4).0

  four : min 4 (inode_length fs (armed l m) (inode_index d) - 0) ≡ 4
  four = ground (arith, h.long)

  has_read :
      HasRead fs (armed l m) seen (inode_index d) 0 l.first_bytes 4
      × ((read_data fs (armed l m) (inode_index d) 0 l.first_bytes 4).1 ≡ 4)
  unfolding seen
  has_read = rw four at (
      read_data_reads fs (armed l m) (inode_index d) 0 l.first_bytes 4 (omega arith) h.small h.apart
        h.exists h.bytes_ne)

  seen_at : (i : ℕ) → i < 4 → seen (l.first_bytes + i) ≡ first i
  seen_at i lt = has_read.0.written i lt ∙ ap (content fs (armed l m) (inode_index d)) (omega arith)

  seen_end : seen (l.first_bytes + 4) ≡ 0
  seen_end = ground (arith, has_read.0.frame (l.first_bytes + 4))

  seen-IsElf : IsElf seen l.elf
  seen-IsElf = record {
    e = ground (arith, has_read.0.frame l.elf, h.elf.e, h.elf_bytes);
    l = ground (arith, has_read.0.frame (l.elf + 1), h.elf.l, h.elf_bytes);
    f = ground (arith, has_read.0.frame (l.elf + 2), h.elf.f, h.elf_bytes);
    eos = ground (arith, has_read.0.frame (l.elf + 3), h.elf.eos, h.elf_bytes);
  }

  read-eq : read_file_bytes_by_name fs (armed l m) l.executable l.dentry l.first_bytes 4 ≡ (seen, 0)
  unfolding read_file_bytes_by_name seen
  read-eq = rw (read_file_bytes_by_name, h.found) (ground (arith, has_read.1))

  -- What `is_executable` makes of the result of the read.
  abbrev judge : Memory × ℕ → Option (Memory × ℕ)
  judge (m1, r) =
      let m2 : Memory = (substring m1 l.first_bytes l.magic 1 4).0 in
      if is_neg r then some (m1, 0) else elim (string_equal 4 m2 l.magic l.elf) [
        | none ↦ none
        | some same ↦ some (m2, if same == 0 then 0 else 1)
      ]

  judge_seen :
      (k : Memory)
      → (substring seen l.first_bytes l.magic 1 4).0 ≡ k
      → IsElf k l.elf
      → k (l.magic + 3) ≡ 0
      → is_executable fs l m
        ≡ some (k, if is_elf (k l.magic) (k (l.magic + 1)) (k (l.magic + 2)) then 1 else 0)
  unfolding is_executable
  judge_seen k e elf z =
      ap judge read-eq
      ∙ rw (e, string_equal-elf k l.magic l.elf h.magic_ne h.elf_ne elf z) (ground arith)

  module _ (full : (pos : ℕ) → pos < 4 → first pos ≢ 0) where
    seen-IsString : IsString seen l.first_bytes 4
    seen-IsString = record { body = λ i lt. ground (arith, seen_at i, full i); eos = seen_end }

    cut : Memory
    cut = (substring seen l.first_bytes l.magic 1 4).0

    middle : IsSubstring seen cut l.first_bytes l.magic 1 4
    unfolding cut
    middle =
        (substring_inside seen l.first_bytes l.magic 1 4 4 h.bytes_ne h.magic_ne seen-IsString
          (omega arith) (omega arith) (omega arith) (ground (arith, h.arrays))).1

    cut_at : (cut l.magic ≡ first 1) × (cut (l.magic + 1) ≡ first 2) × (cut (l.magic + 2) ≡ first 3)
    cut_at = (
      ground (arith, middle.same 0, seen_at 1),
      ground (arith, middle.same 1, seen_at 2),
      ground (arith, middle.same 2, seen_at 3),
    )

    cut-IsElf : IsElf cut l.elf
    cut-IsElf = record {
      e = ground (arith, middle.frame l.elf, seen-IsElf.e, h.elf_magic);
      l = ground (arith, middle.frame (l.elf + 1), seen-IsElf.l, h.elf_magic);
      f = ground (arith, middle.frame (l.elf + 2), seen-IsElf.f, h.elf_magic);
      eos = ground (arith, middle.frame (l.elf + 3), seen-IsElf.eos, h.elf_magic);
    }

    -- A file whose first four bytes are not 0 is taken exactly when its bytes 1 to 3 are "ELF",
    -- whatever its byte 0 is.
    pub is_executable_decides :
        (m' : Memory) × (is_executable fs l m
          ≡ some (m', if is_elf (first 1) (first 2) (first 3) then 1 else 0))
    unfolding cut
    is_executable_decides =
        (cut, rw (← cut_at.0, ← cut_at.1, ← cut_at.2) (judge_seen cut refl cut-IsElf middle.eos))

  kept : IsElf m l.magic → IsElf seen l.magic
  kept stale = record {
    e = ground (arith, has_read.0.frame l.magic, stale.e, h.arrays);
    l = ground (arith, has_read.0.frame (l.magic + 1), stale.l, h.arrays);
    f = ground (arith, has_read.0.frame (l.magic + 2), stale.f, h.arrays);
    eos = ground (arith, has_read.0.frame (l.magic + 3), stale.eos, h.arrays);
  }

  nothing : first 0 ≡ 0 → IsString seen l.first_bytes 0
  nothing z = record { body = λ i lt. absurd (omega arith); eos = ground (arith, seen_at 0, z) }

  -- A file whose first byte is 0 is taken for a program when the array that its magic bytes are to go to
  -- still holds "ELF" from a call before: the array is not written.
  pub is_executable_stale :
      first 0 ≡ 0 → IsElf m l.magic → (m' : Memory) × (is_executable fs l m ≡ some (m', 1))
  is_executable_stale z stale =
      let elf : IsElf seen l.magic = kept stale in
      let refused : substring seen l.first_bytes l.magic 1 4 ≡ (seen, minus_one) =
        substring_outside seen l.first_bytes l.magic 1 4 0 h.bytes_ne h.magic_ne (nothing z)
          (omega arith) (inr (omega arith)) in
      (
        seen,
        ground (
          arith,
          judge_seen seen (ap (λ r. r.0) refused) seen-IsElf elf.eos,
          elf.e,
          elf.l,
          elf.f,
        ),
      )
