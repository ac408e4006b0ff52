-- ===== src/Exec/Magic.antt =====
-- is_executable of student-distrib/utils/file_util.c: which files it takes, and what it writes.
use ece391_mp.Prelude.{
  ℕ, zero, suc, ◌+◌, ◌-◌, ◌≤◌, ◌<◌, ◌≡◌, ◌≢◌, ◌⊎◌, inl, inr, refl, arith, Bool, Option, none, some,
  ◌&&◌, eq_cases, Bool-cases, ◌||◌, ◌==◌, if◌then◌else◌,
}
use ece391_mp.Prelude.Words.{minus_one, u32, is_neg}
use ece391_mp.Prelude.Memory.{Memory, store}
use ece391_mp.CharUtil.{substring, string_equal, equal_loop}
use ece391_mp.CharUtil.Loops.{Outside, substring_loop_frame}
use ece391_mp.FileSys.{
  FileSys, Dentry, inode_index, data_addr, read_loop, read_data, read_dentry_by_name,
  read_file_bytes_by_name,
}
use ece391_mp.Exec.Execute.{Locals, is_executable}

read_loop_frame :
    (r n : ℕ) (fs : FileSys) (image m : Memory) (i offset buffer a : ℕ)
    → Outside a (buffer + n) r
    → (read_loop r n fs image m i offset buffer).0 a ≡ m a
unfolding read_loop
read_loop_frame zero n fs image m i offset buffer a out = refl
read_loop_frame (suc r) n fs image m i offset buffer a out = ground (
  arith,
  read_loop_frame r (n + 1) fs image
      (store m (buffer + n) (m (data_addr fs image i (u32 (n + offset))))) i offset buffer a,
)

read_data_frame :
    (fs : FileSys) (m : Memory) (i offset buf length a : ℕ)
    → Outside a buf length
    → (read_data fs m i offset buf length).0 a ≡ m a
unfolding read_data
read_data_frame fs m i offset buf length a out =
    ground (arith, read_loop_frame length 0 fs m m i offset buf a)

found_frame :
    (fs : FileSys) (m : Memory) (fname dentry buf length a : ℕ) (o : Option Dentry)
    → read_dentry_by_name fs m fname dentry ≡ o
    → Outside a buf length
    → (read_file_bytes_by_name fs m fname dentry buf length).0 a ≡ m a
unfolding read_file_bytes_by_name
found_frame fs m fname dentry buf length a none e out = rw (read_file_bytes_by_name, e) refl
found_frame fs m fname dentry buf length a (some d) e out =
    rw (read_file_bytes_by_name, e) (read_data_frame fs m (inode_index d) 0 buf length a out)

-- A read by name writes inside its buffer only.
pub read_file_bytes_by_name_frame :
    (fs : FileSys) (m : Memory) (fname dentry buf length a : ℕ)
    → Outside a buf length
    → (read_file_bytes_by_name fs m fname dentry buf length).0 a ≡ m a
read_file_bytes_by_name_frame fs m fname dentry buf length a out =
    found_frame fs m fname dentry buf length a (read_dentry_by_name fs m fname dentry) refl out

substring_frame :
    (m : Memory) (s buf start end a : ℕ)
    → Outside a buf (suc (end - start))
    → (substring m s buf start end).0 a ≡ m a
unfolding substring
substring_frame m s buf start end a out =
    ground (arith, substring_loop_frame (end - start) start start m s buf a)

equal_loop_total :
    (fuel i j : ℕ) (m : Memory) (s1 s2 : ℕ)
    → i ≤ j
    → j < i + fuel
    → m (s2 + j) ≡ 0
    → (c : ℕ) × (equal_loop fuel m s1 s2 i ≡ some c)
unfolding equal_loop
equal_loop_total zero i j m s1 s2 lo hi z = absurd (omega arith)
equal_loop_total (suc fuel) i j m s1 s2 lo hi z = elim (eq_cases (m (s2 + i)) 0) [
  | inl end ↦ (if m (s1 + i) == 0 then 1 else 0, ground arith)
  | inr more ↦ elim (eq_cases (m (s1 + i)) (m (s2 + i))) [
    | inl same ↦
        let (c, e) = equal_loop_total fuel (i + 1) j m s1 s2 (ground arith) (omega arith) z in
        (c, ground arith)
    | inr differs ↦ (0, ground arith)
  ]
]

-- Against a string of 3 bytes or fewer the comparison ends within 4 rounds.
string_equal_total :
    (m : Memory) (s1 s2 : ℕ) → m (s2 + 3) ≡ 0 → (c : ℕ) × (string_equal 4 m s1 s2 ≡ some c)
unfolding string_equal
string_equal_total m s1 s2 z =
    let (c, e) = equal_loop_total 4 0 3 m s1 s2 (omega arith) (omega arith) z in
    (if s1 == 0 || s2 == 0 then minus_one else c, ground (arith, e))

-- The verdict `ok` over a memory that differs only in the two arrays of `is_executable`.
pub record Judged (l : Locals) (m m' : Memory) (ok : ℕ) : Type 0 where
  pub verdict : (ok ≡ 0) ⊎ (ok ≡ 1)
  pub frame : (a : ℕ) → Outside a l.first_bytes 5 → Outside a l.magic 4 → m' a ≡ m a

module _ (fs : FileSys) (l : Locals) (m : Memory) (elf : m (l.elf + 3) ≡ 0)
    (apart1 : Outside (l.elf + 3) l.first_bytes 5) (apart2 : Outside (l.elf + 3) l.magic 4) where
  read : Memory
  read =
      (read_file_bytes_by_name fs (store m (l.first_bytes + 4) 0) l.executable l.dentry
        l.first_bytes 4).0

  read_result : ℕ
  read_result =
      (read_file_bytes_by_name fs (store m (l.first_bytes + 4) 0) l.executable l.dentry
        l.first_bytes 4).1

  cut : Memory
  cut = (substring read l.first_bytes l.magic 1 4).0

  read_frame : (a : ℕ) → Outside a l.first_bytes 5 → read a ≡ m a
  unfolding read
  read_frame a out = ground (
    arith,
    read_file_bytes_by_name_frame fs (store m (l.first_bytes + 4) 0) l.executable l.dentry
        l.first_bytes 4 a,
  )

  cut_frame : (a : ℕ) → Outside a l.first_bytes 5 → Outside a l.magic 4 → cut a ≡ m a
  unfolding cut
  cut_frame a out1 out2 =
      ground (arith, read_frame a, substring_frame read l.first_bytes l.magic 1 4 a)

  -- With the literal's NUL outside its two arrays `is_executable` returns 0 or 1 and writes in the
  -- arrays only.
  pub is_executable-Judged :
      (m' : Memory) × (ok : ℕ) × (is_executable fs l m ≡ some (m', ok)) × Judged l m m' ok
  unfolding is_executable read cut read_result
  is_executable-Judged =
      let (c, e) = string_equal_total cut l.magic l.elf (ground (arith, cut_frame (l.elf + 3))) in
      elim (Bool-cases (is_neg read_result)) [
        | inl bad ↦ (
          read,
          0,
          ground (arith, e),
          record { verdict = inl refl; frame = λ a o1 o2. read_frame a o1 },
        )
        | inr good ↦ (
          cut,
          if c == 0 then 0 else 1,
          ground (arith, e),
          record { verdict = ground arith; frame = cut_frame },
        )
      ]

-- The bytes "ELF" and a NUL.
pub record IsElf (m : Memory) (a : ℕ) : Type 0 where
  pub e : m a ≡ b'E'
  pub l : m (a + 1) ≡ b'L'
  pub f : m (a + 2) ≡ b'F'
  pub eos : m (a + 3) ≡ 0

-- `is_elf a b c` says that the three bytes are "ELF".
abbrev pub is_elf : ℕ → ℕ → ℕ → Bool
is_elf a b c = a == b'E' && b == b'L' && c == b'F'

pub string_equal-elf :
    (m : Memory) (s elf : ℕ)
    → s ≢ 0
    → elf ≢ 0
    → IsElf m elf
    → m (s + 3) ≡ 0
    → string_equal 4 m s elf ≡ some (if is_elf (m s) (m (s + 1)) (m (s + 2)) then 1 else 0)
unfolding string_equal equal_loop
string_equal-elf m s elf s≢ elf≢ h z = ground (arith, h.e, h.l, h.f, h.eos)
