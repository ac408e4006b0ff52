-- ===== src/Exec/VerdictTests.antt =====
-- The file "p" for is_executable: a program, and 4 bytes that are 0.
use ece391_mp.Prelude.{◌≡◌, refl, arith, [], ◌∷◌, some}
use ece391_mp.Prelude.Memory.{Memory}
use ece391_mp.FileSys.{read_dentry_by_name, dentry_at, dentry_loop, name_loop}
use ece391_mp.Exec.Execute.{is_executable}
use ece391_mp.Exec.Verdict.{Names, is_executable_decides, is_executable_stale}
use ece391_mp.Exec.ProgramTests.{with_bytes, blank, disk, files, locals}

-- The memory with the name of the program for `is_executable`.
abbrev asked : Memory
asked = with_bytes 2200 (b'p' ∷ []) disk

asked-Names : Names files locals asked (dentry_at files 0)
unfolding read_dentry_by_name dentry_loop name_loop
asked-Names = record {
  found = refl;
  exists = omega arith;
  long = omega arith;
  small = omega arith;
  apart = λ pos lt. omega arith;
  bytes_ne = omega arith;
  magic_ne = omega arith;
  arrays = omega arith;
  elf_ne = omega arith;
  elf = record { e = refl; l = refl; f = refl; eos = refl };
  elf_bytes = omega arith;
  elf_magic = omega arith;
}

is_executable_decides_example : (m : Memory) × (is_executable files locals asked ≡ some (m, 1))
is_executable_decides_example =
    is_executable_decides files locals asked (dentry_at files 0) asked-Names
      (λ pos lt. ground arith)

-- The same name, but the file has 4 bytes that are 0, and the array still holds "ELF".
abbrev zeros : Memory
zeros = with_bytes 2200 (b'p' ∷ []) (
    with_bytes 2510 (b'E' ∷ b'L' ∷ b'F' ∷ [])
      (with_bytes 2520 (b'E' ∷ b'L' ∷ b'F' ∷ []) (with_bytes 12288 (4 ∷ []) blank)))

zeros-Names : Names files locals zeros (dentry_at files 0)
unfolding read_dentry_by_name dentry_loop name_loop
zeros-Names = record {
  found = refl;
  exists = omega arith;
  long = omega arith;
  small = omega arith;
  apart = λ pos lt. omega arith;
  bytes_ne = omega arith;
  magic_ne = omega arith;
  arrays = omega arith;
  elf_ne = omega arith;
  elf = record { e = refl; l = refl; f = refl; eos = refl };
  elf_bytes = omega arith;
  elf_magic = omega arith;
}

is_executable_stale_example : (m : Memory) × (is_executable files locals zeros ≡ some (m, 1))
is_executable_stale_example =
    is_executable_stale files locals zeros (dentry_at files 0) zeros-Names refl
      (record { e = refl; l = refl; f = refl; eos = refl })
