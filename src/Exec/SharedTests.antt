-- ===== src/Exec/SharedTests.antt =====
-- A program that has opened a file ends, and the shell that started it has a file open too.
use ece391_mp.Prelude.{ℕ, ◌≤◌, ◌≡◌, refl, arith, some, ◌==◌, if◌then◌else◌}
use ece391_mp.FileSys.{FileSys}
use ece391_mp.Files.{Pcb}
use ece391_mp.Files.Close.{AllKnown}
use ece391_mp.Exec.{Kernel, start_process, halt}
use ece391_mp.Exec.Tests.{tables, ports, no_files, kernel, kernel-Calls}
use ece391_mp.Exec.Back.{Calls, Works, pid_of, begun}
use ece391_mp.Exec.Shared.{halt_closes_parent}

-- The descriptor 2 is a file's.
abbrev one_file : Pcb
one_file = record no_files {
  fops = λ i. if i == 2 then 3 else 0;
  flags = λ i. if i == 2 then 1 else 0;
}

abbrev reading : Kernel
reading = record kernel { pcbs = λ q. one_file }

reading-Calls : Calls reading 0
reading-Calls = record {
  valid = kernel-Calls.valid;
  running = omega arith;
  displayed = refl;
  foremost = refl;
  bound = omega arith;
  alive = omega arith;
  number = refl;
  left = kernel-Calls.left;
  count = omega arith;
}

abbrev no_disk : FileSys
no_disk = record { filesys_addr = 8192; boot_block = λ o. 0; dr_index = 0 }

abbrev new : ℕ
new = pid_of tables 0x409000 no_disk 100 200 300 350 reading 0 reading-Calls

abbrev opened : Kernel
opened = record (begun tables 0x409000 no_disk 100 200 300 350 reading 0 reading-Calls) {
  pcbs = λ q. one_file;
}

opened-Works :
    Works 0 new (begun tables 0x409000 no_disk 100 200 300 350 reading 0 reading-Calls) opened
opened-Works = record { procs = refl; esp = refl; ebp = refl; number = refl; child = refl }

opened-AllKnown : (q : ℕ) → AllKnown tables one_file
opened-AllKnown q e n = ground arith

unmapped : opened.vidmap_called ≡ 0
unfolding start_process
unmapped = refl

halt_closes_parent_example :
    (k : Kernel) × (h : ℕ) × (halt tables 0x409000 ports 0 opened 7 ≡ some (k, h))
    × ((j : ℕ) → 2 ≤ j → j ≤ 7 → one_file.flags j ≡ 1 → (k.pcbs 0).flags j ≡ 0)
halt_closes_parent_example =
    halt_closes_parent tables 0x409000 ports no_disk 100 200 300 350 reading 0 reading-Calls opened
      opened-Works 0 7 opened-AllKnown unmapped
