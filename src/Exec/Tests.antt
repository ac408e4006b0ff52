-- ===== src/Exec/Tests.antt =====
-- The shell of terminal 0 starts a program, which ends at once.
use ece391_mp.Prelude.{ℕ, ◌<◌, refl, arith}
use ece391_mp.Machine.{Machine}
use ece391_mp.Process.Count.{Valid, occ, at_least_one, reserved}
use ece391_mp.Files.{Pcb, Tables}
use ece391_mp.Sched.Tests.{shells}
use ece391_mp.Exec.{Kernel, vidmap}
use ece391_mp.Exec.Back.{Calls}
use ece391_mp.Exec.Vidmap.{ComesBack, vidmap-Shown}
use ece391_mp.Paging.Tests.{linked, linked-Leads}

abbrev pub tables : Tables
tables = record { terminal_funcs = 1; rtc_funcs = 2; fsys_funcs = 3; dir_funcs = 4 }

abbrev pub no_files : Pcb
no_files = record {
  fops = λ i. 0;
  inode = λ i. 0;
  pos = λ i. 0;
  flags = λ i. 0;
  file_name = λ i j. 0;
  arg_buffer = λ i. 0;
}

abbrev pub kernel : Kernel
kernel = record { sched = shells; pcbs = λ i. no_files; p_id = λ i. i; vidmap_called = 0 }

-- Ports that give 0.
abbrev pub ports : Machine
ports = record { State = ℕ; outb = λ v port h. h; inb = λ port h. (0, h) }

shells-Valid : Valid shells.procs
unfolding occ at_least_one
shells-Valid = record {
  free = λ i lt z. ground arith;
  taken = λ i lt n. ground arith;
  fits = omega arith;
}

shells_left : reserved shells.procs < 6
unfolding occ at_least_one
shells_left = omega arith

pub kernel-Calls : Calls kernel 0
kernel-Calls = record {
  valid = shells-Valid;
  running = omega arith;
  displayed = refl;
  foremost = refl;
  bound = omega arith;
  alive = omega arith;
  number = refl;
  left = shells_left;
  count = omega arith;
}

-- The kernel's table is at 0x409000.
abbrev paged : Kernel
paged = record kernel { sched = record shells { paging = linked } }

vidmap_example : ComesBack 0x409000 0x8048100 paged (vidmap 0x409000 0x8048100 paged)
vidmap_example =
    vidmap-Shown 0x409000 0x8048100 paged (omega arith) (omega arith) (omega arith) linked-Leads
