-- ===== src/Exec/ProgramTests.antt =====
-- The shell of terminal 0 executes the program "p" with the argument "x".
use ece391_mp.Prelude.{
  ℕ, ◌+◌, ◌<◌, ◌≡◌, inl, inr, eq_cases, refl, arith, List, [], ◌∷◌, Option, none, some,
}
use ece391_mp.Prelude.Memory.{Memory, store, put, bytes}
use ece391_mp.FileSys.{
  FileSys, read_dentry_by_name, dentry_loop, name_loop, read_data, read_loop,
  read_file_bytes_by_name,
}
use ece391_mp.ArgUtil.{
  get_argument_length, get_argument_count, measure_loop, get_argument, fetch_loop, scan_step,
  get_next_arguments, skip, tail_loop,
}
use ece391_mp.ArgUtil.Words.{after_first}
use ece391_mp.CharUtil.{
  string_length, length_loop, copy_string, copy_loop, substring, substring_loop, string_equal,
  equal_loop,
}
use ece391_mp.Process.{add_process, virt_loop, free_loop, find_pcb}
use ece391_mp.Screen.Bounds.{OnScreen}
use ece391_mp.Files.{Pcb}
use ece391_mp.Files.Close.{AllKnown}
use ece391_mp.Exec.{Kernel, first_files, start_process, halt}
use ece391_mp.Exec.Back.{Back, Calls, begun}
use ece391_mp.Exec.Return.{child, called, called-Calls, runs-begun, execute_halt}
use ece391_mp.Exec.Getargs.{caller, HoldsString, Room}
use ece391_mp.Exec.Tests.{tables, ports, kernel, kernel-Calls}
use ece391_mp.Exec.Execute.{
  Locals, Outcome, returned, entered, mem_of, set_mem, is_executable, execute_file, pass_arguments,
  execute, getargs,
}
use ece391_mp.Exec.Command.{Laid}
use ece391_mp.Exec.Run.{Ran, execute-Ran}
use ece391_mp.Exec.Passing.{goes_on, execute_getargs}

-- The bytes of a list from an address on, over a memory.
abbrev pub with_bytes : ℕ → List ℕ → Memory → Memory
with_bytes a [] m = m
with_bytes a (c ∷ cs) m = store (with_bytes (a + 1) cs m) a c

abbrev pub blank : Memory
blank a = 0

abbrev pub disk : Memory
disk = with_bytes 1000 (b'p' ∷ b' ' ∷ b'x' ∷ []) (
    with_bytes 2520 (b'E' ∷ b'L' ∷ b'F' ∷ [])
      (with_bytes 12288 (4 ∷ []) (with_bytes 16384 (0x7F ∷ b'E' ∷ b'L' ∷ b'F' ∷ []) blank)))

abbrev pub files : FileSys
files = record {
  filesys_addr = 8192;
  boot_block = with_bytes 0 (1 ∷ []) (with_bytes 4 (1 ∷ []) (with_bytes 64 (b'p' ∷ []) blank));
  dr_index = 0;
}

abbrev pub locals : Locals
locals = record {
  all_arguments_copy = 2000;
  executable = 2200;
  dentry = 2400;
  stdin = 2600;
  stdout = 2650;
  first_bytes = 2500;
  magic = 2510;
  elf = 2520;
}

abbrev caller_kernel : Kernel
caller_kernel = set_mem disk kernel

abbrev outcome : Option Outcome
outcome = execute tables 0x409000 0 10 files locals 1000 caller_kernel

abbrev eip_of : Option Outcome → ℕ
eip_of none = 0
eip_of (some (returned k c)) = 0
eip_of (some (entered k eip)) = eip

abbrev program : Kernel
program = goes_on caller_kernel outcome

enters : outcome ≡ some (entered program (eip_of outcome))
unfolding execute get_argument_length get_argument_count string_length length_loop copy_string
    copy_loop measure_loop get_argument fetch_loop is_executable read_file_bytes_by_name scan_step
    ece391_mp.ArgUtil.count_loop read_dentry_by_name dentry_loop name_loop read_data read_loop
    substring substring_loop string_equal equal_loop execute_file add_process
    ece391_mp.Process.count_loop virt_loop free_loop pass_arguments get_next_arguments skip
    tail_loop find_pcb start_process
enters = refl

program_facts :
    (caller program ≡ 2)
    × OnScreen program.sched.screen
    × (program.sched.screen.video_mem ≡ 0xB8000)
    × (program.vidmap_called ≡ 0)
unfolding execute get_argument_length get_argument_count string_length length_loop copy_string
    copy_loop measure_loop get_argument fetch_loop is_executable read_file_bytes_by_name scan_step
    ece391_mp.ArgUtil.count_loop read_dentry_by_name dentry_loop name_loop read_data read_loop
    substring substring_loop string_equal equal_loop execute_file add_process
    ece391_mp.Process.count_loop virt_loop free_loop pass_arguments get_next_arguments skip
    tail_loop find_pcb start_process
program_facts = (refl, record { column = omega arith; row = omega arith }, refl, refl)

command-Laid : Laid locals disk 1000 3
unfolding find_pcb
command-Laid = record {
  source_ne = omega arith;
  command = record { body = λ i lt. ground arith; eos = refl };
  short = omega arith;
  copy_ne = omega arith;
  copy_room = omega arith;
  source_copy = omega arith;
  name_ne = omega arith;
  copy_name = omega arith;
  copy_bytes = omega arith;
  copy_magic = omega arith;
  copy_buffer = λ pid lt. omega arith;
  elf = refl;
  elf_copy = omega arith;
  elf_name = omega arith;
  elf_bytes = omega arith;
  elf_magic = omega arith;
}

execute-Ran_example : Ran tables 0x409000 0 10 files locals 1000 3 caller_kernel
execute-Ran_example =
    execute-Ran tables 0x409000 0 10 files locals 1000 3 caller_kernel command-Laid (omega arith)

program-Room : Room program 3000 1
unfolding find_pcb
program-Room =
    let (c, on, video, _) = program_facts in
    record {
      ne = omega arith;
      fits = omega arith;
      buffer = rw c (omega arith);
      screen = rw video (omega arith);
      on = on;
    }

execute_getargs_example :
    (k : Kernel) × (getargs 0 10 3000 2 program ≡ some (k, 0))
    × HoldsString (mem_of k) 3000 (after_first (bytes disk 1000 3))
execute_getargs_example =
    execute_getargs tables 0x409000 0 10 files locals 1000 3 caller_kernel command-Laid program
      (eip_of outcome) enters (omega arith) 3000 2 (omega arith) (omega arith) program-Room

first_files-AllKnown :
    (pid q : ℕ) (f : ℕ → Pcb) (m : Memory)
    → ((r e : ℕ) → (f r).flags e ≡ 0)
    → AllKnown tables (put f pid (first_files tables 0x409000 m 2600 2650 (f pid)) q)
first_files-AllKnown pid q f m unused e n = elim (eq_cases pid q) [
  | inl same ↦ inl (ground (arith, same, unused pid e))
  | inr other ↦ absurd (ground (arith, other, unused q e))
]

caller_kernel-Calls : Calls caller_kernel 0
caller_kernel-Calls = record {
  valid = kernel-Calls.valid;
  running = omega arith;
  displayed = refl;
  foremost = refl;
  bound = omega arith;
  alive = omega arith;
  number = refl;
  left = kernel-Calls.left;
  count = omega arith;
}

abbrev new : ℕ
new = child tables 0x409000 0 10 files locals 1000 3 caller_kernel 0 caller_kernel-Calls

abbrev handing : Memory → Kernel
handing m = called tables 0x409000 0 10 files locals 1000 3 caller_kernel 0 caller_kernel-Calls m

called_unused : (m : Memory) (r e : ℕ) → ((handing m).pcbs r).flags e ≡ 0
called_unused m r e = ground arith

begun-AllKnown :
    (m : Memory) (q : ℕ)
    → AllKnown tables (
        (begun tables 0x409000 files 2200 2400 2600 2650 (handing m) 0 (
            called-Calls tables 0x409000 0 10 files locals 1000 3 caller_kernel 0
              caller_kernel-Calls m)).pcbs
          q)
unfolding start_process
begun-AllKnown m q =
    first_files-AllKnown new q (handing m).pcbs
      (begun tables 0x409000 files 2200 2400 2600 2650 (handing m) 0 (
        called-Calls tables 0x409000 0 10 files locals 1000 3 caller_kernel 0 caller_kernel-Calls
          m)).sched.screen.mem
      (called_unused m)

program-AllKnown : (q : ℕ) → AllKnown tables (program.pcbs q)
program-AllKnown q =
    let (m, e) =
      runs-begun tables 0x409000 0 10 files locals 1000 3 caller_kernel 0 caller_kernel-Calls
        command-Laid program (eip_of outcome) enters
        (execute-Ran tables 0x409000 0 10 files locals 1000 3 caller_kernel command-Laid
          (omega arith)) in
    rw e (begun-AllKnown m q)

execute_halt_example :
    (k : Kernel) × (h : ℕ) × (halt tables 0x409000 ports 0 program 7 ≡ some (k, h))
    × Back 0x409000 0 new caller_kernel k
    × ((j : ℕ) → j < 8 → (k.pcbs new).flags j ≡ 0)
execute_halt_example =
    execute_halt tables 0x409000 0 10 files locals 1000 3 caller_kernel 0 caller_kernel-Calls
      command-Laid program (eip_of outcome) enters (omega arith) ports program 7
      (record { procs = refl; esp = refl; ebp = refl; number = refl; child = refl })
      program-AllKnown program_facts.3
