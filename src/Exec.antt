-- ===== src/Exec.antt =====
-- student-distrib/syscalls.c: the parts of execute and halt on the process table, the paging, the
-- registers and the control blocks of the processes, and vidmap.
pub mod Execute
pub mod Magic
pub mod Verdict
pub mod Command
pub mod Arguments
pub mod Run
pub mod Getargs
pub mod Passing
pub mod Return
pub mod Close
pub mod Back
pub mod Halt
pub mod Shared
pub mod Vidmap
pub mod Tests
pub mod ProgramTests
pub mod VerdictTests
pub mod SharedTests
use ece391_mp.Prelude.{
  ℕ, zero, suc, ◌+◌, ◌-◌, ◌*◌, Option, none, some, ltb, leb, ◌==◌, ◌&&◌, ◌||◌, if◌then◌else◌,
}
use ece391_mp.Prelude.Words.{u32, minus_one, is_neg}
use ece391_mp.Prelude.Memory.{Memory, store, put, load32}
use ece391_mp.Machine.{Machine}
use ece391_mp.Process.{Procs, add_process, delete_process}
use ece391_mp.Paging.{Paging, map_v_p}
use ece391_mp.FileSys.{FileSys, file_size, read_file_bytes_by_name}
use ece391_mp.Files.{Pcb, Tables, close}
use ece391_mp.Screen.{Screen, putc}
use ece391_mp.Sched.{Sched, video, user_process_start_virtual, map_process}

abbrev pub user_process_image_offset : ℕ
user_process_image_offset = 0x48000

abbrev pub elf_offset : ℕ
elf_offset = 24

abbrev pub user_vidmap : ℕ
user_vidmap = 0xF8000

-- The control blocks and their field `p_id` are by process id; the parents and the saved registers are in
-- the scheduler's state.
pub record Kernel : Type 0 where
  pub sched : Sched
  pub pcbs : ℕ → Pcb
  pub p_id : ℕ → ℕ
  pub vidmap_called : ℕ

-- `(KERNEL_MEMORY_ADDR + MB_4) - pid * PCB_SIZE - 4`
abbrev pub kernel_stack : ℕ → ℕ
kernel_stack pid = 0x800000 - pid * 0x2000 - 4

abbrev pub forget : ℕ → Pcb → Pcb
forget i p = record p { fops = store p.fops i 0; flags = store p.flags i 0 }

module _ (tables : Tables) (hw : Machine) where
  open hw use {State}

  -- The loop over the files of `child`: `close` works on the control block of `cur`, the process that
  -- the process table says is running by then.
  unfoldable pub close_files : ℕ → ℕ → ℕ → ℕ → (ℕ → Pcb) → State → Option ((ℕ → Pcb) × State)
  close_files zero i child cur pcbs h = some (pcbs, h)
  close_files (suc rounds) i child cur pcbs h =
      let next : (ℕ → Pcb) → ℕ → Pcb = λ q. put q child (forget i (q child)) in
      if (pcbs child).flags i == 1
      then elim (close tables hw i (pcbs cur) h) [
        | none ↦ none
        | some (p, h', _) ↦ close_files rounds (i + 1) child cur (next (put pcbs cur p)) h'
      ]
      else close_files rounds (i + 1) child cur (next pcbs) h

module _ (tables : Tables) (table_addr : ℕ) where
  open tables use {terminal_funcs}

  -- The first two entries are the terminal's and the others are unused, with the names that they had. Nothing
  -- writes the names of the local variables, whose addresses are `stdin` and `stdout`, so the copies take the
  -- bytes that lie there: 32 of them, behind the four words of an entry.
  abbrev pub first_files : Memory → ℕ → ℕ → Pcb → Pcb
  first_files m stdin stdout p = record p {
    fops = λ i. if ltb i 2 then terminal_funcs else if ltb i 8 then 0 else p.fops i;
    inode = λ i. if ltb i 8 then 0 else p.inode i;
    pos = λ i. if ltb i 8 then 0 else p.pos i;
    flags = λ i. if ltb i 2 then 1 else if ltb i 8 then 0 else p.flags i;
    file_name = λ i j.
        if ltb i 2 && ltb j 32
        then m ((if i == 0 then stdin else stdout) + 16 + j)
        else p.file_name i j;
  }

  -- `execute` from the mapping of the program's page to the jump to the program, with the address that
  -- it jumps to. `exe`, `dentry`, `stdin` and `stdout` are the addresses of the local variables. The memory is the one that
  -- is seen under the mapping.
  unfoldable pub start_process : FileSys → ℕ → ℕ → ℕ → ℕ → ℕ → ℕ → Kernel → Kernel × ℕ
  start_process fs exe dentry stdin stdout pid par k =
      let s = map_process table_addr pid k.sched in
      let image = user_process_start_virtual + user_process_image_offset in
      let loaded : Memory =
        (read_file_bytes_by_name fs s.screen.mem exe dentry image
          (file_size fs s.screen.mem exe dentry)).0 in
      let saved =
        if is_neg par
        then s
        else record s { esp = store s.esp par s.cpu_esp; ebp = store s.ebp par s.cpu_ebp } in
      (
        record k {
          sched = record saved {
            procs = record s.procs { parent = store s.procs.parent pid par };
            screen = record s.screen { mem = loaded };
            tss_esp0 = kernel_stack pid;
          };
          pcbs = put k.pcbs pid (first_files loaded stdin stdout (k.pcbs pid));
          p_id = store k.p_id pid pid;
        },
        load32 loaded (image + elf_offset),
      )

  -- `halt` on the process table, the paging and the registers, for a process with a parent.
  unfoldable pub resume_parent : ℕ → ℕ → Kernel → Kernel
  resume_parent child par k =
      let s = map_process table_addr (k.p_id par) k.sched in
      record k {
        sched = record s {
          tss_esp0 = kernel_stack (k.p_id par);
          cpu_esp = s.esp par;
          cpu_ebp = s.ebp par;
          procs = (delete_process (k.p_id child) s.procs).0;
        };
      }

  module _ (hw : Machine) where
    open hw use {State}

    -- `halt` from the loop over the files on; `u` is the state behind `resume_parent`.
    unfoldable pub end_process : ℕ → ℕ → ℕ → Kernel → State → Option (Kernel × State)
    end_process key_index vidmap_called child u h =
        let cur = u.sched.procs.running_procs u.sched.procs.running_terminal in
        elim (close_files tables hw 8 0 child cur u.pcbs h) [
          | none ↦ none
          | some (pcbs, h') ↦
              let paging =
                (if vidmap_called == 0
                  then u.sched.paging
                  else (map_v_p table_addr user_vidmap 0 0 1 1 u.sched.paging).0) in
              some (
                record u {
                  pcbs = pcbs;
                  sched = record u.sched {
                    paging = paging;
                    screen = putc key_index b'\n' u.sched.screen;
                  };
                },
                h',
              )
        ]

    -- `halt` of a process with a parent, behind which `execute` of the parent returns the status.
    unfoldable pub halt : ℕ → Kernel → State → Option (Kernel × State)
    halt key_index k h =
        let child = k.sched.procs.running_procs k.sched.procs.running_terminal in
        end_process key_index k.vidmap_called child
          (resume_parent child (k.sched.procs.parent child) k) h

-- The word at `screen_start` is written byte by byte. The page directory has nothing behind the program's page, so
-- a word that goes over its end faults, behind the mapping: `none` says so.
unfoldable pub vidmap : ℕ → ℕ → Kernel → Option (Kernel × ℕ)
vidmap table_addr screen_start k =
    let s = k.sched in
    let m =
      store
        (store (store (store s.screen.mem screen_start 0) (screen_start + 1) 0x80)
          (screen_start + 2) 0x0F)
        (screen_start + 3) 0 in
    if screen_start == 0
      || ltb screen_start (user_process_start_virtual + user_process_image_offset)
      || leb (user_process_start_virtual + 0x400000) screen_start
    then some (k, minus_one)
    else if ltb (user_process_start_virtual + 0x400000) (screen_start + 4)
    then none
    else some (
      record k {
        vidmap_called = 1;
        sched = record s {
          paging = (map_v_p table_addr user_vidmap video 0 1 1 s.paging).0;
          screen = record s.screen { mem = m };
        };
      },
      user_vidmap,
    )
