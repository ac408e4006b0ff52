-- ===== src/Exec/Execute.antt =====
-- execute of student-distrib/syscalls.c as a whole, with is_executable of
-- student-distrib/utils/file_util.c, and getargs.
use ece391_mp.Prelude.{
  ℕ, ◌+◌, ◌-◌, Option, none, some, ltb, leb, ◌==◌, ◌&&◌, ◌||◌, List, [], ◌∷◌, if◌then◌else◌,
}
use ece391_mp.Prelude.Words.{u32, minus_one, is_neg}
use ece391_mp.Prelude.Memory.{Memory, store, put}
use ece391_mp.CharUtil.{string_length, string_equal, copy_string, substring}
use ece391_mp.ArgUtil.{get_argument_length, get_argument, get_next_arguments}
use ece391_mp.FileSys.{FileSys, read_file_bytes_by_name}
use ece391_mp.Files.{Tables}
use ece391_mp.Process.{add_process, find_pcb}
use ece391_mp.Printf.{printf}
use ece391_mp.Exec.{Kernel, start_process}

-- The addresses of the local arrays and file descriptors of `execute` and `is_executable`, and of the
-- literal "ELF".
pub record Locals : Type 0 where
  pub all_arguments_copy : ℕ
  pub executable : ℕ
  pub dentry : ℕ
  pub stdin : ℕ
  pub stdout : ℕ
  pub first_bytes : ℕ
  pub magic : ℕ
  pub elf : ℕ

abbrev pub set_mem : Memory → Kernel → Kernel
set_mem m k = record k { sched = record k.sched { screen = record k.sched.screen { mem = m } } }

abbrev pub mem_of : Kernel → Memory
mem_of k = k.sched.screen.mem

-- `data` and `buf` of `is_executable` are `first_bytes` and `magic`. The literal has 3 bytes, so the
-- comparison ends within 4 rounds.
unfoldable pub is_executable : FileSys → Locals → Memory → Option (Memory × ℕ)
is_executable fs l m =
    let (m1, r) =
      read_file_bytes_by_name fs (store m (l.first_bytes + 4) 0) l.executable l.dentry l.first_bytes
        4 in
    let m2 : Memory = (substring m1 l.first_bytes l.magic 1 4).0 in
    if is_neg r then some (m1, 0) else elim (string_equal 4 m2 l.magic l.elf) [
      | none ↦ none
      | some same ↦ some (m2, if same == 0 then 0 else 1)
    ]

-- The address of the argument buffer of a process: behind the 8 entries of 48 bytes.
abbrev pub arg_buffer_at : ℕ → ℕ
arg_buffer_at pid = find_pcb pid + 384

-- The memory `m` behind a write to the argument buffer of a process, which is in its control block too.
abbrev pub give_arguments : ℕ → Memory → Kernel → Kernel
give_arguments pid m k = record (set_mem m k) {
  pcbs = put k.pcbs pid (record (k.pcbs pid) {
    arg_buffer = λ i. if ltb i 128 then m (arg_buffer_at pid + i) else (k.pcbs pid).arg_buffer i;
  });
}

-- `get_next_arguments(all_arguments_copy, pcb->arg_buffer)`
unfoldable pub pass_arguments : ℕ → Locals → ℕ → Kernel → Option Kernel
pass_arguments fuel l pid k =
    elim (get_next_arguments fuel (mem_of k) l.all_arguments_copy (arg_buffer_at pid)) [
      | none ↦ none
      | some (m, _) ↦ some (give_arguments pid m k)
    ]

-- The call returns to the program that made it, or goes on with the new program at an address.
pub data Outcome : Type 0 where
  returned : Kernel → ℕ → Outcome
  entered : Kernel → ℕ → Outcome

-- "You can't do that!" and a line feed.
abbrev pub refusal : List ℕ
refusal =
    b'Y' ∷ b'o' ∷ b'u' ∷ b' ' ∷ b'c' ∷ b'a' ∷ b'n' ∷ b'\'' ∷ b't' ∷ b' ' ∷ b'd' ∷ b'o' ∷ b' ' ∷ b't'
    ∷ b'h' ∷ b'a' ∷ b't' ∷ b'!' ∷ b'\n' ∷ []

module _ (tables : Tables) (table_addr key_index fuel : ℕ) (fs : FileSys) (l : Locals) where
  -- `execute` behind its checks of the command.
  unfoldable pub execute_file : Kernel → Option Outcome
  execute_file k =
      let par = k.sched.procs.running_procs k.sched.procs.running_terminal in
      let (procs, pid) = add_process k.sched.procs in
      if is_neg pid
      then elim (printf key_index fuel refusal (λ i. 0) 0 k.sched.screen) [
        | none ↦ none
        | some (t, _) ↦ some (returned (record k { sched = record k.sched { screen = t } }) 0)
      ]
      else elim (pass_arguments fuel l pid
          (record k { sched = record k.sched { procs = procs } })) [
            | none ↦ none
            | some k' ↦
                let (started, eip) =
                  start_process tables table_addr fs l.executable l.dentry l.stdin l.stdout pid par
                    k' in
                some (entered started eip)
          ]

  -- The command is the string at `all_arguments`.
  unfoldable pub execute : ℕ → Kernel → Option Outcome
  execute all_arguments k =
      let m1 : Memory = (copy_string (mem_of k) all_arguments l.all_arguments_copy).0 in
      let command_length = get_argument_length m1 l.all_arguments_copy 0 in
      let (m2, r) =
        get_argument (store m1 (l.executable + command_length) 0) l.all_arguments_copy 0
          l.executable in
      if is_neg command_length
      then some (returned (set_mem m1 k) 0)
      else if is_neg r
      then some (returned (set_mem m2 k) 0)
      else elim (is_executable fs l m2) [
        | none ↦ none
        | some (m3, ok) ↦
            let go = execute_file (set_mem m3 k) in
            if ok == 0 then some (returned (set_mem m3 k) minus_one) else go
      ]

-- The memory with the argument buffer of a process where the control block is.
abbrev pub with_arguments : ℕ → Kernel → Memory
with_arguments pid k a =
    if leb (arg_buffer_at pid) a && ltb a (arg_buffer_at pid + 128)
    then (k.pcbs pid).arg_buffer (a - arg_buffer_at pid)
    else mem_of k a

-- "getargs buf: %s" and a line feed.
abbrev pub echo : List ℕ
echo =
    b'g' ∷ b'e' ∷ b't' ∷ b'a' ∷ b'r' ∷ b'g' ∷ b's' ∷ b' ' ∷ b'b' ∷ b'u' ∷ b'f' ∷ b':' ∷ b' ' ∷ b'%'
    ∷ b's' ∷ b'\n' ∷ []

unfoldable pub getargs : ℕ → ℕ → ℕ → ℕ → Kernel → Option (Kernel × ℕ)
getargs key_index fuel buf nbytes k =
    let pid = k.sched.procs.running_procs k.sched.procs.running_terminal in
    let m = with_arguments pid k in
    let n = string_length m (arg_buffer_at pid) in
    let copied : Memory = (copy_string m (arg_buffer_at pid) buf).0 in
    if ltb nbytes (u32 (n + 1)) || buf == 0 || n == 0
    then some (k, minus_one)
    else elim (printf key_index fuel echo (λ i. buf) 0 (record k.sched.screen { mem = copied })) [
      | none ↦ none
      | some (t, _) ↦ some (record k { sched = record k.sched { screen = t } }, 0)
    ]
