-- ===== src/Process.antt =====
-- The process table: add_process, delete_process and find_PCB of student-distrib/syscalls.c,
-- set_term_process, remove_term_process and get_term_vid_addr of student-distrib/terminal.c, and
-- proc_disp of student-distrib/sched.c.
pub mod Count
pub mod Add
pub mod Keep
pub mod Delete
pub mod Tests
use ece391_mp.Prelude.{
  ℕ, zero, suc, ◌+◌, ◌-◌, ◌*◌, Bool, ltb, leb, ◌==◌, ◌&&◌, ◌||◌, not, if◌then◌else◌,
}
use ece391_mp.Prelude.Words.{u32, sub32, minus_one, is_neg}
use ece391_mp.Prelude.Memory.{store}

abbrev pub max_devices : ℕ
max_devices = 6

abbrev pub max_terminal_num : ℕ
max_terminal_num = 3

-- An array is a function of the index. `parent` is the field `par_p_id` of the process control block
-- that `find_PCB` gives for a process id.
pub record Procs : Type 0 where
  pub display_terminal : ℕ
  pub running_terminal : ℕ
  pub procs : ℕ → ℕ
  pub term_procs : ℕ → ℕ
  pub running_procs : ℕ → ℕ
  pub parent : ℕ → ℕ
  pub process_count : ℕ

-- `MB_8 - KB_8 * (pid + 1)`
unfoldable pub find_pcb : ℕ → ℕ
find_pcb pid = sub32 0x800000 (0x2000 * (pid + 1))

unfoldable pub get_term_vid_addr : ℕ → ℕ
get_term_vid_addr term = if ltb 2 term then minus_one else u32 (0xD0000 + 4096 * term)

unfoldable pub set_term_process : ℕ → Procs → Procs
set_term_process pid s = record s { term_procs = store s.term_procs pid s.display_terminal }

unfoldable pub remove_term_process : ℕ → Procs → Procs
remove_term_process pid s = record s { term_procs = store s.term_procs pid minus_one }

unfoldable pub proc_disp : ℕ → Procs → ℕ
proc_disp proc s = if s.term_procs proc == s.display_terminal then 1 else 0

-- The loop of `add_process` that counts the processes of each terminal.
unfoldable pub count_loop : ℕ → ℕ → (ℕ → ℕ) → (ℕ → ℕ) → ℕ → ℕ
count_loop zero i term_procs num = num
count_loop (suc rounds) i term_procs num =
    let t = term_procs i in
    count_loop rounds (i + 1) term_procs (if is_neg t then num else store num t (num t + 1))

-- The loop that adds the counts up, where a terminal without a process counts as one with one.
unfoldable pub virt_loop : ℕ → ℕ → (ℕ → ℕ) → ℕ → ℕ
virt_loop zero i num virt = virt
virt_loop (suc rounds) i num virt =
    virt_loop rounds (i + 1) num (if num i == 0 then virt + 1 else virt + num i)

abbrev pub take_pid : ℕ → Procs → Procs
take_pid i s = record s {
  procs = store s.procs i 1;
  process_count = u32 (s.process_count + 1);
  running_procs = store s.running_procs s.running_terminal i;
  term_procs = store s.term_procs i s.running_terminal;
}

-- The loop that looks for a free process id.
unfoldable pub free_loop : ℕ → ℕ → Procs → Procs × ℕ
free_loop zero i s = (s, minus_one)
free_loop (suc rounds) i s =
    if s.procs i == 0 then (take_pid i s, i) else free_loop rounds (i + 1) s

unfoldable pub add_process : Procs → Procs × ℕ
add_process s =
    let num : ℕ → ℕ = count_loop max_devices 0 s.term_procs (λ _. 0) in
    let virt : ℕ = virt_loop max_terminal_num 0 num 0 in
    if not (num s.running_terminal == 0) && leb max_devices virt
    then (s, minus_one)
    else free_loop max_devices 0 s

unfoldable pub delete_process : ℕ → Procs → Procs × ℕ
delete_process pid s =
    let freed = remove_term_process pid (record s { procs = store s.procs pid 0 }) in
    if is_neg pid || leb max_devices pid then (s, minus_one) else (
      record freed {
        process_count = sub32 freed.process_count 1;
        running_procs = store freed.running_procs freed.display_terminal (freed.parent pid);
        term_procs = store freed.term_procs pid minus_one;
      },
      0,
    )
