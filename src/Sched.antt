-- ===== src/Sched.antt =====
-- student-distrib/sched.c: the scheduler, and switch_display_terminal of student-distrib/terminal.c.
pub mod Switch
pub mod Rounds
pub mod Display
pub mod Tests
use ece391_mp.Prelude.{ℕ, zero, suc, ◌+◌, ◌-◌, ◌*◌, ◌%◌, Bool, ltb, leb, ◌==◌, if◌then◌else◌}
use ece391_mp.Prelude.Words.{u32, minus_one, is_neg}
use ece391_mp.Prelude.Memory.{Memory, store}
use ece391_mp.CharUtil.{copy_loop}
use ece391_mp.Process.{Procs, get_term_vid_addr}
use ece391_mp.Paging.{Paging, map_v_p}
use ece391_mp.Screen.{Screen, update_cursor}

abbrev pub video : ℕ
video = 0xB8000

abbrev pub user_process_start_virtual : ℕ
user_process_start_virtual = 0x8000000

abbrev pub user_process_start_physical : ℕ
user_process_start_physical = 0x800000

abbrev pub user_process_size : ℕ
user_process_size = 0x400000

-- `esp` and `ebp` are the fields of the process control blocks, by process id, and `cpu_esp` and
-- `cpu_ebp` the registers; `last_screen_x` and `last_screen_y` are by terminal.
pub record Sched : Type 0 where
  pub procs : Procs
  pub paging : Paging
  pub screen : Screen
  pub esp : ℕ → ℕ
  pub ebp : ℕ → ℕ
  pub cpu_esp : ℕ
  pub cpu_ebp : ℕ
  pub tss_esp0 : ℕ
  pub last_screen_x : ℕ → ℕ
  pub last_screen_y : ℕ → ℕ

abbrev pub set_video_mem : ℕ → Sched → Sched
set_video_mem addr s = record s { screen = record s.screen { video_mem = addr } }

-- The physical page of a process.
abbrev pub physical_of : ℕ → ℕ
physical_of pid = u32 (user_process_start_physical + pid * user_process_size)

-- What is saved of the process that ran: for the process id -1 it goes where `find_PCB(-1)` points.
abbrev pub save_context : ℕ → Sched → Sched
save_context pid s = record s { esp = store s.esp pid s.cpu_esp; ebp = store s.ebp pid s.cpu_ebp }

abbrev pub load_context : ℕ → Sched → Sched
load_context pid s = record s { tss_esp0 = s.esp pid; cpu_esp = s.esp pid; cpu_ebp = s.ebp pid }

-- The addresses that the screen of a terminal goes to.
abbrev pub screen_of : ℕ → ℕ → ℕ
screen_of display term = if term == display then video else get_term_vid_addr term

module _ (table_addr : ℕ) where
  abbrev pub map_process : ℕ → Sched → Sched
  map_process pid s = record s {
    paging = (map_v_p table_addr user_process_start_virtual (physical_of pid) 1 1 1 s.paging).0;
  }

  -- The result is 1 when the terminal has no process. Behind the change of the registers the code
  -- continues on the other process's stack.
  unfoldable pub switch_running_terminal : ℕ → Sched → Sched × ℕ
  switch_running_terminal next_terminal s =
      let cur_p_id = s.procs.running_procs s.procs.running_terminal in
      let next_p_id = s.procs.running_procs next_terminal in
      let t = record s { procs = record s.procs { running_terminal = next_terminal } } in
      let u = map_process next_p_id (save_context cur_p_id t) in
      if is_neg next_p_id
      then (set_video_mem (screen_of t.procs.display_terminal next_terminal) t, 1)
      else (
        load_context next_p_id
            (set_video_mem (screen_of u.procs.display_terminal (u.procs.term_procs next_p_id)) u),
        0,
      )

  unfoldable pub cycle_task : Sched → Sched × ℕ
  cycle_task s = switch_running_terminal (u32 (s.procs.running_terminal + 1) % 3) s

  -- `for (; rounds > 0; x++)` over the terminals: `memcpy` is assembly that copies the 4096 bytes.
  unfoldable pub init_terminals : ℕ → ℕ → Sched → Sched
  init_terminals zero x s = s
  init_terminals (suc rounds) x s =
      let addr = get_term_vid_addr x in
      init_terminals rounds (x + 1) (record s {
        procs = record s.procs { running_procs = store s.procs.running_procs x minus_one };
        paging = (map_v_p table_addr addr addr 0 1 1 s.paging).0;
        screen = record s.screen { mem = copy_loop 4096 0 s.screen.mem video addr };
      })

  unfoldable pub no_term_procs : ℕ → ℕ → (ℕ → ℕ) → ℕ → ℕ
  no_term_procs zero x term_procs = term_procs
  no_term_procs (suc rounds) x term_procs =
      no_term_procs rounds (x + 1) (store term_procs x minus_one)

  unfoldable pub sched_init : Bool → Sched → Sched
  sched_init using_pit s = init_terminals 3 0 (record s {
    procs = record s.procs {
      display_terminal = 0;
      running_terminal = if using_pit then minus_one else 0;
      term_procs = no_term_procs 6 0 s.procs.term_procs;
    };
  })

-- The two calls of `memcpy`, and the place and the cursor of the terminal that is displayed next.
unfoldable pub switch_display_terminal : ℕ → Sched → Sched
switch_display_terminal term s =
    let cur_term = s.procs.display_terminal in
    let xs : ℕ → ℕ = store s.last_screen_x cur_term s.screen.x in
    let ys : ℕ → ℕ = store s.last_screen_y cur_term s.screen.y in
    let saved : Memory = copy_loop 4096 0 s.screen.mem video (get_term_vid_addr cur_term) in
    let shown : Memory = copy_loop 4096 0 saved (get_term_vid_addr term) video in
    record s {
      procs = record s.procs { display_terminal = term };
      last_screen_x = xs;
      last_screen_y = ys;
      screen =
          update_cursor (xs term) (ys term)
            (record s.screen { mem = shown; x = xs term; y = ys term });
    }
