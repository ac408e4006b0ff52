-- ===== src/Sched/Tests.antt =====
-- Shells with the process ids 0 and 1 in the terminals 0 and 1, and terminal 2 without a process.
use ece391_mp.Prelude.{ℕ, zero, suc, ◌+◌, ◌*◌, ◌<◌, ◌≡◌, refl, arith, ltb, if◌then◌else◌}
use ece391_mp.Prelude.Words.{minus_one}
use ece391_mp.Paging.{blank_entry}
use ece391_mp.Sched.{Sched, switch_running_terminal, cycle_task, switch_display_terminal}
use ece391_mp.Sched.Switch.{
  Foremost, Runs, switch_running_terminal-Runs, switch_running_terminal_back,
}
use ece391_mp.Sched.Rounds.{Schedule, cycle_task-Foremost, cycle_task-Runs}
use ece391_mp.Sched.Display.{switch_display_terminal_back}

abbrev pub shells : Sched
shells = record {
  procs = record {
    display_terminal = 0;
    running_terminal = 0;
    procs = λ i. if ltb i 2 then 1 else 0;
    term_procs = λ i. if ltb i 2 then i else minus_one;
    running_procs = λ t. if ltb t 2 then t else minus_one;
    parent = λ i. minus_one;
    process_count = 2;
  };
  paging = record { page_dir = λ i. blank_entry; page_table = λ i. blank_entry };
  screen = record { mem = λ a. a; video_mem = 0xB8000; x = 7; y = 3; cursor = 247; wrapped = 0 };
  esp = λ i. 0x7FE000 + i;
  ebp = λ i. 0x7FF000 + i;
  cpu_esp = 0x7FE800;
  cpu_ebp = 0x7FE900;
  tss_esp0 = 0x7FE000;
  last_screen_x = λ t. 10;
  last_screen_y = λ t. 4;
}

shells-Foremost : Foremost shells.procs
shells-Foremost t lt some = ground arith

switch_running_terminal_example : Runs 0x409000 1 (switch_running_terminal 0x409000 1 shells).0
switch_running_terminal_example =
    switch_running_terminal-Runs 0x409000 1 shells (omega arith) shells-Foremost

switch_running_terminal_back_example :
    let t = (switch_running_terminal 0x409000 1 shells).0 in
    let u = (switch_running_terminal 0x409000 0 (record t { cpu_esp = 11; cpu_ebp = 12 })).0 in
    (u.cpu_esp ≡ 0x7FE800) × (u.cpu_ebp ≡ 0x7FE900) × (u.esp 1 ≡ 11) × (u.ebp 1 ≡ 12)
switch_running_terminal_back_example =
    switch_running_terminal_back 0x409000 0 1 shells 11 12 refl (omega arith) (omega arith)
      (omega arith)

-- Nothing happens between the ticks.
unfoldable cycles : ℕ → Sched
cycles zero = shells
cycles (suc n) = (cycle_task 0x409000 (cycles n)).0

cycles-Foremost : (n : ℕ) → Foremost (cycles n).procs
unfolding cycles
cycles-Foremost zero = shells-Foremost
cycles-Foremost (suc n) = cycle_task-Foremost 0x409000 (cycles n) (cycles-Foremost n)

cycles-Schedule : Schedule 0x409000 cycles cycles
unfolding cycles
cycles-Schedule = record {
  start = omega arith;
  work = λ n. refl;
  front = cycles-Foremost;
  tick = λ n. refl;
}

cycle_task_example : (k : ℕ) × (k < 3) × Runs 0x409000 1 (cycles (suc (k + 4)))
cycle_task_example = cycle_task-Runs 0x409000 cycles cycles cycles-Schedule 4 1 (omega arith)

switch_display_terminal_example :
    let u = switch_display_terminal 0 (switch_display_terminal 2 shells) in
    ((i : ℕ) → i < 4096 → u.screen.mem (0xB8000 + i) ≡ shells.screen.mem (0xB8000 + i))
    × ((i : ℕ)
        → i < 4096
        → u.screen.mem (0xD0000 + 4096 * 2 + i) ≡ shells.screen.mem (0xD0000 + 4096 * 2 + i))
    × (u.screen.x ≡ shells.screen.x)
    × (u.screen.y ≡ shells.screen.y)
    × (u.procs.display_terminal ≡ shells.procs.display_terminal)
switch_display_terminal_example =
    switch_display_terminal_back 2 shells (omega arith) (omega arith) (omega arith)
