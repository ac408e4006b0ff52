-- ===== src/Pit.antt =====
-- student-distrib/pit.c: the interval timer that drives the scheduler.
pub mod Init
use ece391_mp.Prelude.{ℕ, ◌*◌, ◌/◌, ◌%◌, List, [], ◌∷◌, ◌==◌, if◌then◌else◌}
use ece391_mp.Machine.{Machine}
use ece391_mp.Pic.{enable_irq}
use ece391_mp.Keyboard.{Call}
use ece391_mp.Sched.{Sched, cycle_task}

abbrev pub int_interval : ℕ
int_interval = 15

abbrev pub pit_max_freq : ℕ
pit_max_freq = 1193182

abbrev pub pit_ch0 : ℕ
pit_ch0 = 0x40

abbrev pub pit_cmd : ℕ
pit_cmd = 0x43

abbrev pub pit_mode3 : ℕ
pit_mode3 = 0x36

-- `MAX_FREQ * INT_INTERVAL / MS_IN_SEC`, in a `uint16_t`.
abbrev pub divisor : ℕ
divisor = pit_max_freq * int_interval / 1000 % 65536

unfoldable pub pit_init : (hw : Machine) → hw.State → hw.State
pit_init hw h =
    let low = hw.outb (divisor % 256) pit_ch0 (hw.outb pit_mode3 pit_cmd h) in
    enable_irq hw 0 (hw.outb (divisor / 256 % 256) pit_ch0 low)

-- The handler on the scheduler's state, with its calls of send_eoi and execute in order.
unfoldable pub pit_handler : ℕ → Sched → Sched × List Call
pit_handler table_addr s =
    let (t, vacant) = cycle_task table_addr s in
    (
      t,
      if vacant == 0
          then Call.send_eoi 0 ∷ []
          else Call.send_eoi 0 ∷ Call.execute_shell ∷ Call.send_eoi 0 ∷ [],
    )
