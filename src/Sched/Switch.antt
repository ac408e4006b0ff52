-- ===== src/Sched/Switch.antt =====
-- What a switch of the running terminal sets up, and that a switch back restores it.
use ece391_mp.Prelude.{ℕ, ◌+◌, ◌*◌, ◌<◌, ◌≡◌, ◌≢◌, inl, inr, refl, arith, eq_cases}
use ece391_mp.Prelude.Words.{minus_one}
use ece391_mp.Process.{Procs}
use ece391_mp.Paging.{Paging, map_v_p}
use ece391_mp.Paging.Map.{FoundAt, map_v_p-large}
use ece391_mp.Sched.{
  Sched, screen_of, physical_of, map_process, save_context, load_context, set_video_mem,
  switch_running_terminal,
}

-- The foremost process of each terminal, where it has one, is a process of that terminal.
abbrev pub Foremost : Procs → Type 0
Foremost p =
    (t : ℕ)
    → t < 3
    → p.running_procs t ≢ minus_one
    → (p.running_procs t < 6) × (p.term_procs (p.running_procs t) ≡ t)

-- The terminal `t` runs: characters go to its screen, and if it has a process, the program's addresses
-- lead to the memory of that process.
pub record Runs (table_addr t : ℕ) (s : Sched) : Type 0 where
  pub running : s.procs.running_terminal ≡ t
  pub screen : s.screen.video_mem ≡ screen_of s.procs.display_terminal t
  pub program :
      (offset : ℕ)
      → offset < 4194304
      → s.procs.running_procs t ≢ minus_one
      → FoundAt table_addr s.paging
          (0x8000000 + offset)
          (0x800000 + s.procs.running_procs t * 4194304 + offset)
          1
          1

module _ (table_addr : ℕ) where
  pub program_page :
      (pid offset : ℕ) (p : Paging)
      → pid < 6
      → offset < 4194304
      → FoundAt table_addr
          (map_v_p table_addr 0x8000000 (physical_of pid) 1 1 1 p).0
          (0x8000000 + offset)
          (0x800000 + pid * 4194304 + offset)
          1
          1
  program_page pid offset p lt lo =
      let a : physical_of pid ≡ 0x800000 + pid * 4194304 = omega arith in
      rw a (
        (map_v_p-large table_addr 1 1 p 0x8000000 (0x800000 + pid * 4194304) (omega arith)
          (omega arith) offset 0 refl (omega arith) (omega arith) lo (omega arith)).0)

  idles :
      (t : ℕ) (s : Sched)
      → s.procs.running_procs t ≡ minus_one
      → switch_running_terminal table_addr t s ≡ (
        set_video_mem
            (screen_of s.procs.display_terminal t)
            (record s { procs = record s.procs { running_terminal = t } }),
        1,
      )
  unfolding switch_running_terminal
  idles t s none = ground arith

  -- The state behind the switch to a terminal with the process `pid`.
  abbrev switched : ℕ → ℕ → Sched → Sched
  switched t pid s = load_context pid (
      set_video_mem (screen_of s.procs.display_terminal t) (
        map_process table_addr pid (
          save_context (s.procs.running_procs s.procs.running_terminal)
            (record s { procs = record s.procs { running_terminal = t } }))))

  changes :
      (t : ℕ) (s : Sched)
      → s.procs.running_procs t < 6
      → s.procs.term_procs (s.procs.running_procs t) ≡ t
      → switch_running_terminal table_addr t s ≡ (switched t (s.procs.running_procs t) s, 0)
  unfolding switch_running_terminal
  changes t s lt here = ground arith

  -- Where the foremost process of each terminal that has one is a process id below 6 of that terminal, a
  -- switch to one of the three terminals makes it the running one, whether it has a process or not:
  -- characters go to its screen, and if it has a process, each program address leads to the memory of
  -- that process, for reads and writes of user programs.
  pub switch_running_terminal-Runs :
      (t : ℕ) (s : Sched)
      → t < 3
      → Foremost s.procs
      → Runs table_addr t (switch_running_terminal table_addr t s).0
  unfolding switch_running_terminal
  switch_running_terminal-Runs t s lt front = elim (eq_cases (s.procs.running_procs t) minus_one) [
    | inl none ↦
        rw (idles t s none)
          (record { running = refl; screen = refl; program = λ o lo some. absurd (some none) })
    | inr some ↦ rw (changes t s (front t lt some).0 (front t lt some).1) (record {
      running = refl;
      screen = refl;
      program = λ o lo _. program_page (s.procs.running_procs t) o s.paging (front t lt some).0 lo;
    })
  ]

  -- A switch to another terminal with a process and back again gives the registers of the process that
  -- ran back, and saves those that the other one had in the end.
  pub switch_running_terminal_back :
      (a b : ℕ) (s : Sched) (esp ebp : ℕ)
      → s.procs.running_terminal ≡ a
      → s.procs.running_procs a < 6
      → s.procs.running_procs b < 6
      → s.procs.running_procs a ≢ s.procs.running_procs b
      → let t = (switch_running_terminal table_addr b s).0 in
        let u =
          (switch_running_terminal table_addr a (record t { cpu_esp = esp; cpu_ebp = ebp })).0 in
        (u.cpu_esp ≡ s.cpu_esp)
        × (u.cpu_ebp ≡ s.cpu_ebp)
        × (u.esp (s.procs.running_procs b) ≡ esp)
        × (u.ebp (s.procs.running_procs b) ≡ ebp)
  unfolding switch_running_terminal
  switch_running_terminal_back a b s esp ebp here pa pb ne = ground arith
