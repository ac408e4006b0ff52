-- ===== src/Sched/Rounds.antt =====
-- Every terminal gets its turn: the schedule that cycle_task makes.
use ece391_mp.Prelude.{ℕ, zero, suc, ◌+◌, ◌-◌, ◌%◌, ◌<◌, ◌≡◌, sym, arith}
use ece391_mp.Prelude.Words.{u32}
use ece391_mp.Sched.{Sched, switch_running_terminal, cycle_task}
use ece391_mp.Sched.Switch.{Foremost, Runs, switch_running_terminal-Runs}

module _ (table_addr : ℕ) where
  -- `states n` is the state behind the tick with the number `n`, and `worked n` the one that the
  -- processes have made of it by the next tick. They may change everything but the terminal that runs,
  -- if the foremost process of each terminal stays one of that terminal.
  pub record Schedule (states worked : ℕ → Sched) : Type 0 where
    pub start : (states 0).procs.running_terminal < 3
    pub work : (n : ℕ) → (worked n).procs.running_terminal ≡ (states n).procs.running_terminal
    pub front : (n : ℕ) → Foremost (worked n).procs
    pub tick : (n : ℕ) → states (suc n) ≡ (cycle_task table_addr (worked n)).0

  -- A switch leaves the processes of the terminals alone.
  pub cycle_task-Foremost :
      (s : Sched) → Foremost s.procs → Foremost (cycle_task table_addr s).0.procs
  unfolding cycle_task switch_running_terminal
  cycle_task-Foremost s front t lt = ground (arith, front t lt)

  module _ (states worked : ℕ → Sched) (run : Schedule states worked) where
    next :
        (n : ℕ)
        → (states n).procs.running_terminal < 3
        → Runs table_addr (((states n).procs.running_terminal + 1) % 3) (states (suc n))
    unfolding cycle_task
    next n here =
        let r : ℕ = (states n).procs.running_terminal in
        let same : (worked n).procs.running_terminal ≡ r = run.work n in
        let lt : (u32 ((worked n).procs.running_terminal + 1) % 3) ≡ (r + 1) % 3 =
          ground (arith, same) in
        rw (run.tick n) (
          rw lt (
            switch_running_terminal-Runs table_addr ((r + 1) % 3) (worked n) (omega arith)
              (run.front n)))

    turn : (n : ℕ) → (states n).procs.running_terminal < 3
    turn zero = run.start
    turn (suc n) =
        let lt : (states n).procs.running_terminal < 3 = turn n in
        ground (arith, (next n lt).running)

    -- `k` ticks on from `n`, the terminal that runs is the one `k` places on.
    turn_after :
        (k n : ℕ)
        → (states (k + n)).procs.running_terminal ≡ ((states n).procs.running_terminal + k) % 3
    turn_after zero n = ground (arith, turn n)
    turn_after (suc k) n =
        ground (arith, turn_after k n, turn n, (next (k + n) (turn (k + n))).running)

    Runs-behind :
        (m t : ℕ)
        → ((states m).procs.running_terminal + 1) % 3 ≡ t
        → Runs table_addr t (states (suc m))
    Runs-behind m t same = rw (sym same) (next m (turn m))

    -- Each of the three terminals runs behind at least one of any three ticks in a row.
    pub cycle_task-Runs :
        (n t : ℕ) → t < 3 → (k : ℕ) × (k < 3) × Runs table_addr t (states (suc (k + n)))
    cycle_task-Runs n t lt =
        let r : ℕ = (states n).procs.running_terminal in
        let k : ℕ = (t + 5 - r) % 3 in
        let small : r < 3 = turn n in
        let at : (states (k + n)).procs.running_terminal ≡ (r + k) % 3 = turn_after k n in
        (k, omega arith, Runs-behind (k + n) t (omega arith))
