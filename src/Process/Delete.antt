-- ===== src/Process/Delete.antt =====
-- What delete_process undoes, and what it leaves.
use ece391_mp.Prelude.{ℕ, ◌<◌, ◌≡◌, ◌≢◌, arith, fun_ext}
use ece391_mp.Prelude.Words.{minus_one}
use ece391_mp.Prelude.Memory.{store}
use ece391_mp.Process.{Procs, take_pid, remove_term_process, delete_process}
use ece391_mp.Process.Count.{Valid}
use ece391_mp.Process.Keep.{delete_process_lem}

-- `execute` writes the parent of the new process into its control block.
abbrev pub set_parent : ℕ → ℕ → Procs → Procs
set_parent pid p s = record s { parent = store s.parent pid p }

restored : (m : ℕ → ℕ) (a w k : ℕ) → m a ≡ w → store (store m a k) a w ≡ m
restored m a w k e = fun_ext (λ b. ground (arith, e))

module _ (s : Procs) (pid : ℕ) (v : Valid s) where
  -- When a process whose terminal is displayed ends, the table is what it was before the process was
  -- added, with the parent, the process that ran there before, as the foremost one again.
  pub delete_process-take_pid :
      pid < 6
      → s.procs pid ≡ 0
      → s.process_count < 4294967296
      → s.running_terminal ≡ s.display_terminal
      → let par = s.running_procs s.running_terminal in
        delete_process pid (set_parent pid par (take_pid pid s)) ≡ (set_parent pid par s, 0)
  delete_process-take_pid b f count same =
      rw
        (delete_process_lem pid
          (set_parent pid (s.running_procs s.running_terminal) (take_pid pid s)) b)
        (ground (
          arith,
          restored s.procs pid 0 1,
          restored s.term_procs pid minus_one s.running_terminal,
          restored s.running_procs s.running_terminal (s.running_procs s.running_terminal) pid,
          v.free pid b f,
        ))

  -- When the terminal of the process is not displayed, its own entry still names the ended process,
  -- and the displayed terminal gets the parent.
  pub delete_process_hidden :
      pid < 6
      → s.running_terminal ≢ s.display_terminal
      → s.running_procs s.running_terminal ≡ pid
      → let t = (delete_process pid s).0 in
        (t.procs pid ≡ 0)
        × (t.running_procs s.running_terminal ≡ pid)
        × (t.running_procs s.display_terminal ≡ s.parent pid)
  unfolding delete_process remove_term_process
  delete_process_hidden b other front = ground arith
