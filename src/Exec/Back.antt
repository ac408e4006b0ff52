-- ===== src/Exec/Back.antt =====
-- A program started by execute and ended by halt leaves its parent as it was.
use ece391_mp.Prelude.{ℕ, ◌+◌, ◌*◌, ◌<◌, ◌≡◌, ◌≢◌, inr, refl, sym, ap, ◌∙◌, arith, false}
use ece391_mp.Prelude.Words.{is_neg}
use ece391_mp.Process.{Procs, take_pid, add_process, delete_process}
use ece391_mp.Process.Count.{Valid, reserved}
use ece391_mp.Process.Add.{Added, add_process-Added}
use ece391_mp.Process.Delete.{set_parent, delete_process-take_pid}
use ece391_mp.Paging.Map.{FoundAt}
use ece391_mp.FileSys.{FileSys}
use ece391_mp.Files.{Tables}
use ece391_mp.Sched.Switch.{program_page}
use ece391_mp.Exec.{Kernel, start_process, resume_parent}

-- The terminal that runs is displayed and its foremost process, which calls `execute`, is `par`; a process
-- id is left for another process.
pub record Calls (k : Kernel) (par : ℕ) : Type 0 where
  pub valid : Valid k.sched.procs
  pub running : k.sched.procs.running_terminal < 3
  pub displayed : k.sched.procs.running_terminal ≡ k.sched.procs.display_terminal
  pub foremost : k.sched.procs.running_procs k.sched.procs.running_terminal ≡ par
  pub bound : par < 6
  pub alive : k.sched.procs.procs par ≢ 0
  pub number : k.p_id par ≡ par
  pub left : reserved k.sched.procs < 6
  pub count : k.sched.procs.process_count < 4294967296

-- What the program does of its own, and the kernel for it, between the two calls: anything but a change of
-- the process table, of the numbers of the control blocks and of the registers that its parent saved.
pub record Works (par pid : ℕ) (k k' : Kernel) : Type 0 where
  pub procs : k'.sched.procs ≡ k.sched.procs
  pub esp : k'.sched.esp par ≡ k.sched.esp par
  pub ebp : k'.sched.ebp par ≡ k.sched.ebp par
  pub number : k'.p_id par ≡ k.p_id par
  pub child : k'.p_id pid ≡ k.p_id pid

-- The parent `par` goes on in the state `k'` as it stopped in `k`: its registers and its page are back, and
-- so is the process table, but for the parent that the control block of `pid` names.
pub record Back (table_addr par pid : ℕ) (k k' : Kernel) : Type 0 where
  pub procs : k'.sched.procs ≡ set_parent pid par k.sched.procs
  pub esp : k'.sched.cpu_esp ≡ k.sched.cpu_esp
  pub ebp : k'.sched.cpu_ebp ≡ k.sched.cpu_ebp
  pub page :
      (offset : ℕ)
      → offset < 4194304
      → FoundAt table_addr k'.sched.paging
          (0x8000000 + offset)
          (0x800000 + par * 4194304 + offset)
          1
          1

ended :
    (s : Procs) (pid par : ℕ)
    → Valid s
    → pid < 6
    → s.procs pid ≡ 0
    → s.process_count < 4294967296
    → s.running_terminal ≡ s.display_terminal
    → s.running_procs s.running_terminal ≡ par
    → delete_process pid (set_parent pid par (take_pid pid s)) ≡ (set_parent pid par s, 0)
ended s pid par v b f count same e = rw (sym e) (delete_process-take_pid s pid v b f count same)

module _ (tables : Tables) (table_addr : ℕ) (fs : FileSys) (exe dentry stdin stdout : ℕ)
    (k : Kernel) (par : ℕ) (c : Calls k par) where
  -- The process id that `execute` takes.
  abbrev pub pid_of : ℕ
  pid_of = (add_process k.sched.procs).1

  pub added : Added k.sched.procs (add_process k.sched.procs)
  added = add_process-Added k.sched.procs c.valid c.running (inr c.left)

  abbrev pub begun : Kernel
  begun =
      (start_process tables table_addr fs exe dentry stdin stdout pid_of par
        (record k { sched = record k.sched { procs = take_pid pid_of k.sched.procs } })).0

  pub begun_facts :
      (begun.sched.procs ≡ set_parent pid_of par (take_pid pid_of k.sched.procs))
      × (begun.sched.esp par ≡ k.sched.cpu_esp)
      × (begun.sched.ebp par ≡ k.sched.cpu_ebp)
      × (begun.p_id par ≡ par)
      × (begun.p_id pid_of ≡ pid_of)
  unfolding start_process
  begun_facts =
      let pos : is_neg par ≡ false = ground (arith, c.bound) in
      rw pos (refl, ground arith, ground arith, ground (arith, c.number), ground arith)

  -- Whatever the program does, the end of it gives the parent back what `execute` found.
  pub resume_parent-Back :
      (w : Kernel)
      → Works par pid_of begun w
      → Back table_addr par pid_of k (resume_parent tables table_addr pid_of par w)
  unfolding resume_parent
  resume_parent-Back w works =
      let (p, s, b, n, o) = begun_facts in
      let number : w.p_id par ≡ par = works.number ∙ n in
      let child : w.p_id pid_of ≡ pid_of = works.child ∙ o in
      let gone : delete_process pid_of (set_parent pid_of par (take_pid pid_of k.sched.procs))
          ≡ (set_parent pid_of par k.sched.procs, 0) =
        ended k.sched.procs pid_of par c.valid added.bound added.free c.count c.displayed
          c.foremost in
      record {
        procs = rw child (rw works.procs (rw p (ap (λ r. r.0) gone)));
        esp = works.esp ∙ s;
        ebp = works.ebp ∙ b;
        page =
            λ offset lt. rw number (program_page table_addr par offset w.sched.paging c.bound lt);
      }
