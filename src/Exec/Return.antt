-- ===== src/Exec/Return.antt =====
-- execute and halt of student-distrib/syscalls.c together: the caller of execute goes on behind the program's halt.
use ece391_mp.Prelude.{ℕ, ◌<◌, ◌≡◌, sym, ap, ◌∙◌, some}
use ece391_mp.Prelude.Memory.{Memory}
use ece391_mp.Machine.{Machine}
use ece391_mp.Process.{add_process}
use ece391_mp.FileSys.{FileSys}
use ece391_mp.Files.{Tables}
use ece391_mp.Files.Close.{AllKnown}
use ece391_mp.Exec.{Kernel, start_process, halt}
use ece391_mp.Exec.Back.{Calls, Works, Back, begun}
use ece391_mp.Exec.Halt.{halt-Back}
use ece391_mp.Exec.Execute.{Locals, returned, entered, mem_of, give_arguments}
use ece391_mp.Exec.Command.{Laid}
use ece391_mp.Exec.Run.{go, handed, started, Ran, execute-Ran}
use ece391_mp.Exec.Passing.{goes_on, returns_not}

module _ (tables : Tables) (table_addr key_index fuel : ℕ) (fs : FileSys) (l : Locals)
    (source n : ℕ) (k : Kernel) (par : ℕ) (c : Calls k par) where
  -- The process id that the program gets.
  abbrev pub child : ℕ
  child = (add_process k.sched.procs).1

  abbrev pub called : Memory → Kernel
  called m = give_arguments child m k

  pub called-Calls : (m : Memory) → Calls (called m) par
  called-Calls m = record {
    valid = c.valid;
    running = c.running;
    displayed = c.displayed;
    foremost = c.foremost;
    bound = c.bound;
    alive = c.alive;
    number = c.number;
    left = c.left;
    count = c.count;
  }

  -- The state behind `execute` is that behind the start of the program with the arguments.
  started-begun :
      (pid : ℕ) (m : Memory)
      → pid ≡ child
      → (started tables table_addr key_index fuel fs l source n k pid m).0
        ≡ begun tables table_addr fs l.executable l.dentry l.stdin l.stdout
            (called m)
            par
            (called-Calls m)
  started-begun pid m e =
      let begin : ℕ → ℕ → Kernel = λ p q.
        (start_process tables table_addr fs l.executable l.dentry l.stdin l.stdout p q
          (handed tables table_addr key_index fuel fs l source n k p m)).0 in
      ap (λ p. begin p (k.sched.procs.running_procs k.sched.procs.running_terminal)) e
      ∙ ap (begin child) c.foremost

  module _ (laid : Laid l (mem_of k) source n) (k' : Kernel) (eip : ℕ)
      (runs : go tables table_addr key_index fuel fs l source n k ≡ some (entered k' eip)) where
    abbrev not_so :
        (r : Kernel) (s : ℕ)
        → go tables table_addr key_index fuel fs l source n k ≡ some (returned r s)
        → ⊥
    not_so = returns_not tables table_addr key_index fuel fs l source n k laid k' eip runs

    pub runs-begun :
        Ran tables table_addr key_index fuel fs l source n k
        → (m : Memory) × (k'
            ≡ begun tables table_addr fs l.executable l.dentry l.stdin l.stdout
                (called m)
                par
                (called-Calls m))
    runs-begun (Ran.wordless m z d e) = absurd (not_so _ _ e)
    runs-begun (Ran.unfit m m' d h x j e) = absurd (not_so _ _ e)
    runs-begun (Ran.full m m' d h x a t p e) = absurd (not_so _ _ e)
    runs-begun (Ran.begun m m' m'' pid d h x lt free a g e) =
        (m'', ap (goes_on k) (sym runs ∙ e) ∙ started-begun pid m'' (sym (ap (λ r. r.1) a)))

    -- When execute of a command that is laid out like that by the foremost process of the displayed and
    -- running terminal, with a process id left, has started a program, then whatever the program does but for
    -- the process table, the numbers of the control blocks and the registers that its parent saved, halt
    -- comes back for known handlers behind the files in use and no video memory mapped: the parent has its
    -- registers, its page and its place in the process table again, but for the parent field of the ended
    -- process, and no file of the ended process is in use.
    pub execute_halt :
        n < fuel
        → (hw : Machine) (w : Kernel) (h : hw.State) → Works par child k' w
        → ((q : ℕ) → AllKnown tables (w.pcbs q))
        → w.vidmap_called ≡ 0
        → (k'' : Kernel) × (h' : hw.State) × (halt tables table_addr hw key_index w h
            ≡ some (k'', h'))
          × Back table_addr par child k k''
          × ((j : ℕ) → j < 8 → (k''.pcbs child).flags j ≡ 0)
    execute_halt enough hw w h works known unmapped =
        let (m, e) =
          runs-begun (execute-Ran tables table_addr key_index fuel fs l source n k laid enough) in
        let (k'', h', goes, b, unused) =
          halt-Back tables table_addr hw fs l.executable l.dentry l.stdin l.stdout (called m) par
            (called-Calls m) w (rw e at works) key_index h known unmapped in
        (k'', h', goes, record { procs = b.procs; esp = b.esp; ebp = b.ebp; page = b.page }, unused)
