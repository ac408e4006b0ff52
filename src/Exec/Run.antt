-- ===== src/Exec/Run.antt =====
-- execute of student-distrib/syscalls.c from its call to the jump to the program, on every branch.
use ece391_mp.Prelude.{
  ℕ, suc, ◌+◌, ◌<◌, ◌≡◌, ◌⊎◌, inl, inr, refl, ◌∙◌, arith, zero, Bool, true, false, List, length,
  ◌==◌, if◌then◌else◌, Option, some, eq_cases, lt_cases,
}
use ece391_mp.Prelude.Words.{minus_one}
use ece391_mp.Prelude.Memory.{Memory, bytes}
use ece391_mp.ArgUtil.{get_argument_length}
use ece391_mp.ArgUtil.Words.{words, word_at, after_first}
use ece391_mp.FileSys.{FileSys}
use ece391_mp.Files.{Tables}
use ece391_mp.Process.{Procs, take_pid, free_loop, add_process}
use ece391_mp.Printf.Plain.{IsPlain, printf-plain, put_all}
use ece391_mp.Screen.{Screen}
use ece391_mp.Exec.{Kernel, start_process}
use ece391_mp.Exec.Execute.{
  Locals, Outcome, returned, entered, set_mem, mem_of, is_executable, give_arguments,
  pass_arguments, refusal, execute_file, execute,
}
use ece391_mp.Exec.Magic.{Judged, is_executable-Judged}
use ece391_mp.Exec.Command.{
  name, Laid, Copied, Holds, Copied-frame, copy, copy-Copied, named, command_length-eq, name_short,
  get_argument-name, named-Copied, named-Holds,
}
use ece391_mp.Exec.Arguments.{Given, pass_arguments-PassedOn, give_arguments-Given}

-- A process id is refused and nothing has changed, or it was free and is taken.
abbrev pub AddedOrNot : Procs → Procs × ℕ → Type 0
AddedOrNot s out =
    (out ≡ (s, minus_one))
    ⊎ ((pid : ℕ) × (pid < 6) × (s.procs pid ≡ 0) × (out ≡ (take_pid pid s, pid)))

free_loop-AddedOrNot : (r i : ℕ) (s : Procs) → i + r ≡ 6 → AddedOrNot s (free_loop r i s)
unfolding free_loop
free_loop-AddedOrNot zero i s e = inl refl
free_loop-AddedOrNot (suc r) i s e = elim (eq_cases (s.procs i) 0) [
  | inl free ↦ inr (i, omega arith, free, ground arith)
  | inr used ↦ elim (free_loop-AddedOrNot r (i + 1) s (omega arith)) [
    | inl full ↦ inl (ground arith)
    | inr (pid, lt, free, e') ↦ inr (pid, lt, free, ground arith)
  ]
]

kept_or :
    (b : Bool) (s : Procs) (out : Procs × ℕ)
    → AddedOrNot s out
    → AddedOrNot s (if b then (s, minus_one) else out)
kept_or true s out h = inl refl
kept_or false s out h = h

add_process-AddedOrNot : (s : Procs) → AddedOrNot s (add_process s)
unfolding add_process
add_process-AddedOrNot s = kept_or _ s _ (free_loop-AddedOrNot 6 0 s (omega arith))

module _ (tables : Tables) (table_addr key_index fuel : ℕ) (fs : FileSys) (l : Locals)
    (source n : ℕ) (k : Kernel) where
  abbrev command : List ℕ
  command = bytes (mem_of k) source n

  abbrev pub go : Option Outcome
  go = execute tables table_addr key_index fuel fs l source k

  -- The kernel that the program is started in.
  abbrev pub handed : ℕ → Memory → Kernel
  handed pid m =
      give_arguments pid m
        (record k { sched = record k.sched { procs = take_pid pid k.sched.procs } })

  abbrev pub started : ℕ → Memory → Kernel × ℕ
  started pid m =
      start_process tables table_addr fs l.executable l.dentry l.stdin l.stdout pid
        (k.sched.procs.running_procs k.sched.procs.running_terminal) (handed pid m)

  -- How a call ends: with nothing done but writes of the local arrays, without a word, for a file that is no program,
  -- or, also printed, without a process id that is left; or in the program.
  pub data Ran : Type 0 where
    wordless :
        (m : Memory)
        → length (words command) ≡ 0
        → Copied l (mem_of k) m source n
        → go ≡ some (returned (set_mem m k) 0)
        → Ran
    unfit :
        (m m' : Memory)
        → Copied l (mem_of k) m source n
        → Holds m l.executable (word_at (words command) 0)
        → is_executable fs l m ≡ some (m', 0)
        → Judged l m m' 0
        → go ≡ some (returned (set_mem m' k) minus_one)
        → Ran
    full :
        (m m' : Memory)
        → Copied l (mem_of k) m source n
        → Holds m l.executable (word_at (words command) 0)
        → is_executable fs l m ≡ some (m', 1)
        → add_process k.sched.procs ≡ (k.sched.procs, minus_one)
        → (t : Screen) → t ≡ put_all key_index refusal (record k.sched.screen { mem = m' })
        → go ≡ some (returned (record k { sched = record k.sched { screen = t } }) 0)
        → Ran
    begun :
        (m m' m'' : Memory) (pid : ℕ)
        → Copied l (mem_of k) m source n
        → Holds m l.executable (word_at (words command) 0)
        → is_executable fs l m ≡ some (m', 1)
        → pid < 6
        → k.sched.procs.procs pid ≡ 0
        → add_process k.sched.procs ≡ (take_pid pid k.sched.procs, pid)
        → Given pid (after_first command) (handed pid m'')
        → go ≡ some (entered (started pid m'').0 (started pid m'').1)
        → Ran

  full_file :
      (m : Memory)
      → add_process k.sched.procs ≡ (k.sched.procs, minus_one)
      → execute_file tables table_addr key_index fuel fs l (set_mem m k)
        ≡ some (
            returned
              (record k {
                sched = record k.sched {
                  screen = put_all key_index refusal (record k.sched.screen { mem = m });
                };
              })
              0)
  unfolding execute_file
  full_file m e =
      rw
        (
          execute_file,
          e,
          printf-plain key_index fuel refusal (λ i. 0) 0 (record k.sched.screen { mem = m }) plain,
        )
        refl
    where
      plain : IsPlain refusal
      plain = ground arith

  begun_file :
      (m m' : Memory) (pid : ℕ)
      → pid < 6
      → add_process k.sched.procs ≡ (take_pid pid k.sched.procs, pid)
      → pass_arguments fuel l pid (record (set_mem m k) {
        sched = record (set_mem m k).sched { procs = take_pid pid k.sched.procs };
      })
        ≡ some (handed pid m')
      → execute_file tables table_addr key_index fuel fs l (set_mem m k)
        ≡ some (entered (started pid m').0 (started pid m').1)
  unfolding execute_file
  begun_file m m' pid lt e passed = rw (execute_file, e, passed) (ground arith)

  module _ (laid : Laid l (mem_of k) source n) (enough : n < fuel) where
    no_word : length (words command) ≡ 0 → Ran
    unfolding execute
    no_word none =
        wordless (copy l (mem_of k) source n laid) none (copy-Copied l (mem_of k) source n laid)
          (ground (arith, command_length-eq l (mem_of k) source n laid, none))

    module _ (some_word : 0 < length (words command)) where
      abbrev m2 : Memory
      m2 = named l (mem_of k) source n laid some_word

      length_is :
          get_argument_length (copy l (mem_of k) source n laid) l.all_arguments_copy 0
          ≡ length (name l (mem_of k) source n laid)
      length_is = ground (arith, command_length-eq l (mem_of k) source n laid)

      runs :
          (m3 : Memory) (ok : ℕ)
          → is_executable fs l m2 ≡ some (m3, ok)
          → go ≡ (
              if ok == 0
              then some (returned (set_mem m3 k) minus_one)
              else execute_file tables table_addr key_index fuel fs l (set_mem m3 k))
      unfolding execute
      runs m3 ok e =
          rw (length_is, get_argument-name l (mem_of k) source n laid some_word, e)
            (ground (arith, name_short l (mem_of k) source n laid))

      no_program : (m : Memory) → is_executable fs l m2 ≡ some (m, 0) → Judged l m2 m 0 → Ran
      no_program m e j =
          unfit m2 m (named-Copied l (mem_of k) source n laid some_word)
            (named-Holds l (mem_of k) source n laid some_word) e j (runs m 0 e)

      file_runs :
          (m : Memory)
          → is_executable fs l m2 ≡ some (m, 1)
          → Judged l m2 m 1
          → AddedOrNot k.sched.procs (add_process k.sched.procs)
          → Ran
      file_runs m e j (inl no_pid) =
          full m2 m (named-Copied l (mem_of k) source n laid some_word)
            (named-Holds l (mem_of k) source n laid some_word) e no_pid _ refl
            (runs m 1 e ∙ full_file m no_pid)
      file_runs m e j (inr (pid, lt, free, added)) =
          let (str, t) =
            Copied-frame l (mem_of k) m2 m source n laid.short
              (λ i p.
                j.frame (l.all_arguments_copy + i) (ground (arith, laid.copy_bytes))
                  (ground (arith, laid.copy_magic)))
              (named-Copied l (mem_of k) source n laid some_word) in
          let kk : Kernel = record (set_mem m k) {
            sched = record (set_mem m k).sched { procs = take_pid pid k.sched.procs };
          } in
          let (m', passed, w) =
            pass_arguments-PassedOn l pid fuel n kk laid.copy_ne str laid.short enough
              (laid.copy_buffer pid lt) (rw t some_word) in
          begun m2 m m' pid (named-Copied l (mem_of k) source n laid some_word)
            (named-Holds l (mem_of k) source n laid some_word) e lt free added
            (rw t at (
              give_arguments-Given l pid fuel n kk laid.copy_ne str laid.short enough
                (laid.copy_buffer pid lt) m' w))
            (runs m 1 e ∙ begun_file m m' pid lt added passed)

      judged_runs :
          (m : Memory) (ok : ℕ)
          → is_executable fs l m2 ≡ some (m, ok)
          → Judged l m2 m ok
          → (ok ≡ 0) ⊎ (ok ≡ 1)
          → Ran
      judged_runs m ok e j (inl bad) = no_program m (rw (← bad) e) (rw (← bad) j)
      judged_runs m ok e j (inr good) =
          file_runs m (rw (← good) e) (rw (← good) j) (add_process-AddedOrNot k.sched.procs)

      word_runs : Ran
      word_runs =
          let (m, ok, e, j) =
            is_executable-Judged fs l m2
              ((named-Copied l (mem_of k) source n laid some_word).frame (l.elf + 3) laid.elf_copy
                  laid.elf_name
                ∙ laid.elf)
              laid.elf_bytes laid.elf_magic in
          judged_runs m ok e j j.verdict

    -- With room for the command in the local copy and fuel for its bytes, execute comes to an end: one of the four.
    pub execute-Ran : Ran
    execute-Ran = elim (lt_cases 0 (length (words command))) [
      | inl some_word ↦ word_runs some_word
      | inr none ↦ no_word (omega (arith, none))
    ]
