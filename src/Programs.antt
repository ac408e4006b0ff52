-- ===== src/Programs.antt =====
-- The user programs of the directory syscalls: ece391cat.c, ece391ls.c and ece391shell.c, and what they use of
-- ece391support.c. The system calls are an interface, which the kernel fills.
pub mod Text
pub mod Copying
pub mod FileStream
pub mod Strings
pub mod Line
pub mod Round
pub mod Shell
pub mod Tests
pub mod ShellTests
use ece391_mp.Prelude.{
  ℕ, zero, suc, ◌+◌, ◌-◌, ◌<◌, List, [], ◌∷◌, ◌++◌, Option, none, some, ltb, ◌==◌, ◌&&◌, ◌||◌, not,
  if◌then◌else◌,
}
use ece391_mp.Programs.Text
use ece391_mp.Prelude.Words.{minus_one, sub32, is_neg}
use ece391_mp.Prelude.Memory.{Memory, store, bytes}

-- The system calls that the programs make, with the memory of the program and the state of the system. `write` is
-- given the bytes that the pointer shows, and `execute` comes back with the status of the program.
pub record Syscalls : Type 1 where
  pub State : Type 0
  pub read : ℕ → ℕ → ℕ → Memory → State → Memory × State × ℕ
  pub write : ℕ → List ℕ → State → State × ℕ
  pub open_file : ℕ → Memory → State → State × ℕ
  pub getargs : ℕ → ℕ → Memory → State → Memory × State × ℕ
  pub execute : ℕ → Memory → State → State × ℕ

-- `while (*s1 == *s2) …`, with the difference of the first two bytes that differ; `none` means that the fuel ran
-- out.
unfoldable pub ece391_strcmp : ℕ → Memory → ℕ → ℕ → Option ℕ
ece391_strcmp zero m s1 s2 = none
ece391_strcmp (suc fuel) m s1 s2 =
    let rest = ece391_strcmp fuel m (s1 + 1) (s2 + 1) in
    if m s1 == m s2 then (if m s1 == 0 then some 0 else rest) else some (sub32 (m s1) (m s2))

-- The length of a line without the line end that closes it.
abbrev pub line_length : Memory → ℕ → ℕ → ℕ
line_length m buf cnt =
    if not (cnt == 0) && not (is_neg cnt) && m (buf + (cnt - 1)) == b'\n' then cnt - 1 else cnt

module _ (sys : Syscalls) where
  open sys use {State, read, write, open_file, getargs, execute}

  -- `ece391_fdputs` of a literal.
  abbrev pub ece391_fdputs : ℕ → List ℕ → State → State
  ece391_fdputs fd text s = (write fd text s).0

  -- A program ends with a status; `none` means that the fuel ran out.
  abbrev pub Exit : Type 0
  Exit = Option (Memory × State × ℕ)

  unfoldable pub cat_loop : ℕ → ℕ → ℕ → Memory → State → Exit
  cat_loop zero fd buf m s = none
  cat_loop (suc fuel) fd buf m s =
      let (m1, s1, cnt) = read fd buf 1024 m s in
      let (s2, written) = write 1 (bytes m1 buf cnt) s1 in
      let rest = cat_loop fuel fd buf m1 s2 in
      if cnt == 0
      then some (m1, s1, 0)
      else if cnt == minus_one
      then some (m1, ece391_fdputs 1 Text.read_failed s1, 3)
      else if written == minus_one
      then some (m1, s2, 3)
      else rest

  unfoldable pub cat : ℕ → ℕ → Memory → State → Exit
  cat fuel buf m s =
      let (m1, s1, r) = getargs buf 1024 m s in
      let (s2, fd) = open_file buf m1 s1 in
      let rest = cat_loop fuel fd buf m1 s2 in
      if not (r == 0)
      then some (m1, ece391_fdputs 1 Text.could_not_read s1, 3)
      else if fd == minus_one
      then some (m1, ece391_fdputs 1 Text.not_found s2, 2)
      else rest

  unfoldable pub ls_loop : ℕ → ℕ → ℕ → Memory → State → Exit
  ls_loop zero fd buf m s = none
  ls_loop (suc fuel) fd buf m s =
      let (m1, s1, cnt) = read fd buf 32 m s in
      let m2 : Memory = store m1 (buf + cnt) b'\n' in
      let (s2, written) = write 1 (bytes m2 buf (cnt + 1)) s1 in
      let rest = ls_loop fuel fd buf m2 s2 in
      if cnt == 0
      then some (m1, s1, 0)
      else if cnt == minus_one
      then some (m1, ece391_fdputs 1 Text.entry_read_failed s1, 3)
      else if written == minus_one
      then some (m2, s2, 3)
      else rest

  -- The literal "." is at `dot`.
  unfoldable pub ls : ℕ → ℕ → ℕ → Memory → State → Exit
  ls fuel dot buf m s =
      let (s1, fd) = open_file dot m s in
      let rest = ls_loop fuel fd buf m s1 in
      if fd == minus_one then some (m, ece391_fdputs 1 Text.directory_open_failed s1, 2) else rest

  -- What the shell says about the status of a program.
  unfoldable pub report : ℕ → State → State
  report rval s =
      if rval == minus_one
      then ece391_fdputs 1 Text.no_such_command s
      else if rval == 256
      then ece391_fdputs 1 Text.by_exception s
      else if not (rval == 0)
      then ece391_fdputs 1 Text.abnormally s
      else s

  -- A round of the loop of the shell: it goes on, or it ends with a status. The literal "exit" of 4
  -- bytes is at `leave`, so the comparison ends within 5 rounds.
  unfoldable pub shell_round : ℕ → ℕ → Memory → State → Option (Memory × State × Option ℕ)
  shell_round leave buf m s =
      let (m1, s1, cnt) = read 0 buf 1023 m (ece391_fdputs 1 Text.prompt s) in
      let m2 : Memory = store m1 (buf + line_length m1 buf cnt) 0 in
      let (s2, rval) = execute buf m2 s1 in
      if cnt == minus_one
      then some (m1, ece391_fdputs 1 Text.keyboard_failed s1, some 3)
      else elim (ece391_strcmp 5 m2 buf leave) [
        | none ↦ none
        | some order ↦
            if order == 0
            then some (m2, s1, some 0)
            else if m2 buf == 0
            then some (m2, s1, none)
            else some (m2, report rval s2, none)
      ]

  unfoldable pub shell_loop : ℕ → ℕ → ℕ → Memory → State → Exit
  shell_loop zero leave buf m s = none
  shell_loop (suc rounds) leave buf m s = elim (shell_round leave buf m s) [
    | none ↦ none
    | some (m', s', ended) ↦ elim ended [
      | none ↦ shell_loop rounds leave buf m' s'
      | some status ↦ some (m', s', status)
    ]
  ]

  unfoldable pub shell : ℕ → ℕ → ℕ → Memory → State → Exit
  shell rounds leave buf m s = shell_loop rounds leave buf m (ece391_fdputs 1 Text.starting s)
