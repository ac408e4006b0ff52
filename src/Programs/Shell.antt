-- ===== src/Programs/Shell.antt =====
-- The shell, syscalls/ece391shell.c, executes the lines that are typed.
use ece391_mp.Prelude.{
  ℕ, zero, suc, ◌<◌, ◌≡◌, ◌≢◌, refl, ap, ◌∙◌, arith, List, [], ◌∷◌, ◌++◌, append-nil, append_assoc,
  length, Option, none, some,
}
use ece391_mp.Prelude.Memory.{Memory}
use ece391_mp.Programs.Line.{IsLine, exit_line, exit-IsLine}
use ece391_mp.Programs.{Syscalls, shell_round, shell_loop, shell}
use ece391_mp.Programs.Text
use ece391_mp.Programs.Round.{Console, commands, typed-Round, leaves, ended, m2, s1}

-- Lines that are not "exit".
abbrev pub AreTyped : List (List ℕ) → Type 0
AreTyped [] = Unit {0}
AreTyped (w ∷ ws) = IsLine w × (w ≢ exit_line) × AreTyped ws

commands-cons :
    (w : List ℕ) (ws : List (List ℕ)) → commands (w ∷ []) ++ commands ws ≡ commands (w ∷ ws)
commands-cons [] ws = refl
commands-cons (c ∷ cs) ws = refl

module _ (sys : Syscalls) (buf leave : ℕ) (con : Console sys buf leave) where
  abbrev pub Left : List (List ℕ) → List (List ℕ) → Option (Memory × sys.State × ℕ) → Type 0
  Left lines ran o = (m : Memory) × (s : sys.State) × (o ≡ some (m, s, 0)) × con.Waits m s lines ran

  next_round :
      (rounds : ℕ) (m : Memory) (s : sys.State) (m' : Memory) (s' : sys.State)
      → shell_round sys leave buf m s ≡ some (m', s', none)
      → shell_loop sys (suc rounds) leave buf m s ≡ shell_loop sys rounds leave buf m' s'
  unfolding shell_loop
  next_round rounds m s m' s' e = rw (shell_loop, e) refl

  last_round :
      (rounds : ℕ) (m : Memory) (s : sys.State) (m' : Memory) (s' : sys.State)
      → shell_round sys leave buf m s ≡ some (m', s', some 0)
      → shell_loop sys (suc rounds) leave buf m s ≡ some (m', s', 0)
  unfolding shell_loop
  last_round rounds m s m' s' e = rw (shell_loop, e) refl

  Left-eq :
      (lines ran ran' : List (List ℕ)) (o o' : Option (Memory × sys.State × ℕ))
      → ran ≡ ran'
      → o' ≡ o
      → Left lines ran o
      → Left lines ran' o'
  Left-eq lines ran ran' o o' e d h = rw (← e, d) h

  shell_loop-Left :
      (rounds : ℕ) (m : Memory) (s : sys.State) (lines rest ran : List (List ℕ))
      → AreTyped lines
      → length lines < rounds
      → con.Waits m s (lines ++ exit_line ∷ rest) ran
      → Left rest (ran ++ commands lines) (shell_loop sys rounds leave buf m s)
  shell_loop-Left zero m s lines rest ran typed lt h = absurd (omega arith)
  shell_loop-Left (suc rounds) m s [] rest ran typed lt h = (
    m2 sys buf leave con m s exit_line rest ran exit-IsLine h,
    s1 sys buf leave con m s exit_line rest ran exit-IsLine h,
    last_round rounds m s _ _ (leaves sys buf leave con m s exit_line rest ran exit-IsLine h refl),
    rw append-nil (ended sys buf leave con m s exit_line rest ran exit-IsLine h),
  )
  shell_loop-Left (suc rounds) m s (w ∷ lines) rest ran (line, ne, typed) lt h =
      let (m', s', e, g) =
        typed-Round sys buf leave con m s w (lines ++ exit_line ∷ rest) ran line ne h in
      Left-eq rest _ _ (shell_loop sys rounds leave buf m' s') _
        (append_assoc ran (commands (w ∷ [])) (commands lines)
          ∙ ap (λ v. ran ++ v) (commands-cons w lines))
        (next_round rounds m s m' s' e)
        (shell_loop-Left rounds m' s' lines rest (ran ++ commands (w ∷ [])) typed (omega arith) g)

  -- When lines are typed and then "exit", the shell executes those that are not empty, in their order, and ends with
  -- status 0 at the "exit"; what is typed behind it waits. It takes a round for each line
  -- and one more.
  pub shell-Left :
      (rounds : ℕ) (m : Memory) (s : sys.State) (lines rest ran : List (List ℕ))
      → AreTyped lines
      → length lines < rounds
      → con.Waits m s (lines ++ exit_line ∷ rest) ran
      → Left rest (ran ++ commands lines) (shell sys rounds leave buf m s)
  unfolding shell
  shell-Left rounds m s lines rest ran typed lt h =
      shell_loop-Left rounds m (sys.write 1 Text.starting s).0 lines rest ran typed lt
        (con.write m s Text.starting (lines ++ exit_line ∷ rest) ran h)
