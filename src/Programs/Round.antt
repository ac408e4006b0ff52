-- ===== src/Programs/Round.antt =====
-- A round of the shell, syscalls/ece391shell.c: it reads a line and executes it.
use ece391_mp.Prelude.{
  ℕ, ◌+◌, ◌≤◌, ◌≡◌, ◌≢◌, ap, ◌∙◌, arith, List, [], ◌∷◌, ◌++◌, append-nil, length, Bool, true, false,
  not, Option, none, some, ◌==◌, if◌then◌else◌,
}
use ece391_mp.Prelude.Words.{minus_one}
use ece391_mp.Prelude.Memory.{Memory, store}
use ece391_mp.Programs.Line.{IsLine, exit_line, Command, Got, line_length_lem, order_of}
use ece391_mp.Programs.{Syscalls, ece391_strcmp, report, shell_round}
use ece391_mp.Programs.Text
use ece391_mp.Programs.Strings.{IsBytes}

-- What the shell needs of its read, of the screen and of execute: `Waits m s lines ran` says that the lines
-- are typed next and that the commands `ran` have been executed. A read gives the next line; writes do not
-- matter; execute of the command in the buffer executes it. The literal "exit" is at `leave`, and the
-- program may write into its buffer.
pub record Console (sys : Syscalls) (buf leave : ℕ) : Type 1 where
  pub Waits : Memory → sys.State → List (List ℕ) → List (List ℕ) → Type 0
  pub write :
      (m : Memory) (s : sys.State) (text : List ℕ) (lines ran : List (List ℕ))
      → Waits m s lines ran
      → Waits m (sys.write 1 text s).0 lines ran
  pub read :
      (m : Memory) (s : sys.State) (w : List ℕ) (lines ran : List (List ℕ))
      → Waits m s (w ∷ lines) ran
      → let (m', s', n) = sys.read 0 buf 1023 m s in Got m' buf w n × Waits m' s' lines ran
  pub own :
      (m : Memory) (s : sys.State) (lines ran : List (List ℕ)) (i : ℕ)
      → i ≤ 1023
      → Waits m s lines ran
      → Waits (store m (buf + i) 0) s lines ran
  pub execute :
      (m : Memory) (s : sys.State) (w : List ℕ) (lines ran : List (List ℕ))
      → Waits m s lines ran
      → IsLine w
      → length w ≤ 1023
      → Command m buf w
      → Waits m (sys.execute buf m s).0 lines (ran ++ w ∷ [])
  pub literal :
      (m : Memory) (s : sys.State) (lines ran : List (List ℕ))
      → Waits m s lines ran
      → IsBytes m × Command m leave exit_line

-- The commands of lines: those that are not empty.
abbrev pub commands : List (List ℕ) → List (List ℕ)
commands [] = []
commands ([] ∷ ws) = commands ws
commands ((c ∷ cs) ∷ ws) = (c ∷ cs) ∷ commands ws

module _ (sys : Syscalls) (buf leave : ℕ) (con : Console sys buf leave) where
  -- Behind a round the shell waits for the next lines, and has executed the command of the line.
  abbrev pub Round :
      List ℕ → List (List ℕ) → List (List ℕ) → Option (Memory × sys.State × Option ℕ) → Type 0
  Round w lines ran o =
      (m : Memory) × (s : sys.State) × (o ≡ some (m, s, none))
      × con.Waits m s lines (ran ++ commands (w ∷ []))

  Waits-either :
      (b : Bool) (m : Memory) (x y : sys.State) (lines ran : List (List ℕ))
      → con.Waits m x lines ran
      → con.Waits m y lines ran
      → con.Waits m (if b then x else y) lines ran
  Waits-either true m x y lines ran h g = h
  Waits-either false m x y lines ran h g = g

  report-Waits :
      (m : Memory) (s : sys.State) (rval : ℕ) (lines ran : List (List ℕ))
      → con.Waits m s lines ran
      → con.Waits m (report sys rval s) lines ran
  unfolding report
  report-Waits m s rval lines ran h =
      Waits-either (rval == minus_one) m _ _ lines ran
        (con.write m s Text.no_such_command lines ran h)
        (Waits-either (rval == 256) m _ _ lines ran (con.write m s Text.by_exception lines ran h) (
          Waits-either (not (rval == 0)) m _ _ lines ran (con.write m s Text.abnormally lines ran h)
            h))

  module _ (m : Memory) (s : sys.State) (w : List ℕ) (lines ran : List (List ℕ)) (line : IsLine w)
      (h : con.Waits m s (w ∷ lines) ran) where
    abbrev asked : sys.State
    asked = (sys.write 1 Text.prompt s).0

    abbrev m1 : Memory
    m1 = (sys.read 0 buf 1023 m asked).0

    abbrev pub s1 : sys.State
    s1 = (sys.read 0 buf 1023 m asked).1

    abbrev n : ℕ
    n = (sys.read 0 buf 1023 m asked).2

    abbrev pub m2 : Memory
    m2 = store m1 (buf + length w) 0

    got : Got m1 buf w n × con.Waits m1 s1 lines ran
    got = con.read m asked w lines ran (con.write m s Text.prompt (w ∷ lines) ran h)

    pub ended : con.Waits m2 s1 lines ran
    ended = con.own m1 s1 lines ran (length w) (omega (arith, got.0.fits, got.0.count)) got.1

    ended-Command : Command m2 buf w
    ended-Command = record { word = λ i lt. ground (arith, got.0.word i); eos = ground arith }

    order :
        (c : ℕ) × (ece391_strcmp 5 m2 buf leave ≡ some c)
        × (c ≡ 0 → w ≡ exit_line)
        × (w ≡ exit_line → c ≡ 0)
    order =
        let (small, lit) = con.literal m2 s1 lines ran ended in
        order_of m2 buf leave w line ended-Command lit small

    -- The round behind the read, with the length of the line.
    abbrev behind_read : ℕ → Option (Memory × sys.State × Option ℕ)
    behind_read k =
        let m3 : Memory = store m1 (buf + k) 0 in
        let (s2, rval) = sys.execute buf m3 s1 in
        if n == minus_one
        then some (m1, (sys.write 1 Text.keyboard_failed s1).0, some 3)
        else elim (ece391_strcmp 5 m3 buf leave) [
          | none ↦ none
          | some o ↦
              if o == 0
              then some (m3, s1, some 0)
              else if m3 buf == 0
              then some (m3, s1, none)
              else some (m3, report sys rval s2, none)
        ]

    round_is : shell_round sys leave buf m s ≡ (
        if order.0 == 0
        then some (m2, s1, some 0)
        else if m2 buf == 0
        then some (m2, s1, none)
        else some (m2, report sys (sys.execute buf m2 s1).1 (sys.execute buf m2 s1).0, none))
    unfolding shell_round
    round_is =
        ap behind_read (line_length_lem m1 buf w n line got.0)
        ∙ rw order.1 (ground (arith, got.0.fits))

    -- The shell ends at the line "exit".
    pub leaves : w ≡ exit_line → shell_round sys leave buf m s ≡ some (m2, s1, some 0)
    leaves is = round_is ∙ ground (arith, order.3 is)

    goes_on :
        (out : Memory × sys.State × Option ℕ)
        → (order.0 ≢ 0)
        → (if m2 buf == 0
            then some (m2, s1, none)
            else some (m2, report sys (sys.execute buf m2 s1).1 (sys.execute buf m2 s1).0, none))
          ≡ some out
        → shell_round sys leave buf m s ≡ some out
    goes_on out ne e = round_is ∙ ground (arith, ne) ∙ e

  pub typed-Round :
      (m : Memory) (s : sys.State) (w : List ℕ) (lines ran : List (List ℕ))
      → IsLine w
      → w ≢ exit_line
      → con.Waits m s (w ∷ lines) ran
      → Round w lines ran (shell_round sys leave buf m s)
  typed-Round m s [] lines ran line ne h =
      let c : Command (m2 m s [] lines ran line h) buf [] = ended-Command m s [] lines ran line h in
      (
        m2 m s [] lines ran line h,
        s1 m s [] lines ran line h,
        goes_on m s [] lines ran line h _ (λ z. ne ((order m s [] lines ran line h).2 z))
            (ground (arith, c.eos)),
        rw append-nil (ended m s [] lines ran line h),
      )
  typed-Round m s (c ∷ cs) lines ran line ne h =
      let cmd : Command (m2 m s (c ∷ cs) lines ran line h) buf (c ∷ cs) =
        ended-Command m s (c ∷ cs) lines ran line h in
      let g : Got (m1 m s (c ∷ cs) lines ran line h) buf (c ∷ cs)
          (n m s (c ∷ cs) lines ran line h) =
        (got m s (c ∷ cs) lines ran line h).0 in
      let k : Memory = m2 m s (c ∷ cs) lines ran line h in
      let (s2, rval) = sys.execute buf k (s1 m s (c ∷ cs) lines ran line h) in
      (
        k,
        report sys rval s2,
        goes_on m s (c ∷ cs) lines ran line h _
            (λ z. ne ((order m s (c ∷ cs) lines ran line h).2 z))
            (ground (arith, cmd.word 0, line 0)),
        report-Waits k s2 rval lines (ran ++ (c ∷ cs) ∷ []) (
            con.execute k (s1 m s (c ∷ cs) lines ran line h) (c ∷ cs) lines ran
              (ended m s (c ∷ cs) lines ran line h) line (omega (arith, g.fits, g.count)) cmd),
      )
