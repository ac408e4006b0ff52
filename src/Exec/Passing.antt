-- ===== src/Exec/Passing.antt =====
-- The arguments from execute to getargs of student-distrib/syscalls.c.
use ece391_mp.Prelude.{
  ℕ, zero, suc, ◌+◌, ◌≤◌, ◌<◌, ◌≡◌, ◌≢◌, sym, ap, ◌∙◌, arith, Bool, true, false, List, [], ◌∷◌,
  length, ◌==◌, if◌then◌else◌, Option, none, some,
}
use ece391_mp.Prelude.Memory.{Memory, IsString, bytes, length-bytes}
use ece391_mp.ArgUtil.Words.{drop_spaces, drop_word, after_first, length-after_first-le}
use ece391_mp.FileSys.{FileSys}
use ece391_mp.Files.{Tables}
use ece391_mp.Exec.{Kernel, start_process}
use ece391_mp.Exec.Execute.{Locals, Outcome, returned, entered, mem_of, getargs}
use ece391_mp.Exec.Command.{Laid}
use ece391_mp.Exec.Arguments.{Given}
use ece391_mp.Exec.Run.{go, handed, started, Ran, execute-Ran}
use ece391_mp.Exec.Getargs.{caller, HoldsString, IsText, Room, getargs-HoldsString}

-- No element is 0.
abbrev Full : List ℕ → Type 0
Full [] = Unit {0}
Full (c ∷ cs) = (c ≢ 0) × Full cs

Full-bytes : (m : Memory) (s n : ℕ) → ((i : ℕ) → i < n → m (s + i) ≢ 0) → Full (bytes m s n)
Full-bytes m s zero h = tt
Full-bytes m s (suc n) h =
    (ground (arith, h 0), Full-bytes m (suc s) n (λ i lt. ground (arith, h (suc i))))

Full-either : (b : Bool) (xs ys : List ℕ) → Full xs → Full ys → Full (if b then xs else ys)
Full-either true xs ys h g = h
Full-either false xs ys h g = g

Full-drop_spaces : (cs : List ℕ) → Full cs → Full (drop_spaces cs)
Full-drop_spaces [] h = h
Full-drop_spaces (c ∷ cs) (ne, h) = Full-either (c == b' ') _ _ (Full-drop_spaces cs h) (ne, h)

Full-drop_word : (cs : List ℕ) → Full cs → Full (drop_word cs)
Full-drop_word [] h = h
Full-drop_word (c ∷ cs) (ne, h) = Full-either (c == b' ') _ _ (ne, h) (Full-drop_word cs h)

Full-IsText : (cs : List ℕ) → Full cs → IsText cs
Full-IsText [] h i lt = absurd (omega arith)
Full-IsText (c ∷ cs) (ne, h) zero lt = ne
Full-IsText (c ∷ cs) (ne, h) (suc i) lt = Full-IsText cs h i (omega arith)

after_first-IsText : (m : Memory) (s n : ℕ) → IsString m s n → IsText (after_first (bytes m s n))
after_first-IsText m s n str =
    Full-IsText _
      (Full-drop_spaces _ (Full-drop_word _ (Full-drop_spaces _ (Full-bytes m s n str.body))))

abbrev pub is_entered : Option Outcome → Bool
is_entered none = false
is_entered (some (returned k c)) = false
is_entered (some (entered k eip)) = true

abbrev pub goes_on : Kernel → Option Outcome → Kernel
goes_on d none = d
goes_on d (some (returned k c)) = d
goes_on d (some (entered k eip)) = k

module _ (tables : Tables) (table_addr key_index fuel : ℕ) (fs : FileSys) (l : Locals)
    (source n : ℕ) (k : Kernel) where
  started-Given :
      (pid : ℕ) (m : Memory) (rest : List ℕ)
      → Given pid rest (handed tables table_addr key_index fuel fs l source n k pid m)
      → Given pid rest (started tables table_addr key_index fuel fs l source n k pid m).0
  unfolding start_process
  started-Given pid m rest h i lt = ground (arith, h i)

  caller-started :
      (pid : ℕ) (m : Memory)
      → caller (started tables table_addr key_index fuel fs l source n k pid m).0 ≡ pid
  unfolding start_process
  caller-started pid m = ground arith

  abbrev arguments : List ℕ
  arguments = after_first (bytes (mem_of k) source n)

  module _ (laid : Laid l (mem_of k) source n) (k' : Kernel) (eip : ℕ)
      (runs : go tables table_addr key_index fuel fs l source n k ≡ some (entered k' eip)) where
    pub returns_not :
        (r : Kernel) (c : ℕ)
        → go tables table_addr key_index fuel fs l source n k ≡ some (returned r c)
        → ⊥
    returns_not r c e = let b : true ≡ false = ap is_entered (sym runs ∙ e) in ground arith

    runs_Given :
        Ran tables table_addr key_index fuel fs l source n k → Given (caller k') arguments k'
    runs_Given (Ran.wordless m z d e) = absurd (returns_not _ _ e)
    runs_Given (Ran.unfit m m' c h x j e) = absurd (returns_not _ _ e)
    runs_Given (Ran.full m m' d h x a t p e) = absurd (returns_not _ _ e)
    runs_Given (Ran.begun m m' m'' pid c h x lt free a g e) =
        let same : (started tables table_addr key_index fuel fs l source n k pid m'').0 ≡ k' =
          ap (goes_on k) (sym e ∙ runs) in
        rw (← same) (rw (caller-started pid m'') (started-Given pid m'' arguments g))

    -- When execute has started a program for a command that is laid out for execute and there is text
    -- behind its first word, and the place of the next character is on the screen, getargs of the program
    -- with fuel for the command's bytes and a buffer that is not NULL, does not wrap, has room for the
    -- text and its NUL and meets neither the argument buffer nor the screen returns 0, and the buffer
    -- holds that text and a NUL.
    pub execute_getargs :
        n < fuel
        → (buf nbytes : ℕ) → 0 < length arguments
        → length arguments < nbytes
        → Room k' buf (length arguments)
        → (k'' : Kernel) × (getargs key_index fuel buf nbytes k' ≡ some (k'', 0))
          × HoldsString (mem_of k'') buf arguments
    execute_getargs enough buf nbytes some_text large room =
        let short : length arguments ≤ n = omega (
          arith,
          length-after_first-le (bytes (mem_of k) source n),
          length-bytes (mem_of k) source n,
        ) in
        getargs-HoldsString key_index fuel buf nbytes k' arguments
          (runs_Given (execute-Ran tables table_addr key_index fuel fs l source n k laid enough))
          (after_first-IsText (mem_of k) source n laid.command) (omega (arith, laid.short))
          some_text large room (omega arith)
