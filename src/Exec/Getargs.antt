-- ===== src/Exec/Getargs.antt =====
-- getargs of student-distrib/syscalls.c: the arguments that execute left come back as a string.
use ece391_mp.Prelude.{
  ℕ, suc, ◌+◌, ◌≤◌, ◌<◌, ◌≡◌, ◌≢◌, ◌⊎◌, refl, arith, List, [], ◌∷◌, ◌++◌, length, get_or, some,
}
use ece391_mp.Prelude.Words.{minus_one}
use ece391_mp.Prelude.Memory.{Memory, IsString, bytes, Disjoint}
use ece391_mp.CharUtil.{string_length, copy_string}
use ece391_mp.CharUtil.Length.{string_length_lem}
use ece391_mp.CharUtil.Copy.{IsCopied, copy_string_copies}
use ece391_mp.ArgUtil.Argument.{get_or-snoc}
use ece391_mp.LibString.Copy.{strlen_lem}
use ece391_mp.Printf.{Mode, puts_at, conversion, printf_loop, printf}
use ece391_mp.Printf.Plain.{put_all}
use ece391_mp.Screen.{Screen, putc, puts}
use ece391_mp.Screen.Bounds.{OnScreen}
use ece391_mp.Screen.Frame.{Within, Within-trans, line_end-Within, put_all-Within, puts-Within}
use ece391_mp.Exec.{Kernel}
use ece391_mp.Exec.Execute.{mem_of, arg_buffer_at, with_arguments, echo, getargs}
use ece391_mp.Exec.Arguments.{Given}

-- "getargs buf: "
abbrev label : List ℕ
label =
    b'g' ∷ b'e' ∷ b't' ∷ b'a' ∷ b'r' ∷ b'g' ∷ b's' ∷ b' ' ∷ b'b' ∷ b'u' ∷ b'f' ∷ b':' ∷ b' ' ∷ []

-- The loop from the conversion on, with the string at `buf`.
conversion_lem :
    (key_index fuel buf n : ℕ) (t : Screen)
    → IsString t.mem buf n
    → n < fuel
    → printf_loop key_index fuel (b'%' ∷ b's' ∷ b'\n' ∷ []) Mode.plain (λ i. buf) 0 0 t
      ≡ some (putc key_index b'\n' (puts key_index (bytes t.mem buf n) t))
unfolding printf_loop conversion puts_at
conversion_lem key_index fuel buf n t str enough =
    ground (arith, strlen_lem fuel t.mem buf n str enough)

-- `printf("getargs buf: %s\n", buf)` of a string puts it between the label and a line end.
echo_lem :
    (key_index fuel buf n : ℕ) (s : Screen)
    → let t = put_all key_index label s in
      IsString t.mem buf n
      → n < fuel
      → printf key_index fuel echo (λ i. buf) 0 s
        ≡ some (putc key_index b'\n' (puts key_index (bytes t.mem buf n) t), 16)
unfolding printf printf_loop put_all
echo_lem key_index fuel buf n s str enough =
    rw (printf, conversion_lem key_index fuel buf n (put_all key_index label s) str enough) refl

-- The running process, whose arguments the call gives.
abbrev pub caller : Kernel → ℕ
caller k = k.sched.procs.running_procs k.sched.procs.running_terminal

-- The memory has the string `rest` and its NUL at an address.
abbrev pub HoldsString : Memory → ℕ → List ℕ → Type 0
HoldsString m at rest = (i : ℕ) → i < length rest + 1 → m (at + i) ≡ get_or (rest ++ 0 ∷ []) i 0

-- No byte of the list is 0.
abbrev pub IsText : List ℕ → Type 0
IsText rest = (i : ℕ) → i < length rest → get_or (rest ++ 0 ∷ []) i 0 ≢ 0

get_or-end : (w : List ℕ) (c : ℕ) → get_or (w ++ c ∷ []) (length w) 0 ≡ c
get_or-end w c = ground (arith, get_or-snoc w c (length w))

HoldsString-IsString :
    (m : Memory) (at : ℕ) (rest : List ℕ)
    → IsText rest
    → HoldsString m at rest
    → IsString m at (length rest)
HoldsString-IsString m at rest full h = record {
  body = λ i lt. ground (arith, h i, full i);
  eos = ground (arith, h (length rest), get_or-end rest 0);
}

-- A place for the string that is not NULL, does not wrap and meets neither the argument buffer of the process nor
-- the screen; the place of the next character is on the screen.
pub record Room (k : Kernel) (buf n : ℕ) : Type 0 where
  pub ne : buf ≢ 0
  pub fits : buf + n < 4294967296
  pub buffer : Disjoint (arg_buffer_at (caller k)) 128 buf (suc n)
  pub screen : Disjoint k.sched.screen.video_mem 4000 buf (suc n)
  pub on : OnScreen k.sched.screen

module _ (key_index fuel buf nbytes : ℕ) (k : Kernel) (rest : List ℕ)
    (given : Given (caller k) rest k) (full : IsText rest) (short : length rest < 128) where
  abbrev source : Memory
  source = with_arguments (caller k) k

  source-Holds : HoldsString source (arg_buffer_at (caller k)) rest
  source-Holds i lt = ground (arith, given i, short)

  source_length : string_length source (arg_buffer_at (caller k)) ≡ length rest
  source_length =
      string_length_lem source (arg_buffer_at (caller k)) (length rest) (omega arith)
        (HoldsString-IsString source _ rest full source-Holds) (omega (arith, short))

  -- Without arguments, with a buffer that is too small for them and their NUL, or with none, getargs refuses.
  pub getargs_refuses :
      (length rest ≡ 0) ⊎ ((nbytes ≤ length rest) ⊎ (buf ≡ 0))
      → getargs key_index fuel buf nbytes k ≡ some (k, minus_one)
  unfolding getargs
  getargs_refuses bad = ground (arith, source_length, short)

  module _ (some_text : 0 < length rest) (large : length rest < nbytes)
      (room : Room k buf (length rest)) (enough : length rest < fuel) where
    copied : Memory
    copied = (copy_string source (arg_buffer_at (caller k)) buf).0

    copied-IsCopied : IsCopied source copied (arg_buffer_at (caller k)) buf (length rest)
    unfolding copied
    copied-IsCopied =
        (copy_string_copies source (arg_buffer_at (caller k)) buf (length rest) (omega arith)
          room.ne (HoldsString-IsString source _ rest full source-Holds) (omega (arith, short))
          room.fits (ground (arith, room.buffer, short))).1

    abbrev printing : Screen
    printing = record k.sched.screen { mem = copied }

    abbrev labelled : Screen
    labelled = put_all key_index label printing

    labelled-Within : Within printing labelled × OnScreen labelled
    labelled-Within =
        put_all-Within key_index label printing
          (record { column = room.on.column; row = room.on.row })

    abbrev printed : Screen
    printed = putc key_index b'\n' (puts key_index (bytes labelled.mem buf (length rest)) labelled)

    printed-Within : Within printing printed
    printed-Within =
        let text : List ℕ = bytes labelled.mem buf (length rest) in
        let (w, row) = puts-Within key_index text labelled labelled-Within.1 in
        Within-trans printing labelled printed labelled-Within.0 (
          Within-trans labelled (puts key_index text labelled) printed w
            (line_end-Within key_index (puts key_index text labelled) row))

    -- What stays within the screen keeps the copy.
    kept-Holds : (t : Screen) → Within printing t → HoldsString t.mem buf rest
    kept-Holds t w i lt =
        ground (arith, w.frame (buf + i), room.screen, copied-IsCopied.same i, source-Holds i)

    goes :
        (t : Screen) (c : ℕ)
        → printf key_index fuel echo (λ i. buf) 0 printing ≡ some (t, c)
        → getargs key_index fuel buf nbytes k
          ≡ some (record k { sched = record k.sched { screen = t } }, 0)
    unfolding getargs copied
    goes t c e = rw (getargs, e) (ground (arith, source_length, short, room.ne))

    -- With room for them and their NUL, and the place of the next character on the screen, the arguments are at
    -- the buffer when getargs returns, with the result 0.
    pub getargs-HoldsString :
        (k' : Kernel) × (getargs key_index fuel buf nbytes k ≡ some (k', 0))
        × HoldsString (mem_of k') buf rest
    getargs-HoldsString = (
      record k { sched = record k.sched { screen = printed } },
      goes printed 16 (
          echo_lem key_index fuel buf (length rest) printing
            (HoldsString-IsString labelled.mem buf rest full
              (kept-Holds labelled labelled-Within.0))
            enough),
      kept-Holds printed printed-Within,
    )
