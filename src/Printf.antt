-- ===== src/Printf.antt =====
-- printf of student-distrib/lib.c.
pub mod Plain
pub mod Tests
use ece391_mp.Prelude.{
  ℕ, zero, suc, ◌+◌, ◌-◌, Bool, true, false, List, [], ◌∷◌, length, Option, none, some, ltb, ◌==◌,
  ◌||◌, if◌then◌else◌,
}
use ece391_mp.Prelude.Words.{u8, sub32, is_neg}
use ece391_mp.Prelude.Memory.{Memory, store, bytes}
use ece391_mp.LibString.{strlen}
use ece391_mp.Itoa.{itoa}
use ece391_mp.Screen.{Screen, putc, puts}

-- Where the loop stands in the format: outside a conversion, behind a `%`, or behind a `%#`.
pub data Mode : Type 0 where
  plain : Mode
  convert : Mode
  alternate : Mode

-- `for (i = strlen(&conv_buf[8]); i < 8; i++) conv_buf[i] = '0'`
unfoldable pub pad_zeros : ℕ → ℕ → Memory → ℕ → Memory
pad_zeros zero i m conv_buf = m
pad_zeros (suc rounds) i m conv_buf =
    pad_zeros rounds (i + 1) (store m (conv_buf + i) b'0') conv_buf

module _ (key_index fuel : ℕ) where
  -- `puts` of the string at an address; `none` means that the fuel ran out before its NUL.
  unfoldable pub puts_at : ℕ → Screen → Option Screen
  puts_at addr s = elim (strlen fuel s.mem addr) [
    | none ↦ none
    | some n ↦ some (puts key_index (bytes s.mem addr n) s)
  ]

  -- The number at `at`, in a buffer of which the text from `from` on is printed.
  unfoldable pub puts_number : ℕ → ℕ → ℕ → ℕ → Screen → Option Screen
  puts_number value radix at from s = elim (itoa fuel s.mem value at radix) [
    | none ↦ none
    | some m ↦ puts_at from (record s { mem = m })
  ]

  unfoldable pub puts_hex_8 : ℕ → ℕ → Screen → Option Screen
  puts_hex_8 value conv_buf s = elim (itoa fuel s.mem value (conv_buf + 8) 16) [
    | none ↦ none
    | some m ↦ elim (strlen fuel m (conv_buf + 8)) [
      | none ↦ none
      | some n ↦ puts_at (conv_buf + n) (record s { mem = pad_zeros (8 - n) n m conv_buf })
    ]
  ]

  -- The inner `switch`: `arg` is the word that `esp` points to.
  unfoldable pub conversion : Bool → ℕ → ℕ → ℕ → Screen → Option Screen
  conversion alt c arg conv_buf s =
      if c == b'%'
      then some (putc key_index b'%' s)
      else if c == b'x'
      then (if alt then puts_hex_8 arg conv_buf s else puts_number arg 16 conv_buf conv_buf s)
      else if c == b'u'
      then puts_number arg 10 conv_buf conv_buf s
      else if c == b'd'
      then (if is_neg arg
          then puts_number (sub32 0 arg) 10 (conv_buf + 1) conv_buf
              (record s { mem = store s.mem conv_buf b'-' })
          else puts_number arg 10 conv_buf conv_buf s)
      else if c == b'c'
      then some (putc key_index (u8 arg) s)
      else if c == b's'
      then puts_at arg s
      else some s

  -- Whether the conversion takes an argument.
  abbrev pub takes_arg : ℕ → Bool
  takes_arg c = c == b'x' || c == b'u' || c == b'd' || c == b'c' || c == b's'

  abbrev pub next_arg : ℕ → ℕ → ℕ
  next_arg c esp = if takes_arg c then esp + 1 else esp

  -- The loop over the bytes of the format before its NUL, with the words of the arguments by their
  -- index. Behind a format that ends in a conversion it reads on: `none` stands for that too.
  unfoldable pub printf_loop : List ℕ → Mode → (ℕ → ℕ) → ℕ → ℕ → Screen → Option Screen
  printf_loop [] Mode.plain args esp conv_buf s = some s
  printf_loop [] Mode.convert args esp conv_buf s = none
  printf_loop [] Mode.alternate args esp conv_buf s = none
  printf_loop (c ∷ cs) Mode.plain args esp conv_buf s =
      if c == b'%'
      then printf_loop cs Mode.convert args esp conv_buf s
      else printf_loop cs Mode.plain args esp conv_buf (putc key_index c s)
  printf_loop (c ∷ cs) Mode.convert args esp conv_buf s =
      if c == b'#'
      then printf_loop cs Mode.alternate args esp conv_buf s
      else elim (conversion false c (args esp) conv_buf s) [
        | none ↦ none
        | some t ↦ printf_loop cs Mode.plain args (next_arg c esp) conv_buf t
      ]
  printf_loop (c ∷ cs) Mode.alternate args esp conv_buf s =
      if c == b'#'
      then printf_loop cs Mode.alternate args esp conv_buf s
      else elim (conversion true c (args esp) conv_buf s) [
        | none ↦ none
        | some t ↦ printf_loop cs Mode.plain args (next_arg c esp) conv_buf t
      ]

  -- The screen and the result, `buf - format`.
  unfoldable pub printf : List ℕ → (ℕ → ℕ) → ℕ → Screen → Option (Screen × ℕ)
  printf format args conv_buf s = elim (printf_loop format Mode.plain args 0 conv_buf s) [
    | none ↦ none
    | some t ↦ some (t, length format)
  ]
