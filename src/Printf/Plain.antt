-- ===== src/Printf/Plain.antt =====
-- What printf puts on the screen.
use ece391_mp.Prelude.{ℕ, ◌^◌, ◌<◌, ◌≡◌, ◌≢◌, refl, arith, List, [], ◌∷◌, length, some}
use ece391_mp.Prelude.Memory.{Memory, bytes}
use ece391_mp.LibString.Copy.{strlen_lem}
use ece391_mp.Itoa.Number.{Written, itoa-Written}
use ece391_mp.Screen.{Screen, putc, puts}
use ece391_mp.Printf.{Mode, puts_at, puts_number, conversion, printf_loop, printf}

-- The characters one after the other.
unfoldable pub put_all : ℕ → List ℕ → Screen → Screen
put_all key_index [] s = s
put_all key_index (c ∷ cs) s = put_all key_index cs (putc key_index c s)

-- No byte of the text starts a conversion.
abbrev pub IsPlain : List ℕ → Type 0
IsPlain [] = Unit {0}
IsPlain (c ∷ cs) = (c ≢ b'%') × IsPlain cs

printf_loop-plain :
    (key_index fuel : ℕ) (format : List ℕ) (args : ℕ → ℕ) (conv_buf : ℕ) (s : Screen)
    → IsPlain format
    → printf_loop key_index fuel format Mode.plain args 0 conv_buf s
      ≡ some (put_all key_index format s)
unfolding printf_loop put_all
printf_loop-plain key_index fuel [] args conv_buf s h = refl
printf_loop-plain key_index fuel (c ∷ cs) args conv_buf s (ne, h) =
    ground (arith, printf_loop-plain key_index fuel cs args conv_buf (putc key_index c s) h)

-- A format without `%` is put on the screen as it is, and the result is its length.
pub printf-plain :
    (key_index fuel : ℕ) (format : List ℕ) (args : ℕ → ℕ) (conv_buf : ℕ) (s : Screen)
    → IsPlain format
    → printf key_index fuel format args conv_buf s
      ≡ some (put_all key_index format s, length format)
unfolding printf
printf-plain key_index fuel format args conv_buf s h =
    ground (arith, printf_loop-plain key_index fuel format args conv_buf s h)

-- `%u` puts the text of its argument: a string that reads as the argument in decimal.
pub printf-unsigned :
    (key_index : ℕ) (args : ℕ → ℕ) (conv_buf : ℕ) (s : Screen)
    → args 0 < 2 ^ 32
    → (m' : Memory) × (n : ℕ) × Written 10 s.mem m' conv_buf (args 0) n
      × (printf key_index 33 (b'%' ∷ b'u' ∷ []) args conv_buf s
          ≡ some (puts key_index (bytes m' conv_buf n) (record s { mem = m' }), 2))
unfolding printf printf_loop conversion puts_number puts_at
printf-unsigned key_index args conv_buf s lt =
    let (m', n, e, w) = itoa-Written s.mem (args 0) conv_buf 10 (omega arith) (omega arith) lt in
    (m', n, w, ground (arith, e, strlen_lem 33 m' conv_buf n w.string (omega (arith, w.short))))
