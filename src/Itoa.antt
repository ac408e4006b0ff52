-- ===== src/Itoa.antt =====
-- itoa and strrev of student-distrib/lib.c; ece391_itoa and ece391_strrev of syscalls/ece391support.c
-- are the same code.
pub mod Reverse
pub mod Number
pub mod Tests
use ece391_mp.Prelude.{
  ℕ, zero, suc, ◌+◌, ◌-◌, ◌/◌, ◌%◌, Bool, Option, none, some, ltb, ◌==◌, if◌then◌else◌,
}
use ece391_mp.Prelude.Memory.{Memory, store}
use ece391_mp.LibString.{strlen}

-- `tmp = s[end]; s[end] = s[beg]; s[beg] = tmp`
abbrev pub swap : Memory → ℕ → ℕ → ℕ → Memory
swap m s beg end = store (store m (s + end) (m (s + beg))) (s + beg) (m (s + end))

-- `none` means that the fuel ran out.
unfoldable pub strrev_loop : ℕ → Memory → ℕ → ℕ → ℕ → Option Memory
strrev_loop zero m s beg end = none
strrev_loop (suc fuel) m s beg end =
    let rest = strrev_loop fuel (swap m s beg end) s (beg + 1) (end - 1) in
    if ltb beg end then rest else some m

-- The `end` of an empty string is -1 in the source and 0 here: the loop does not run for either.
unfoldable pub strrev : ℕ → Memory → ℕ → Option Memory
strrev fuel m s = elim (strlen fuel m s) [
  | none ↦ none
  | some len ↦ strrev_loop fuel m s 0 (len - 1)
]

-- "0123456789ABCDEFGHIJKLMNOPQRSTUVWXYZ"[i]
abbrev pub lookup_digit : ℕ → ℕ
lookup_digit i = if ltb i 10 then b'0' + i else b'A' + (i - 10)

-- The loop, and the NUL behind it.
unfoldable pub itoa_loop : ℕ → Memory → ℕ → ℕ → ℕ → Option Memory
itoa_loop zero m newbuf newval radix = none
itoa_loop (suc fuel) m newbuf newval radix =
    let rest =
      itoa_loop fuel (store m newbuf (lookup_digit (newval % radix))) (newbuf + 1) (newval / radix)
        radix in
    if newval == 0 then some (store m newbuf 0) else rest

unfoldable pub itoa : ℕ → Memory → ℕ → ℕ → ℕ → Option Memory
itoa fuel m value buf radix =
    if value == 0
    then some (store (store m buf b'0') (buf + 1) 0)
    else elim (itoa_loop fuel m buf value radix) [ none ↦ none | some m' ↦ strrev fuel m' buf ]
