-- ===== src/LibString.antt =====
-- student-distrib/lib.c, the string functions: strlen, strncmp, strcpy and strncpy.
pub mod Copy
pub mod Compare
pub mod Tests
use ece391_mp.Prelude.{
  ℕ, zero, suc, ◌+◌, ◌-◌, Bool, Option, none, some, ltb, ◌==◌, ◌&&◌, ◌||◌, not, if◌then◌else◌,
}
use ece391_mp.Prelude.Words.{sub32}
use ece391_mp.Prelude.Memory.{Memory, store}

-- `while (s[len] != '\0') len++`; `none` means that the fuel ran out.
unfoldable pub strlen_loop : ℕ → Memory → ℕ → ℕ → Option ℕ
strlen_loop zero m s len = none
strlen_loop (suc fuel) m s len =
    let rest = strlen_loop fuel m s (len + 1) in if m (s + len) == 0 then some len else rest

unfoldable pub strlen : ℕ → Memory → ℕ → Option ℕ
strlen fuel m s = strlen_loop fuel m s 0

-- An `int8_t` as an `int32_t`.
abbrev pub sign_extend : ℕ → ℕ
sign_extend b = if ltb b 128 then b else b + 4294967040

unfoldable pub strncmp_loop : ℕ → ℕ → Memory → ℕ → ℕ → ℕ
strncmp_loop zero i m s1 s2 = 0
strncmp_loop (suc rounds) i m s1 s2 =
    let rest = strncmp_loop rounds (i + 1) m s1 s2 in
    if not (m (s1 + i) == m (s2 + i)) || m (s1 + i) == 0
    then sub32 (sign_extend (m (s1 + i))) (sign_extend (m (s2 + i)))
    else rest

unfoldable pub strncmp : Memory → ℕ → ℕ → ℕ → ℕ
strncmp m s1 s2 n = strncmp_loop n 0 m s1 s2

-- The loop of `strcpy` and the NUL behind it.
unfoldable pub strcpy_loop : ℕ → ℕ → Memory → ℕ → ℕ → Option Memory
strcpy_loop zero i m dest src = none
strcpy_loop (suc fuel) i m dest src =
    let rest = strcpy_loop fuel (i + 1) (store m (dest + i) (m (src + i))) dest src in
    if m (src + i) == 0 then some (store m (dest + i) 0) else rest

unfoldable pub strcpy : ℕ → Memory → ℕ → ℕ → Option Memory
strcpy fuel m dest src = strcpy_loop fuel 0 m dest src

-- The second loop of `strncpy`.
unfoldable pub pad_loop : ℕ → ℕ → Memory → ℕ → Memory
pad_loop zero i m dest = m
pad_loop (suc rounds) i m dest = pad_loop rounds (i + 1) (store m (dest + i) 0) dest

-- The first loop, with the rounds that `i < n` leaves, and the second one behind it.
unfoldable pub strncpy_loop : ℕ → ℕ → Memory → ℕ → ℕ → Memory
strncpy_loop zero i m dest src = m
strncpy_loop (suc rounds) i m dest src =
    let rest = strncpy_loop rounds (i + 1) (store m (dest + i) (m (src + i))) dest src in
    if m (src + i) == 0 then pad_loop (suc rounds) i m dest else rest

unfoldable pub strncpy : Memory → ℕ → ℕ → ℕ → Memory
strncpy m dest src n = strncpy_loop n 0 m dest src
