-- ===== src/CharUtil.antt =====
-- student-distrib/utils/char_util.c: NUL-terminated strings and byte copies, over the kernel's byte
-- memory. Buffers do not wrap round the address space, so an address is a plain sum; the one
-- exception is the write behind a string whose length is -1.
pub mod Loops
pub mod Length
pub mod Copy
pub mod Equal
pub mod Tests
use ece391_mp.Prelude.{
  ℕ, zero, suc, ◌+◌, ◌-◌, ◌<◌, ◌⊎◌, Bool, true, false, Option, none, some, ltb, ◌==◌, ◌||◌,
  if◌then◌else◌,
}
use ece391_mp.Prelude.Words.{u32, minus_one, is_neg}
use ece391_mp.Prelude.Memory.{Memory, store}

abbrev pub max_count : ℕ
max_count = 1000000

-- The loop of `string_length`, with the rounds that are left: it returns -1 past `max_count`, so
-- `max_count + 1` rounds are enough.
unfoldable pub length_loop : ℕ → Memory → ℕ → ℕ → ℕ
length_loop zero m s count = minus_one
length_loop (suc rounds) m s count =
    let rest = length_loop rounds m s (count + 1) in
    if m (s + count) == 0 then count else if ltb max_count (count + 1) then minus_one else rest

unfoldable pub string_length : Memory → ℕ → ℕ
string_length m s = if s == 0 then minus_one else length_loop (suc max_count) m s 0

-- The loop of `string_equal` and the test behind it; `none` means that the fuel ran out.
unfoldable pub equal_loop : ℕ → Memory → ℕ → ℕ → ℕ → Option ℕ
equal_loop zero m s1 s2 i = none
equal_loop (suc fuel) m s1 s2 i =
    let rest = equal_loop fuel m s1 s2 (i + 1) in
    if m (s1 + i) == 0
    then some (if m (s2 + i) == 0 then 1 else 0)
    else if m (s2 + i) == 0
    then some 0
    else if m (s1 + i) == m (s2 + i)
    then rest
    else some 0

unfoldable pub string_equal : ℕ → Memory → ℕ → ℕ → Option ℕ
string_equal fuel m s1 s2 = if s1 == 0 || s2 == 0 then some minus_one else equal_loop fuel m s1 s2 0

-- `for (; rounds > 0; i++) dest[i] = source[i]`
unfoldable pub copy_loop : ℕ → ℕ → Memory → ℕ → ℕ → Memory
copy_loop zero i m source dest = m
copy_loop (suc rounds) i m source dest =
    copy_loop rounds (i + 1) (store m (dest + i) (m (source + i))) source dest

unfoldable pub copy_string : Memory → ℕ → ℕ → Memory × ℕ
copy_string m source dest =
    if source == 0 || dest == 0
    then (m, minus_one)
    else let len = string_length m source in
      let copied = copy_loop (if is_neg len then 0 else len) 0 m source dest in
      (store copied (u32 (dest + len)) 0, 0)

unfoldable pub copy_buf : Memory → ℕ → ℕ → ℕ → Memory × ℕ
copy_buf m source dest nbytes =
    if source == 0 || dest == 0 then (m, minus_one) else (copy_loop nbytes 0 m source dest, 0)

-- `for (i = start; i < end; i++) buf[i - start] = s[i]`, with the rounds that are left.
unfoldable pub substring_loop : ℕ → ℕ → ℕ → Memory → ℕ → ℕ → Memory
substring_loop zero start i m s buf = m
substring_loop (suc rounds) start i m s buf =
    substring_loop rounds start (i + 1) (store m (buf + (i - start)) (m (s + i))) s buf

-- `end > len` compares as unsigned words, so the length -1 of a string without end passes.
unfoldable pub substring : Memory → ℕ → ℕ → ℕ → ℕ → Memory × ℕ
substring m s buf start end =
    if s == 0 || buf == 0
    then (m, minus_one)
    else if ltb end start || ltb (string_length m s) end
    then (m, minus_one)
    else (store (substring_loop (end - start) start start m s buf) (buf + (end - start)) 0, 0)
