-- ===== src/Prelude/Words.antt =====
-- 32-bit machine words. An `int32_t` and a `uint32_t` are both their bit pattern, below 2 ^ 32.
use ece391_mp.Prelude.{ℕ, ◌+◌, ◌-◌, ◌%◌, Bool, leb}

abbrev pub u8 : ℕ → ℕ
u8 n = n % 256

abbrev pub u32 : ℕ → ℕ
u32 n = n % 4294967296

-- The bit pattern of -1.
abbrev pub minus_one : ℕ
minus_one = 4294967295

-- `w < 0` for an `int32_t`.
abbrev pub is_neg : ℕ → Bool
is_neg w = leb 2147483648 w

-- `a - b` on 32 bits.
abbrev pub sub32 : ℕ → ℕ → ℕ
sub32 a b = u32 (a + 4294967296 - b)
