-- ===== src/Pic/Bits.antt =====
-- Single bits of a byte under the masks of i8259.c, checked over all bytes.
use ece391_mp.Prelude.{
  ℕ, zero, suc, ◌/◌, ◌%◌, ◌^◌, ◌<◌, ◌≡◌, refl, Bool, true, false, arith, ◌==◌, if◌then◌else◌, ==→eq,
}
use ece391_mp.Pic.{clear_bit, set_bit}

-- The test holds for every number below the bound.
unfoldable pub all_below : ℕ → (ℕ → Bool) → Bool
all_below zero test = true
all_below (suc bound) test = if test bound then all_below bound test else false

pub all_below_sound :
    (bound : ℕ) (test : ℕ → Bool) (k : ℕ) → all_below bound test ≡ true → k < bound → test k ≡ true
unfolding all_below
all_below_sound (suc bound) test k holds inside = ground (arith, all_below_sound bound test k)
all_below_sound zero test k holds inside = absurd (omega arith)

unfoldable pub bit : ℕ → ℕ → ℕ
bit x k = x / 2 ^ k % 2

-- Bit `k` of a byte whose bit `n` is cleared or set: bits 8 and up of `n` are outside the byte.
abbrev clear_ok : ℕ → ℕ → ℕ → Bool
clear_ok n k x = bit (clear_bit x n) k == (if k == n then 0 else bit x k)

abbrev set_ok : ℕ → ℕ → ℕ → Bool
set_ok n k x = bit (set_bit x n) k == (if k == n then 1 else bit x k)

clear_table : all_below 16 (λ n. all_below 8 (λ k. all_below 256 (clear_ok n k))) ≡ true
unfolding all_below bit clear_bit
clear_table = refl

set_table : all_below 16 (λ n. all_below 8 (λ k. all_below 256 (set_ok n k))) ≡ true
unfolding all_below bit set_bit
set_table = refl

-- Three table look-ups.
table_sound :
    (p : ℕ → ℕ → ℕ → Bool)
    → all_below 16 (λ n. all_below 8 (λ k. all_below 256 (p n k))) ≡ true
    → (n k x : ℕ) → n < 16
    → k < 8
    → x < 256
    → p n k x ≡ true
table_sound p t n k x hn hk hx =
    all_below_sound 256 (p n k) x
      (all_below_sound 8 (λ k. all_below 256 (p n k)) k
        (all_below_sound 16 (λ n. all_below 8 (λ k. all_below 256 (p n k))) n t hn) hk)
      hx

pub bit-clear_bit :
    (n k x : ℕ) → n < 16 → k < 8 → x < 256 → bit (clear_bit x n) k ≡ (if k == n then 0 else bit x k)
bit-clear_bit n k x hn hk hx = ==→eq _ _ (table_sound clear_ok clear_table n k x hn hk hx)

pub bit-set_bit :
    (n k x : ℕ) → n < 16 → k < 8 → x < 256 → bit (set_bit x n) k ≡ (if k == n then 1 else bit x k)
bit-set_bit n k x hn hk hx = ==→eq _ _ (table_sound set_ok set_table n k x hn hk hx)
