-- ===== src/CharUtil/Length.antt =====
-- `string_length` finds the first NUL, up to its limit of a million bytes.
use ece391_mp.Prelude.{ℕ, zero, suc, ◌+◌, ◌≤◌, ◌≡◌, ◌≢◌, refl, arith}
use ece391_mp.Prelude.Words.{minus_one}
use ece391_mp.Prelude.Memory.{Memory, IsString}
use ece391_mp.CharUtil.{max_count, length_loop, string_length}

length_loop_lem :
    (k : ℕ) (m : Memory) (s count n : ℕ)
    → IsString m s n
    → count ≤ n
    → n ≤ max_count
    → count + k ≡ suc max_count
    → length_loop k m s count ≡ n
unfolding length_loop
length_loop_lem zero m s count n str le fits e = absurd (omega arith)
length_loop_lem (suc k) m s count n str le fits e =
    ground (arith, str.body count, str.eos, length_loop_lem k m s (count + 1) n str)

length_loop_unterminated :
    (k : ℕ) (m : Memory) (s count : ℕ)
    → ((i : ℕ) → i ≤ max_count → m (s + i) ≢ 0)
    → count + k ≡ suc max_count
    → length_loop k m s count ≡ minus_one
unfolding length_loop
length_loop_unterminated zero m s count full e = refl
length_loop_unterminated (suc k) m s count full e =
    ground (arith, full count, length_loop_unterminated k m s (count + 1) full)

-- The length of a string of at most a million bytes is the index of its NUL.
pub string_length_lem :
    (m : Memory) (s n : ℕ) → s ≢ 0 → IsString m s n → n ≤ max_count → string_length m s ≡ n
unfolding string_length
string_length_lem m s n ne str fits = ground (arith, length_loop_lem (suc max_count) m s 0 n str)

-- A pointer to more than a million bytes that are not NUL has the length -1.
pub string_length_unterminated :
    (m : Memory) (s : ℕ)
    → s ≢ 0
    → ((i : ℕ) → i ≤ max_count → m (s + i) ≢ 0)
    → string_length m s ≡ minus_one
unfolding string_length
string_length_unterminated m s ne full =
    ground (arith, length_loop_unterminated (suc max_count) m s 0 full)
