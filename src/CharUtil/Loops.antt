-- ===== src/CharUtil/Loops.antt =====
-- What the copy loops of char_util.c write, and what they leave alone.
use ece391_mp.Prelude.{ℕ, zero, suc, ◌+◌, ◌-◌, ◌≤◌, ◌<◌, ◌≡◌, ◌⊎◌, refl, arith}
use ece391_mp.Prelude.Memory.{Memory, store, Disjoint}
use ece391_mp.CharUtil.{copy_loop, substring_loop}

-- `a` is not one of the `n` bytes from `base` on.
abbrev pub Outside : ℕ → ℕ → ℕ → Type 0
Outside a base n = (a < base) ⊎ (base + n ≤ a)

pub copy_loop_frame :
    (k i : ℕ) (m : Memory) (source dest a : ℕ)
    → Outside a (dest + i) k
    → copy_loop k i m source dest a ≡ m a
unfolding copy_loop
copy_loop_frame zero i m source dest a out = refl
copy_loop_frame (suc k) i m source dest a out =
    ground (arith, copy_loop_frame k (i + 1) (store m (dest + i) (m (source + i))) source dest a)

pub copy_loop_copies :
    (k i j : ℕ) (m : Memory) (source dest : ℕ)
    → Disjoint source (i + k) dest (i + k)
    → i ≤ j
    → j < i + k
    → copy_loop k i m source dest (dest + j) ≡ m (source + j)
unfolding copy_loop
copy_loop_copies zero i j m source dest apart lo hi = absurd (omega arith)
copy_loop_copies (suc k) i j m source dest apart lo hi = ground (
  arith,
  copy_loop_frame k (i + 1) (store m (dest + i) (m (source + i))) source dest (dest + j),
  copy_loop_copies k (i + 1) j (store m (dest + i) (m (source + i))) source dest,
)

pub substring_loop_frame :
    (k start i : ℕ) (m : Memory) (s buf a : ℕ)
    → start ≤ i
    → Outside a (buf + (i - start)) k
    → substring_loop k start i m s buf a ≡ m a
unfolding substring_loop
substring_loop_frame zero start i m s buf a le out = refl
substring_loop_frame (suc k) start i m s buf a le out =
    ground (
      arith,
      substring_loop_frame k start (i + 1) (store m (buf + (i - start)) (m (s + i))) s buf a,
    )

pub substring_loop_copies :
    (k start i j : ℕ) (m : Memory) (s buf : ℕ)
    → Disjoint s (i + k) buf (i + k - start)
    → start ≤ i
    → i ≤ j
    → j < i + k
    → substring_loop k start i m s buf (buf + (j - start)) ≡ m (s + j)
unfolding substring_loop
substring_loop_copies zero start i j m s buf apart le lo hi = absurd (omega arith)
substring_loop_copies (suc k) start i j m s buf apart le lo hi = ground (
  arith,
  substring_loop_frame k start (i + 1) (store m (buf + (i - start)) (m (s + i))) s buf
      (buf + (j - start)),
  substring_loop_copies k start (i + 1) j (store m (buf + (i - start)) (m (s + i))) s buf,
)
