-- ===== src/LibString/Copy.antt =====
-- What `strlen` counts and what `strcpy` and `strncpy` write.
use ece391_mp.Prelude.{ℕ, zero, suc, ◌+◌, ◌≤◌, ◌<◌, ◌≡◌, refl, arith, some, ltb, if◌then◌else◌}
use ece391_mp.Prelude.Memory.{Memory, store, IsString, Disjoint}
use ece391_mp.CharUtil.Loops.{Outside}
use ece391_mp.LibString.{strlen_loop, strlen, pad_loop, strncpy_loop, strncpy}

strlen_loop-eos :
    (fuel m_len : ℕ) (m : Memory) (s n : ℕ)
    → IsString m s n
    → m_len ≤ n
    → n < m_len + fuel
    → strlen_loop fuel m s m_len ≡ some n
unfolding strlen_loop
strlen_loop-eos zero i m s n str le f = absurd (omega arith)
strlen_loop-eos (suc fuel) i m s n str le f =
    ground (arith, str.body i, str.eos, strlen_loop-eos fuel (i + 1) m s n str)

-- With fuel for the string `strlen` returns the index of its NUL.
pub strlen_lem :
    (fuel : ℕ) (m : Memory) (s n : ℕ) → IsString m s n → n < fuel → strlen fuel m s ≡ some n
unfolding strlen
strlen_lem fuel m s n str f = strlen_loop-eos fuel 0 m s n str (omega arith) (omega arith)

pad_loop_frame :
    (r i : ℕ) (m : Memory) (dest a : ℕ) → Outside a (dest + i) r → pad_loop r i m dest a ≡ m a
unfolding pad_loop
pad_loop_frame zero i m dest a out = refl
pad_loop_frame (suc r) i m dest a out =
    ground (arith, pad_loop_frame r (i + 1) (store m (dest + i) 0) dest a)

pad_loop_zero :
    (r i j : ℕ) (m : Memory) (dest : ℕ) → i ≤ j → j < i + r → pad_loop r i m dest (dest + j) ≡ 0
unfolding pad_loop
pad_loop_zero zero i j m dest lo hi = absurd (omega arith)
pad_loop_zero (suc r) i j m dest lo hi = ground (
  arith,
  pad_loop_frame r (i + 1) (store m (dest + i) 0) dest (dest + j),
  pad_loop_zero r (i + 1) j (store m (dest + i) 0) dest,
)

strncpy_loop_frame :
    (r i : ℕ) (m : Memory) (dest src a : ℕ)
    → Outside a (dest + i) r
    → strncpy_loop r i m dest src a ≡ m a
unfolding strncpy_loop
strncpy_loop_frame zero i m dest src a out = refl
strncpy_loop_frame (suc r) i m dest src a out = ground (
  arith,
  pad_loop_frame (suc r) i m dest a,
  strncpy_loop_frame r (i + 1) (store m (dest + i) (m (src + i))) dest src a,
)

IsString-store :
    (m : Memory) (s k a v : ℕ) → IsString m s k → Outside a s (suc k) → IsString (store m a v) s k
IsString-store m s k a v str out = record {
  body = λ i p. ground (arith, str.body i);
  eos = ground (arith, str.eos);
}

strncpy_loop_copies :
    (r i j k : ℕ) (m : Memory) (dest src : ℕ)
    → IsString m src k
    → Disjoint src (suc k) dest (i + r)
    → i ≤ k
    → i ≤ j
    → j < i + r
    → strncpy_loop r i m dest src (dest + j) ≡ (if ltb j k then m (src + j) else 0)
unfolding strncpy_loop
strncpy_loop_copies zero i j k m dest src str apart le lo hi = absurd (omega arith)
strncpy_loop_copies (suc r) i j k m dest src str apart le lo hi =
    let m' : Memory = store m (dest + i) (m (src + i)) in
    let str' : IsString m' src k =
      IsString-store m src k (dest + i) (m (src + i)) str (ground arith) in
    ground (
      arith,
      str.body i,
      str.eos,
      pad_loop_zero (suc r) i j m dest,
      strncpy_loop_frame r (i + 1) m' dest src (dest + j),
      strncpy_loop_copies r (i + 1) j k m' dest src str',
    )

module _ (m : Memory) (dest src k : ℕ) (str : IsString m src k) where
  -- `strncpy` fills all `n` bytes of a destination that does not meet the string: with the first bytes
  -- of the string, and NULs behind its end. It writes no other byte, so a string of `n` bytes or more
  -- has no NUL there.
  pub strncpy_lem :
      (n : ℕ)
      → Disjoint src (suc k) dest n
      → ((j : ℕ) → j < n → strncpy m dest src n (dest + j) ≡ (if ltb j k then m (src + j) else 0))
        × ((a : ℕ) → Outside a dest n → strncpy m dest src n a ≡ m a)
  unfolding strncpy
  strncpy_lem n apart = (
    λ j lt.
        strncpy_loop_copies n 0 j k m dest src str (omega arith) (omega arith) (omega arith)
          (omega arith),
    λ a out. strncpy_loop_frame n 0 m dest src a (omega arith),
  )
