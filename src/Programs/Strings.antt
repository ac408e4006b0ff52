-- ===== src/Programs/Strings.antt =====
-- ece391_strcmp of syscalls/ece391support.c.
use ece391_mp.Prelude.{ℕ, zero, suc, ◌+◌, ◌≤◌, ◌<◌, ◌≡◌, inl, inr, refl, arith, some, eq_cases}
use ece391_mp.Prelude.Words.{sub32}
use ece391_mp.Prelude.Memory.{Memory, IsString}
use ece391_mp.Programs.{ece391_strcmp}

-- Every byte is below 256.
abbrev pub IsBytes : Memory → Type 0
IsBytes m = (a : ℕ) → m a < 256

-- The first bytes at two addresses are the same, up to the index `n` and with it.
abbrev pub SameUpTo : Memory → ℕ → ℕ → ℕ → Type 0
SameUpTo m s1 s2 n = (i : ℕ) → i ≤ n → m (s1 + i) ≡ m (s2 + i)

module _ (m : Memory) (small : IsBytes m) where
  tail-IsString : (s n : ℕ) → IsString m s (suc n) → IsString m (s + 1) n
  tail-IsString s n str = record {
    body = λ i lt. ground (arith, str.body (suc i));
    eos = ground (arith, str.eos);
  }

  SameUpTo-suc :
      (s1 s2 n : ℕ) → m s1 ≡ m s2 → SameUpTo m (s1 + 1) (s2 + 1) n → SameUpTo m s1 s2 (suc n)
  SameUpTo-suc s1 s2 n e h zero le = ground (arith, e)
  SameUpTo-suc s1 s2 n e h (suc i) le = ground (arith, h i)

  SameUpTo-tail : (s1 s2 n : ℕ) → SameUpTo m s1 s2 (suc n) → SameUpTo m (s1 + 1) (s2 + 1) n
  SameUpTo-tail s1 s2 n h i le = ground (arith, h (suc i))

  -- With fuel for the second string ece391_strcmp returns, and the result is 0 exactly when the first
  -- string is the same.
  pub ece391_strcmp_decides :
      (fuel n s1 s2 : ℕ)
      → IsString m s2 n
      → n < fuel
      → (c : ℕ) × (ece391_strcmp fuel m s1 s2 ≡ some c)
        × (c ≡ 0 → SameUpTo m s1 s2 n)
        × (SameUpTo m s1 s2 n → c ≡ 0)
  unfolding ece391_strcmp
  ece391_strcmp_decides zero n s1 s2 str lt = absurd (omega arith)
  ece391_strcmp_decides (suc fuel) zero s1 s2 str lt =
      let end : m s2 ≡ 0 = ground (arith, str.eos) in
      elim (eq_cases (m s1) 0) [
        | inl same ↦ (0, ground arith, λ z i le. ground arith, λ _. refl)
        | inr differ ↦ (
          sub32 (m s1) (m s2),
          ground arith,
          λ z. absurd (omega (arith, small s1, small s2)),
          λ same. absurd (ground (arith, same 0)),
        )
      ]
  ece391_strcmp_decides (suc fuel) (suc n) s1 s2 str lt = elim (eq_cases (m s1) (m s2)) [
    | inr differ ↦ (
      sub32 (m s1) (m s2),
      ground arith,
      λ z. absurd (omega (arith, small s1, small s2)),
      λ same. absurd (ground (arith, same 0)),
    )
    | inl same ↦
        let (c, e, f, g) =
          ece391_strcmp_decides fuel n (s1 + 1) (s2 + 1) (tail-IsString s2 n str) (omega arith) in
        (
          c,
          ground (arith, str.body 0),
          λ z. SameUpTo-suc s1 s2 n same (f z),
          λ h. g (SameUpTo-tail s1 s2 n h),
        )
  ]
