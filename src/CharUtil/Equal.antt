-- ===== src/CharUtil/Equal.antt =====
-- `string_equal` decides whether two strings hold the same bytes.
use ece391_mp.Prelude.{
  ℕ, zero, suc, ◌+◌, ◌≤◌, ◌<◌, ◌≡◌, ◌≢◌, ◌⊎◌, inl, inr, arith, some, eq_cases, lt_cases,
}
use ece391_mp.Prelude.Memory.{Memory, IsString, IsString-end}
use ece391_mp.CharUtil.{equal_loop, string_equal}

-- Two strings of the lengths `n` and `k` hold the same bytes.
pub record SameString (m : Memory) (s1 n s2 k : ℕ) : Type 0 where
  pub lengths : n ≡ k
  pub same : (i : ℕ) → i < n → m (s1 + i) ≡ m (s2 + i)

module _ (m : Memory) (s1 s2 n k : ℕ) (str1 : IsString m s1 n) (str2 : IsString m s2 k) where
  extend :
      (i : ℕ)
      → ((j : ℕ) → j < i → m (s1 + j) ≡ m (s2 + j))
      → m (s1 + i) ≡ m (s2 + i)
      → (j : ℕ) → j < i + 1
      → m (s1 + j) ≡ m (s2 + j)
  extend i before e j lt = elim (lt_cases j i) [ inl l ↦ before j l | inr g ↦ ground arith ]

  equal_loop_lem :
      (fuel i : ℕ)
      → i ≤ n
      → i ≤ k
      → n < i + fuel
      → ((j : ℕ) → j < i → m (s1 + j) ≡ m (s2 + j))
      → ((equal_loop fuel m s1 s2 i ≡ some 1) × SameString m s1 n s2 k)
        ⊎ ((equal_loop fuel m s1 s2 i ≡ some 0) × ¬ SameString m s1 n s2 k)
  unfolding equal_loop
  equal_loop_lem zero i p q f before = absurd (omega arith)
  equal_loop_lem (suc fuel) i p q f before = elim (eq_cases (m (s1 + i)) 0) [
    | inl z1 ↦ elim (eq_cases (m (s2 + i)) 0) [
      | inl z2 ↦ inl (
        ground arith,
        record {
          lengths = omega (arith, IsString-end m s1 n i str1 p z1, IsString-end m s2 k i str2 q z2);
          same = λ j l. before j (omega (arith, IsString-end m s1 n i str1 p z1));
        },
      )
      | inr n2 ↦ inr (
        ground arith,
        λ ss. ground (arith, ss.lengths, str2.eos, IsString-end m s1 n i str1 p z1),
      )
    ]
    | inr n1 ↦ elim (eq_cases (m (s2 + i)) 0) [
      | inl z2 ↦ inr (
        ground arith,
        λ ss. ground (arith, ss.lengths, str1.eos, IsString-end m s2 k i str2 q z2),
      )
      | inr n2 ↦ elim (eq_cases (m (s1 + i)) (m (s2 + i))) [
        | inl e ↦ ground (
          arith,
          str1.eos,
          str2.eos,
          equal_loop_lem fuel (i + 1) (ground (arith, str1.eos)) (ground (arith, str2.eos))
              (omega arith) (extend i before e),
        )
        | inr d ↦ inr (ground arith, λ ss. d (ss.same i (ground (arith, str1.eos))))
      ]
    ]
  ]

  -- With fuel for the first string, `string_equal` returns 1 when the two strings hold the same bytes and 0 when
  -- they do not.
  pub string_equal_decides :
      (fuel : ℕ)
      → s1 ≢ 0
      → s2 ≢ 0
      → n < fuel
      → ((string_equal fuel m s1 s2 ≡ some 1) × SameString m s1 n s2 k)
        ⊎ ((string_equal fuel m s1 s2 ≡ some 0) × ¬ SameString m s1 n s2 k)
  unfolding string_equal
  string_equal_decides fuel a b f = ground (
    arith,
    equal_loop_lem fuel 0 (omega arith) (omega arith) (omega arith) (λ j p. absurd (omega arith)),
  )
