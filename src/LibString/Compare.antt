-- ===== src/LibString/Compare.antt =====
-- What `strncmp` decides.
use ece391_mp.Prelude.{ℕ, zero, suc, ◌+◌, ◌≤◌, ◌<◌, ◌≡◌, ◌≢◌, ◌⊎◌, inl, inr, refl, arith, eq_cases}
use ece391_mp.Prelude.Memory.{Memory}
use ece391_mp.LibString.{strncmp_loop, strncmp}

-- The two agree from `i` up to `hi`, or up to a NUL in both.
abbrev pub Agree : Memory → ℕ → ℕ → ℕ → ℕ → Type 0
Agree m s1 s2 i hi =
    (j : ℕ) → i ≤ j → j < hi → ((l : ℕ) → i ≤ l → l < j → m (s1 + l) ≢ 0) → m (s1 + j) ≡ m (s2 + j)

module _ (m : Memory) (s1 s2 : ℕ) (byte : (a : ℕ) → m a < 256) where
  Decided : ℕ → ℕ → ℕ → Type 0
  Decided i hi r = ((r ≡ 0) × Agree m s1 s2 i hi) ⊎ ((r ≢ 0) × ¬ Agree m s1 s2 i hi)

  extend : (i hi : ℕ) → m (s1 + i) ≡ m (s2 + i) → Agree m s1 s2 (i + 1) hi → Agree m s1 s2 i hi
  extend i hi same h j lo up before = elim (eq_cases i j) [
    | inl e ↦ rw (← e) same
    | inr ne ↦ h j (omega arith) up (λ l lo' up'. before l (omega arith) up')
  ]

  narrow : (i hi : ℕ) → m (s1 + i) ≢ 0 → Agree m s1 s2 i hi → Agree m s1 s2 (i + 1) hi
  narrow i hi going h j lo up before = h j (omega arith) up (λ l lo' up'. elim (eq_cases i l) [
    | inl e ↦ rw (← e) going
    | inr ne ↦ before l (omega arith) up'
  ])

  Decided-next :
      (i hi r : ℕ)
      → m (s1 + i) ≡ m (s2 + i)
      → m (s1 + i) ≢ 0
      → Decided (i + 1) hi r
      → Decided i hi r
  unfolding Decided
  Decided-next i hi r same going (inl (z, h)) = inl (z, extend i hi same h)
  Decided-next i hi r same going (inr (n, h)) = inr (n, λ agree. h (narrow i hi going agree))

  next_byte :
      (r i : ℕ)
      → m (s1 + i) ≡ m (s2 + i)
      → m (s1 + i) ≢ 0
      → strncmp_loop (suc r) i m s1 s2 ≡ strncmp_loop r (i + 1) m s1 s2
  unfolding strncmp_loop
  next_byte r i same going = ground arith

  strncmp_loop_lem : (r i hi : ℕ) → i + r ≡ hi → Decided i hi (strncmp_loop r i m s1 s2)
  unfolding strncmp_loop Decided
  strncmp_loop_lem zero i hi end = inl (refl, λ j lo up before. absurd (omega arith))
  strncmp_loop_lem (suc r) i hi end = elim (eq_cases (m (s1 + i)) (m (s2 + i))) [
    | inr ne ↦ inr (
      ground (arith, byte (s1 + i), byte (s2 + i)),
      λ agree. ne (agree i (omega arith) (omega arith) (λ l lo up. absurd (omega arith))),
    )
    | inl same ↦ elim (eq_cases (m (s1 + i)) 0) [
      | inl z ↦ inl (
        ground arith,
        λ j lo up before. elim (eq_cases i j) [
          | inl e ↦ rw (← e) same
          | inr ne ↦ absurd (before i (omega arith) (omega arith) z)
        ],
      )
      | inr going ↦
          rw (next_byte r i same going)
            (Decided-next i hi _ same going (strncmp_loop_lem r (i + 1) hi (omega arith)))
    ]
  ]

  -- On bytes `strncmp` returns 0 when the two agree in their first `n` bytes, up to a NUL in both, and
  -- another number when they do not.
  pub strncmp_decides :
      (n : ℕ)
      → ((strncmp m s1 s2 n ≡ 0) × Agree m s1 s2 0 n)
        ⊎ ((strncmp m s1 s2 n ≢ 0) × ¬ Agree m s1 s2 0 n)
  unfolding strncmp Decided
  strncmp_decides n = strncmp_loop_lem n 0 n (omega arith)
