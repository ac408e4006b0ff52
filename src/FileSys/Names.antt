-- ===== src/FileSys/Names.antt =====
-- What the inner loop of `read_dentry_by_name` compares.
use ece391_mp.Prelude.{
  ℕ, zero, suc, ◌+◌, ◌-◌, ◌≤◌, ◌<◌, ◌≡◌, ◌≢◌, ◌⊎◌, inl, inr, refl, arith, true, false, eq_cases,
  lt_cases,
}
use ece391_mp.Prelude.Memory.{Memory}
use ece391_mp.FileSys.{Dentry, name_loop, fname_max_len}

-- The two names agree up to a NUL in both, or in all of the 32 bytes that an entry has for its name.
abbrev pub Matches : Dentry → Memory → ℕ → Type 0
Matches d m fname =
    (k : ℕ) × (k < fname_max_len)
    × ((j : ℕ) → j ≤ k → d j ≡ m (fname + j))
    × ((d k ≡ 0) ⊎ (k ≡ fname_max_len - 1))

-- They differ at a byte before which neither has ended.
abbrev pub Differs : Dentry → Memory → ℕ → Type 0
Differs d m fname =
    (k : ℕ) × (k < fname_max_len) × ((j : ℕ) → j < k → d j ≢ 0) × (d k ≢ m (fname + k))

-- Not both, so the two descriptions are decided by one test.
pub Differs-not_Matches :
    (d : Dentry) (m : Memory) (fname : ℕ) → Differs d m fname → ¬ Matches d m fname
Differs-not_Matches d m fname (k, lt, going, ne) (k', lt', same, ends) = elim (lt_cases k' k) [
  | inl before ↦ ground (arith, going k')
  | inr after ↦ ne (same k after)
]

module _ (d : Dentry) (m : Memory) (fname : ℕ) where
  name_loop_lem :
      (r j : ℕ)
      → j + r ≡ fname_max_len
      → 0 < r
      → ((i : ℕ) → i < j → d i ≡ m (fname + i))
      → ((i : ℕ) → i < j → d i ≢ 0)
      → ((name_loop r j d m fname ≡ true) × Matches d m fname)
        ⊎ ((name_loop r j d m fname ≡ false) × Differs d m fname)
  unfolding name_loop
  name_loop_lem zero j e pos same going = absurd (omega arith)
  name_loop_lem (suc r) j e pos same going = elim (eq_cases (d j) (m (fname + j))) [
    | inr ne ↦ inr (ground arith, (j, omega arith, going, ne))
    | inl eq ↦ elim (eq_cases (d j) 0) [
      | inl z ↦ inl (ground arith, (j, omega arith, upto j same eq, inl z))
      | inr nz ↦ elim (eq_cases j 31) [
        | inl last ↦ inl (ground arith, (j, omega arith, upto j same eq, inr last))
        | inr more ↦ ground (
          arith,
          name_loop_lem r (j + 1) (omega arith) (omega arith) (below_snoc j same eq)
              (below_ne j going nz),
        )
      ]
    ]
  ]
    where
      upto :
          (j : ℕ)
          → ((i : ℕ) → i < j → d i ≡ m (fname + i))
          → d j ≡ m (fname + j)
          → (i : ℕ) → i ≤ j
          → d i ≡ m (fname + i)
      upto j h e i le = elim (lt_cases i j) [ inl l ↦ h i l | inr g ↦ ground arith ]

      below_snoc :
          (j : ℕ)
          → ((i : ℕ) → i < j → d i ≡ m (fname + i))
          → d j ≡ m (fname + j)
          → (i : ℕ) → i < j + 1
          → d i ≡ m (fname + i)
      below_snoc j h e i le = elim (lt_cases i j) [ inl l ↦ h i l | inr g ↦ ground arith ]

      below_ne : (j : ℕ) → ((i : ℕ) → i < j → d i ≢ 0) → d j ≢ 0 → (i : ℕ) → i < j + 1 → d i ≢ 0
      below_ne j h e i le = elim (lt_cases i j) [ inl l ↦ h i l | inr g ↦ ground arith ]

  pub name_loop_decides :
      ((name_loop fname_max_len 0 d m fname ≡ true) × Matches d m fname)
      ⊎ ((name_loop fname_max_len 0 d m fname ≡ false) × ¬ Matches d m fname)
  name_loop_decides = weaken (
      name_loop_lem fname_max_len 0 refl (omega arith) (λ i p. absurd (omega arith))
        (λ i p. absurd (omega arith)))
    where
      weaken :
          ((name_loop fname_max_len 0 d m fname ≡ true) × Matches d m fname)
            ⊎ ((name_loop fname_max_len 0 d m fname ≡ false) × Differs d m fname)
          → ((name_loop fname_max_len 0 d m fname ≡ true) × Matches d m fname)
            ⊎ ((name_loop fname_max_len 0 d m fname ≡ false) × ¬ Matches d m fname)
      weaken (inl h) = inl h
      weaken (inr (e, h)) = inr (e, Differs-not_Matches d m fname h)
