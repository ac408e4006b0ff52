-- ===== src/Process/Count.antt =====
-- The counts that add_process makes, against the table of process ids.
use ece391_mp.Prelude.{
  ℕ, zero, suc, ◌+◌, ◌≤◌, ◌<◌, ◌≡◌, ◌≢◌, inl, inr, refl, arith, ◌==◌, if◌then◌else◌, eq_cases,
}
use ece391_mp.Prelude.Words.{minus_one, is_neg}
use ece391_mp.Prelude.Memory.{store}
use ece391_mp.Process.{Procs, count_loop, virt_loop}

-- How many of the `rounds` processes from `i` on run in terminal `t`.
unfoldable pub occ : ℕ → ℕ → (ℕ → ℕ) → ℕ → ℕ
occ zero i term_procs t = 0
occ (suc rounds) i term_procs t =
    (if term_procs i == t then 1 else 0) + occ rounds (i + 1) term_procs t

-- How many of the `rounds` process ids from `i` on are taken.
unfoldable pub used : ℕ → ℕ → (ℕ → ℕ) → ℕ
used zero i procs = 0
used (suc rounds) i procs = (if procs i == 0 then 0 else 1) + used rounds (i + 1) procs

-- The processes of terminal `t`.
abbrev pub in_term : Procs → ℕ → ℕ
in_term s t = occ 6 0 s.term_procs t

-- A terminal without a process keeps one process id for itself.
unfoldable pub at_least_one : ℕ → ℕ
at_least_one zero = 1
at_least_one (suc n) = suc n

abbrev pub reserved : Procs → ℕ
reserved s = at_least_one (in_term s 0) + at_least_one (in_term s 1) + at_least_one (in_term s 2)

-- A taken process id has a terminal and a free one has none, and no terminal can be shut out: the
-- processes and the ids kept for terminals without one are no more than the ids.
pub record Valid (s : Procs) : Type 0 where
  pub free : (i : ℕ) → i < 6 → s.procs i ≡ 0 → s.term_procs i ≡ minus_one
  pub taken : (i : ℕ) → i < 6 → s.procs i ≢ 0 → s.term_procs i < 3
  pub fits : reserved s ≤ 6

pub count_loop-occ :
    (rounds i t : ℕ) (tp num : ℕ → ℕ)
    → t < 3
    → count_loop rounds i tp num t ≡ num t + occ rounds i tp t
unfolding count_loop occ
count_loop-occ zero i t tp num h = omega arith
count_loop-occ (suc r) i t tp num h =
    let next : ℕ → ℕ = if is_neg (tp i) then num else store num (tp i) (num (tp i) + 1) in
    ground (arith, count_loop-occ r (i + 1) t tp next h)

pub virt_loop-reserved :
    (num : ℕ → ℕ)
    → virt_loop 3 0 num 0 ≡ at_least_one (num 0) + at_least_one (num 1) + at_least_one (num 2)
unfolding virt_loop at_least_one
virt_loop-reserved num = ground arith

-- Every taken process id is counted in one terminal.
pub used-occ :
    (rounds i : ℕ) (procs tp : ℕ → ℕ)
    → ((j : ℕ) → i ≤ j → j < i + rounds → procs j ≡ 0 → tp j ≡ minus_one)
    → ((j : ℕ) → i ≤ j → j < i + rounds → procs j ≢ 0 → tp j < 3)
    → used rounds i procs ≡ occ rounds i tp 0 + occ rounds i tp 1 + occ rounds i tp 2
unfolding used occ
used-occ zero i procs tp free taken = refl
used-occ (suc r) i procs tp free taken = ground (
  arith,
  free i,
  taken i,
  used-occ r (i + 1) procs tp (λ j lo hi. free j (omega arith) (omega arith))
      (λ j lo hi. taken j (omega arith) (omega arith)),
)

module _ (tp : ℕ → ℕ) (p v t : ℕ) where
  occ-store_before : (rounds i : ℕ) → p < i → occ rounds i (store tp p v) t ≡ occ rounds i tp t
  unfolding occ
  occ-store_before zero i h = refl
  occ-store_before (suc r) i h = ground (arith, occ-store_before r (i + 1) (omega arith))

  -- A new terminal for a process counts there, and no longer in the old one.
  pub occ-store :
      (rounds i : ℕ)
      → i ≤ p
      → p < i + rounds
      → occ rounds i (store tp p v) t + (if tp p == t then 1 else 0)
        ≡ occ rounds i tp t + (if v == t then 1 else 0)
  unfolding occ
  occ-store zero i lo hi = omega arith
  occ-store (suc r) i lo hi = elim (eq_cases p i) [
    | inl e ↦ ground (arith, occ-store_before r (i + 1))
    | inr n ↦ ground (arith, occ-store r (i + 1) (omega arith) (omega arith))
  ]
