-- ===== src/Process/Add.antt =====
-- What add_process does to a valid process table.
use ece391_mp.Prelude.{ℕ, zero, suc, ◌+◌, ◌≤◌, ◌<◌, ◌≡◌, ◌≢◌, ◌⊎◌, refl, arith, ◌==◌, if◌then◌else◌}
use ece391_mp.Prelude.Words.{minus_one}
use ece391_mp.Process.{Procs, count_loop, virt_loop, take_pid, free_loop, add_process}
use ece391_mp.Process.Count.{
  used, in_term, at_least_one, reserved, Valid, count_loop-occ, virt_loop-reserved, used-occ,
}

unfoldable lowest : ℕ → ℕ → (ℕ → ℕ) → ℕ
lowest zero i procs = i
lowest (suc rounds) i procs = if procs i == 0 then i else lowest rounds (i + 1) procs

-- While a process id is free, the search takes the lowest one.
free_loop-lowest :
    (rounds i : ℕ) (s : Procs)
    → used rounds i s.procs < rounds
    → free_loop rounds i s ≡ (take_pid (lowest rounds i s.procs) s, lowest rounds i s.procs)
unfolding free_loop used lowest
free_loop-lowest zero i s h = elim h [ ]
free_loop-lowest (suc r) i s h = ground (arith, free_loop-lowest r (i + 1) s)

lowest_bounds :
    (rounds i : ℕ) (procs : ℕ → ℕ)
    → used rounds i procs < rounds
    → let p = lowest rounds i procs in (i ≤ p) × (p < i + rounds) × (procs p ≡ 0)
unfolding used lowest
lowest_bounds zero i procs h = elim h [ ]
lowest_bounds (suc r) i procs h = ground (arith, lowest_bounds r (i + 1) procs)

lowest_first : (rounds i j : ℕ) (procs : ℕ → ℕ) → i ≤ j → j < lowest rounds i procs → procs j ≢ 0
unfolding lowest
lowest_first zero i j procs lo hi = omega arith
lowest_first (suc r) i j procs lo hi = ground (arith, lowest_first r (i + 1) j procs)

-- `out` is `s` with the lowest free process id given to the running terminal, and that id.
pub record Added (s : Procs) (out : Procs × ℕ) : Type 0 where
  pub bound : out.1 < 6
  pub free : s.procs out.1 ≡ 0
  pub lowest : (j : ℕ) → j < out.1 → s.procs j ≢ 0
  pub result : out ≡ (take_pid out.1 s, out.1)

pub three_cases : (t : ℕ) → t < 3 → (t ≡ 0) ⊎ ((t ≡ 1) ⊎ (t ≡ 2))
three_cases t h = grind arith

guard :
    (s : Procs)
    → s.running_terminal < 3
    → virt_loop 3 0 (count_loop 6 0 s.term_procs (λ _. 0)) 0 ≡ reserved s
guard s rt =
    let num : ℕ → ℕ = count_loop 6 0 s.term_procs (λ _. 0) in
    let c : (t : ℕ) → t < 3 → num t ≡ in_term s t =
      λ t h. omega (arith, count_loop-occ 6 0 t s.term_procs (λ _. 0) h) in
    rw (virt_loop-reserved num, c 0 (omega arith), c 1 (omega arith), c 2 (omega arith)) refl

used_in_terms : (s : Procs) → Valid s → used 6 0 s.procs ≡ in_term s 0 + in_term s 1 + in_term s 2
used_in_terms s v =
    used-occ 6 0 s.procs s.term_procs (λ j _ hi. v.free j hi) (λ j _ hi. v.taken j hi)

module _ (s : Procs) (v : Valid s) (rt : s.running_terminal < 3) where
  -- A process id is refused exactly when the running terminal has a process and every other id is
  -- taken or kept for a terminal without one; nothing changes then.
  pub add_process_refuses :
      in_term s s.running_terminal ≢ 0 → reserved s ≡ 6 → add_process s ≡ (s, minus_one)
  unfolding add_process
  add_process_refuses some_proc full =
      ground (arith, guard s rt, count_loop-occ 6 0 s.running_terminal s.term_procs (λ _. 0) rt)

  room : (in_term s s.running_terminal ≡ 0) ⊎ (reserved s < 6) → used 6 0 s.procs < 6
  unfolding at_least_one
  room h = ground (arith, three_cases s.running_terminal rt, used_in_terms s v)

  allowed : (in_term s s.running_terminal ≡ 0) ⊎ (reserved s < 6) → add_process s ≡ free_loop 6 0 s
  unfolding add_process
  allowed h =
      ground (arith, guard s rt, count_loop-occ 6 0 s.running_terminal s.term_procs (λ _. 0) rt)

  -- The running terminal gets the lowest free process id when it has no process, however many the
  -- other terminals run, or when an id is left that is not kept for a terminal without a process.
  pub add_process-Added :
      (in_term s s.running_terminal ≡ 0) ⊎ (reserved s < 6) → Added s (add_process s)
  add_process-Added h =
      let pid : ℕ = lowest 6 0 s.procs in
      let (_, b, f) = lowest_bounds 6 0 s.procs (room h) in
      rw (allowed h, free_loop-lowest 6 0 s (room h))
        (record {
          bound = b;
          free = f;
          lowest = λ j lt. lowest_first 6 0 j s.procs (omega arith) lt;
          result = refl;
        })
