-- ===== src/Process/Keep.antt =====
-- add_process and delete_process keep the process table valid.
use ece391_mp.Prelude.{
  ℕ, ◌+◌, ◌≤◌, ◌<◌, ◌≡◌, ◌⊎◌, inl, inr, arith, ◌==◌, if◌then◌else◌, eq_cases, lt_cases, fun_ext,
}
use ece391_mp.Prelude.Words.{sub32, minus_one}
use ece391_mp.Prelude.Memory.{store}
use ece391_mp.Process.{Procs, take_pid, remove_term_process, add_process, delete_process}
use ece391_mp.Process.Count.{occ, in_term, at_least_one, reserved, Valid, occ-store}
use ece391_mp.Process.Add.{three_cases, add_process_refuses, add_process-Added}

store_twice : (m : ℕ → ℕ) (a w : ℕ) → store (store m a w) a w ≡ store m a w
store_twice m a w = fun_ext (λ b. ground arith)

-- `s` without the process `pid`, as `delete_process` leaves it.
abbrev pub drop_pid : ℕ → Procs → Procs
drop_pid pid s = record s {
  procs = store s.procs pid 0;
  term_procs = store s.term_procs pid minus_one;
  process_count = sub32 s.process_count 1;
  running_procs = store s.running_procs s.display_terminal (s.parent pid);
}

pub delete_process_lem :
    (pid : ℕ) (s : Procs) → pid < 6 → delete_process pid s ≡ (drop_pid pid s, 0)
unfolding delete_process remove_term_process
delete_process_lem pid s b = ground (arith, store_twice s.term_procs pid minus_one)

module _ (s : Procs) (v : Valid s) where
  moved :
      (pid : ℕ)
      → pid < 6
      → (w t : ℕ)
      → occ 6 0 (store s.term_procs pid w) t + (if s.term_procs pid == t then 1 else 0)
        ≡ occ 6 0 s.term_procs t + (if w == t then 1 else 0)
  moved pid b w t = occ-store s.term_procs pid w t 6 0 (omega arith) b

  module _ (rt : s.running_terminal < 3) where
    take_pid-Valid :
        (pid : ℕ)
        → pid < 6
        → s.procs pid ≡ 0
        → (in_term s s.running_terminal ≡ 0) ⊎ (reserved s < 6)
        → Valid (take_pid pid s)
    unfolding at_least_one
    take_pid-Valid pid b f h = record {
      free = λ i lt z. ground (arith, v.free i lt);
      taken = λ i lt n. ground (arith, v.taken i lt);
      fits = ground (
        arith,
        moved pid b s.running_terminal 0,
        moved pid b s.running_terminal 1,
        moved pid b s.running_terminal 2,
        v.free pid b f,
        v.fits,
        three_cases s.running_terminal rt,
      );
    }

    added : (in_term s s.running_terminal ≡ 0) ⊎ (reserved s < 6) → Valid (add_process s).0
    added h =
        let a = add_process-Added s v rt h in
        rw (a.result) (take_pid-Valid (add_process s).1 a.bound a.free h)

    -- Whether it gives a process id or refuses one, a valid process table stays valid: a terminal
    -- without a process can still get one.
    pub add_process-Valid : Valid (add_process s).0
    add_process-Valid = elim (eq_cases (in_term s s.running_terminal) 0) [
      | inl z ↦ added (inl z)
      | inr n ↦ elim (lt_cases (reserved s) 6) [
        | inl lt ↦ added (inr lt)
        | inr ge ↦
            let full : reserved s ≡ 6 = omega (arith, v.fits) in
            rw (add_process_refuses s v rt n full) v
      ]
    ]

  drop_pid-Valid : (pid : ℕ) → pid < 6 → Valid (drop_pid pid s)
  unfolding at_least_one
  drop_pid-Valid pid lt = record {
    free = λ i b z. ground (arith, v.free i b);
    taken = λ i b n. ground (arith, v.taken i b);
    fits = ground (
      arith,
      moved pid lt minus_one 0,
      moved pid lt minus_one 1,
      moved pid lt minus_one 2,
      v.fits,
    );
  }

  out_of_range : (pid : ℕ) → 6 ≤ pid → delete_process pid s ≡ (s, minus_one)
  unfolding delete_process
  out_of_range pid ge = ground arith

  -- Every process id, also one that is out of range or free.
  pub delete_process-Valid : (pid : ℕ) → Valid (delete_process pid s).0
  delete_process-Valid pid = elim (lt_cases pid 6) [
    | inl lt ↦ rw (delete_process_lem pid s lt) (drop_pid-Valid pid lt)
    | inr ge ↦ rw (out_of_range pid ge) v
  ]
