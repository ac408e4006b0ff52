-- ===== src/Process/Tests.antt =====
-- Shells in the terminals 0 and 1, and the table with the process ids that the others leave all taken.
use ece391_mp.Prelude.{ℕ, ◌-◌, ◌≡◌, ◌≢◌, inl, refl, arith, ltb, leb, ◌==◌, if◌then◌else◌}
use ece391_mp.Prelude.Words.{minus_one}
use ece391_mp.Process.{Procs, add_process, delete_process}
use ece391_mp.Process.Count.{occ, at_least_one, in_term, reserved, Valid}
use ece391_mp.Process.Add.{Added, add_process_refuses, add_process-Added}
use ece391_mp.Process.Keep.{add_process-Valid, delete_process-Valid}

-- The first `n` process ids are taken, the first by terminal 1 and the others by terminal 0.
abbrev first : ℕ → ℕ → ℕ → Procs
first n display running = record {
  display_terminal = display;
  running_terminal = running;
  procs = λ i. if ltb i n then 1 else 0;
  term_procs = λ i. if leb n i then minus_one else if i == 0 then 1 else 0;
  running_procs = λ t. if t == 0 then n - 1 else if t == 1 then 0 else minus_one;
  parent = λ i. minus_one;
  process_count = n;
}

two-Valid : (d r : ℕ) → Valid (first 2 d r)
unfolding occ at_least_one
two-Valid d r = record {
  free = λ i lt z. ground arith;
  taken = λ i lt n. ground arith;
  fits = omega arith;
}

five-Valid : (d r : ℕ) → Valid (first 5 d r)
unfolding occ at_least_one
five-Valid d r = record {
  free = λ i lt z. ground arith;
  taken = λ i lt n. ground arith;
  fits = omega arith;
}

five_full : reserved (first 5 0 0) ≡ 6
unfolding occ at_least_one
five_full = refl

four_in_term : in_term (first 5 0 0) 0 ≢ 0
unfolding occ
four_in_term = omega arith

none_in_term : in_term (first 5 2 2) 2 ≡ 0
unfolding occ
none_in_term = refl

add_process_refused : add_process (first 5 0 0) ≡ (first 5 0 0, minus_one)
add_process_refused =
    add_process_refuses (first 5 0 0) (five-Valid 0 0) (omega arith) four_in_term five_full

add_process_third_terminal : Added (first 5 2 2) (add_process (first 5 2 2))
add_process_third_terminal =
    add_process-Added (first 5 2 2) (five-Valid 2 2) (omega arith) (inl none_in_term)

add_process-Valid_example : Valid (add_process (first 2 0 0)).0
add_process-Valid_example = add_process-Valid (first 2 0 0) (two-Valid 0 0) (omega arith)

delete_process-Valid_example : Valid (delete_process 1 (first 2 0 0)).0
delete_process-Valid_example = delete_process-Valid (first 2 0 0) (two-Valid 0 0) 1
