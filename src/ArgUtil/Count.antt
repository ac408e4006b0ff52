-- ===== src/ArgUtil/Count.antt =====
-- `get_argument_count` counts the words of the text, and `get_argument_length` measures one.
use ece391_mp.Prelude.{
  ℕ, zero, suc, ◌+◌, ◌-◌, ◌≤◌, ◌≡◌, ◌≢◌, List, [], ◌∷◌, ◌++◌, arith, length, length-append, ◌==◌,
  ltb, if◌then◌else◌,
}
use ece391_mp.Prelude.Words.{minus_one}
use ece391_mp.Prelude.Memory.{Memory, IsString, bytes, length-bytes}
use ece391_mp.CharUtil.{max_count}
use ece391_mp.CharUtil.Length.{string_length_lem}
use ece391_mp.ArgUtil.{
  Scan, start, scan_step, total, count_loop, get_argument_count, measure_loop, get_argument_length,
}
use ece391_mp.ArgUtil.Words.{
  words, words_from, word_at, is_open, word_at-cons, word_at-pos, length-words_from-le,
}

count_loop_lem :
    (r i : ℕ) (m : Memory) (s : ℕ) (sc : Scan) (run : List ℕ)
    → sc.in_arg ≡ is_open run
    → total (count_loop r i m s sc) ≡ sc.arg + length (words_from run (bytes m (s + i) r))
unfolding count_loop scan_step
count_loop_lem zero i m s sc [] e = ground arith
count_loop_lem zero i m s sc (x ∷ run) e = ground arith
count_loop_lem (suc r) i m s sc [] e = ground (
  arith,
  count_loop_lem r (i + 1) m s (scan_step (m (s + i)) sc) [],
  count_loop_lem r (i + 1) m s (scan_step (m (s + i)) sc) (m (s + i) ∷ []),
)
count_loop_lem (suc r) i m s sc (x ∷ run) e = ground (
  arith,
  count_loop_lem r (i + 1) m s (scan_step (m (s + i)) sc) [],
  count_loop_lem r (i + 1) m s (scan_step (m (s + i)) sc) (x ∷ run ++ m (s + i) ∷ []),
)

module _ (m : Memory) (s n : ℕ) (s≢ : s ≢ 0) (str : IsString m s n) (fits : n ≤ max_count) where
  -- The count is the number of words of the text, for a string of at most a million bytes.
  pub get_argument_count_lem : get_argument_count m s ≡ length (words (bytes m s n))
  unfolding get_argument_count
  get_argument_count_lem =
      ground (arith, string_length_lem m s n s≢ str, count_loop_lem n 0 m s start [])

-- The loop measures the word with the number `index` of the text that is left, `run` included.
measure_loop_lem :
    (r i : ℕ) (m : Memory) (s index : ℕ) (sc : Scan) (arg_length : ℕ) (run : List ℕ)
    → sc.in_arg ≡ is_open run
    → sc.arg ≤ index
    → arg_length ≡ (if sc.arg == index then length run else 0)
    → measure_loop r i m s index sc arg_length
      ≡ length (word_at (words_from run (bytes m (s + i) r)) (index - sc.arg))
unfolding measure_loop scan_step
measure_loop_lem zero i m s index sc arg_length [] e le a = ground arith
measure_loop_lem zero i m s index sc arg_length (x ∷ run) e le a =
    ground (arith, word_at-cons (x ∷ run) [] (index - sc.arg))
measure_loop_lem (suc r) i m s index sc arg_length [] e le a = ground (
  arith,
  measure_loop_lem r (i + 1) m s index (scan_step (m (s + i)) sc) arg_length [],
  measure_loop_lem r (i + 1) m s index (scan_step (m (s + i)) sc) 0 (m (s + i) ∷ []),
  measure_loop_lem r (i + 1) m s index (scan_step (m (s + i)) sc) 1 (m (s + i) ∷ []),
)
measure_loop_lem (suc r) i m s index sc arg_length (x ∷ run) e le a = ground (
  arith,
  word_at-cons (x ∷ run) (words_from [] (bytes m (suc (s + i)) r)) (index - sc.arg),
  length-append {0} (x ∷ run) (m (s + i) ∷ []),
  measure_loop_lem r (i + 1) m s index (scan_step (m (s + i)) sc) arg_length [],
  measure_loop_lem r (i + 1) m s index (scan_step (m (s + i)) sc) arg_length
      (x ∷ run ++ m (s + i) ∷ []),
  measure_loop_lem r (i + 1) m s index (scan_step (m (s + i)) sc) (arg_length + 1)
      (x ∷ run ++ m (s + i) ∷ []),
)

module _ (m : Memory) (s n : ℕ) (s≢ : s ≢ 0) (str : IsString m s n) (fits : n ≤ max_count)
    (index : ℕ) where
  -- The length of the word with a number, and -1 when the text has no word with that number.
  pub get_argument_length_lem : get_argument_length m s index ≡ (
      if ltb index (length (words (bytes m s n)))
      then length (word_at (words (bytes m s n)) index)
      else minus_one)
  unfolding get_argument_length
  get_argument_length_lem = ground (
    arith,
    string_length_lem m s n s≢ str,
    get_argument_count_lem m s n s≢ str,
    measure_loop_lem n 0 m s index start 0 [],
    length-words_from-le [] (bytes m s n),
    length-bytes m s n,
    word_at-pos [] (bytes m s n) index,
  )
