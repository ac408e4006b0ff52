-- ===== src/ArgUtil/Next.antt =====
-- `get_next_arguments` copies the text from its second word on.
use native.Mathlib.Nat.{add-zero}
use ece391_mp.Prelude.{
  ℕ, zero, suc, ◌+◌, ◌≤◌, ◌<◌, ◌≡◌, ◌≢◌, inl, inr, refl, ap, eq_cases, true, false, List, [], ◌∷◌,
  ◌++◌, arith, length, length-append, ◌==◌, if◌then◌else◌, Option, some, append_assoc, append-nil,
}
use ece391_mp.Prelude.Words.{minus_one}
use ece391_mp.Prelude.Memory.{Memory, IsString, bytes, length-bytes, store, Disjoint}
use ece391_mp.CharUtil.{max_count}
use ece391_mp.ArgUtil.{skip, tail_loop, get_next_arguments}
use ece391_mp.ArgUtil.Words.{
  words, words_from, drop_spaces, drop_word, after_first, words-drop_spaces, length-words_from-le,
}
use ece391_mp.ArgUtil.Count.{get_argument_count_lem}
use ece391_mp.ArgUtil.Argument.{Wrote, Wrote-nil, Wrote-snoc}

module _ (m : Memory) (s n : ℕ) (str : IsString m s n) where
  -- A skip ends at an index inside the string, where the text left is `cs`.
  abbrev Skipped : List ℕ → Option ℕ → Type 0
  Skipped cs o = (i : ℕ) × (r : ℕ) × (o ≡ some i) × (i + r ≡ n) × (bytes m (s + i) r ≡ cs)

  skip_spaces :
      (fuel i r : ℕ)
      → i + r ≡ n
      → r < fuel
      → Skipped (drop_spaces (bytes m (s + i) r)) (skip true fuel m s i)
  unfolding skip
  skip_spaces zero i r e f = absurd (omega arith)
  skip_spaces (suc fuel) i zero e f = (i, 0, ground (arith, str.eos), e, refl)
  skip_spaces (suc fuel) i (suc r) e f = elim (eq_cases (m (s + i)) b' ') [
    | inl sp ↦
        let (i', r', o, e', h) = skip_spaces fuel (i + 1) r (omega arith) (omega arith) in
        (i', r', ground arith, e', ground arith)
    | inr ch ↦ (i, suc r, ground arith, e, ground arith)
  ]

  -- A word that more words follow ends at a space.
  skip_word :
      (fuel i r : ℕ) (run : List ℕ)
      → i + r ≡ n
      → r < fuel
      → 1 < length (words_from run (bytes m (s + i) r))
      → Skipped (drop_word (bytes m (s + i) r)) (skip false fuel m s i)
  unfolding skip
  skip_word zero i r run e f two = absurd (omega arith)
  skip_word (suc fuel) i zero [] e f two = absurd (omega arith)
  skip_word (suc fuel) i zero (x ∷ run) e f two = absurd (omega arith)
  skip_word (suc fuel) i (suc r) run e f two = elim (eq_cases (m (s + i)) b' ') [
    | inl sp ↦ (i, suc r, ground arith, e, ground arith)
    | inr ch ↦
        let (i', r', o, e', h) =
          skip_word fuel (i + 1) r (run ++ m (s + i) ∷ []) (omega arith) (omega arith)
            (ground arith) in
        (i', r', ground arith, e', ground arith)
  ]

  module _ (buf : ℕ) (apart : Disjoint s (suc n) buf (suc n)) where
    -- The copy of the rest is done, and its length is returned.
    abbrev Tailed : List ℕ → Option (Memory × ℕ) → Type 0
    Tailed w o = (k : Memory) × (o ≡ some (k, length w)) × Wrote m k buf w

    tail_step :
        (fuel : ℕ) (m' : Memory) (i r : ℕ) (w : List ℕ)
        → i < n
        → m' (s + i) ≡ m (s + i)
        → Tailed ((w ++ m (s + i) ∷ []) ++ bytes m (s + (i + 1)) r) (
            tail_loop fuel
              (store m' (buf + length w) (m (s + i)))
              s
              buf
              (i + 1)
              (length (w ++ m (s + i) ∷ [])))
        → Tailed (w ++ bytes m (s + i) (suc r)) (tail_loop (suc fuel) m' s buf i (length w))
    unfolding tail_loop
    tail_step fuel m' i r w lt read (k, o, h) =
        let glue : (w ++ m (s + i) ∷ []) ++ bytes m (s + (i + 1)) r ≡ w ++ bytes m (s + i) (suc r) =
          ground (arith, append_assoc w (m (s + i) ∷ []) (bytes m (s + (i + 1)) r)) in
        (
          k,
          ground (arith, length-append {0} w (m (s + i) ∷ []), ap (length {0}) glue, str.body i),
          rw glue at h,
        )

    tail_loop_lem :
        (fuel : ℕ) (m' : Memory) (i r : ℕ) (w : List ℕ)
        → i + r ≡ n
        → r < fuel
        → length w + r ≤ n
        → Wrote m m' buf w
        → Tailed (w ++ bytes m (s + i) r) (tail_loop fuel m' s buf i (length w))
    unfolding tail_loop
    tail_loop_lem zero m' i r w e f le h = absurd (omega arith)
    tail_loop_lem (suc fuel) m' i zero w e f le h =
        (m', ground (arith, str.eos, h.frame (s + i), append-nil w), rw append-nil h)
    tail_loop_lem (suc fuel) m' i (suc r) w e f le h =
        tail_step fuel m' i r w (omega arith) (ground (arith, h.frame (s + i))) (
          tail_loop_lem fuel (store m' (buf + length w) (m (s + i))) (i + 1) r (w ++ m (s + i) ∷ [])
            (omega arith) (omega arith) (omega (arith, length-append {0} w (m (s + i) ∷ [])))
            (Wrote-snoc m m' buf w (m (s + i)) h))

    -- The rest of the text is in the buffer, with a NUL behind it, and its length is returned.
    abbrev pub Passed : List ℕ → Option (Memory × ℕ) → Type 0
    Passed w o = (m' : Memory) × (o ≡ some (m', length w)) × Wrote m m' buf (w ++ 0 ∷ [])

    module _ (fuel : ℕ) (s≢ : s ≢ 0) (fits : n ≤ max_count) (enough : n < fuel) where
      pass :
          (i1 i2 i3 : ℕ) (w : List ℕ)
          → 1 < length (words (bytes m s n))
          → skip true fuel m s 0 ≡ some i1
          → skip false fuel m s i1 ≡ some i2
          → skip true fuel m s i2 ≡ some i3
          → Tailed w (tail_loop fuel m s buf i3 0)
          → Passed w (get_next_arguments fuel m s buf)
      unfolding get_next_arguments
      pass i1 i2 i3 w more o1 o2 o3 (k, o, h) = (
        store k (buf + length w) 0,
        ground (
          arith,
          get_argument_count_lem m s n s≢ str fits,
          length-words_from-le [] (bytes m s n),
          length-bytes m s n,
        ),
        Wrote-snoc m k buf w 0 h,
      )

      pass3 :
          (i1 i2 : ℕ) (w : List ℕ)
          → 1 < length (words (bytes m s n))
          → skip true fuel m s 0 ≡ some i1
          → skip false fuel m s i1 ≡ some i2
          → Skipped w (skip true fuel m s i2)
          → Passed w (get_next_arguments fuel m s buf)
      pass3 i1 i2 w more o1 o2 (i3, r3, o3, e3, h3) = rw (← h3) (
          pass i1 i2 i3 (bytes m (s + i3) r3) more o1 o2 o3
            (tail_loop_lem fuel m i3 r3 [] e3 (omega arith) (omega arith) (Wrote-nil m buf)))

      pass2 :
          (i1 : ℕ) (w : List ℕ)
          → 1 < length (words (bytes m s n))
          → skip true fuel m s 0 ≡ some i1
          → Skipped w (skip false fuel m s i1)
          → Passed (drop_spaces w) (get_next_arguments fuel m s buf)
      pass2 i1 w more o1 (i2, r2, o2, e2, h2) =
          pass3 i1 i2 (drop_spaces w) more o1 o2
            (rw (← h2) (skip_spaces fuel i2 r2 e2 (omega arith)))

      pass1 :
          (w : List ℕ)
          → words w ≡ words (bytes m s n)
          → 1 < length (words (bytes m s n))
          → Skipped w (skip true fuel m s 0)
          → Passed (drop_spaces (drop_word w)) (get_next_arguments fuel m s buf)
      pass1 w e more (i1, r1, o1, e1, h1) =
          pass2 i1 (drop_word w) more o1
            (rw (← h1) (skip_word fuel i1 r1 [] e1 (omega arith) (rw (h1, e) more)))

      -- The rest of a text of two words or more is written with a NUL behind it, no other byte
      -- changes, and the length of the rest is returned; the buffer must not meet the text.
      pub get_next_arguments_copies :
          1 < length (words (bytes m s n))
          → Passed (after_first (bytes m s n)) (get_next_arguments fuel m s buf)
      get_next_arguments_copies more =
          pass1 (drop_spaces (bytes m s n)) (words-drop_spaces (bytes m s n)) more
            (rw add-zero at (skip_spaces fuel 0 n (omega arith) enough))

      -- A text of one word leaves the empty string in the buffer, and a text of none is refused.
      pub get_next_arguments_short :
          length (words (bytes m s n)) ≤ 1
          → get_next_arguments fuel m s buf
            ≡ some
                (if length (words (bytes m s n)) == 1 then (store m buf 0, 0) else (m, minus_one))
      unfolding get_next_arguments
      get_next_arguments_short le = ground (arith, get_argument_count_lem m s n s≢ str fits)
