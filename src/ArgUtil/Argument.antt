-- ===== src/ArgUtil/Argument.antt =====
-- `get_argument` writes one word of the text into its buffer, and nothing else.
use ece391_mp.Prelude.{
  ℕ, zero, suc, ◌+◌, ◌-◌, ◌≤◌, ◌<◌, ◌≡◌, ◌≢◌, inl, inr, refl, ap, eq_cases, true, false, List, [],
  ◌∷◌, ◌++◌, arith, length, length-append, ◌==◌, if◌then◌else◌, get_or,
}
use native.Mathlib.Nat.{add-zero, sub-zero}
use ece391_mp.Prelude.Words.{minus_one}
use ece391_mp.Prelude.Memory.{Memory, IsString, bytes, length-bytes, store, Disjoint}
use ece391_mp.CharUtil.{max_count}
use ece391_mp.CharUtil.Length.{string_length_lem}
use ece391_mp.CharUtil.Loops.{Outside}
use ece391_mp.ArgUtil.{Scan, start, scan_step, fetch_loop, get_argument}
use ece391_mp.ArgUtil.Words.{
  words, words_from, word_at, is_open, word_at-cons, length-le-first, length-words_from-le,
}
use ece391_mp.ArgUtil.Count.{get_argument_count_lem}

-- `m'` is `m` with the bytes `w` at `buf`.
pub record Wrote (m m' : Memory) (buf : ℕ) (w : List ℕ) : Type 0 where
  pub written : (i : ℕ) → i < length w → m' (buf + i) ≡ get_or w i 0
  pub frame : (a : ℕ) → Outside a buf (length w) → m' a ≡ m a

pub get_or-snoc :
    (w : List ℕ) (c i : ℕ) → get_or (w ++ c ∷ []) i 0 ≡ (if i == length w then c else get_or w i 0)
get_or-snoc [] c zero = refl
get_or-snoc [] c (suc i) = ground arith
get_or-snoc (x ∷ w) c zero = ground arith
get_or-snoc (x ∷ w) c (suc i) = ground (arith, get_or-snoc w c i)

pub Wrote-nil : (m : Memory) (buf : ℕ) → Wrote m m buf []
Wrote-nil m buf = record { written = λ i p. absurd (omega arith); frame = λ a out. refl }

pub Wrote-snoc :
    (m m' : Memory) (buf : ℕ) (w : List ℕ) (c : ℕ)
    → Wrote m m' buf w
    → Wrote m (store m' (buf + length w) c) buf (w ++ c ∷ [])
Wrote-snoc m m' buf w c h = record {
  written = λ i p. ground (arith, length-append {0} w (c ∷ []), get_or-snoc w c i, h.written i);
  frame = λ a out. ground (arith, length-append {0} w (c ∷ []), h.frame a);
}

-- The result of a copy of the word `w`: it is all in the buffer, and its length is returned.
abbrev pub Fetched : Memory → ℕ → List ℕ → Memory × ℕ → Type 0
Fetched m buf w (m', j) = Wrote m m' buf w × (j ≡ length w)

Fetched-subst :
    (m : Memory) (buf : ℕ) (w w' : List ℕ) (r r' : Memory × ℕ)
    → w ≡ w'
    → r ≡ r'
    → Fetched m buf w' r'
    → Fetched m buf w r
Fetched-subst m buf w w' r r' e q h = rw (e, q) h

Disjoint-eq :
    (s n buf : ℕ) (w w' : List ℕ)
    → w ≡ w'
    → Disjoint s n buf (length w)
    → Disjoint s n buf (length w')
Disjoint-eq s n buf w w' e d = rw (← e) d

module _ (m : Memory) (s n index buf : ℕ) (str : IsString m s n) where
  -- The word that the loop is to fetch, when `r` bytes are left behind the run `run`.
  abbrev target : ℕ → ℕ → Scan → List ℕ → List ℕ
  target r i sc run = word_at (words_from run (bytes m (s + i) r)) (index - sc.arg)

  -- The string is read as it was: the buffer does not meet it.
  reads :
      (r i : ℕ) (m' : Memory) (sc : Scan) (run so_far : List ℕ)
      → i < n
      → sc.arg ≤ index
      → so_far ≡ (if sc.arg == index then run else [])
      → Wrote m m' buf so_far
      → Disjoint s n buf (length (target r i sc run))
      → m' (s + i) ≡ m (s + i)
  reads r i m' sc run so_far lt le a w d =
      ground (arith, w.frame (s + i), length-le-first run (bytes m (s + i) r), ap (length {0}) a)

  fetch_loop_lem :
      (r i : ℕ) (m' : Memory) (sc : Scan) (j : ℕ) (run so_far : List ℕ)
      → i + r ≡ n
      → sc.in_arg ≡ is_open run
      → sc.arg ≤ index
      → so_far ≡ (if sc.arg == index then run else [])
      → j ≡ length so_far
      → Wrote m m' buf so_far
      → Disjoint s n buf (length (target r i sc run))
      → Fetched m buf (target r i sc run) (fetch_loop r i m' s index buf sc j)
  unfolding fetch_loop scan_step
  fetch_loop_lem zero i m' sc j [] so_far e o le a l w d =
      Fetched-subst _ _ _ so_far _ (m', j) (ground arith) refl (w, l)
  fetch_loop_lem zero i m' sc j (x ∷ run) so_far e o le a l w d =
      Fetched-subst _ _ _ so_far _ (m', j)
        (ground (arith, word_at-cons (x ∷ run) [] (index - sc.arg))) refl (w, l)
  fetch_loop_lem (suc r) i m' sc j [] so_far e o le a l w d =
      let read : m' (s + i) ≡ m (s + i) = reads (suc r) i m' sc [] so_far (omega arith) le a w d in
      elim (eq_cases (m (s + i)) b' ') [
        | inl sp ↦
            let tq : target (suc r) i sc [] ≡ target r (i + 1) sc [] = ground arith in
            Fetched-subst _ _ _ _ _ (fetch_loop r (i + 1) m' s index buf sc j) tq (ground arith) (
              fetch_loop_lem r (i + 1) m' sc j [] so_far (omega arith) o le a l w
                (Disjoint-eq s n buf _ _ tq d))
        | inr ch ↦
            let next : Scan = record { in_arg = true; arg = sc.arg } in
            let tq : target (suc r) i sc [] ≡ target r (i + 1) next (m (s + i) ∷ []) =
              ground arith in
            elim (eq_cases sc.arg index) [
              | inl here ↦
                  Fetched-subst _ _ _ _ _
                    (fetch_loop r (i + 1) (store m' (buf + length so_far) (m (s + i))) s index buf
                      next (j + 1))
                    tq (ground (arith, str.body i))
                    (fetch_loop_lem r (i + 1) (store m' (buf + length so_far) (m (s + i))) next
                      (j + 1) (m (s + i) ∷ []) (so_far ++ m (s + i) ∷ []) (omega arith) refl le
                      (ground arith) (ground arith) (Wrote-snoc m m' buf so_far (m (s + i)) w)
                      (Disjoint-eq s n buf _ _ tq d))
              | inr away ↦
                  Fetched-subst _ _ _ _ _ (fetch_loop r (i + 1) m' s index buf next j) tq
                    (ground arith)
                    (fetch_loop_lem r (i + 1) m' next j (m (s + i) ∷ []) so_far (omega arith) refl
                      le (ground arith) l w (Disjoint-eq s n buf _ _ tq d))
            ]
      ]
  fetch_loop_lem (suc r) i m' sc j (x ∷ run) so_far e o le a l w d =
      let read : m' (s + i) ≡ m (s + i) =
        reads (suc r) i m' sc (x ∷ run) so_far (omega arith) le a w d in
      elim (eq_cases (m (s + i)) b' ') [
        | inl sp ↦ elim (eq_cases sc.arg index) [
          | inl here ↦ Fetched-subst _ _ _ so_far _ (m', j) (ground arith) (ground arith) (w, l)
          | inr away ↦
              let next : Scan = record { in_arg = false; arg = sc.arg + 1 } in
              let tq : target (suc r) i sc (x ∷ run) ≡ target r (i + 1) next [] = ground (
                arith,
                word_at-cons (x ∷ run) (words_from [] (bytes m (suc (s + i)) r)) (index - sc.arg),
              ) in
              Fetched-subst _ _ _ _ _ (fetch_loop r (i + 1) m' s index buf next j) tq (ground arith)
                (fetch_loop_lem r (i + 1) m' next j [] so_far (omega arith) refl (omega arith)
                  (ground arith) l w (Disjoint-eq s n buf _ _ tq d))
        ]
        | inr ch ↦
            let tq : target (suc r) i sc (x ∷ run)
                ≡ target r (i + 1) sc (x ∷ run ++ m (s + i) ∷ []) =
              ground arith in
            elim (eq_cases sc.arg index) [
              | inl here ↦
                  Fetched-subst _ _ _ _ _
                    (fetch_loop r (i + 1) (store m' (buf + length so_far) (m (s + i))) s index buf
                      sc (j + 1))
                    tq (ground (arith, str.body i))
                    (fetch_loop_lem r (i + 1) (store m' (buf + length so_far) (m (s + i))) sc
                      (j + 1) (x ∷ run ++ m (s + i) ∷ []) (so_far ++ m (s + i) ∷ []) (omega arith) o
                      le (ground arith) (ground (arith, length-append {0} so_far (m (s + i) ∷ [])))
                      (Wrote-snoc m m' buf so_far (m (s + i)) w) (Disjoint-eq s n buf _ _ tq d))
              | inr away ↦
                  Fetched-subst _ _ _ _ _ (fetch_loop r (i + 1) m' s index buf sc j) tq
                    (ground arith)
                    (fetch_loop_lem r (i + 1) m' sc j (x ∷ run ++ m (s + i) ∷ []) so_far
                      (omega arith) o le (ground arith) l w (Disjoint-eq s n buf _ _ tq d))
            ]
      ]

module _ (m : Memory) (s n index buf : ℕ) (s≢ : s ≢ 0) (str : IsString m s n)
    (fits : n ≤ max_count) where
  -- The word with the number `index` stands in the buffer afterwards, without a NUL, no other byte has changed, and the
  -- result is its length; the buffer must not meet the text in that many bytes.
  pub get_argument_fetches :
      index < length (words (bytes m s n))
      → Disjoint s n buf (length (word_at (words (bytes m s n)) index))
      → Fetched m buf (word_at (words (bytes m s n)) index) (get_argument m s index buf)
  unfolding get_argument
  get_argument_fetches lt apart =
      Fetched-subst m buf _ _ _ (fetch_loop n 0 m s index buf start 0) refl
        (ground (
          arith,
          string_length_lem m s n s≢ str,
          get_argument_count_lem m s n s≢ str,
          length-words_from-le [] (bytes m s n),
          length-bytes m s n,
        ))
        (at_start (
          fetch_loop_lem m s n index buf str n 0 m start 0 [] [] (omega arith) refl (omega arith)
            (ground arith) refl (Wrote-nil m buf)))
    where
      at_start :
          (Disjoint s n buf (length (word_at (words_from [] (bytes m (s + 0) n)) (index - 0)))
            → Fetched m buf
                (word_at (words_from [] (bytes m (s + 0) n)) (index - 0))
                (fetch_loop n 0 m s index buf start 0))
          → Fetched m buf
              (word_at (words (bytes m s n)) index)
              (fetch_loop n 0 m s index buf start 0)
      at_start h = (rw (add-zero, sub-zero) at h) apart

  -- Without such a word nothing is written and the result is -1.
  pub get_argument_refuses :
      length (words (bytes m s n)) ≤ index → get_argument m s index buf ≡ (m, minus_one)
  unfolding get_argument
  get_argument_refuses le = ground (arith, get_argument_count_lem m s n s≢ str)
