-- ===== src/Exec/Arguments.antt =====
-- The arguments that execute of student-distrib/syscalls.c leaves for the program.
use ece391_mp.Prelude.{
  ℕ, ◌+◌, ◌<◌, ◌≡◌, ◌≢◌, inl, inr, refl, arith, List, [], ◌∷◌, ◌++◌, length, length-append, get_or,
  some, lt_cases,
}
use ece391_mp.Prelude.Memory.{Memory, IsString, bytes, length-bytes, store, Disjoint}
use ece391_mp.ArgUtil.{get_next_arguments}
use ece391_mp.ArgUtil.Words.{words, after_first, after_first-empty, length-after_first-le}
use ece391_mp.ArgUtil.Argument.{Wrote}
use ece391_mp.ArgUtil.Next.{get_next_arguments_copies, get_next_arguments_short}
use ece391_mp.Exec.{Kernel}
use ece391_mp.Exec.Execute.{Locals, mem_of, arg_buffer_at, give_arguments, pass_arguments}

-- The control block of `pid` holds the string `rest` in its argument buffer.
abbrev pub Given : ℕ → List ℕ → Kernel → Type 0
Given pid rest k =
    (i : ℕ) → i < length rest + 1 → (k.pcbs pid).arg_buffer i ≡ get_or (rest ++ 0 ∷ []) i 0

module _ (l : Locals) (pid fuel n : ℕ) (k : Kernel) (copy_ne : l.all_arguments_copy ≢ 0)
    (str : IsString (mem_of k) l.all_arguments_copy n) (short : n < 128) (enough : n < fuel)
    (apart : Disjoint l.all_arguments_copy 128 (arg_buffer_at pid) 128) where
  abbrev text : List ℕ
  text = bytes (mem_of k) l.all_arguments_copy n

  abbrev PassedOn : Type 0
  PassedOn =
      (m' : Memory) × (pass_arguments fuel l pid k ≡ some (give_arguments pid m' k))
      × Wrote (mem_of k) m' (arg_buffer_at pid) (after_first text ++ 0 ∷ [])

  pass_more : 1 < length (words text) → PassedOn
  unfolding pass_arguments
  pass_more more =
      let (m', e, w) =
        get_next_arguments_copies (mem_of k) l.all_arguments_copy n str (arg_buffer_at pid)
          (ground (arith, apart, short)) fuel copy_ne (omega (arith, short)) enough more in
      (m', rw (pass_arguments, e) refl, w)

  pass_none : length (words text) ≡ 1 → PassedOn
  unfolding pass_arguments
  pass_none one =
      let e : get_next_arguments fuel (mem_of k) l.all_arguments_copy (arg_buffer_at pid)
          ≡ some (store (mem_of k) (arg_buffer_at pid) 0, 0) =
        ground (
          arith,
          one,
          get_next_arguments_short (mem_of k) l.all_arguments_copy n str (arg_buffer_at pid)
              (ground (arith, apart, short)) fuel copy_ne (omega (arith, short)) enough
              (omega (arith, one)),
        ) in
      let nothing : after_first text ≡ [] = after_first-empty text (omega (arith, one)) in
      (
        store (mem_of k) (arg_buffer_at pid) 0,
        rw (pass_arguments, e) refl,
        rw nothing (record { written = λ i p. ground arith; frame = λ a out. ground arith }),
      )

  -- The text behind the first word is passed on, whatever it is.
  pub pass_arguments-PassedOn : 0 < length (words text) → PassedOn
  pass_arguments-PassedOn some_word = elim (lt_cases 1 (length (words text))) [
    | inl more ↦ pass_more more
    | inr one ↦ pass_none (omega (arith, some_word, one))
  ]

  pub give_arguments-Given :
      (m' : Memory)
      → Wrote (mem_of k) m' (arg_buffer_at pid) (after_first text ++ 0 ∷ [])
      → Given pid (after_first text) (give_arguments pid m' k)
  give_arguments-Given m' w i lt = ground (
    arith,
    w.written i,
    length-append {0} (after_first text) (0 ∷ []),
    length-after_first-le text,
    length-bytes (mem_of k) l.all_arguments_copy n,
    short,
  )
