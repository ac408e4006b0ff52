-- ===== src/Programs/Line.antt =====
-- The lines that the shell, syscalls/ece391shell.c, reads, and the literal "exit".
use ece391_mp.Prelude.{
  ℕ, zero, suc, ◌+◌, ◌-◌, ◌≤◌, ◌<◌, ◌≡◌, ◌≢◌, ◌⊎◌, inl, inr, refl, sym, ap, ◌∙◌, arith, List, [],
  ◌∷◌, length, get_or, some, eq_cases,
}
use ece391_mp.Prelude.Memory.{Memory}
use ece391_mp.Programs.{ece391_strcmp, line_length}
use ece391_mp.Programs.Strings.{IsBytes, SameUpTo, ece391_strcmp_decides}

-- A line without a NUL and a line end in it.
abbrev pub IsLine : List ℕ → Type 0
IsLine w = (i : ℕ) → i < length w → (get_or w i 0 ≢ 0) × (get_or w i 0 ≢ b'\n')

abbrev pub exit_line : List ℕ
exit_line = b'e' ∷ b'x' ∷ b'i' ∷ b't' ∷ []

-- The word at an address and a NUL behind it.
pub record Command (m : Memory) (buf : ℕ) (w : List ℕ) : Type 0 where
  pub word : (i : ℕ) → i < length w → m (buf + i) ≡ get_or w i 0
  pub eos : m (buf + length w) ≡ 0

-- A read gave the line `w`, with a line end behind it or without.
pub record Got (m : Memory) (buf : ℕ) (w : List ℕ) (n : ℕ) : Type 0 where
  pub word : (i : ℕ) → i < length w → m (buf + i) ≡ get_or w i 0
  pub count : (n ≡ length w) ⊎ ((n ≡ length w + 1) × (m (buf + length w) ≡ b'\n'))
  pub fits : n ≤ 1023

pub line_length_lem :
    (m : Memory) (buf : ℕ) (w : List ℕ) (n : ℕ)
    → IsLine w
    → Got m buf w n
    → line_length m buf n ≡ length w
line_length_lem m buf w n line g =
    ground (arith, g.count, g.fits, g.word (length w - 1), line (length w - 1))

pub get_or-ext :
    (v w : List ℕ)
    → length v ≡ length w
    → ((i : ℕ) → i < length v → get_or v i 0 ≡ get_or w i 0)
    → v ≡ w
get_or-ext [] [] e h = refl
get_or-ext [] (d ∷ w) e h = absurd (omega arith)
get_or-ext (c ∷ v) [] e h = absurd (omega arith)
get_or-ext (c ∷ v) (d ∷ w) e h =
    ap (λ x. x ∷ v) (h 0 (omega arith))
    ∙ ap (λ x. d ∷ x) (get_or-ext v w (omega arith) (λ i lt. h (suc i) (omega arith)))

pub exit-IsLine : IsLine exit_line
exit-IsLine zero lt = (omega arith, omega arith)
exit-IsLine (suc zero) lt = (omega arith, omega arith)
exit-IsLine (suc (suc zero)) lt = (omega arith, omega arith)
exit-IsLine (suc (suc (suc zero))) lt = (omega arith, omega arith)
exit-IsLine (suc (suc (suc (suc i)))) lt = absurd (omega arith)

module _ (m : Memory) (buf leave : ℕ) (w : List ℕ) (line : IsLine w) (h : Command m buf w)
    (e : Command m leave exit_line) where
  exit_length : SameUpTo m buf leave 4 → length w ≡ 4
  exit_length same = ground (
    arith,
    h.eos,
    e.eos,
    same (length w),
    same 4,
    h.word 4,
    line 4,
    e.word (length w),
    exit-IsLine (length w),
  )

  is_exit : SameUpTo m buf leave 4 → w ≡ exit_line
  is_exit same =
      let four : length w ≡ 4 = exit_length same in
      get_or-ext w exit_line four
        (λ i lt. sym (h.word i lt) ∙ same i (omega arith) ∙ e.word i (omega arith))

  exit_same : w ≡ exit_line → SameUpTo m buf leave 4
  exit_same is i le =
      let g : Command m buf exit_line = rw is at h in
      elim (eq_cases i 4) [
        | inl last ↦ ground (arith, g.eos, e.eos, last)
        | inr inside ↦ g.word i (omega arith) ∙ sym (e.word i (omega arith))
      ]

  -- The order of a line and the literal.
  pub order_of :
      IsBytes m
      → (c : ℕ) × (ece391_strcmp 5 m buf leave ≡ some c)
        × (c ≡ 0 → w ≡ exit_line)
        × (w ≡ exit_line → c ≡ 0)
  order_of small =
      let (c, r, f, g) =
        ece391_strcmp_decides m small 5 4 buf leave
          (record { body = λ i lt. ground (arith, e.word i, exit-IsLine i); eos = e.eos })
          (omega arith) in
      (c, r, λ z. is_exit (f z), λ is. g (exit_same is))
