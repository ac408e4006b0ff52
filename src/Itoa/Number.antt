-- ===== src/Itoa/Number.antt =====
-- The text that itoa writes stands for the number.
use ece391_mp.Prelude.{
  ℕ, zero, suc, ◌+◌, ◌-◌, ◌*◌, ◌/◌, ◌%◌, ◌^◌, ◌≤◌, ◌<◌, ◌≡◌, ◌≢◌, inl, inr, refl, sym, ap, ◌∙◌,
  arith, some, eq_cases, ltb, if◌then◌else◌,
}
use native.Mathlib.Nat.{pow-succ'}
use ece391_mp.Prelude.Memory.{Memory, store, IsString}
use ece391_mp.CharUtil.Loops.{Outside}
use ece391_mp.Itoa.{lookup_digit, itoa_loop, itoa, strrev}
use ece391_mp.Itoa.Reverse.{strrev_lem}

-- The value of a digit character.
abbrev pub digit : ℕ → ℕ
digit c = if ltb c b'A' then c - b'0' else c - b'A' + 10

-- The number that the `n` digits from `base` on stand for, the first one the highest.
unfoldable pub number : ℕ → Memory → ℕ → ℕ → ℕ
number radix m base zero = 0
number radix m base (suc n) = number radix m base n * radix + digit (m (base + n))

-- The same with the first digit the lowest.
unfoldable pub number_back : ℕ → Memory → ℕ → ℕ → ℕ
number_back radix m base zero = 0
number_back radix m base (suc n) = digit (m base) + radix * number_back radix m (base + 1) n

number-mirror :
    (radix : ℕ) (m m' : Memory) (base base' n : ℕ)
    → ((j : ℕ) → j < n → m' (base' + j) ≡ m (base + (n - 1 - j)))
    → number radix m' base' n ≡ number_back radix m base n
unfolding number number_back
number-mirror radix m m' base base' zero h = refl
number-mirror radix m m' base base' (suc n) h =
    let back : base + (suc n - 1 - n) ≡ base = omega arith in
    let first : m' (base' + n) ≡ m base = ground (arith, h n, back) in
    let rest : number radix m' base' n ≡ number_back radix m (base + 1) n =
      number-mirror radix m m' (base + 1) base' n (λ j lt. next j lt) in
    rw (first, rest) (grind arith)
  where
    next : (j : ℕ) → j < n → m' (base' + j) ≡ m (base + 1 + (n - 1 - j))
    next j lt =
        let same : base + (suc n - 1 - j) ≡ base + 1 + (n - 1 - j) = omega arith in
        ground (arith, h j, same)

add_zero : (p : ℕ) → p + 0 ≡ p
add_zero p = omega arith

-- `n` digits of the number `v` from `p` on, the lowest first, and a NUL.
pub record HasDigits (radix : ℕ) (m m' : Memory) (p v n : ℕ) : Type 0 where
  pub value : number_back radix m' p n ≡ v
  pub some_digits : (j : ℕ) → j < n → m' (p + j) ≢ 0
  pub eos : m' (p + n) ≡ 0
  pub frame : (a : ℕ) → Outside a p (n + 1) → m' a ≡ m a

no_digits : (radix : ℕ) (m : Memory) (p v : ℕ) → v ≡ 0 → HasDigits radix m (store m p 0) p v 0
unfolding number_back
no_digits radix m p v z = record {
  value = sym z;
  some_digits = λ j lt. absurd (omega arith);
  eos = ground arith;
  frame = λ a out. ground arith;
}

stops :
    (fuel : ℕ) (m : Memory) (p v radix : ℕ)
    → v ≡ 0
    → itoa_loop (suc fuel) m p v radix ≡ some (store m p 0)
unfolding itoa_loop
stops fuel m p v radix z = ground arith

steps :
    (fuel : ℕ) (m : Memory) (p v radix : ℕ)
    → v ≢ 0
    → itoa_loop (suc fuel) m p v radix
      ≡ itoa_loop fuel (store m p (lookup_digit (v % radix))) (p + 1) (v / radix) radix
unfolding itoa_loop
steps fuel m p v radix nz = ground arith

digit-lookup_digit : (i : ℕ) → i < 36 → digit (lookup_digit i) ≡ i
digit-lookup_digit i lt = ground arith

whole : (v radix : ℕ) → v % radix + radix * (v / radix) ≡ v
whole v radix = grind arith

below : (v radix : ℕ) → 2 ≤ radix → radix ≤ 36 → v % radix < 36
below v radix lo hi = let small : v % radix < radix = grind arith in omega arith

shift_back : (p j : ℕ) → j ≢ 0 → p + j ≡ p + 1 + (j - 1)
shift_back p j nz = omega arith

shift_one : (p n : ℕ) → p + suc n ≡ p + 1 + n
shift_one p n = omega arith

one_more :
    (radix : ℕ) (m m' : Memory) (p v n : ℕ)
    → 2 ≤ radix
    → radix ≤ 36
    → HasDigits radix (store m p (lookup_digit (v % radix))) m' (p + 1) (v / radix) n
    → HasDigits radix m m' p v (suc n)
unfolding number_back
one_more radix m m' p v n lo hi h =
    let first : m' p ≡ lookup_digit (v % radix) = ground (arith, h.frame p) in
    let value_digit : digit (m' p) ≡ v % radix =
      rw first (digit-lookup_digit (v % radix) (below v radix lo hi)) in
    record {
      value = omega (arith, value_digit, ap (λ (t : ℕ). radix * t) h.value, whole v radix);
      some_digits = λ j lt. elim (eq_cases j 0) [
        | inl z ↦ rw (z, add_zero p, first) (ground arith)
        | inr nz ↦ rw (shift_back p j nz) (h.some_digits (j - 1) (omega arith))
      ];
      eos = rw (shift_one p n) h.eos;
      frame = λ a out. ground (arith, h.frame a);
    }

halves : (fuel v radix : ℕ) → 2 ≤ radix → v < 2 ^ suc fuel → v / radix < 2 ^ fuel
halves fuel v radix lo lt =
    let double : 2 ^ suc fuel ≡ 2 * 2 ^ fuel = pow-succ' 2 fuel in
    let bound : v / radix * radix ≤ v = grind arith in grind arith

itoa_loop_lem :
    (fuel : ℕ) (m : Memory) (p v radix : ℕ)
    → 2 ≤ radix
    → radix ≤ 36
    → v < 2 ^ fuel
    → (m' : Memory) × (n : ℕ) × (itoa_loop (suc fuel) m p v radix ≡ some m')
      × (n ≤ fuel)
      × HasDigits radix m m' p v n
itoa_loop_lem zero m p v radix lo hi lt = (
  store m p 0,
  0,
  stops 0 m p v radix (omega arith),
  omega arith,
  no_digits radix m p v (omega arith),
)
itoa_loop_lem (suc fuel) m p v radix lo hi lt = elim (eq_cases v 0) [
  | inl z ↦ (store m p 0, 0, stops (suc fuel) m p v radix z, omega arith, no_digits radix m p v z)
  | inr nz ↦
      let (m', n, e, le, h) =
        itoa_loop_lem fuel (store m p (lookup_digit (v % radix))) (p + 1) (v / radix) radix lo hi
          (halves fuel v radix lo lt) in
      (
        m',
        suc n,
        steps (suc fuel) m p v radix nz ∙ e,
        omega arith,
        one_more radix m m' p v n lo hi h,
      )
]

-- The text at `buf` is a string of at most 32 digits that stands for the value.
pub record Written (radix : ℕ) (m m' : Memory) (buf value n : ℕ) : Type 0 where
  pub string : IsString m' buf n
  pub short : n ≤ 32
  pub reads : number radix m' buf n ≡ value
  pub frame : (a : ℕ) → Outside a buf 33 → m' a ≡ m a

zero_text :
    (radix : ℕ) (m : Memory) (buf : ℕ)
    → Written radix m (store (store m buf b'0') (buf + 1) 0) buf 0 1
unfolding number
zero_text radix m buf = record {
  string = record { body = λ i lt. ground arith; eos = ground arith };
  short = omega arith;
  reads = ground arith;
  frame = λ a out. ground arith;
}

turned :
    (fuel radix : ℕ) (m m1 : Memory) (buf v n : ℕ)
    → n ≤ 32
    → n < fuel
    → HasDigits radix m m1 buf v n
    → (m' : Memory) × (strrev fuel m1 buf ≡ some m') × Written radix m m' buf v n
turned fuel radix m m1 buf v n short f h =
    let str : IsString m1 buf n = record { body = h.some_digits; eos = h.eos } in
    let (m', e, back, frame) = strrev_lem fuel m1 buf n str f in
    (
      m',
      e,
      record {
        string = record {
          body = λ i lt. ground (arith, back i, h.some_digits (n - 1 - i));
          eos = ground (arith, frame (buf + n), h.eos);
        };
        short = short;
        reads = number-mirror radix m1 m' buf buf n back ∙ h.value;
        frame = λ a out. ground (arith, frame a, h.frame a);
      },
    )

-- For a radix from 2 to 36 and a word of 32 bits `itoa` returns, with fuel 33, and leaves at `buf` a string of at
-- most 32 digits that reads as the value in that radix; no byte outside the 33 at `buf` changes.
pub itoa-Written :
    (m : Memory) (value buf radix : ℕ)
    → 2 ≤ radix
    → radix ≤ 36
    → value < 2 ^ 32
    → (m' : Memory) × (n : ℕ) × (itoa 33 m value buf radix ≡ some m')
      × Written radix m m' buf value n
unfolding itoa
itoa-Written m value buf radix lo hi lt = elim (eq_cases value 0) [
  | inl z ↦ (store (store m buf b'0') (buf + 1) 0, 1, ground arith, rw z (zero_text radix m buf))
  | inr nz ↦
      let (m1, n, e, le, h) = itoa_loop_lem 32 m buf value radix lo hi lt in
      let (m', e', w) = turned 33 radix m m1 buf value n le (omega arith) h in
      (m', n, ground (arith, e, e'), w)
]
