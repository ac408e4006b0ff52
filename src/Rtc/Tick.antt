-- ===== src/Rtc/Tick.antt =====
-- How often the clock raises the flag of the driver.
use ece391_mp.Prelude.{
  ℕ, zero, suc, ◌+◌, ◌/◌, ◌%◌, ◌≤◌, ◌<◌, ◌≡◌, ◌≢◌, ◌⊎◌, refl, ap, true, arith, ◌==◌, if◌then◌else◌,
  inl, inr, Option, none, some,
}
use ece391_mp.Rtc.{Rtc, tick, period}
use ece391_mp.Rtc.Write.{is_listed}

div_step : (x q : ℕ) → 0 < q → (x + 1) / q ≡ x / q + (if (x + 1) % q == 0 then 1 else 0)
div_step x q h = grind arith

-- What the count needs of a period: it divides the 1024 at which `clk` starts again.
pub record Divides (q : ℕ) : Type 0 where
  pub positive : 0 < q
  pub wraps : (x : ℕ) → x % 1024 % q ≡ x % q

listed_le : (f : ℕ) → is_listed f ≡ true → f ≤ 1024
unfolding is_listed
listed_le f h = ground arith

listed_cases :
    (f : ℕ)
    → is_listed f ≡ true
    → f ≢ 0
    → (f ≡ 2)
      ⊎ (f ≡ 4)
      ⊎ (f ≡ 8)
      ⊎ (f ≡ 16)
      ⊎ (f ≡ 32)
      ⊎ (f ≡ 64)
      ⊎ (f ≡ 128)
      ⊎ (f ≡ 256)
      ⊎ (f ≡ 512)
      ⊎ (f ≡ 1024)
unfolding is_listed
listed_cases f h ne = ground arith

Divides-512 : Divides 512
Divides-512 = record { positive = omega arith; wraps = λ x. omega arith }

Divides-256 : Divides 256
Divides-256 = record { positive = omega arith; wraps = λ x. omega arith }

Divides-128 : Divides 128
Divides-128 = record { positive = omega arith; wraps = λ x. omega arith }

Divides-64 : Divides 64
Divides-64 = record { positive = omega arith; wraps = λ x. omega arith }

Divides-32 : Divides 32
Divides-32 = record { positive = omega arith; wraps = λ x. omega arith }

Divides-16 : Divides 16
Divides-16 = record { positive = omega arith; wraps = λ x. omega arith }

Divides-8 : Divides 8
Divides-8 = record { positive = omega arith; wraps = λ x. omega arith }

Divides-4 : Divides 4
Divides-4 = record { positive = omega arith; wraps = λ x. omega arith }

Divides-2 : Divides 2
Divides-2 = record { positive = omega arith; wraps = λ x. omega arith }

Divides-1 : Divides 1
Divides-1 = record { positive = omega arith; wraps = λ x. omega arith }

Divides-period :
    (f : ℕ)
    → (f ≡ 2)
      ⊎ (f ≡ 4)
      ⊎ (f ≡ 8)
      ⊎ (f ≡ 16)
      ⊎ (f ≡ 32)
      ⊎ (f ≡ 64)
      ⊎ (f ≡ 128)
      ⊎ (f ≡ 256)
      ⊎ (f ≡ 512)
      ⊎ (f ≡ 1024)
    → Divides (period f)
Divides-period f (inl e) = rw e Divides-512
Divides-period f (inr (inl e)) = rw e Divides-256
Divides-period f (inr (inr (inl e))) = rw e Divides-128
Divides-period f (inr (inr (inr (inl e)))) = rw e Divides-64
Divides-period f (inr (inr (inr (inr (inl e))))) = rw e Divides-32
Divides-period f (inr (inr (inr (inr (inr (inl e)))))) = rw e Divides-16
Divides-period f (inr (inr (inr (inr (inr (inr (inl e))))))) = rw e Divides-8
Divides-period f (inr (inr (inr (inr (inr (inr (inr (inl e)))))))) = rw e Divides-4
Divides-period f (inr (inr (inr (inr (inr (inr (inr (inr (inl e))))))))) = rw e Divides-2
Divides-period f (inr (inr (inr (inr (inr (inr (inr (inr (inr e))))))))) = rw e Divides-1

pub listed_period : (f : ℕ) → is_listed f ≡ true → f ≢ 0 → Divides (period f)
listed_period f h ne = Divides-period f (listed_cases f h ne)

-- The clock runs for `n` interrupts, and the flag is taken down after each: how often was it up?
pub count_raised : ℕ → Rtc → Option (Rtc × ℕ)
count_raised zero r = some (r, 0)
count_raised (suc n) r = elim (tick (record r { ir_flag = 0 })) [
  | none ↦ none
  | some t ↦ elim (count_raised n t) [ none ↦ none | some (u, k) ↦ some (u, t.ir_flag + k) ]
]

-- One interrupt of a clock that has counted to `c`.
abbrev pub ticked : ℕ → Rtc → Rtc
ticked c r = record {
  ir_flag = if (c + 1) % period r.virtual_freq == 0 then 1 else 0;
  clk = (c + 1) % 1024;
  virtual_freq = r.virtual_freq;
}

module _ (f : ℕ) (listed : is_listed f ≡ true) (f≢ : f ≢ 0) where
  tick_lem :
      (c : ℕ) (r : Rtc)
      → r.clk ≡ c % 1024
      → r.virtual_freq ≡ f
      → tick (record r { ir_flag = 0 }) ≡ some (ticked c r)
  unfolding tick
  tick_lem c r e ef = ground (
    arith,
    (listed_period f listed f≢).positive,
    (listed_period f listed f≢).wraps (c + 1),
    ap period ef,
  )

  -- The flag was up `k` times in the interrupts `c + 1` to `c + n`, and the clock has counted on.
  abbrev Counted : ℕ → ℕ → Option (Rtc × ℕ) → Type 0
  Counted c n o =
      (u : Rtc) × (k : ℕ) × (o ≡ some (u, k))
      × (u.clk ≡ (c + n) % 1024)
      × (u.virtual_freq ≡ f)
      × (k + c / period f ≡ (c + n) / period f)

  count_step :
      (n c : ℕ) (r : Rtc)
      → r.clk ≡ c % 1024
      → r.virtual_freq ≡ f
      → Counted (c + 1) n (count_raised n (ticked c r))
      → Counted c (suc n) (count_raised (suc n) r)
  unfolding count_raised
  count_step n c r e ef (u, k, o, ec, ev, ek) = (
    u,
    (ticked c r).ir_flag + k,
    ground (arith, tick_lem c r e ef),
    ground arith,
    ev,
    ground (arith, div_step c (period f) (listed_period f listed f≢).positive, ap period ef),
  )

  count_lem :
      (n c : ℕ) (r : Rtc) → r.clk ≡ c % 1024 → r.virtual_freq ≡ f → Counted c n (count_raised n r)
  unfolding count_raised
  count_lem zero c r e ef = (r, 0, refl, ground arith, ef, ground arith)
  count_lem (suc n) c r e ef = count_step n c r e ef (count_lem n (c + 1) (ticked c r) refl ef)

  at_zero :
      (n : ℕ) (o : Option (Rtc × ℕ)) → Counted 0 n o → (u : Rtc) × (o ≡ some (u, n / (1024 / f)))
  at_zero n o (u, k, e, ec, ev, ek) =
      (u, ground (arith, listed_le f listed, (listed_period f listed f≢).positive))

  -- From a clock at 0, as `rtc_open` leaves it, and with a frequency `f` of 2 to 1024 set, no number
  -- of interrupts divides by zero, and `n` of them put the flag up `n / (1024 / f)` times, when it is
  -- taken down in time.
  pub count_raised_lem :
      (n : ℕ) (r : Rtc)
      → r.clk ≡ 0
      → r.virtual_freq ≡ f
      → (u : Rtc) × (count_raised n r ≡ some (u, n / (1024 / f)))
  count_raised_lem n r e ef = at_zero n _ (count_lem n 0 r (omega arith) ef)
