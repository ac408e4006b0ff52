-- ===== src/Rtc/Read.antt =====
-- When `rtc_read` returns.
use ece391_mp.Prelude.{
  ℕ, zero, suc, ◌+◌, ◌-◌, ◌%◌, ◌≤◌, ◌<◌, ◌≡◌, ◌≢◌, refl, ap, true, arith, eq_cases, inl, inr,
  Option, none, some,
}
use ece391_mp.Rtc.{Rtc, tick, period, rtc_read}
use ece391_mp.Rtc.Write.{is_listed}
use ece391_mp.Rtc.Tick.{listed_period, ticked}

next_multiple : (c q : ℕ) → 0 < q → (c + suc (q - 1 - c % q)) % q ≡ 0
next_multiple c q h = grind arith

-- The read has returned 0, with the flag down and the frequency as it was.
abbrev pub Returned : ℕ → Option (Rtc × ℕ) → Type 0
Returned f o = (u : Rtc) × (o ≡ some (u, 0)) × (u.ir_flag ≡ 0) × (u.virtual_freq ≡ f)

-- With the frequency 0 a read that finds the flag down never returns, however many interrupts come.
pub rtc_read_blocks :
    (fuel : ℕ) (r : Rtc) → r.ir_flag ≡ 0 → r.virtual_freq ≡ 0 → rtc_read fuel r ≡ none
unfolding rtc_read tick
rtc_read_blocks zero r e ef = ground arith
rtc_read_blocks (suc fuel) r e ef =
    ground (arith, rtc_read_blocks fuel (record r { clk = (r.clk + 1) % 1024 }) e ef)

module _ (f : ℕ) (listed : is_listed f ≡ true) (f≢ : f ≢ 0) where
  tick_down :
      (c : ℕ) (r : Rtc)
      → r.clk ≡ c % 1024
      → r.virtual_freq ≡ f
      → r.ir_flag ≡ 0
      → tick r ≡ some (ticked c r)
  unfolding tick
  tick_down c r e ef down = ground (
    arith,
    (listed_period f listed f≢).positive,
    (listed_period f listed f≢).wraps (c + 1),
    ap period ef,
  )

  read_up : (fuel : ℕ) (r : Rtc) → r.virtual_freq ≡ f → r.ir_flag ≢ 0 → Returned f (rtc_read fuel r)
  unfolding rtc_read
  read_up zero r ef up = (record r { ir_flag = 0 }, ground arith, refl, ef)
  read_up (suc fuel) r ef up = (record r { ir_flag = 0 }, ground arith, refl, ef)

  read_down :
      (fuel c : ℕ) (r : Rtc)
      → r.clk ≡ c % 1024
      → r.virtual_freq ≡ f
      → r.ir_flag ≡ 0
      → rtc_read (suc fuel) r ≡ rtc_read fuel (ticked c r)
  unfolding rtc_read
  read_down fuel c r e ef down = ground (arith, tick_down c r e ef down)

  -- After `left` more interrupts and one the clock stands at a multiple of the period.
  read_lem :
      (fuel c left : ℕ) (r : Rtc)
      → r.clk ≡ c % 1024
      → r.virtual_freq ≡ f
      → (c + suc left) % period f ≡ 0
      → left < fuel
      → Returned f (rtc_read fuel r)
  read_lem zero c left r e ef at lt = absurd (omega arith)
  read_lem (suc fuel) c left r e ef at lt = elim (eq_cases r.ir_flag 0) [
    | inr up ↦ read_up (suc fuel) r ef up
    | inl down ↦ rw (read_down fuel c r e ef down) (elim (eq_cases ((c + 1) % period f) 0) [
      | inl hit ↦ read_up fuel (ticked c r) ef (ground (arith, ap period ef))
      | inr miss ↦
          read_lem fuel (c + 1) (left - 1) (ticked c r) refl ef (later c left miss at)
            (earlier c left miss at lt)
    ])
  ]
    where
      still : (c left : ℕ) → (c + 1) % period f ≢ 0 → (c + suc left) % period f ≡ 0 → left ≢ 0
      still c left miss at z = miss (ground arith)

      shift : (c left : ℕ) → left ≢ 0 → c + 1 + suc (left - 1) ≡ c + suc left
      shift c left ne = omega arith

      later :
          (c left : ℕ)
          → (c + 1) % period f ≢ 0
          → (c + suc left) % period f ≡ 0
          → (c + 1 + suc (left - 1)) % period f ≡ 0
      later c left miss at = rw (shift c left (still c left miss at)) at

      earlier :
          (c left : ℕ)
          → (c + 1) % period f ≢ 0
          → (c + suc left) % period f ≡ 0
          → left < suc fuel
          → left - 1 < fuel
      earlier c left miss at lt = omega (arith, still c left miss at)

  -- With a frequency `f` of 2 to 1024 a read returns 0 after at most `1024 / f` interrupts, and takes
  -- the flag down; the frequency stays.
  pub rtc_read_returns :
      (fuel : ℕ) (r : Rtc)
      → r.clk < 1024
      → r.virtual_freq ≡ f
      → period f ≤ fuel
      → Returned f (rtc_read fuel r)
  rtc_read_returns fuel r lt ef enough =
      let q≢ : 0 < period f = (listed_period f listed f≢).positive in
      read_lem fuel r.clk (period f - 1 - r.clk % period f) r (omega arith) ef
        (next_multiple r.clk (period f) q≢) (omega arith)
