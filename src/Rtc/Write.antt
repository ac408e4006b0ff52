-- ===== src/Rtc/Write.antt =====
-- Which frequencies `rtc_write` accepts.
use Prim.Native.Nat.{bit_and}
use ece391_mp.Prelude.{
  ℕ, ◌≤◌, ◌<◌, ◌≡◌, ◌≢◌, refl, ap, Bool, true, false, not, ◌&&◌, ◌||◌, arith, ◌==◌, if◌then◌else◌,
  lt_cases, eq_cases, inl, inr, none,
}
use ece391_mp.Prelude.Words.{minus_one, sub32}
use ece391_mp.Prelude.Bits.{pow-le-bit_and}
use ece391_mp.Prelude.Memory.{Memory, load32}
use ece391_mp.Pic.Bits.{all_below, all_below_sound}
use ece391_mp.Rtc.{Rtc, is_allowed, set_frequency, rtc_write, tick}

-- 0 and the powers of two from 2 to 1024.
unfoldable pub is_listed : ℕ → Bool
is_listed f =
    f == 0
    || f == 2
    || f == 4
    || f == 8
    || f == 16
    || f == 32
    || f == 64
    || f == 128
    || f == 256
    || f == 512
    || f == 1024

same : Bool → Bool → Bool
same true b = b
same false true = false
same false false = true

same-eq : (a b : Bool) → same a b ≡ true → a ≡ b
unfolding same
same-eq a b h = ground arith

small_table : all_below 1025 (λ f. same (is_allowed f) (is_listed f)) ≡ true
unfolding all_below is_allowed same is_listed
small_table = refl

is_allowed_small : (f : ℕ) → f ≤ 1024 → is_allowed f ≡ is_listed f
is_allowed_small f le =
    same-eq _ _
      (all_below_sound 1025 (λ f. same (is_allowed f) (is_listed f)) f small_table (omega arith))

is_allowed_middle : (f : ℕ) → 1024 < f → f < 2147483648 → is_allowed f ≡ false
unfolding is_allowed
is_allowed_middle f lo hi = ground arith

is_listed_large : (f : ℕ) → 1024 < f → is_listed f ≡ false
unfolding is_listed
is_listed_large f lo = ground arith

is_allowed_least : is_allowed 2147483648 ≡ true
unfolding is_allowed
is_allowed_least = refl

is_allowed_negative : (f : ℕ) → 2147483648 < f → f < 4294967296 → is_allowed f ≡ false
unfolding is_allowed
is_allowed_negative f lo hi =
    let top : 2147483648 ≤ bit_and f (sub32 f 1) =
      pow-le-bit_and 31 f (sub32 f 1) (omega arith) (omega arith) (omega arith) (omega arith) in
    ground (arith, top)

-- The driver's frequencies: 0, the powers of two from 2 to 1024, and the least of the negative numbers, -2147483648.
pub is_allowed_lem : (f : ℕ) → f < 4294967296 → is_allowed f ≡ (is_listed f || f == 2147483648)
is_allowed_lem f lt = elim (lt_cases 1024 f) [
  | inr le ↦ ground (arith, is_allowed_small f le)
  | inl gt ↦ elim (lt_cases f 2147483648) [
    | inl mid ↦ ground (arith, is_allowed_middle f gt mid, is_listed_large f gt)
    | inr ge ↦ elim (eq_cases f 2147483648) [
      | inl e ↦ ground (arith, is_allowed_least, e, ap is_allowed e)
      | inr ne ↦ ground (arith, is_allowed_negative f (omega arith) lt, is_listed_large f gt)
    ]
  ]
]

-- What the driver accepts.
abbrev pub is_accepted : ℕ → Bool
is_accepted f = is_listed f || f == 2147483648

set_frequency_lem :
    (r : Rtc) (f : ℕ)
    → f < 4294967296
    → set_frequency r f
      ≡ (if is_accepted f then (record r { virtual_freq = f }, 4) else (r, minus_one))
unfolding set_frequency
set_frequency_lem r f lt = rw (is_allowed_lem f lt)

-- A write from a buffer that is not NULL and holds an accepted frequency in 4 bytes sets it and returns 4; any other
-- write sets nothing and returns -1.
pub rtc_write_lem :
    (r : Rtc) (m : Memory) (buf nbytes : ℕ)
    → load32 m buf < 4294967296
    → rtc_write r m buf nbytes ≡ (
        if nbytes == 4 && not (buf == 0) && is_accepted (load32 m buf)
        then (record r { virtual_freq = load32 m buf }, 4)
        else (r, minus_one))
unfolding rtc_write
rtc_write_lem r m buf nbytes lt = rw (set_frequency_lem r (load32 m buf) lt) (ground arith)

-- The least negative number is accepted by rtc_write, with the result 4, and then the next interrupt of
-- the clock divides by zero.
pub least_frequency_faults :
    (r : Rtc) (m : Memory) (buf : ℕ)
    → buf ≢ 0
    → load32 m buf ≡ 2147483648
    → ((rtc_write r m buf 4).1 ≡ 4) × (tick (rtc_write r m buf 4).0 ≡ none)
unfolding rtc_write set_frequency tick
least_frequency_faults r m buf ne e = rw (e, is_allowed_least) (ground arith)
