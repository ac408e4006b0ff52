-- ===== src/Prelude/Bits.antt =====
-- `bit_and` at variables: its lowest digit, and its top digit.
use Prim.Native.Nat.{bit_and, digits, bit_and-bitwise}
use ece391_mp.Prelude.{ℕ, zero, suc, ◌+◌, ◌*◌, ◌/◌, ◌%◌, ◌^◌, ◌≤◌, ◌<◌, min, ◌≡◌, refl, arith}
use native.Mathlib.Nat.{pow-succ'}

abbrev shared_digits : ℕ → ℕ → ℕ → ℕ
shared_digits rounds a b = digits (λ _. zero) min rounds a b

-- The digits do not depend on the rounds, once there are at least `a`.
more_rounds : (a b k l : ℕ) → a ≤ k → a ≤ l → shared_digits k a b ≡ shared_digits l a b
more_rounds (suc a) b (suc k) (suc l) enough more =
    omega (arith, more_rounds (suc a / 2) (b / 2) k l (omega arith) (omega arith))
more_rounds (suc a) b zero l enough more = elim enough [ ]
more_rounds (suc a) b (suc k) zero enough more = elim more [ ]
more_rounds zero b zero zero _ _ = refl
more_rounds zero b zero (suc l) _ _ = refl
more_rounds zero b (suc k) zero _ _ = refl
more_rounds zero b (suc k) (suc l) _ _ = refl

pub bit_and-digit : (a b : ℕ) → bit_and a b ≡ 2 * bit_and (a / 2) (b / 2) + min (a % 2) (b % 2)
bit_and-digit zero b = omega (arith, bit_and-bitwise 0 b, bit_and-bitwise 0 (b / 2))
bit_and-digit (suc a) b =
    let half : ℕ = suc a / 2 in
    omega (
      arith,
      more_rounds half (b / 2) a half (omega arith) (omega arith),
      bit_and-bitwise half (b / 2),
      bit_and-bitwise (suc a) b,
    )

-- Two numbers with the same top digit share it.
pub pow-le-bit_and :
    (k a b : ℕ) → 2 ^ k ≤ a → a < 2 * 2 ^ k → 2 ^ k ≤ b → b < 2 * 2 ^ k → 2 ^ k ≤ bit_and a b
pow-le-bit_and zero a b la ua lb ub = omega (arith, bit_and-digit a b)
pow-le-bit_and (suc k) a b la ua lb ub =
    let double : 2 ^ suc k ≡ 2 * 2 ^ k = pow-succ' 2 k in
    omega (
      arith,
      bit_and-digit a b,
      pow-le-bit_and k (a / 2) (b / 2) (omega arith) (omega arith) (omega arith) (omega arith),
    )
