-- ===== src/Prelude/Memory.antt =====
-- Byte-addressed memory: a pointer is a number, and NULL is 0.
use ece391_mp.Prelude.{
  ℕ, zero, suc, ◌+◌, ◌*◌, ◌≤◌, ◌<◌, ◌≡◌, ◌≢◌, ◌⊎◌, refl, ap, List, [], ◌∷◌, ◌++◌, arith, length,
  ◌==◌, if◌then◌else◌,
}

abbrev pub Memory : Type 0
Memory = ℕ → ℕ

-- `*a = v`
abbrev pub store : Memory → ℕ → ℕ → Memory
store m a v b = if a == b then v else m b

-- `a[i] = x` for an array of any kind.
abbrev pub put {ℓ} : {A : Type ℓ} → (ℕ → A) → ℕ → A → ℕ → A
put f i x j = if i == j then x else f j

-- A little-endian 32-bit read.
abbrev pub load32 : Memory → ℕ → ℕ
load32 m a = m a + 256 * m (a + 1) + 65536 * m (a + 2) + 16777216 * m (a + 3)

-- The `n` bytes from `a` on.
abbrev pub bytes : Memory → ℕ → ℕ → List ℕ
bytes m a zero = []
bytes m a (suc n) = m a ∷ bytes m (suc a) n

-- `n` bytes and then a NUL, which is the first one.
pub record IsString (m : Memory) (s n : ℕ) : Type 0 where
  pub body : (i : ℕ) → i < n → m (s + i) ≢ 0
  pub eos : m (s + n) ≡ 0

-- The ranges of `n` bytes from `a` and of `k` bytes from `b` do not meet.
abbrev pub Disjoint : ℕ → ℕ → ℕ → ℕ → Type 0
Disjoint a n b k = (a + n ≤ b) ⊎ (b + k ≤ a)

pub length-bytes : (m : Memory) (a n : ℕ) → length (bytes m a n) ≡ n
length-bytes m a zero = refl
length-bytes m a (suc n) = ap suc (length-bytes m (suc a) n)

add_suc_shift : (a i : ℕ) → a + suc i ≡ suc a + i
add_suc_shift a i = omega arith

add_zero_eq : (a : ℕ) → a + 0 ≡ a
add_zero_eq a = omega arith

-- Two memories that agree on a range hold the same bytes there.
pub bytes-eq :
    (m k : Memory) (a b n : ℕ)
    → ((i : ℕ) → i < n → m (a + i) ≡ k (b + i))
    → bytes m a n ≡ bytes k b n
bytes-eq m k a b zero h = refl
bytes-eq m k a b (suc n) h = ground (
  arith,
  h 0,
  bytes-eq m k (suc a) (suc b) n
      (λ i p. rw (← add_suc_shift a i, ← add_suc_shift b i) (h (suc i) (omega arith))),
)

pub bytes_snoc : (m : Memory) (a n : ℕ) → bytes m a (suc n) ≡ bytes m a n ++ m (a + n) ∷ []
bytes_snoc m a zero = ground arith
bytes_snoc m a (suc n) = ground (arith, bytes_snoc m (suc a) n, add_suc_shift a n)

pub IsString-end : (m : Memory) (s n i : ℕ) → IsString m s n → i ≤ n → m (s + i) ≡ 0 → i ≡ n
IsString-end m s n i str le z = ground (arith, str.body i)
