-- ===== src/Itoa/Reverse.antt =====
-- strrev turns a string round in place.
use ece391_mp.Prelude.{
  ℕ, zero, suc, ◌+◌, ◌-◌, ◌≤◌, ◌<◌, ◌≡◌, inl, inr, refl, arith, some, lt_cases, eq_cases, leb, ◌&&◌,
  if◌then◌else◌,
}
use ece391_mp.Prelude.Memory.{Memory, IsString}
use ece391_mp.CharUtil.Loops.{Outside}
use ece391_mp.LibString.Copy.{strlen_lem}
use ece391_mp.Itoa.{swap, strrev_loop, strrev}

-- The bytes from `lo` to `hi` stand in the opposite order, and the others where they were.
pub Mirrored : Memory → Memory → ℕ → ℕ → Type 0
Mirrored m m' lo hi = (a : ℕ) → m' a ≡ (if leb lo a && leb a hi then m (lo + hi - a) else m a)

Mirrored-swap :
    (m m' : Memory) (s beg end : ℕ)
    → beg < end
    → Mirrored (swap m s beg end) m' (s + (beg + 1)) (s + (end - 1))
    → Mirrored m m' (s + beg) (s + end)
unfolding Mirrored
Mirrored-swap m m' s beg end lt h a = elim (eq_cases a (s + beg)) [
  | inl e ↦ rw e (ground (arith, h (s + beg)))
  | inr ne ↦ elim (eq_cases a (s + end)) [
    | inl e ↦ rw e (ground (arith, h (s + end)))
    | inr ne' ↦
        let same : s + (beg + 1) + (s + (end - 1)) - a ≡ s + beg + (s + end) - a = omega arith in
        ground (arith, h a, same)
  ]
]

Mirrored-short : (m : Memory) (lo hi : ℕ) → hi ≤ lo → Mirrored m m lo hi
unfolding Mirrored
Mirrored-short m lo hi le a = elim (eq_cases a (lo + hi - a)) [
  | inl e ↦ rw (← e) (ground arith)
  | inr ne ↦ ground arith
]

strrev_loop_lem :
    (fuel : ℕ) (m : Memory) (s beg end : ℕ)
    → 0 < fuel
    → end < beg + fuel
    → beg ≤ end + 1
    → (m' : Memory) × (strrev_loop fuel m s beg end ≡ some m') × Mirrored m m' (s + beg) (s + end)
unfolding strrev_loop Mirrored
strrev_loop_lem zero m s beg end pos f le = absurd (omega arith)
strrev_loop_lem (suc fuel) m s beg end pos f le = elim (lt_cases beg end) [
  | inl lt ↦
      let (m', e, h) =
        strrev_loop_lem fuel (swap m s beg end) s (beg + 1) (end - 1) (omega arith) (omega arith)
          (omega arith) in
      (m', ground arith, Mirrored-swap m m' s beg end lt h)
  | inr ge ↦ (m, ground arith, Mirrored-short m (s + beg) (s + end) (omega arith))
]

turned_alone : (m : Memory) (s n a : ℕ) → n ≡ 0 → a ≡ s → m (s + 0 + (s + (n - 1)) - a) ≡ m a
turned_alone m s n a z e = let same : s + 0 + (s + (n - 1)) - a ≡ a = omega arith in rw same refl

-- With fuel for the string `strrev` gives its bytes in the opposite order, the NUL stays behind them,
-- and no other byte changes.
pub strrev_lem :
    (fuel : ℕ) (m : Memory) (s n : ℕ)
    → IsString m s n
    → n < fuel
    → (m' : Memory) × (strrev fuel m s ≡ some m')
      × ((j : ℕ) → j < n → m' (s + j) ≡ m (s + (n - 1 - j)))
      × ((a : ℕ) → Outside a s n → m' a ≡ m a)
unfolding strrev Mirrored
strrev_lem fuel m s n str f =
    let (m', e, h) = strrev_loop_lem fuel m s 0 (n - 1) (omega arith) (omega arith) (omega arith) in
    (
      m',
      ground (arith, strlen_lem fuel m s n str, e),
      λ j lt.
          let same : s + 0 + (s + (n - 1)) - (s + j) ≡ s + (n - 1 - j) = omega arith in
          ground (arith, h (s + j), same),
      λ a out. ground (arith, h a, turned_alone m s n a),
    )
