-- ===== src/Screen/Scroll.antt =====
-- Scrolling moves every row up by one and blanks the last.
use ece391_mp.Prelude.{ℕ, zero, suc, ◌+◌, ◌-◌, ◌*◌, ◌≤◌, ◌<◌, ◌≡◌, refl, arith, eq_cases, inl, inr}
use ece391_mp.Prelude.Memory.{Memory}
use ece391_mp.CharUtil.Loops.{Outside}
use ece391_mp.Screen.{
  Screen, num_cols, num_rows, attrib, cell, draw, update_cursor, scroll_handle, shift_row,
  shift_rows, blank_row,
}

-- A cell of the row shows the character `c`.
abbrev pub Shows : Memory → ℕ → ℕ → ℕ → ℕ → Type 0
Shows m v y x c = (m (cell v y x) ≡ c) × (m (cell v y x + 1) ≡ attrib)

module _ (v : ℕ) where
  shift_row_frame :
      (r x : ℕ) (m : Memory) (y a : ℕ)
      → Outside a (cell v y x) (2 * r)
      → shift_row r x m v y a ≡ m a
  unfolding shift_row
  shift_row_frame zero x m y a out = refl
  shift_row_frame (suc r) x m y a out =
      ground (arith, shift_row_frame r (x + 1) (draw m (cell v y x) (m (cell v (y + 1) x))) y a)

  shift_row-Shows :
      (r x j : ℕ) (m : Memory) (y : ℕ)
      → x ≤ j
      → j < x + r
      → x + r ≤ num_cols
      → Shows (shift_row r x m v y) v y j (m (cell v (y + 1) j))
  unfolding shift_row
  shift_row-Shows zero x j m y lo hi fits = absurd (omega arith)
  shift_row-Shows (suc r) x j m y lo hi fits =
      let m' : Memory = draw m (cell v y x) (m (cell v (y + 1) x)) in
      ground (
        arith,
        shift_row_frame r (x + 1) m' y (cell v y j),
        shift_row_frame r (x + 1) m' y (cell v y j + 1),
        shift_row-Shows r (x + 1) j m' y,
      )

  shift_rows_frame :
      (r y : ℕ) (m : Memory) (a : ℕ) → Outside a (cell v y 0) (160 * r) → shift_rows r y m v a ≡ m a
  unfolding shift_rows
  shift_rows_frame zero y m a out = refl
  shift_rows_frame (suc r) y m a out = ground (
    arith,
    shift_rows_frame r (y + 1) (shift_row num_cols 0 m v y) a,
    shift_row_frame num_cols 0 m y a,
  )

  shift_rows-Shows :
      (r y i j : ℕ) (m : Memory)
      → y ≤ i
      → i < y + r
      → j < num_cols
      → Shows (shift_rows r y m v) v i j (m (cell v (i + 1) j))
  unfolding shift_rows
  shift_rows-Shows zero y i j m lo hi fits = absurd (omega arith)
  shift_rows-Shows (suc r) y i j m lo hi fits =
      let m' : Memory = shift_row num_cols 0 m v y in
      elim (eq_cases i y) [
        | inl e ↦ ground (
          arith,
          shift_row-Shows num_cols 0 j m y,
          shift_rows_frame r (y + 1) m' (cell v i j),
          shift_rows_frame r (y + 1) m' (cell v i j + 1),
        )
        | inr ne ↦ ground (
          arith,
          shift_rows-Shows r (y + 1) i j m',
          shift_row_frame num_cols 0 m y (cell v (i + 1) j),
        )
      ]

  blank_row_frame :
      (r x : ℕ) (m : Memory) (a : ℕ) → Outside a (cell v 24 x) (2 * r) → blank_row r x m v a ≡ m a
  unfolding blank_row
  blank_row_frame zero x m a out = refl
  blank_row_frame (suc r) x m a out =
      ground (arith, blank_row_frame r (x + 1) (draw m (cell v 24 x) b' ') a)

  blank_row-Shows :
      (r x j : ℕ) (m : Memory) → x ≤ j → j < x + r → Shows (blank_row r x m v) v 24 j b' '
  unfolding blank_row
  blank_row-Shows zero x j m lo hi = absurd (omega arith)
  blank_row-Shows (suc r) x j m lo hi =
      let m' : Memory = draw m (cell v 24 x) b' ' in
      ground (
        arith,
        blank_row_frame r (x + 1) m' (cell v 24 j),
        blank_row_frame r (x + 1) m' (cell v 24 j + 1),
        blank_row-Shows r (x + 1) j m',
      )

-- The screen after a scroll of the screen `s`.
pub record Scrolled (s t : Screen) : Type 0 where
  pub moved :
      (y x : ℕ)
      → y < num_rows - 1
      → x < num_cols
      → Shows t.mem s.video_mem y x (s.mem (cell s.video_mem (y + 1) x))
  pub blank : (x : ℕ) → x < num_cols → Shows t.mem s.video_mem (num_rows - 1) x b' '
  pub frame : (a : ℕ) → Outside a s.video_mem 4000 → t.mem a ≡ s.mem a
  pub column : t.x ≡ 0
  pub row : t.y ≡ s.y - 1
  pub cursor : t.cursor ≡ num_cols * (s.y - 1)

-- Every row shows the characters of the row below it, the last row is blank, nothing outside the 4000
-- bytes of the screen changes, and the place and the cursor are at the beginning of the row before the place's.
pub scroll_handle-Scrolled : (s : Screen) → 0 < s.y → s.y ≤ num_rows → Scrolled s (scroll_handle s)
unfolding scroll_handle update_cursor
scroll_handle-Scrolled s lo hi =
    let m1 : Memory = shift_rows 24 0 s.mem s.video_mem in
    record {
      moved = λ y x hy hx. ground (
        arith,
        blank_row_frame s.video_mem 80 0 m1 (cell s.video_mem y x),
        blank_row_frame s.video_mem 80 0 m1 (cell s.video_mem y x + 1),
        shift_rows-Shows s.video_mem 24 0 y x s.mem,
      );
      blank = λ x hx. blank_row-Shows s.video_mem 80 0 x m1 (omega arith) (omega arith);
      frame = λ a out.
          ground (
            arith,
            blank_row_frame s.video_mem 80 0 m1 a,
            shift_rows_frame s.video_mem 24 0 s.mem a,
          );
      column = refl;
      row = omega arith;
      cursor = omega arith;
    }
