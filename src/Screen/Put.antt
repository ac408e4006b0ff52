-- ===== src/Screen/Put.antt =====
-- What one character does to the screen, and how a backspace undoes it.
use ece391_mp.Prelude.{ℕ, ◌+◌, ◌*◌, ◌%◌, ◌≤◌, ◌<◌, ◌≡◌, ◌≢◌, refl, arith}
use ece391_mp.Prelude.Words.{u32}
use ece391_mp.CharUtil.Loops.{Outside}
use ece391_mp.Screen.{
  Screen, num_cols, num_rows, cell, update_cursor, scroll_handle, putc, print_backspace,
}
use ece391_mp.Screen.Bounds.{OnScreen}
use ece391_mp.Screen.Scroll.{Shows, Scrolled, scroll_handle-Scrolled}

-- The character `c` has been put at the place of `s`, and the place has moved on in its row, from the
-- last column to the first of the same row.
pub record Put (c : ℕ) (s t : Screen) : Type 0 where
  pub shown : Shows t.mem s.video_mem s.y s.x c
  pub frame : (a : ℕ) → Outside a (cell s.video_mem s.y s.x) 2 → t.mem a ≡ s.mem a
  pub column : t.x ≡ (s.x + 1) % num_cols
  pub row : t.y ≡ s.y
  pub cursor : t.cursor ≡ s.cursor

module _ (key_index c : ℕ) (s : Screen) (c≢n : c ≢ b'\n') (c≢r : c ≢ b'\r') where
  -- With room in the key buffer a character other than a line end is drawn in its cell, no other cell
  -- changes, and the place stays in its row, also behind the last column.
  pub putc-Put : key_index < 128 → OnScreen s → Put c s (putc key_index c s)
  unfolding putc
  putc-Put room on = ground arith

  -- With a full key buffer nothing is drawn.
  pub putc_full : 128 ≤ key_index → putc key_index c s ≡ s
  unfolding putc
  putc_full full = ground arith

  -- A backspace behind a character that was not put in the last column takes the place back to where
  -- it was, blanks the cell and puts the cursor there.
  pub print_backspace-putc :
      (k : ℕ)
      → key_index < 128
      → OnScreen s
      → s.x + 1 < num_cols
      → let t = print_backspace k (putc key_index c s) in
        (t.x ≡ s.x)
        × (t.y ≡ s.y)
        × Shows t.mem s.video_mem s.y s.x b' '
        × ((a : ℕ) → Outside a (cell s.video_mem s.y s.x) 2 → t.mem a ≡ s.mem a)
        × (t.cursor ≡ num_cols * s.y + s.x)
  unfolding putc print_backspace update_cursor
  print_backspace-putc k room on inside = ground arith

last_line :
    (key_index : ℕ) (s : Screen)
    → s.y + 1 ≡ num_rows
    → putc key_index b'\n' s ≡ scroll_handle (record s { x = 0; y = num_rows })
unfolding putc
last_line key_index s last = let e : u32 (s.y + 1) ≡ num_rows = omega arith in rw e refl

module _ (key_index : ℕ) (s : Screen) (on : OnScreen s) where
  -- A line end above the last row takes the place and the cursor to the beginning of the next row, and
  -- draws nothing; it does so with a full key buffer too.
  pub putc_line :
      s.y + 1 < num_rows
      → let t = putc key_index b'\n' s in
        (t.x ≡ 0) × (t.y ≡ s.y + 1) × (t.mem ≡ s.mem) × (t.cursor ≡ num_cols * (s.y + 1))
  unfolding putc update_cursor
  putc_line above = ground arith

  -- A line end in the last row scrolls the screen, and the place stays in the last row.
  pub putc_last_line :
      s.y + 1 ≡ num_rows
      → let t = record s { x = 0; y = num_rows } in Scrolled t (putc key_index b'\n' s)
  putc_last_line last =
      rw (last_line key_index s last)
        (scroll_handle-Scrolled (record s { x = 0; y = num_rows }) (omega arith) (omega arith))
