-- ===== src/Screen/Bounds.antt =====
-- The place of the next character stays on the screen.
use ece391_mp.Prelude.{ℕ, ◌+◌, ◌%◌, ◌≤◌, ◌<◌, ◌≡◌, List, [], ◌∷◌, arith, length}
use ece391_mp.Prelude.Words.{u8}
use ece391_mp.Screen.{
  Screen, num_cols, num_rows, update_cursor, print_backspace, scroll_handle, putc, clear, puts,
  puts_loop,
}

pub record OnScreen (s : Screen) : Type 0 where
  pub column : s.x < num_cols
  pub row : s.y < num_rows

-- A character, whatever it is, leaves the place on the screen.
pub putc-OnScreen : (key_index c : ℕ) (s : Screen) → OnScreen s → OnScreen (putc key_index c s)
unfolding putc update_cursor scroll_handle
putc-OnScreen key_index c s h = ground arith

pub clear-OnScreen : (s : Screen) → OnScreen (clear s)
unfolding clear update_cursor
clear-OnScreen s = ground arith

pub print_backspace-OnScreen :
    (key_index : ℕ) (s : Screen) → OnScreen s → OnScreen (print_backspace key_index s)
unfolding print_backspace update_cursor
print_backspace-OnScreen key_index s h = ground arith

puts_loop-column :
    (key_index : ℕ) (text : List ℕ) (x : ℕ) (s : Screen)
    → x < 256
    → (puts_loop key_index text x s).1 ≡ (x + length text) % 256
unfolding puts_loop
puts_loop-column key_index [] x s h = omega arith
puts_loop-column key_index (c ∷ cs) x s h =
    ground (arith, puts_loop-column key_index cs (u8 (x + 1)) (putc key_index c s))

-- The column after `puts` does not come from the characters, line ends or not: it is the column
-- before, counted on by the number of bytes in a `uint8_t`.
pub puts_column :
    (key_index : ℕ) (text : List ℕ) (s : Screen)
    → (puts key_index text s).x ≡ (s.x + length text) % 256
unfolding puts
puts_column key_index text s = ground (arith, puts_loop-column key_index text (u8 s.x) s)

-- So a string that would fill the row up to its end or beyond, but not to the 256th column, leaves
-- the place off the screen.
pub puts_leaves_screen :
    (key_index : ℕ) (text : List ℕ) (s : Screen)
    → num_cols ≤ s.x + length text
    → s.x + length text < 256
    → ¬ OnScreen (puts key_index text s)
puts_leaves_screen key_index text s lo hi h = ground (arith, puts_column key_index text s, h.column)
