-- ===== src/Screen.antt =====
-- student-distrib/lib.c, the text screen: the cells of video memory, the place of the next character,
-- and the cursor that the VGA registers hold.
pub mod Bounds
pub mod Scroll
pub mod Put
pub mod Frame
pub mod Tests
use ece391_mp.Prelude.{
  ℕ, zero, suc, ◌+◌, ◌-◌, ◌*◌, ◌/◌, ◌%◌, Bool, true, false, List, [], ◌∷◌, ltb, ◌==◌, ◌&&◌, ◌||◌,
  if◌then◌else◌,
}
use ece391_mp.Prelude.Words.{u8, u32, sub32}
use ece391_mp.Prelude.Memory.{Memory, store}

abbrev pub num_cols : ℕ
num_cols = 80

abbrev pub num_rows : ℕ
num_rows = 25

abbrev pub attrib : ℕ
attrib = 0x7

-- `cursor` is the position that was last written to the VGA registers 0x0F (its low byte) and 0x0E.
-- `wrapped` is the terminal's, and `video_mem` the address that the characters go to.
pub record Screen : Type 0 where
  pub mem : Memory
  pub video_mem : ℕ
  pub x : ℕ
  pub y : ℕ
  pub cursor : ℕ
  pub wrapped : ℕ

-- `video_mem + ((NUM_COLS * y + x) << 1)`
abbrev pub cell : ℕ → ℕ → ℕ → ℕ
cell video_mem y x = video_mem + (num_cols * y + x) * 2

unfoldable pub update_cursor : ℕ → ℕ → Screen → Screen
update_cursor x y s =
    let position = u32 (y * num_cols + x) in
    record s { cursor = u8 position + 256 * u8 (position / 256) }

-- `*(uint8_t*)a = c; *(uint8_t*)(a + 1) = ATTRIB`
abbrev pub draw : Memory → ℕ → ℕ → Memory
draw m a c = store (store m a c) (a + 1) attrib

unfoldable pub clear_loop : ℕ → ℕ → Memory → ℕ → Memory
clear_loop zero i m video_mem = m
clear_loop (suc rounds) i m video_mem =
    clear_loop rounds (i + 1) (draw m (video_mem + i * 2) b' ') video_mem

unfoldable pub clear : Screen → Screen
clear s =
    update_cursor 0 0
      (record s { mem = clear_loop (num_rows * num_cols) 0 s.mem s.video_mem; x = 0; y = 0 })

unfoldable pub wrap_around : Screen → Screen
wrap_around s = let t = record s { x = 0; y = u32 (s.y + 1) } in update_cursor t.x t.y t

-- The last two branches of `print_backspace` do the same, whatever the key index is.
unfoldable pub print_backspace : ℕ → Screen → Screen
print_backspace key_index s =
    let up = record s { x = num_cols - 1; y = sub32 s.y 1; wrapped = 0 } in
    let left = record s { x = sub32 s.x 1 } in
    let moved =
      (if s.x == 0 && s.y == 0
        then s
        else if s.x == 0
        then update_cursor up.x up.y up
        else if key_index == 128
        then update_cursor left.x left.y left
        else update_cursor left.x left.y left) in
    let t = record moved { mem = store moved.mem (cell moved.video_mem moved.y moved.x) b' ' } in
    update_cursor t.x t.y t

-- The inner loop of `scroll_handle`: a cell of row `y` takes the character below it.
unfoldable pub shift_row : ℕ → ℕ → Memory → ℕ → ℕ → Memory
shift_row zero x m video_mem y = m
shift_row (suc rounds) x m video_mem y =
    shift_row rounds (x + 1) (draw m (cell video_mem y x) (m (cell video_mem (y + 1) x))) video_mem
      y

unfoldable pub shift_rows : ℕ → ℕ → Memory → ℕ → Memory
shift_rows zero y m video_mem = m
shift_rows (suc rounds) y m video_mem =
    shift_rows rounds (y + 1) (shift_row num_cols 0 m video_mem y) video_mem

unfoldable pub blank_row : ℕ → ℕ → Memory → ℕ → Memory
blank_row zero x m video_mem = m
blank_row (suc rounds) x m video_mem =
    blank_row rounds (x + 1) (draw m (cell video_mem (num_rows - 1) x) b' ') video_mem

unfoldable pub scroll_handle : Screen → Screen
scroll_handle s =
    let m = blank_row num_cols 0 (shift_rows (num_rows - 1) 0 s.mem s.video_mem) s.video_mem in
    let t = record s { mem = m; x = 0; y = sub32 s.y 1 } in update_cursor 0 t.y t

-- `key_index` is the number of keys in the buffer of the displayed terminal: a full buffer stops all
-- output but line ends.
unfoldable pub putc : ℕ → ℕ → Screen → Screen
putc key_index c s =
    let line = record s { x = 0; y = u32 (s.y + 1) } in
    let col = u32 (s.x + 1) % num_cols in
    let drawn = record s {
      mem = draw s.mem (cell s.video_mem s.y s.x) c;
      x = col;
      y = u32 (s.y + col / num_cols) % num_rows;
    } in
    if c == b'\n' || c == b'\r'
    then (if line.y == num_rows then scroll_handle line else update_cursor line.x line.y line)
    else if ltb key_index 128
    then drawn
    else s

-- The loop of `puts`, whose counter `x` is a `uint8_t`.
unfoldable pub puts_loop : ℕ → List ℕ → ℕ → Screen → Screen × ℕ
puts_loop key_index [] x s = (s, x)
puts_loop key_index (c ∷ cs) x s = puts_loop key_index cs (u8 (x + 1)) (putc key_index c s)

-- The string is the list of its bytes before the NUL.
unfoldable pub puts : ℕ → List ℕ → Screen → Screen
puts key_index text s = let (t, x) = puts_loop key_index text (u8 s.x) s in record t { x = x }
