-- ===== src/Terminal.antt =====
-- student-distrib/terminal.c: terminal_read behind its wait, terminal_write and clear_buffer.
pub mod Read
pub mod Write
pub mod Tests
use ece391_mp.Prelude.{ℕ, zero, suc, ◌+◌, ◌-◌, ◌%◌, Bool, ltb, ◌==◌, ◌&&◌, ◌||◌, not, if◌then◌else◌}
use ece391_mp.Prelude.Words.{minus_one, is_neg}
use ece391_mp.Prelude.Memory.{Memory, store}
use ece391_mp.CharUtil.{copy_buf}
use ece391_mp.LibString.{strncpy}
use ece391_mp.Screen.{Screen, num_rows, num_cols, update_cursor, wrap_around, scroll_handle, putc}

abbrev pub max_buff_length : ℕ
max_buff_length = 128

-- The keys of each terminal, by its number and the index in its buffer.
pub record Keys : Type 0 where
  pub display_terminal : ℕ
  pub key_index : ℕ → ℕ
  pub key_buffer : ℕ → ℕ → ℕ
  pub enter_down : ℕ

-- `for (; rounds > 0; x++) a[x] = v`
unfoldable pub fill_with : ℕ → ℕ → (ℕ → ℕ) → ℕ → ℕ → ℕ → ℕ
fill_with zero x m base v = m
fill_with (suc rounds) x m base v = fill_with rounds (x + 1) (store m (base + x) v) base v

unfoldable pub clear_buffer : Keys → Keys
clear_buffer k = record k {
  key_buffer = λ t.
      if t == k.display_terminal
      then fill_with max_buff_length 0 (k.key_buffer t) 0 0
      else k.key_buffer t;
  key_index = store k.key_index k.display_terminal 0;
}

-- The loop of `terminal_read` up to a line end, and its count: `last` is the count, and `index` is one
-- less.
unfoldable pub line_loop : ℕ → ℕ → Memory → ℕ → (ℕ → ℕ) → Memory × ℕ
line_loop zero x m buffer keys = (m, x)
line_loop (suc rounds) x m buffer keys =
    let rest = line_loop rounds (x + 1) (store m (buffer + x) (keys x)) buffer keys in
    if keys x == b'\n' then (store m (buffer + x) (keys x), x + 1) else rest

-- The line end that is put behind a line without one, or in place of its last byte.
unfoldable pub end_line : Memory → ℕ → ℕ → Memory
end_line m buffer count =
    if m (buffer + (count - 1)) == b'\n'
    then m
    else if ltb count max_buff_length
    then store m (buffer + count) b'\n'
    else store m (buffer + (count - 1)) b'\n'

-- `buffer` is the address of the local array. The keys are those at the moment when the wait for the
-- flag `enter_down` has ended.
unfoldable pub terminal_read : Keys → Screen → ℕ → ℕ → ℕ → Keys × Screen × ℕ
terminal_read k s buffer buf nbytes =
    let t = update_cursor s.x s.y s in
    let up = record k { enter_down = 0 } in
    let empty : Memory = fill_with max_buff_length 0 t.mem buffer 0 in
    let out : Memory × ℕ =
      line_loop max_buff_length 0 empty buffer (k.key_buffer k.display_terminal) in
    let copied : Memory = strncpy (end_line out.0 buffer out.1) buf buffer max_buff_length in
    if nbytes == 0 || is_neg nbytes
    then (up, record t { mem = empty }, minus_one)
    else (clear_buffer up, record t { mem = fill_with out.1 0 copied buffer b'0' }, out.1)

-- What `terminal_write` does to the place before the byte with the number `x`.
unfoldable pub turn_line : ℕ → Screen → Screen
turn_line x s =
    if x % 80 == 0 && not (x == 0)
    then (if s.y + 1 == num_rows then scroll_handle (record s { y = s.y + 1 }) else wrap_around s)
    else s

unfoldable pub write_loop : ℕ → ℕ → ℕ → ℕ → ℕ → Screen → Screen × ℕ
write_loop zero x count key_index buffer s = (s, count)
write_loop (suc rounds) x count key_index buffer s =
    let t = turn_line x s in
    let c = t.mem (buffer + x) in
    if c == 0
    then write_loop rounds (x + 1) count key_index buffer t
    else write_loop rounds (x + 1) (count + 1) key_index buffer (putc key_index c t)

-- `buffer` is the address of the local array of `nbytes` bytes.
unfoldable pub terminal_write : ℕ → Screen → ℕ → ℕ → ℕ → Screen × ℕ
terminal_write key_index s buffer buf nbytes =
    let len = if is_neg nbytes then 0 else nbytes in
    let t = record s { mem = fill_with len 0 s.mem buffer 0 } in
    if buf == 0 || len == 0
    then (t, minus_one)
    else write_loop len 0 0 key_index buffer (record t { mem = (copy_buf t.mem buf buffer len).0 })
