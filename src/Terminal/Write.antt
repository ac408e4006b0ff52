-- ===== src/Terminal/Write.antt =====
-- The place of the next character under terminal_write, and its result.
use ece391_mp.Prelude.{
  ℕ, zero, suc, ◌+◌, ◌≤◌, ◌<◌, ◌≢◌, inl, inr, arith, Bool, true, false, ◌==◌, ◌||◌, if◌then◌else◌,
  eq_cases, ==_ne,
}
use ece391_mp.Prelude.Words.{minus_one, is_neg}
use ece391_mp.CharUtil.{copy_buf}
use ece391_mp.Screen.{Screen, putc, scroll_handle, wrap_around, update_cursor}
use ece391_mp.Screen.Bounds.{OnScreen, putc-OnScreen}
use ece391_mp.Terminal.{fill_with, turn_line, write_loop, terminal_write}

turn_line-OnScreen : (x : ℕ) (s : Screen) → OnScreen s → OnScreen (turn_line x s)
unfolding turn_line scroll_handle wrap_around update_cursor
turn_line-OnScreen x s on = ground arith

write_loop-OnScreen :
    (rounds x count key_index buffer : ℕ) (s : Screen)
    → OnScreen s
    → OnScreen (write_loop rounds x count key_index buffer s).0
unfolding write_loop
write_loop-OnScreen zero x count key_index buffer s on = on
write_loop-OnScreen (suc r) x count key_index buffer s on =
    let t : Screen = turn_line x s in
    let on' : OnScreen t = turn_line-OnScreen x s on in
    elim (eq_cases (t.mem (buffer + x)) 0) [
      | inl z ↦ rw z (write_loop-OnScreen r (x + 1) count key_index buffer t on')
      | inr ne ↦ rw (==_ne (t.mem (buffer + x)) 0 ne) (
          write_loop-OnScreen r (x + 1) (count + 1) key_index buffer
            (putc key_index (t.mem (buffer + x)) t)
            (putc-OnScreen key_index (t.mem (buffer + x)) t on'))
    ]

OnScreen-if :
    (b : Bool) (p q : Screen × ℕ) → OnScreen p.0 → OnScreen q.0 → OnScreen (if b then p else q).0
OnScreen-if true p q h k = h
OnScreen-if false p q h k = k

-- Whatever bytes are written, `terminal_write` leaves a place that is on the screen on the screen.
pub terminal_write-OnScreen :
    (key_index : ℕ) (s : Screen) (buffer buf nbytes : ℕ)
    → OnScreen s
    → OnScreen (terminal_write key_index s buffer buf nbytes).0
unfolding terminal_write
terminal_write-OnScreen key_index s buffer buf nbytes on =
    let len : ℕ = if is_neg nbytes then 0 else nbytes in
    let t : Screen = record s { mem = fill_with len 0 s.mem buffer 0 } in
    let u : Screen = record t { mem = (copy_buf t.mem buf buffer len).0 } in
    OnScreen-if (buf == 0 || len == 0) (t, minus_one) (write_loop len 0 0 key_index buffer u)
      (record { column = on.column; row = on.row })
      (write_loop-OnScreen len 0 0 key_index buffer u (record { column = on.column; row = on.row }))

write_loop-le :
    (rounds x count key_index buffer : ℕ) (s : Screen)
    → (write_loop rounds x count key_index buffer s).1 ≤ count + rounds
unfolding write_loop
write_loop-le zero x count key_index buffer s = omega arith
write_loop-le (suc r) x count key_index buffer s =
    let t : Screen = turn_line x s in
    elim (eq_cases (t.mem (buffer + x)) 0) [
      | inl z ↦ rw z (omega (arith, write_loop-le r (x + 1) count key_index buffer t))
      | inr ne ↦ rw (==_ne (t.mem (buffer + x)) 0 ne) (
          omega (
            arith,
            write_loop-le r (x + 1) (count + 1) key_index buffer
                (putc key_index (t.mem (buffer + x)) t),
          ))
    ]

-- A write of one or more bytes from a place that is not NULL is accepted, and no more than all bytes are counted.
pub terminal_write_accepts :
    (key_index : ℕ) (s : Screen) (buffer buf nbytes : ℕ)
    → buf ≢ 0
    → 0 < nbytes
    → nbytes < 2147483648
    → (terminal_write key_index s buffer buf nbytes).1 ≤ nbytes
unfolding terminal_write
terminal_write_accepts key_index s buffer buf nbytes ne pos lt =
    let t : Screen = record s { mem = fill_with nbytes 0 s.mem buffer 0 } in
    let u : Screen = record t { mem = (copy_buf t.mem buf buffer nbytes).0 } in
    ground (arith, write_loop-le nbytes 0 0 key_index buffer u)
