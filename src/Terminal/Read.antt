-- ===== src/Terminal/Read.antt =====
-- The line that terminal_read gives to a program.
use ece391_mp.Prelude.{ℕ, zero, suc, ◌+◌, ◌-◌, ◌≤◌, ◌<◌, ◌≡◌, ◌≢◌, refl, arith, leb, if◌then◌else◌}
use ece391_mp.Prelude.Memory.{Memory, store, IsString, Disjoint}
use ece391_mp.CharUtil.Loops.{Outside}
use ece391_mp.LibString.{strncpy}
use ece391_mp.LibString.Copy.{strncpy_lem}
use ece391_mp.Screen.{Screen, update_cursor}
use ece391_mp.Terminal.{Keys, fill_with, clear_buffer, line_loop, end_line, terminal_read}

-- The keys hold a line: `n` bytes that are neither a NUL nor a line end, and then a line end.
pub record IsLine (keys : ℕ → ℕ) (n : ℕ) : Type 0 where
  pub body : (i : ℕ) → i < n → (keys i ≢ 0) × (keys i ≢ b'\n')
  pub end : keys n ≡ b'\n'

fill_with_frame :
    (r x : ℕ) (m : Memory) (base v a : ℕ) → Outside a (base + x) r → fill_with r x m base v a ≡ m a
unfolding fill_with
fill_with_frame zero x m base v a out = refl
fill_with_frame (suc r) x m base v a out =
    ground (arith, fill_with_frame r (x + 1) (store m (base + x) v) base v a)

fill_with_fills :
    (r x j : ℕ) (m : Memory) (base v : ℕ)
    → x ≤ j
    → j < x + r
    → fill_with r x m base v (base + j) ≡ v
unfolding fill_with
fill_with_fills zero x j m base v lo hi = absurd (omega arith)
fill_with_fills (suc r) x j m base v lo hi = ground (
  arith,
  fill_with_frame r (x + 1) (store m (base + x) v) base v (base + j),
  fill_with_fills r (x + 1) j (store m (base + x) v) base v,
)

module _ (keys : ℕ → ℕ) (n buffer : ℕ) (line : IsLine keys n) where
  line_loop-count :
      (r x : ℕ) (m : Memory) → x ≤ n → n < x + r → (line_loop r x m buffer keys).1 ≡ n + 1
  unfolding line_loop
  line_loop-count zero x m le lt = absurd (omega arith)
  line_loop-count (suc r) x m le lt =
      ground
        (arith, line.body x, line.end, line_loop-count r (x + 1) (store m (buffer + x) (keys x)))

  line_loop_frame :
      (r x : ℕ) (m : Memory) (a : ℕ)
      → x ≤ n
      → n < x + r
      → Outside a (buffer + x) (n + 1 - x)
      → (line_loop r x m buffer keys).0 a ≡ m a
  unfolding line_loop
  line_loop_frame zero x m a le lt out = absurd (omega arith)
  line_loop_frame (suc r) x m a le lt out =
      ground
        (arith, line.body x, line.end, line_loop_frame r (x + 1) (store m (buffer + x) (keys x)) a)

  line_loop_copies :
      (r x j : ℕ) (m : Memory)
      → x ≤ n
      → n < x + r
      → x ≤ j
      → j ≤ n
      → (line_loop r x m buffer keys).0 (buffer + j) ≡ keys j
  unfolding line_loop
  line_loop_copies zero x j m le lt lo hi = absurd (omega arith)
  line_loop_copies (suc r) x j m le lt lo hi = ground (
    arith,
    line.body x,
    line.end,
    line_loop_frame r (x + 1) (store m (buffer + x) (keys x)) (buffer + j),
    line_loop_copies r (x + 1) j (store m (buffer + x) (keys x)),
  )

  module _ (inside : n < 127) (m : Memory) where
    abbrev filled : Memory
    filled = (line_loop 128 0 (fill_with 128 0 m buffer 0) buffer keys).0

    filled-IsString : IsString filled buffer (n + 1)
    filled-IsString = record {
      body = λ i lt.
          ground
            (arith, line_loop_copies 128 0 i (fill_with 128 0 m buffer 0), line.body i, line.end);
      eos = ground (
        arith,
        line_loop_frame 128 0 (fill_with 128 0 m buffer 0) (buffer + (n + 1)),
        fill_with_fills 128 0 (n + 1) m buffer 0,
      );
    }

    end_line-filled : end_line filled buffer (n + 1) ≡ filled
    unfolding end_line
    end_line-filled =
        ground (arith, line_loop_copies 128 0 n (fill_with 128 0 m buffer 0), line.end)

-- A line of at most 126 bytes and its end is in the 128 bytes at `buf`, NULs behind it, whatever number
-- of bytes was asked for; the result is the length with the end, and the keys of the terminal are
-- cleared. Only the two arrays change.
pub record HasLine (k : Keys) (s : Screen) (buffer buf n : ℕ) (out : Keys × Screen × ℕ)
    : Type 0 where
  pub count : out.2 ≡ n + 1
  pub line :
      (j : ℕ)
      → j < 128
      → out.1.mem (buf + j) ≡ (if leb j n then k.key_buffer k.display_terminal j else 0)
  pub frame : (a : ℕ) → Outside a buf 128 → Outside a buffer 128 → out.1.mem a ≡ s.mem a
  pub index : out.0.key_index k.display_terminal ≡ 0
  pub cleared : (j : ℕ) → j < 128 → out.0.key_buffer k.display_terminal j ≡ 0
  pub others : (t : ℕ) → t ≢ k.display_terminal → out.0.key_buffer t ≡ k.key_buffer t

module _ (k : Keys) (s : Screen) (buffer buf nbytes n : ℕ)
    (line : IsLine (k.key_buffer k.display_terminal) n) where
  written : Memory
  written =
      strncpy
        (line_loop 128 0 (fill_with 128 0 s.mem buffer 0) buffer
          (k.key_buffer k.display_terminal)).0
        buf buffer 128

  reads :
      n < 127
      → 0 < nbytes
      → nbytes < 2147483648
      → terminal_read k s buffer buf nbytes ≡ (
        clear_buffer (record k { enter_down = 0 }),
        record (update_cursor s.x s.y s) { mem = fill_with (n + 1) 0 written buffer b'0' },
        n + 1,
      )
  unfolding terminal_read written update_cursor
  reads inside some_bytes positive = ground (
    arith,
    line_loop-count (k.key_buffer k.display_terminal) n buffer line 128 0
        (fill_with 128 0 s.mem buffer 0),
    end_line-filled (k.key_buffer k.display_terminal) n buffer line inside s.mem,
  )

  written-line :
      n < 127
      → Disjoint buffer 128 buf 128
      → (j : ℕ) → j < 128
      → fill_with (n + 1) 0 written buffer b'0' (buf + j)
        ≡ (if leb j n then k.key_buffer k.display_terminal j else 0)
  unfolding written
  written-line inside apart j lt =
      let keys : ℕ → ℕ = k.key_buffer k.display_terminal in
      ground (
        arith,
        fill_with_frame (n + 1) 0 written buffer b'0' (buf + j),
        (strncpy_lem (filled keys n buffer line inside s.mem) buf buffer (n + 1)
              (filled-IsString keys n buffer line inside s.mem) 128 (ground arith)).0
            j lt,
        line_loop_copies keys n buffer line 128 0 j (fill_with 128 0 s.mem buffer 0),
      )

  written-frame :
      n < 127
      → Disjoint buffer 128 buf 128
      → (a : ℕ) → Outside a buf 128
      → Outside a buffer 128
      → fill_with (n + 1) 0 written buffer b'0' a ≡ s.mem a
  unfolding written
  written-frame inside apart a out out' =
      let keys : ℕ → ℕ = k.key_buffer k.display_terminal in
      ground (
        arith,
        fill_with_frame (n + 1) 0 written buffer b'0' a,
        (strncpy_lem (filled keys n buffer line inside s.mem) buf buffer (n + 1)
              (filled-IsString keys n buffer line inside s.mem) 128 (ground arith)).1
            a out,
        line_loop_frame keys n buffer line 128 0 (fill_with 128 0 s.mem buffer 0) a,
        fill_with_frame 128 0 s.mem buffer 0 a,
      )

  cleared_keys :
      (j : ℕ)
      → j < 128
      → (clear_buffer (record k { enter_down = 0 })).key_buffer k.display_terminal j ≡ 0
  unfolding clear_buffer
  cleared_keys j lt = ground (arith, fill_with_fills 128 0 j (k.key_buffer k.display_terminal) 0 0)

  -- A line of at most 126 bytes is read as a whole with its end, into 128 bytes.
  pub terminal_read-HasLine :
      n < 127
      → 0 < nbytes
      → nbytes < 2147483648
      → Disjoint buffer 128 buf 128
      → HasLine k s buffer buf n (terminal_read k s buffer buf nbytes)
  unfolding clear_buffer
  terminal_read-HasLine inside some_bytes positive apart =
      rw (reads inside some_bytes positive) (record {
        count = refl;
        line = written-line inside apart;
        frame = written-frame inside apart;
        index = ground arith;
        cleared = cleared_keys;
        others = λ t ne. ground arith;
      })
