-- ===== src/Keyboard/Line.antt =====
-- From the keys to a program: the line that is typed is the line that terminal_read gives.
use ece391_mp.Prelude.{ℕ, ◌+◌, ◌-◌, ◌≤◌, ◌<◌, ◌≡◌, refl, arith, true, List, length}
use ece391_mp.Prelude.Words.{u8}
use ece391_mp.Prelude.Memory.{Disjoint}
use ece391_mp.Sched.{switch_running_terminal}
use ece391_mp.Terminal.{Keys, terminal_read}
use ece391_mp.Terminal.Read.{IsLine, HasLine, terminal_read-HasLine}
use ece391_mp.Keyboard.{Keyboard, space, decode, shown, store_key, type_char, press_enter}
use ece391_mp.Keyboard.Handler.{press, keyboard_handler}
use ece391_mp.Keyboard.Draft.{Draft, Drafts, nth}
use ece391_mp.Keyboard.Edit.{handle_all, edit_all, fits, handle_all-Drafts, foremost_shown}

-- The keys as terminal.c shares them between the handler and `terminal_read`.
abbrev pub keys_of : Keyboard → Keys
keys_of k = record {
  display_terminal = shown k;
  key_index = k.key_index;
  key_buffer = k.key_buffer;
  enter_down = k.enter_down;
}

module _ (table_addr : ℕ) (behind : ℕ → ℕ) (k : Keyboard) (d : Draft) (r : Drafts k d)
    (room : length d.line < 127) where
  abbrev entered : Keyboard
  entered = (keyboard_handler table_addr behind 0x1C k).0

  abbrev n : ℕ
  n = length d.line

  entered_facts :
      (shown entered ≡ shown k)
      × (entered.enter_down ≡ 1)
      × (entered.key_buffer ≡ store_key (shown k) n b'\n' k.key_buffer)
  unfolding keyboard_handler decode press press_enter
  entered_facts =
      let same : (switch_running_terminal table_addr (shown k) k.sched).0.procs.display_terminal
          ≡ shown k =
        foremost_shown table_addr (shown k) k.sched in
      let small : u8 n ≡ n = omega arith in (same, refl, rw same (rw r.index (rw small refl)))

  entered_keys : (i : ℕ) → i < n → entered.key_buffer (shown entered) i ≡ nth d.line i
  entered_keys i lt = let (a, _, c) = entered_facts in rw a (rw c (ground (arith, r.keys i)))

  entered-IsLine : IsLine (entered.key_buffer (shown entered)) n
  entered-IsLine =
      let (a, _, c) = entered_facts in
      record {
        body = λ i lt. rw (entered_keys i lt) (ground (arith, r.printable i));
        end = rw a (rw c (ground arith));
      }

  read_entered :
      (buffer buf nbytes : ℕ)
      → 0 < nbytes
      → nbytes < 2147483648
      → Disjoint buffer 128 buf 128
      → let (_, after, count) =
          terminal_read (keys_of entered) entered.sched.screen buffer buf nbytes in
        (count ≡ n + 1)
        × ((i : ℕ) → i < n → after.mem (buf + i) ≡ nth d.line i)
        × (after.mem (buf + n) ≡ b'\n')
  read_entered buffer buf nbytes some_bytes positive apart =
      let h : HasLine (keys_of entered) entered.sched.screen buffer buf n
          (terminal_read (keys_of entered) entered.sched.screen buffer buf nbytes) =
        terminal_read-HasLine (keys_of entered) entered.sched.screen buffer buf nbytes n
          entered-IsLine room some_bytes positive apart in
      (
        h.count,
        λ i lt. ground (arith, h.line i, entered_keys i),
        ground (arith, h.line n, entered-IsLine.end),
      )

-- From a keyboard whose buffer holds a line of printable characters, all of them typed since the screen
-- was cleared, and with no control key held, behind any keys that only edit the line, which never has
-- more than 128 characters on the way and at most 126 in the end, the enter key sets the flag that
-- terminal_read waits for, and terminal_read, for a positive number of bytes and a buffer apart from its
-- local array, then gives the characters that the keys stand for in order, a line end behind them, and
-- their number with it.
pub terminal_read-typed :
    (table_addr : ℕ) (behind : ℕ → ℕ) (scs : List ℕ) (k : Keyboard) (d : Draft)
    → Drafts k d
    → fits scs d ≡ true
    → length (edit_all scs d).line < 127
    → (buffer buf nbytes : ℕ) → 0 < nbytes
    → nbytes < 2147483648
    → Disjoint buffer 128 buf 128
    → let typed =
        (keyboard_handler table_addr behind 0x1C (handle_all table_addr behind scs k)).0 in
      let (_, after, count) = terminal_read (keys_of typed) typed.sched.screen buffer buf nbytes in
      let line = (edit_all scs d).line in
      (typed.enter_down ≡ 1)
      × (count ≡ length line + 1)
      × ((i : ℕ) → i < length line → after.mem (buf + i) ≡ nth line i)
      × (after.mem (buf + length line) ≡ b'\n')
terminal_read-typed table_addr behind scs k d r ok room buffer buf nbytes some_bytes positive
      apart =
    let j : Keyboard = handle_all table_addr behind scs k in
    let e : Draft = edit_all scs d in
    let q : Drafts j e = handle_all-Drafts table_addr behind scs k d r ok in
    let (_, awake, _) = entered_facts table_addr behind j e q room in
    let (count, line, end) =
      read_entered table_addr behind j e q room buffer buf nbytes some_bytes positive apart in
    (awake, count, line, end)

-- The space key has no test for a full buffer: behind 128 keys, it writes into the first keys of the
-- next terminal.
pub press-space_full :
    (behind : ℕ → ℕ) (sc : ℕ) (k : Keyboard)
    → 128 ≤ k.key_index (shown k)
    → k.key_index (shown k) < 256
    → let after = press behind space sc k in
      (after.key_buffer (shown k + 1) (k.key_index (shown k) - 128) ≡ b' ')
      × (after.key_index (shown k) ≡ k.key_index (shown k) + 1)
unfolding press type_char
press-space_full behind sc k lo hi = ground arith
