-- ===== src/Keyboard.antt =====
-- student-distrib/terminal.c: terminal_init, the table of the keys, and keyboard_handler.
pub mod Handler
pub mod Layout
pub mod Draft
pub mod Edit
pub mod Line
pub mod Safe
pub mod Tests
use ece391_mp.Prelude.{
  ℕ, zero, suc, ◌+◌, ◌-◌, ◌*◌, ◌/◌, ◌%◌, Bool, true, false, List, [], ◌∷◌, ltb, leb, ◌==◌, ◌&&◌,
  ◌||◌, not, get_or, if◌then◌else◌,
}
use ece391_mp.Prelude.Words.{u8, u32, sub32}
use ece391_mp.Prelude.Memory.{store, put}
use ece391_mp.Screen.{
  Screen, num_rows, clear, update_cursor, putc, puts, print_backspace, scroll_handle, wrap_around,
}
use ece391_mp.Terminal.{fill_with, clear_buffer}
use ece391_mp.Sched.{Sched, switch_running_terminal, switch_display_terminal}

abbrev pub shell_offset : ℕ
shell_offset = 7

abbrev pub shift_offset : ℕ
shift_offset = 52

abbrev pub key_table : List ℕ
key_table =
    b'1' ∷ b'2' ∷ b'3' ∷ b'4' ∷ b'5' ∷ b'6' ∷ b'7' ∷ b'8' ∷ b'9' ∷ b'0' ∷ b'-' ∷ b'=' ∷ b' ' ∷ b' '
    ∷ b'q' ∷ b'w' ∷ b'e' ∷ b'r' ∷ b't' ∷ b'y' ∷ b'u' ∷ b'i' ∷ b'o' ∷ b'p' ∷ b'[' ∷ b']' ∷ b' '
    ∷ b' ' ∷ b'a' ∷ b's' ∷ b'd' ∷ b'f' ∷ b'g' ∷ b'h' ∷ b'j' ∷ b'k' ∷ b'l' ∷ b';' ∷ b'\'' ∷ b'`'
    ∷ b' ' ∷ b'\\' ∷ b'z' ∷ b'x' ∷ b'c' ∷ b'v' ∷ b'b' ∷ b'n' ∷ b'm' ∷ b',' ∷ b'.' ∷ b'/' ∷ b'!'
    ∷ b'@' ∷ b'#' ∷ b'$' ∷ b'%' ∷ b'^' ∷ b'&' ∷ b'*' ∷ b'(' ∷ b')' ∷ b'_' ∷ b'+' ∷ b' ' ∷ b' '
    ∷ b'Q' ∷ b'W' ∷ b'E' ∷ b'R' ∷ b'T' ∷ b'Y' ∷ b'U' ∷ b'I' ∷ b'O' ∷ b'P' ∷ b'{' ∷ b'}' ∷ b' '
    ∷ b' ' ∷ b'A' ∷ b'S' ∷ b'D' ∷ b'F' ∷ b'G' ∷ b'H' ∷ b'J' ∷ b'K' ∷ b'L' ∷ b':' ∷ b'"' ∷ b'~'
    ∷ b' ' ∷ b'|' ∷ b'Z' ∷ b'X' ∷ b'C' ∷ b'V' ∷ b'B' ∷ b'N' ∷ b'M' ∷ b'<' ∷ b'>' ∷ b'?' ∷ []

-- The terminals' keys and the flags of the keyboard, and the scheduler's state, which has the screen and
-- the displayed terminal. A flag is 0 or 1.
pub record Keyboard : Type 0 where
  pub sched : Sched
  pub key_index : ℕ → ℕ
  pub key_buffer : ℕ → ℕ → ℕ
  pub clear_offset : ℕ → ℕ
  pub enter_down : ℕ
  pub l_shift_check : ℕ
  pub r_shift_check : ℕ
  pub ctrl_check : ℕ
  pub alt_check : ℕ
  pub capslock_check : ℕ
  pub table_index : ℕ
  pub current_line : ℕ

-- What the handler calls of the other parts, in order.
pub data Call : Type 0 where
  enable_irq : ℕ → Call
  send_eoi : ℕ → Call
  execute_shell : Call

-- The cases of the handler on the scancode.
pub data Key : Type 0 where
  caps_lock : Key
  l_shift : ℕ → Key
  r_shift : ℕ → Key
  ctrl : ℕ → Key
  alt : ℕ → Key
  space : Key
  tab : Key
  back : Key
  enter : Key
  enter_off : Key
  function_key : ℕ → Key
  other : Key

unfoldable pub decode : ℕ → Key
decode scancode =
    if scancode == 0x3A
    then caps_lock
    else if scancode == 0x2A
    then l_shift 1
    else if scancode == 0xAA
    then l_shift 0
    else if scancode == 0x36
    then r_shift 1
    else if scancode == 0xB6
    then r_shift 0
    else if scancode == 0x39
    then space
    else if scancode == 0x0F
    then tab
    else if scancode == 0x0E
    then back
    else if scancode == 0x1D
    then ctrl 1
    else if scancode == 0x9D
    then ctrl 0
    else if scancode == 0x38
    then alt 1
    else if scancode == 0xB8
    then alt 0
    else if scancode == 0x1C
    then enter
    else if scancode == 0x9C
    then enter_off
    else if scancode == 0x3B
    then function_key 0
    else if scancode == 0x3C
    then function_key 1
    else if scancode == 0x3D
    then function_key 2
    else other

-- `L_shift_check || R_shift_check`
abbrev pub shifted : Keyboard → Bool
shifted k = not (k.l_shift_check == 0) || not (k.r_shift_check == 0)

-- The scancodes that the caps lock changes.
abbrev pub is_letter : ℕ → Bool
is_letter scancode =
    leb 0x10 scancode && leb scancode 0x19
    || leb 0x1E scancode && leb scancode 0x26
    || leb 0x2C scancode && leb scancode 0x32

-- The place in the table, of an `uint32_t`.
unfoldable pub index_of : ℕ → Bool → Bool → ℕ
index_of scancode shift caps =
    let plain = sub32 scancode 2 in
    let index = if shift then u32 (plain + shift_offset) else plain in
    if caps && is_letter scancode
    then (if shift then sub32 index shift_offset else u32 (index + shift_offset))
    else index

-- The terminal that the keys go to.
abbrev pub shown : Keyboard → ℕ
shown k = k.sched.procs.display_terminal

abbrev pub set_screen : Screen → Keyboard → Keyboard
set_screen t k = record k { sched = record k.sched { screen = t } }

-- `update_cursor(get_screen_x(), get_screen_y())`
abbrev pub show_cursor : Keyboard → Keyboard
show_cursor k = let t = k.sched.screen in set_screen (update_cursor t.x t.y t) k

-- `key_buffer[term][index] = c`, where an index beyond a terminal's keys is one of the next terminal;
-- the terminal number 3 stands for what lies behind the array.
abbrev pub store_key : ℕ → ℕ → ℕ → (ℕ → ℕ → ℕ) → ℕ → ℕ → ℕ
store_key term index c keys =
    put keys (term + index / 128) (store (keys (term + index / 128)) (index % 128) c)

-- `putc(c); key_buffer[..][temp] = c; key_index[..]++`, where `temp` is the index in a `uint8_t`.
unfoldable pub type_char : ℕ → Keyboard → Keyboard
type_char c k =
    let index = k.key_index (shown k) in
    let drawn = set_screen (putc index c k.sched.screen) k in
    record drawn {
      key_buffer = store_key (shown k) (u8 index) c k.key_buffer;
      key_index = store k.key_index (shown k) (u32 (index + 1));
    }

unfoldable pub press_tab : ℕ → Keyboard → Keyboard
press_tab zero k = k
press_tab (suc rounds) k = press_tab rounds (show_cursor (type_char b' ' k))

unfoldable pub press_back : Keyboard → Keyboard
press_back k =
    let index = k.key_index (shown k) in
    let erased = set_screen (print_backspace index k.sched.screen) k in
    if index == k.clear_offset (shown k) then k else record erased {
      key_buffer = store_key (shown k) (u8 index) 0 k.key_buffer;
      key_index = store k.key_index (shown k) (sub32 index 1);
    }

unfoldable pub press_enter : Keyboard → Keyboard
press_enter k =
    let index = k.key_index (shown k) in
    let t = putc index b'\n' k.sched.screen in
    let moved = set_screen (record t { wrapped = 0 }) k in
    record moved {
      key_buffer = store_key (shown k) (u8 index) b'\n' k.key_buffer;
      key_index = store k.key_index (shown k) 0;
      clear_offset = store k.clear_offset (shown k) 0;
      current_line = u8 (k.current_line + 1);
      enter_down = 1;
    }

-- `clear_buffer()` on the terminal's keys
abbrev pub clear_keys : Keyboard → Keyboard
clear_keys k =
    let cleared = clear_buffer (record {
      display_terminal = shown k;
      key_index = k.key_index;
      key_buffer = k.key_buffer;
      enter_down = k.enter_down;
    }) in
    record k { key_index = cleared.key_index; key_buffer = cleared.key_buffer }

-- The branch of ctrl and L.
unfoldable pub clear_screen : Keyboard → Keyboard
clear_screen k =
    let index = k.key_index (shown k) in
    let blank = set_screen (clear k.sched.screen) k in
    let kept =
      (if index == 0
        then clear_keys blank
        else record blank { clear_offset = store k.clear_offset (shown k) (u8 index) }) in
    let prompt =
      puts (kept.key_index (shown k)) (b'3' ∷ b'9' ∷ b'1' ∷ b'O' ∷ b'S' ∷ b'>' ∷ b' ' ∷ [])
        (update_cursor 0 0 kept.sched.screen) in
    let shown_prompt = update_cursor shell_offset 0 prompt in
    record (set_screen (record shown_prompt { y = 0 }) kept) { current_line = 0 }

-- The branch of a character in the last column, whose row is not the second one of its line.
unfoldable pub wrap_line : ℕ → Keyboard → Keyboard
wrap_line c k =
    let temp_y = u8 (k.sched.screen.y + 1) in
    let u = type_char c k in
    let t =
      (if temp_y == num_rows
        then scroll_handle (record u.sched.screen { y = temp_y })
        else wrap_around u.sched.screen) in
    record (set_screen (update_cursor 0 temp_y (record t { wrapped = 1 })) u) {
      current_line = temp_y;
    }

unfoldable pub enter_char : ℕ → Keyboard → Keyboard
enter_char c k =
    if u8 (k.sched.screen.x + 1) == 80 && k.sched.screen.wrapped == 0
    then wrap_line c k
    else if ltb (k.key_index (shown k)) 128
    then show_cursor (type_char c k)
    else k
