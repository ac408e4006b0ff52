-- ===== src/Keyboard/Handler.antt =====
-- student-distrib/terminal.c: keyboard_handler and terminal_init.
use ece391_mp.Prelude.{
  ℕ, zero, suc, ◌+◌, List, [], ◌∷◌, ◌++◌, ltb, ◌==◌, ◌&&◌, ◌||◌, not, get_or, if◌then◌else◌,
}
use ece391_mp.Prelude.Memory.{put}
use ece391_mp.Screen.{clear, update_cursor}
use ece391_mp.Terminal.{fill_with}
use ece391_mp.Sched.{switch_running_terminal, switch_display_terminal}
use ece391_mp.Keyboard.{
  Keyboard, Key, caps_lock, l_shift, r_shift, ctrl, alt, space, tab, back, enter, enter_off,
  function_key, other, Call, enable_irq, send_eoi, execute_shell, decode, shifted, index_of, shown,
  set_screen, show_cursor, type_char, press_tab, press_back, press_enter, clear_keys, clear_screen,
  enter_char, key_table, shell_offset,
}

-- `behind` is what a read outside the table gives, by the index.
abbrev pub input_of : (ℕ → ℕ) → ℕ → ℕ
input_of behind index = get_or key_table index (behind index)

abbrev pub toggle : ℕ → ℕ
toggle flag = if flag == 0 then 1 else 0

module _ (behind : ℕ → ℕ) where
  -- The default case.
  unfoldable pub press_other : ℕ → Keyboard → Keyboard
  press_other scancode k =
      let index = index_of scancode (shifted k) (not (k.capslock_check == 0)) in
      let c = input_of behind index in
      let looked = record k { table_index = index } in
      if not (ltb scancode 0x3E)
      then k
      else if not (k.ctrl_check == 0) && (c == b'l' || c == b'L')
      then clear_screen looked
      else enter_char c looked

  -- The keys that do not switch the terminal.
  unfoldable pub press : Key → ℕ → Keyboard → Keyboard
  press caps_lock scancode k = record k { capslock_check = toggle k.capslock_check }
  press (l_shift on) scancode k = record k { l_shift_check = on }
  press (r_shift on) scancode k = record k { r_shift_check = on }
  press (ctrl on) scancode k = record k { ctrl_check = on }
  press (alt on) scancode k = record k { alt_check = on }
  press space scancode k = show_cursor (type_char b' ' k)
  press tab scancode k = press_tab 4 k
  press back scancode k = press_back k
  press enter scancode k = press_enter k
  press enter_off scancode k = record k { enter_down = 0 }
  press (function_key term) scancode k = k
  press other scancode k = press_other scancode k

module _ (table_addr : ℕ) where
  -- The switch to the terminal `term`; the first terminal's interrupt ends only behind its new shell. The
  -- state is the one at the call of `execute`, behind which the handler only ends the interrupt.
  unfoldable pub press_function : ℕ → Keyboard → Keyboard × List Call
  press_function term k =
      let switched =
        switch_running_terminal table_addr term (switch_display_terminal term k.sched) in
      let calls : List Call =
        (if switched.1 == 0
          then send_eoi 1 ∷ []
          else if term == 0
          then execute_shell ∷ send_eoi 1 ∷ []
          else send_eoi 1 ∷ execute_shell ∷ send_eoi 1 ∷ []) in
      if not (k.alt_check == 0) && not (shown k == term)
      then (record k { sched = switched.0 }, calls)
      else (k, [])

  abbrev pub calls_of : Key → Keyboard → Keyboard × List Call
  calls_of (function_key term) k = press_function term k
  calls_of _ k = (k, [])

-- The scancode is the one that `inb(KEYBOARD_PORT)` gives.
unfoldable pub keyboard_handler : ℕ → (ℕ → ℕ) → ℕ → Keyboard → Keyboard × List Call
keyboard_handler table_addr behind scancode k =
    let foremost = record k { sched = (switch_running_terminal table_addr (shown k) k.sched).0 } in
    let (done, calls) =
      calls_of table_addr (decode scancode) (press behind (decode scancode) scancode foremost) in
    (done, calls ++ send_eoi 1 ∷ [])

unfoldable pub clear_all : ℕ → ℕ → (ℕ → ℕ → ℕ) → ℕ → ℕ → ℕ
clear_all zero y keys = keys
clear_all (suc rounds) y keys = clear_all rounds (y + 1) (put keys y (fill_with 128 0 (keys y) 0 0))

unfoldable pub terminal_init : Keyboard → Keyboard × List Call
terminal_init k =
    let blank = clear_keys (set_screen (clear k.sched.screen) k) in
    let t = record blank.sched.screen { wrapped = 0 } in
    (
      record blank {
        sched = record blank.sched {
          screen = update_cursor shell_offset 0 t;
          last_screen_x = fill_with 3 0 blank.sched.last_screen_x 0 0;
          last_screen_y = fill_with 3 0 blank.sched.last_screen_y 0 0;
        };
        key_buffer = clear_all 3 0 blank.key_buffer;
        clear_offset = fill_with 3 0 blank.clear_offset 0 0;
        enter_down = 0;
        l_shift_check = 0;
        r_shift_check = 0;
        ctrl_check = 0;
        alt_check = 0;
        capslock_check = 0;
        table_index = 0;
        current_line = 0;
      },
      enable_irq 1 ∷ [],
    )
