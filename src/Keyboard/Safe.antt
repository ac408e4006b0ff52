-- ===== src/Keyboard/Safe.antt =====
-- The place of the next character stays on the screen, whatever keys are pressed.
use ece391_mp.Prelude.{
  ℕ, zero, suc, ◌+◌, ◌<◌, ◌≡◌, ◌≢◌, inl, inr, refl, arith, Bool, true, List, [], ◌∷◌, length,
  get_or, ltb, ◌==◌, ◌&&◌, ◌||◌, not, Bool-cases,
}
use ece391_mp.Prelude.Words.{u8}
use ece391_mp.Screen.{Screen, clear, update_cursor, putc, puts, scroll_handle, wrap_around}
use ece391_mp.Screen.Bounds.{OnScreen, putc-OnScreen, print_backspace-OnScreen, puts_column}
use ece391_mp.Sched.{Sched, switch_running_terminal, switch_display_terminal}
use ece391_mp.Keyboard.{
  Keyboard, Key, caps_lock, l_shift, r_shift, ctrl, alt, space, tab, back, enter, enter_off,
  function_key, other, decode, shifted, index_of, shown, show_cursor, type_char, press_tab,
  press_back, press_enter, clear_screen, key_table, wrap_line, enter_char,
}
use ece391_mp.Keyboard.Handler.{
  press, press_other, press_function, calls_of, keyboard_handler, input_of,
}

-- The place is on the screen, and so are those that the terminals have kept.
pub record Placed (s : Sched) : Type 0 where
  pub on : OnScreen s.screen
  pub column : (t : ℕ) → s.last_screen_x t < 80
  pub row : (t : ℕ) → s.last_screen_y t < 25

moved :
    (s s' : Sched)
    → Placed s
    → OnScreen s'.screen
    → s'.last_screen_x ≡ s.last_screen_x
    → s'.last_screen_y ≡ s.last_screen_y
    → Placed s'
moved s s' p on a b = record { on = on; column = rw a p.column; row = rw b p.row }

switch_running_terminal-Placed :
    (table_addr t : ℕ) (s : Sched) → Placed s → Placed (switch_running_terminal table_addr t s).0
unfolding switch_running_terminal
switch_running_terminal-Placed table_addr t s p =
    moved s (switch_running_terminal table_addr t s).0 p
      (record { column = ground (arith, p.on.column); row = ground (arith, p.on.row) })
      (ground arith) (ground arith)

switch_display_terminal-Placed :
    (t : ℕ) (s : Sched) → Placed s → Placed (switch_display_terminal t s)
unfolding switch_display_terminal update_cursor
switch_display_terminal-Placed t s p = record {
  on = record {
    column = ground (arith, p.column t, p.on.column);
    row = ground (arith, p.row t, p.on.row);
  };
  column = λ u. ground (arith, p.column u, p.on.column);
  row = λ u. ground (arith, p.row u, p.on.row);
}

type_char-OnScreen :
    (c : ℕ) (k : Keyboard) → OnScreen k.sched.screen → OnScreen (type_char c k).sched.screen
unfolding type_char
type_char-OnScreen c k on = putc-OnScreen (k.key_index (shown k)) c k.sched.screen on

cursor-OnScreen : (x y : ℕ) (s : Screen) → OnScreen s → OnScreen (update_cursor x y s)
unfolding update_cursor
cursor-OnScreen x y s on = record { column = on.column; row = on.row }

-- Neither a line feed nor a carriage return.
abbrev pub NoLineEnd : ℕ → Type 0
NoLineEnd c = (c ≢ b'\n') × (c ≢ b'\r')

wrap_line-OnScreen :
    (c : ℕ) (k : Keyboard)
    → NoLineEnd c
    → OnScreen k.sched.screen
    → OnScreen (wrap_line c k).sched.screen
unfolding wrap_line type_char putc update_cursor wrap_around scroll_handle
wrap_line-OnScreen c k sign on = record {
  column = ground (arith, on.column, on.row);
  row = ground (arith, on.column, on.row);
}

enter_char-OnScreen :
    (c : ℕ) (k : Keyboard)
    → NoLineEnd c
    → OnScreen k.sched.screen
    → OnScreen (enter_char c k).sched.screen
unfolding enter_char
enter_char-OnScreen c k sign on =
    let typed : OnScreen (type_char c k).sched.screen = type_char-OnScreen c k on in
    elim (Bool-cases (u8 (k.sched.screen.x + 1) == 80 && k.sched.screen.wrapped == 0)) [
      | inl last ↦ rw last (wrap_line-OnScreen c k sign on)
      | inr before ↦ rw before (elim (Bool-cases (ltb (k.key_index (shown k)) 128)) [
        | inl room ↦ rw room (cursor-OnScreen _ _ (type_char c k).sched.screen typed)
        | inr full ↦ rw full on
      ])
    ]

puts_at_start :
    (key_index : ℕ) (text : List ℕ) (s : Screen)
    → s.x ≡ 0
    → length text < 80
    → (puts key_index text s).x < 80
puts_at_start key_index text s start short = ground (arith, puts_column key_index text s)

clear_screen-OnScreen : (k : Keyboard) → OnScreen (clear_screen k).sched.screen
unfolding clear_screen update_cursor clear
clear_screen-OnScreen k = record {
  column = puts_at_start _ _ _ (ground arith) (omega arith);
  row = ground arith;
}

abbrev no_line_end : ℕ → Bool
no_line_end c = not (c == b'\n' || c == b'\r')

all_signs : List ℕ → Bool
all_signs [] = true
all_signs (c ∷ cs) = no_line_end c && all_signs cs

get_or-NoLineEnd :
    (cs : List ℕ) (i beyond : ℕ)
    → all_signs cs ≡ true
    → NoLineEnd beyond
    → NoLineEnd (get_or cs i beyond)
unfolding all_signs
get_or-NoLineEnd [] i beyond all sign = sign
get_or-NoLineEnd (c ∷ cs) zero beyond all sign = ground (arith, all)
get_or-NoLineEnd (c ∷ cs) (suc i) beyond all sign =
    get_or-NoLineEnd cs i beyond (ground (arith, all)) sign

module _ (behind : ℕ → ℕ) (sign : (i : ℕ) → NoLineEnd (behind i)) where
  press_other-OnScreen :
      (sc : ℕ) (k : Keyboard)
      → OnScreen k.sched.screen
      → OnScreen (press_other behind sc k).sched.screen
  unfolding press_other all_signs
  press_other-OnScreen sc k on =
      let index : ℕ = index_of sc (shifted k) (not (k.capslock_check == 0)) in
      let c : ℕ = input_of behind index in
      let looked : Keyboard = record k { table_index = index } in
      elim (Bool-cases (ltb sc 0x3E)) [
        | inr high ↦ rw high on
        | inl low ↦
            rw low (elim (Bool-cases (not (k.ctrl_check == 0) && (c == b'l' || c == b'L'))) [
              | inl clears ↦ rw clears (clear_screen-OnScreen looked)
              | inr enters ↦ rw enters (
                  enter_char-OnScreen c looked
                    (get_or-NoLineEnd key_table index (behind index) refl (sign index)) on)
            ])
      ]

  spaced-OnScreen :
      (k : Keyboard)
      → OnScreen k.sched.screen
      → OnScreen (show_cursor (type_char b' ' k)).sched.screen
  spaced-OnScreen k on =
      cursor-OnScreen _ _ (type_char b' ' k).sched.screen (type_char-OnScreen b' ' k on)

  press_tab-OnScreen :
      (rounds : ℕ) (k : Keyboard)
      → OnScreen k.sched.screen
      → OnScreen (press_tab rounds k).sched.screen
  unfolding press_tab
  press_tab-OnScreen zero k on = on
  press_tab-OnScreen (suc rounds) k on = press_tab-OnScreen rounds _ (spaced-OnScreen k on)

  press_back-OnScreen :
      (k : Keyboard) → OnScreen k.sched.screen → OnScreen (press_back k).sched.screen
  unfolding press_back
  press_back-OnScreen k on =
      let index : ℕ = k.key_index (shown k) in
      elim (Bool-cases (index == k.clear_offset (shown k))) [
        | inl none ↦ rw none on
        | inr some ↦ rw some (print_backspace-OnScreen index k.sched.screen on)
      ]

  press_enter-OnScreen :
      (k : Keyboard) → OnScreen k.sched.screen → OnScreen (press_enter k).sched.screen
  unfolding press_enter
  press_enter-OnScreen k on =
      let moved : OnScreen (putc (k.key_index (shown k)) b'\n' k.sched.screen) =
        putc-OnScreen (k.key_index (shown k)) b'\n' k.sched.screen on in
      record { column = moved.column; row = moved.row }

  press-OnScreen :
      (key : Key) (sc : ℕ) (k : Keyboard)
      → OnScreen k.sched.screen
      → OnScreen (press behind key sc k).sched.screen
  unfolding press
  press-OnScreen caps_lock sc k on = on
  press-OnScreen (l_shift h) sc k on = on
  press-OnScreen (r_shift h) sc k on = on
  press-OnScreen (ctrl h) sc k on = on
  press-OnScreen (alt h) sc k on = on
  press-OnScreen space sc k on = spaced-OnScreen k on
  press-OnScreen tab sc k on = press_tab-OnScreen 4 k on
  press-OnScreen back sc k on = press_back-OnScreen k on
  press-OnScreen enter sc k on = press_enter-OnScreen k on
  press-OnScreen enter_off sc k on = on
  press-OnScreen (function_key t) sc k on = on
  press-OnScreen other sc k on = press_other-OnScreen sc k on

  abbrev Kept : Keyboard → Keyboard → Type 0
  Kept k k' =
      (k'.sched.last_screen_x ≡ k.sched.last_screen_x)
      × (k'.sched.last_screen_y ≡ k.sched.last_screen_y)

  enter_char-Kept : (c : ℕ) (k : Keyboard) → Kept k (enter_char c k)
  unfolding enter_char wrap_line type_char
  enter_char-Kept c k = ground arith

  clear_screen-Kept : (k : Keyboard) → Kept k (clear_screen k)
  unfolding clear_screen
  clear_screen-Kept k = ground arith

  press_other-Kept : (sc : ℕ) (k : Keyboard) → Kept k (press_other behind sc k)
  unfolding press_other
  press_other-Kept sc k =
      let index : ℕ = index_of sc (shifted k) (not (k.capslock_check == 0)) in
      let looked : Keyboard = record k { table_index = index } in
      ground (arith, enter_char-Kept (input_of behind index) looked, clear_screen-Kept looked)

  press-Kept : (key : Key) (sc : ℕ) (k : Keyboard) → Kept k (press behind key sc k)
  unfolding press type_char press_tab press_enter press_back
  press-Kept caps_lock sc k = (refl, refl)
  press-Kept (l_shift h) sc k = (refl, refl)
  press-Kept (r_shift h) sc k = (refl, refl)
  press-Kept (ctrl h) sc k = (refl, refl)
  press-Kept (alt h) sc k = (refl, refl)
  press-Kept space sc k = (refl, refl)
  press-Kept tab sc k = (refl, refl)
  press-Kept enter sc k = (refl, refl)
  press-Kept enter_off sc k = (refl, refl)
  press-Kept (function_key t) sc k = (refl, refl)
  press-Kept back sc k = ground arith
  press-Kept other sc k = press_other-Kept sc k

  calls_of-Placed :
      (table_addr : ℕ) (key : Key) (k : Keyboard)
      → Placed k.sched
      → Placed (calls_of table_addr key k).0.sched
  unfolding press_function
  calls_of-Placed table_addr (function_key t) k p =
      elim (Bool-cases (not (k.alt_check == 0) && not (shown k == t))) [
        | inl switches ↦ rw switches (
            switch_running_terminal-Placed table_addr t (switch_display_terminal t k.sched)
              (switch_display_terminal-Placed t k.sched p))
        | inr stays ↦ rw stays p
      ]
  calls_of-Placed table_addr caps_lock k p = p
  calls_of-Placed table_addr (l_shift h) k p = p
  calls_of-Placed table_addr (r_shift h) k p = p
  calls_of-Placed table_addr (ctrl h) k p = p
  calls_of-Placed table_addr (alt h) k p = p
  calls_of-Placed table_addr space k p = p
  calls_of-Placed table_addr tab k p = p
  calls_of-Placed table_addr enter k p = p
  calls_of-Placed table_addr enter_off k p = p
  calls_of-Placed table_addr back k p = p
  calls_of-Placed table_addr other k p = p

  -- Whatever scancode comes, the place and the places kept of the terminals stay on the screen.
  pub keyboard_handler-Placed :
      (table_addr sc : ℕ) (k : Keyboard)
      → Placed k.sched
      → Placed (keyboard_handler table_addr behind sc k).0.sched
  unfolding keyboard_handler
  keyboard_handler-Placed table_addr sc k p =
      let s : Sched = (switch_running_terminal table_addr (shown k) k.sched).0 in
      let q : Placed s = switch_running_terminal-Placed table_addr (shown k) k.sched p in
      let f : Keyboard = record k { sched = s } in
      let (xs, ys) = press-Kept (decode sc) sc f in
      calls_of-Placed table_addr (decode sc) (press behind (decode sc) sc f) (
        moved s (press behind (decode sc) sc f).sched q (press-OnScreen (decode sc) sc f q.on) xs
          ys)
