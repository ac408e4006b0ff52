-- ===== src/Keyboard/Tests.antt =====
-- Keys that type `Hi` with a mistake, for the shell of terminal 0.
use ece391_mp.Prelude.{ℕ, ◌+◌, ◌<◌, ◌≡◌, inl, refl, arith, true, false, List, [], ◌∷◌, length}
use ece391_mp.Sched.Tests.{shells}
use ece391_mp.Terminal.{terminal_read}
use ece391_mp.Keyboard.{Keyboard, space, decode, index_of}
use ece391_mp.Keyboard.Handler.{input_of, press, keyboard_handler}
use ece391_mp.Keyboard.Layout.{us_key, us_layout, input_of-us_layout}
use ece391_mp.Keyboard.Draft.{Draft, Drafts, edit, nth, pop}
use ece391_mp.Keyboard.Edit.{handle_all, edit_all, fits, handle_all-Drafts}
use ece391_mp.Keyboard.Line.{keys_of, terminal_read-typed, press-space_full}
use ece391_mp.Keyboard.Safe.{Placed, keyboard_handler-Placed}

abbrev keyboard : ℕ → Keyboard
keyboard index = record {
  sched = shells;
  key_index = λ t. index;
  key_buffer = λ t i. 0;
  clear_offset = λ t. 0;
  enter_down = 0;
  l_shift_check = 0;
  r_shift_check = 0;
  ctrl_check = 0;
  alt_check = 0;
  capslock_check = 0;
  table_index = 0;
  current_line = 0;
}

abbrev no_draft : Draft
no_draft = record { line = []; left = false; right = false; caps = false }

keyboard-Drafts : Drafts (keyboard 0) no_draft
keyboard-Drafts = record {
  index = refl;
  keys = λ i lt. absurd (omega arith);
  printable = λ i lt. absurd (omega arith);
  left = refl;
  right = refl;
  caps = refl;
  no_ctrl = refl;
  offset = refl;
}

-- The left shift key, `h`, its releases, `o`, the backspace key, `i`.
abbrev strokes : List ℕ
strokes = 0x2A ∷ 0x23 ∷ 0xA3 ∷ 0xAA ∷ 0x18 ∷ 0x0E ∷ 0x17 ∷ []

hi : (edit_all strokes no_draft).line ≡ b'i' ∷ b'H' ∷ []
unfolding edit_all edit decode us_layout us_key pop
hi = refl

strokes_fit : fits strokes no_draft ≡ true
unfolding fits edit decode us_layout us_key pop
strokes_fit = refl

input_of-us_layout_example :
    (index_of 0x23 true false < 104)
    × (input_of (λ i. 0) (index_of 0x23 true false) ≡ us_layout true false 0x23)
input_of-us_layout_example = input_of-us_layout 0x23 refl (λ i. 0) true false

handle_all_example :
    Drafts (handle_all 0x409000 (λ i. 0) strokes (keyboard 0)) (edit_all strokes no_draft)
handle_all_example =
    handle_all-Drafts 0x409000 (λ i. 0) strokes (keyboard 0) no_draft keyboard-Drafts strokes_fit

short : length (edit_all strokes no_draft).line < 127
short = rw hi (omega arith)

terminal_read-typed_example :
    let typed =
      (keyboard_handler 0x409000
        (λ i. 0)
        0x1C
        (handle_all 0x409000 (λ i. 0) strokes (keyboard 0))).0 in
    let (_, after, count) =
      terminal_read (keys_of typed) typed.sched.screen 0x700000 0x8050000 128 in
    let line = (edit_all strokes no_draft).line in
    (typed.enter_down ≡ 1)
    × (count ≡ length line + 1)
    × ((i : ℕ) → i < length line → after.mem (0x8050000 + i) ≡ nth line i)
    × (after.mem (0x8050000 + length line) ≡ b'\n')
terminal_read-typed_example =
    terminal_read-typed 0x409000 (λ i. 0) strokes (keyboard 0) no_draft keyboard-Drafts strokes_fit
      short 0x700000 0x8050000 128 (omega arith) (omega arith) (inl (omega arith))

press-space_full_example :
    let after = press (λ i. 0) space 0x39 (keyboard 130) in
    (after.key_buffer 1 2 ≡ b' ') × (after.key_index 0 ≡ 131)
press-space_full_example = press-space_full (λ i. 0) 0x39 (keyboard 130) (omega arith) (omega arith)

shells-Placed : Placed (keyboard 0).sched
shells-Placed = record {
  on = record { column = omega arith; row = omega arith };
  column = λ t. omega arith;
  row = λ t. omega arith;
}

keyboard_handler-Placed_example :
    Placed (keyboard_handler 0x409000 (λ i. 0) 0x1C (keyboard 0)).0.sched
keyboard_handler-Placed_example =
    keyboard_handler-Placed (λ i. 0) (λ i. (omega arith, omega arith)) 0x409000 0x1C (keyboard 0)
      shells-Placed
