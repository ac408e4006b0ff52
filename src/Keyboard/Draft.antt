-- ===== src/Keyboard/Draft.antt =====
-- A line in the making, and what the parts of keyboard_handler do to it.
use ece391_mp.Prelude.{
  ℕ, suc, ◌+◌, ◌-◌, ◌<◌, ◌≡◌, inl, inr, refl, arith, Bool, true, false, List, [], ◌∷◌, ltb, leb,
  ◌==◌, ◌&&◌, ◌||◌, not, get_or, length, if◌then◌else◌, eq_cases, Bool-cases,
}
use ece391_mp.Prelude.Words.{u8}
use ece391_mp.Keyboard.{
  Keyboard, Key, caps_lock, l_shift, r_shift, ctrl, alt, space, tab, back, enter, enter_off,
  function_key, other, shown, show_cursor, type_char, press_tab, press_back, wrap_line, enter_char,
}
use ece391_mp.Keyboard.Layout.{is_key, us_layout}

-- A line in the making, its last character first, and the keys that are held.
pub record Draft : Type 0 where
  pub line : List ℕ
  pub left : Bool
  pub right : Bool
  pub caps : Bool

abbrev pub push : ℕ → Draft → Draft
push c d = record d { line = c ∷ d.line }

unfoldable pub pop : List ℕ → List ℕ
pop [] = []
pop (c ∷ cs) = cs

-- What a key means to the line.
unfoldable pub edit : Key → ℕ → Draft → Draft
edit caps_lock sc d = record d { caps = not d.caps }
edit (l_shift on) sc d = record d { left = not (on == 0) }
edit (r_shift on) sc d = record d { right = not (on == 0) }
edit (ctrl on) sc d = d
edit (alt on) sc d = d
edit space sc d = push b' ' d
edit tab sc d = push b' ' (push b' ' (push b' ' (push b' ' d)))
edit back sc d = record d { line = pop d.line }
edit enter sc d = d
edit enter_off sc d = d
edit (function_key t) sc d = d
edit other sc d = if is_key sc then push (us_layout (d.left || d.right) d.caps sc) d else d

-- The keys that edit a line, with the releases of keys: all but ctrl, enter and the function keys, and
-- those without a character.
abbrev pub edits : Key → ℕ → Bool
edits (ctrl on) sc = on == 0
edits enter sc = false
edits (function_key t) sc = false
edits other sc = is_key sc || leb 0x3E sc
edits _ sc = true

-- The character with the number `i`, from the first.
abbrev pub nth : List ℕ → ℕ → ℕ
nth line i = get_or line (length line - (i + 1)) 0

-- The keyboard has the draft in the buffer of the displayed terminal, no control key is held, and no part
-- of the line was there before the screen was cleared.
pub record Drafts (k : Keyboard) (d : Draft) : Type 0 where
  pub index : k.key_index (shown k) ≡ length d.line
  pub keys : (i : ℕ) → i < length d.line → k.key_buffer (shown k) i ≡ nth d.line i
  pub printable : (i : ℕ) → i < length d.line → (31 < nth d.line i) × (nth d.line i < 127)
  pub left : not (k.l_shift_check == 0) ≡ d.left
  pub right : not (k.r_shift_check == 0) ≡ d.right
  pub caps : not (k.capslock_check == 0) ≡ d.caps
  pub no_ctrl : k.ctrl_check ≡ 0
  pub offset : k.clear_offset (shown k) ≡ 0

nth-push : (c : ℕ) (line : List ℕ) (i : ℕ) → i < length line → nth (c ∷ line) i ≡ nth line i
nth-push c line i lt =
    let step : length (c ∷ line) - (i + 1) ≡ suc (length line - (i + 1)) = omega arith in
    rw step refl

nth-last : (c : ℕ) (line : List ℕ) → nth (c ∷ line) (length line) ≡ c
nth-last c line = let step : length (c ∷ line) - (length line + 1) ≡ 0 = omega arith in rw step refl

pub type_char-Drafts :
    (c : ℕ) (k : Keyboard) (d : Draft)
    → Drafts k d
    → 31 < c
    → c < 127
    → length d.line < 128
    → Drafts (type_char c k) (push c d)
unfolding type_char
type_char-Drafts c k d r lo hi room = record {
  index = ground (arith, r.index);
  keys = λ i lt. elim (eq_cases i (length d.line)) [
    | inl e ↦ rw e (ground (arith, r.index, nth-last c d.line))
    | inr ne ↦ ground (arith, r.index, r.keys i, nth-push c d.line i)
  ];
  printable = λ i lt. elim (eq_cases i (length d.line)) [
    | inl e ↦ rw e (ground (arith, nth-last c d.line))
    | inr ne ↦ ground (arith, r.printable i, nth-push c d.line i)
  ];
  left = r.left;
  right = r.right;
  caps = r.caps;
  no_ctrl = r.no_ctrl;
  offset = r.offset;
}

-- The same line in the same buffer, under keys that are held anew.
pub flags-Drafts :
    (k k' : Keyboard) (d d' : Draft)
    → (shown k' ≡ shown k)
      × (k'.key_index ≡ k.key_index)
      × (k'.key_buffer ≡ k.key_buffer)
      × (k'.clear_offset ≡ k.clear_offset)
      × (d'.line ≡ d.line)
    → Drafts k d
    → (not (k'.l_shift_check == 0) ≡ d'.left)
      × (not (k'.r_shift_check == 0) ≡ d'.right)
      × (not (k'.capslock_check == 0) ≡ d'.caps)
      × (k'.ctrl_check ≡ 0)
    → Drafts k' d'
flags-Drafts k k' d d' (a, b, c, e, l) r (left, right, caps, no_ctrl) = record {
  index = rw l (rw a (rw b r.index));
  keys = rw l (rw a (rw c r.keys));
  printable = rw l r.printable;
  left = left;
  right = right;
  caps = caps;
  no_ctrl = no_ctrl;
  offset = rw a (rw e r.offset);
}

-- A change of the screen, the table index, the row or the flag of the enter key does nothing to a draft.
abbrev pub Same : Keyboard → Keyboard → Type 0
Same k k' =
    ((shown k' ≡ shown k)
      × (k'.key_index ≡ k.key_index)
      × (k'.key_buffer ≡ k.key_buffer)
      × (k'.clear_offset ≡ k.clear_offset))
    × (k'.l_shift_check ≡ k.l_shift_check)
    × (k'.r_shift_check ≡ k.r_shift_check)
    × (k'.capslock_check ≡ k.capslock_check)
    × (k'.ctrl_check ≡ k.ctrl_check)

pub Drafts-Same : (k k' : Keyboard) (d : Draft) → Same k k' → Drafts k d → Drafts k' d
Drafts-Same k k' d ((a, b, c, e), f, g, h, i) r =
    flags-Drafts k k' d d (a, b, c, e, refl) r
      (rw f r.left, rw g r.right, rw h r.caps, rw i r.no_ctrl)

wrap_line-Same : (c : ℕ) (k : Keyboard) → Same (type_char c k) (wrap_line c k)
unfolding wrap_line
wrap_line-Same c k = ((refl, refl, refl, refl), refl, refl, refl, refl)

show_cursor-Same : (k : Keyboard) → Same k (show_cursor k)
show_cursor-Same k = ((refl, refl, refl, refl), refl, refl, refl, refl)

module _ (c : ℕ) (lo : 31 < c) (hi : c < 127) where
  pub enter_char-Drafts :
      (k : Keyboard) (d : Draft)
      → Drafts k d
      → length d.line < 128
      → Drafts (enter_char c k) (push c d)
  unfolding enter_char
  enter_char-Drafts k d r room =
      let typed : Drafts (type_char c k) (push c d) = type_char-Drafts c k d r lo hi room in
      let fits : ltb (k.key_index (shown k)) 128 ≡ true = ground (arith, r.index) in
      elim (Bool-cases (u8 (k.sched.screen.x + 1) == 80 && k.sched.screen.wrapped == 0)) [
        | inl last ↦
            rw last
              (Drafts-Same (type_char c k) (wrap_line c k) (push c d) (wrap_line-Same c k) typed)
        | inr before ↦ rw before (
            rw fits (
              Drafts-Same (type_char c k) (show_cursor (type_char c k)) (push c d)
                (show_cursor-Same (type_char c k)) typed))
      ]

pub space-Drafts :
    (k : Keyboard) (d : Draft)
    → Drafts k d
    → length d.line < 128
    → Drafts (show_cursor (type_char b' ' k)) (push b' ' d)
space-Drafts k d r room =
    Drafts-Same (type_char b' ' k) (show_cursor (type_char b' ' k)) (push b' ' d)
      (show_cursor-Same (type_char b' ' k))
      (type_char-Drafts b' ' k d r (omega arith) (omega arith) room)

pub press_tab-Drafts :
    (k : Keyboard) (d : Draft)
    → Drafts k d
    → length d.line < 125
    → Drafts (press_tab 4 k) (edit tab 0 d)
unfolding press_tab edit
press_tab-Drafts k d r room =
    let s : Keyboard → Keyboard = λ j. show_cursor (type_char b' ' j) in
    let p : Draft → Draft = push b' ' in
    space-Drafts (s (s (s k))) (p (p (p d)))
      (space-Drafts (s (s k)) (p (p d))
        (space-Drafts (s k) (p d) (space-Drafts k d r (omega arith)) (omega arith)) (omega arith))
      (omega arith)

pub press_back-Drafts :
    (k : Keyboard) (line : List ℕ) (left right caps : Bool)
    → Drafts k (record { line = line; left = left; right = right; caps = caps })
    → length line < 256
    → Drafts (press_back k) (record { line = pop line; left = left; right = right; caps = caps })
unfolding press_back pop
press_back-Drafts k [] left right caps r room =
    let same : (k.key_index (shown k) == k.clear_offset (shown k)) ≡ true =
      ground (arith, r.index, r.offset) in
    rw same r
press_back-Drafts k (c ∷ cs) left right caps r room = record {
  index = ground (arith, r.index, r.offset);
  keys = λ i lt. ground (arith, r.index, r.offset, r.keys i, nth-push c cs i);
  printable = λ i lt. ground (arith, r.printable i, nth-push c cs i);
  left = ground (arith, r.left);
  right = ground (arith, r.right);
  caps = ground (arith, r.caps);
  no_ctrl = ground (arith, r.no_ctrl);
  offset = ground (arith, r.offset);
}

pub length-pop : (line : List ℕ) → length (pop line) ≡ length line - 1
unfolding pop
length-pop [] = refl
length-pop (c ∷ cs) = omega arith
