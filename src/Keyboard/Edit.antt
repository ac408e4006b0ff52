-- ===== src/Keyboard/Edit.antt =====
-- The line that the keys edit: keyboard_handler against a stack of characters.
use ece391_mp.Prelude.{
  ℕ, ◌≤◌, ◌≡◌, inl, inr, refl, arith, Bool, true, false, List, [], ◌∷◌, ltb, leb, ◌&&◌, ◌||◌,
  length, ==→eq, leb→le, Bool-cases,
}
use ece391_mp.Sched.{Sched, switch_running_terminal}
use ece391_mp.Keyboard.{
  Keyboard, Key, caps_lock, l_shift, r_shift, ctrl, alt, space, tab, back, enter, enter_off,
  function_key, other, decode, index_of, shown, enter_char,
}
use ece391_mp.Keyboard.Handler.{press, press_other, calls_of, keyboard_handler, input_of}
use ece391_mp.Keyboard.Layout.{is_key, us_layout, input_of-us_layout, us_layout-printable}
use ece391_mp.Keyboard.Draft.{
  Draft, Drafts, pop, edit, edits, flags-Drafts, Drafts-Same, enter_char-Drafts, space-Drafts,
  press_tab-Drafts, press_back-Drafts, length-pop,
}

three : (a b c : Bool) → (a && b && c) ≡ true → (a ≡ true) × (b ≡ true) × (c ≡ true)
three true true true h = (refl, refl, refl)
three true true false h = ground arith
three true false c h = ground arith
three false b c h = ground arith

pub foremost_shown :
    (table_addr t : ℕ) (s : Sched)
    → (switch_running_terminal table_addr t s).0.procs.display_terminal ≡ s.procs.display_terminal
unfolding switch_running_terminal
foremost_shown table_addr t s = ground arith

module _ (behind : ℕ → ℕ) (sc : ℕ) where
  no_calls :
      (table_addr : ℕ) (key : Key) (k : Keyboard)
      → edits key sc ≡ true
      → calls_of table_addr key k ≡ (k, [])
  no_calls table_addr caps_lock k some = refl
  no_calls table_addr (l_shift on) k some = refl
  no_calls table_addr (r_shift on) k some = refl
  no_calls table_addr (ctrl on) k some = refl
  no_calls table_addr (alt on) k some = refl
  no_calls table_addr space k some = refl
  no_calls table_addr tab k some = refl
  no_calls table_addr back k some = refl
  no_calls table_addr enter k some = refl
  no_calls table_addr enter_off k some = refl
  no_calls table_addr (function_key t) k some = absurd (ground arith)
  no_calls table_addr other k some = refl

  -- A key with a character enters the character that the layout gives.
  press_other_key :
      (k : Keyboard) (d : Draft)
      → Drafts k d
      → is_key sc ≡ true
      → press_other behind sc k
        ≡ enter_char
            (us_layout (d.left || d.right) d.caps sc)
            (record k { table_index = index_of sc (d.left || d.right) d.caps })
  unfolding press_other
  press_other_key k d r key =
      let low : ltb sc 0x3E ≡ true = ground (arith, key) in
      let char : input_of behind (index_of sc (d.left || d.right) d.caps)
          ≡ us_layout (d.left || d.right) d.caps sc =
        (input_of-us_layout sc key behind (d.left || d.right) d.caps).1 in
      rw low (rw r.no_ctrl (rw r.left (rw r.right (rw r.caps (rw char refl)))))

  press_other-Drafts :
      (k : Keyboard) (d : Draft)
      → Drafts k d
      → edits other sc ≡ true
      → length (edit other sc d).line ≤ 128
      → Drafts (press_other behind sc k) (edit other sc d)
  unfolding press_other edit
  press_other-Drafts k d r some room = elim (Bool-cases (is_key sc)) [
    | inl key ↦
        (let c : ℕ = us_layout (d.left || d.right) d.caps sc in
          let looked : Keyboard = record k {
            table_index = index_of sc (d.left || d.right) d.caps;
          } in
          let (lo, hi) = us_layout-printable sc key behind (d.left || d.right) d.caps in
          rw (press_other_key k d r key) (
            rw key (
              enter_char-Drafts c (omega arith) hi looked d
                (Drafts-Same k looked d ((refl, refl, refl, refl), refl, refl, refl, refl) r)
                (ground (arith, key)))))
    | inr none ↦ (let high : ltb sc 0x3E ≡ false = ground (arith, none) in rw none (rw high r))
  ]

  press-Drafts :
      (key : Key) (k : Keyboard) (d : Draft)
      → Drafts k d
      → edits key sc ≡ true
      → length (edit key sc d).line ≤ 128
      → Drafts (press behind key sc k) (edit key sc d)
  unfolding press edit pop
  press-Drafts caps_lock k d r some room =
      flags-Drafts k (press behind caps_lock sc k) d (edit caps_lock sc d)
        (refl, refl, refl, refl, refl) r (r.left, r.right, ground (arith, r.caps), r.no_ctrl)
  press-Drafts (l_shift on) k d r some room =
      flags-Drafts k (press behind (l_shift on) sc k) d (edit (l_shift on) sc d)
        (refl, refl, refl, refl, refl) r (refl, r.right, r.caps, r.no_ctrl)
  press-Drafts (r_shift on) k d r some room =
      flags-Drafts k (press behind (r_shift on) sc k) d (edit (r_shift on) sc d)
        (refl, refl, refl, refl, refl) r (r.left, refl, r.caps, r.no_ctrl)
  press-Drafts (ctrl on) k d r some room =
      flags-Drafts k (press behind (ctrl on) sc k) d d (refl, refl, refl, refl, refl) r
        (r.left, r.right, r.caps, ==→eq on 0 some)
  press-Drafts (alt on) k d r some room =
      flags-Drafts k (press behind (alt on) sc k) d d (refl, refl, refl, refl, refl) r
        (r.left, r.right, r.caps, r.no_ctrl)
  press-Drafts space k d r some room = space-Drafts k d r (omega arith)
  press-Drafts tab k d r some room = press_tab-Drafts k d r (omega arith)
  press-Drafts back k d r some room =
      press_back-Drafts k d.line d.left d.right d.caps r (omega (arith, length-pop d.line))
  press-Drafts enter k d r some room = absurd (ground arith)
  press-Drafts enter_off k d r some room =
      flags-Drafts k (press behind enter_off sc k) d d (refl, refl, refl, refl, refl) r
        (r.left, r.right, r.caps, r.no_ctrl)
  press-Drafts (function_key t) k d r some room = absurd (ground arith)
  press-Drafts other k d r some room = press_other-Drafts k d r some room

  -- Every scancode that edits a line does to the draft what its key means.
  pub keyboard_handler-Drafts :
      (table_addr : ℕ) (k : Keyboard) (d : Draft)
      → Drafts k d
      → edits (decode sc) sc ≡ true
      → length (edit (decode sc) sc d).line ≤ 128
      → Drafts (keyboard_handler table_addr behind sc k).0 (edit (decode sc) sc d)
  unfolding keyboard_handler
  keyboard_handler-Drafts table_addr k d r some room =
      let f : Keyboard = record k {
        sched = (switch_running_terminal table_addr (shown k) k.sched).0;
      } in
      let done : Drafts (press behind (decode sc) sc f) (edit (decode sc) sc d) =
        press-Drafts (decode sc) f d
          (Drafts-Same k f d
            (
              (foremost_shown table_addr (shown k) k.sched, refl, refl, refl),
              refl,
              refl,
              refl,
              refl,
            )
            r)
          some room in
      rw (no_calls table_addr (decode sc) (press behind (decode sc) sc f) some) done

-- The keyboard interrupts of a list of scancodes, one after the other, with nothing in between.
unfoldable pub handle_all : ℕ → (ℕ → ℕ) → List ℕ → Keyboard → Keyboard
handle_all table_addr behind [] k = k
handle_all table_addr behind (sc ∷ scs) k =
    handle_all table_addr behind scs (keyboard_handler table_addr behind sc k).0

unfoldable pub edit_all : List ℕ → Draft → Draft
edit_all [] d = d
edit_all (sc ∷ scs) d = edit_all scs (edit (decode sc) sc d)

-- The keys edit the line, which never has more than 128 characters.
unfoldable pub fits : List ℕ → Draft → Bool
fits [] d = true
fits (sc ∷ scs) d =
    edits (decode sc) sc
    && leb (length (edit (decode sc) sc d).line) 128
    && fits scs (edit (decode sc) sc d)

-- However many keys edit the line, the buffer of the terminal holds what they make of it: characters as
-- the layout gives them under the keys held, spaces, and characters taken back.
pub handle_all-Drafts :
    (table_addr : ℕ) (behind : ℕ → ℕ) (scs : List ℕ) (k : Keyboard) (d : Draft)
    → Drafts k d
    → fits scs d ≡ true
    → Drafts (handle_all table_addr behind scs k) (edit_all scs d)
unfolding handle_all edit_all fits
handle_all-Drafts table_addr behind [] k d r ok = r
handle_all-Drafts table_addr behind (sc ∷ scs) k d r ok =
    let (some, room, later) =
      three (edits (decode sc) sc) (leb (length (edit (decode sc) sc d).line) 128)
        (fits scs (edit (decode sc) sc d)) ok in
    handle_all-Drafts table_addr behind scs (keyboard_handler table_addr behind sc k).0
      (edit (decode sc) sc d)
      (keyboard_handler-Drafts behind sc table_addr k d r some (leb→le _ 128 room)) later
