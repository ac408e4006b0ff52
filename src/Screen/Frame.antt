-- ===== src/Screen/Frame.antt =====
-- The text screen of student-distrib/lib.c writes inside its 4000 bytes only.
use ece391_mp.Prelude.{ℕ, ◌+◌, ◌<◌, ◌≡◌, inl, inr, refl, ◌∙◌, arith, List, [], ◌∷◌, eq_cases}
use ece391_mp.Prelude.Words.{u8, u32}
use ece391_mp.CharUtil.Loops.{Outside}
use ece391_mp.Screen.{Screen, num_rows, putc, puts, puts_loop, scroll_handle, update_cursor}
use ece391_mp.Screen.Bounds.{OnScreen, putc-OnScreen}
use ece391_mp.Screen.Scroll.{scroll_handle-Scrolled}
use ece391_mp.Printf.Plain.{put_all}

-- The screen keeps its address, and no byte outside its 4000 has changed.
pub record Within (s t : Screen) : Type 0 where
  pub place : t.video_mem ≡ s.video_mem
  pub frame : (a : ℕ) → Outside a s.video_mem 4000 → t.mem a ≡ s.mem a

Within-refl : (s : Screen) → Within s s
Within-refl s = record { place = refl; frame = λ a o. refl }

pub Within-trans : (s t u : Screen) → Within s t → Within t u → Within s u
Within-trans s t u h g = record {
  place = g.place ∙ h.place;
  frame = λ a o. g.frame a (rw (h.place) o) ∙ h.frame a o;
}

scrolled_place : (s : Screen) → (scroll_handle s).video_mem ≡ s.video_mem
unfolding scroll_handle update_cursor
scrolled_place s = refl

scroll_handle-Within : (s : Screen) → s.y ≡ num_rows → Within s (scroll_handle s)
scroll_handle-Within s e = record {
  place = scrolled_place s;
  frame = (scroll_handle-Scrolled s (omega (arith, e)) (omega (arith, e))).frame;
}

-- A line end moves the place, or scrolls behind the last row.
pub line_end-Within :
    (key_index : ℕ) (s : Screen) → s.y < num_rows → Within s (putc key_index b'\n' s)
unfolding putc update_cursor
line_end-Within key_index s lt = elim (eq_cases (s.y + 1) num_rows) [
  | inl last ↦
      let t : Screen = record s { x = 0; y = u32 (s.y + 1) } in
      let w : Within t (scroll_handle t) = scroll_handle-Within t (omega (arith, last)) in
      record { place = ground (arith, w.place); frame = λ a o. ground (arith, w.frame a) }
  | inr above ↦ record { place = ground arith; frame = λ a o. ground arith }
]

pub putc-Within : (key_index c : ℕ) (s : Screen) → OnScreen s → Within s (putc key_index c s)
unfolding putc update_cursor
putc-Within key_index c s on =
    let w : Within s (putc key_index b'\n' s) = line_end-Within key_index s on.row in
    record { place = ground (arith, w.place); frame = λ a o. ground (arith, w.frame a) }

-- What is put one by one from a place on the screen stays within it.
pub put_all-Within :
    (key_index : ℕ) (text : List ℕ) (s : Screen)
    → OnScreen s
    → Within s (put_all key_index text s) × OnScreen (put_all key_index text s)
unfolding put_all
put_all-Within key_index [] s on = (Within-refl s, on)
put_all-Within key_index (c ∷ cs) s on =
    let (w, on') =
      put_all-Within key_index cs (putc key_index c s) (putc-OnScreen key_index c s on) in
    (Within-trans s (putc key_index c s) _ (putc-Within key_index c s on) w, on')

puts_loop-Within :
    (key_index : ℕ) (text : List ℕ) (x : ℕ) (s : Screen)
    → OnScreen s
    → Within s (puts_loop key_index text x s).0 × OnScreen (puts_loop key_index text x s).0
unfolding puts_loop
puts_loop-Within key_index [] x s on = (Within-refl s, on)
puts_loop-Within key_index (c ∷ cs) x s on =
    let (w, on') =
      puts_loop-Within key_index cs (u8 (x + 1)) (putc key_index c s)
        (putc-OnScreen key_index c s on) in
    (Within-trans s (putc key_index c s) _ (putc-Within key_index c s on) w, on')

-- `puts` writes within the screen and stays in its rows; its column need not be one of the screen.
pub puts-Within :
    (key_index : ℕ) (text : List ℕ) (s : Screen)
    → OnScreen s
    → Within s (puts key_index text s) × ((puts key_index text s).y < num_rows)
unfolding puts
puts-Within key_index text s on =
    let (w, on') = puts_loop-Within key_index text (u8 s.x) s on in
    (record { place = w.place; frame = w.frame }, on'.row)
