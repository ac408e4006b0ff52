-- ===== src/Sched/Display.antt =====
-- What a switch of the displayed terminal shows, and that a switch back restores it.
use ece391_mp.Prelude.{ℕ, ◌+◌, ◌*◌, ◌%◌, ◌<◌, ◌≡◌, ◌≢◌, refl, arith, ap, sym, ◌∙◌}
use ece391_mp.Prelude.Memory.{Memory}
use ece391_mp.Process.{get_term_vid_addr}
use ece391_mp.CharUtil.{copy_loop}
use ece391_mp.CharUtil.Loops.{Outside, copy_loop_frame, copy_loop_copies}
use ece391_mp.Screen.{update_cursor}
use ece391_mp.Sched.{Sched, video, switch_display_terminal}

-- The screen shows what the terminal `t` has kept: its 4096 bytes, and the place and the cursor.
pub record Shows (t : ℕ) (before after : Sched) : Type 0 where
  pub display : after.procs.display_terminal ≡ t
  pub shown :
      (i : ℕ)
      → i < 4096
      → after.screen.mem (0xB8000 + i) ≡ before.screen.mem (0xD0000 + 4096 * t + i)
  pub column : after.screen.x ≡ before.last_screen_x t
  pub row : after.screen.y ≡ before.last_screen_y t
  pub cursor : after.screen.cursor ≡ (before.last_screen_y t * 80 + before.last_screen_x t) % 65536

-- The screen is kept for the terminal `t`.
pub record Keeps (t : ℕ) (before after : Sched) : Type 0 where
  pub kept :
      (i : ℕ)
      → i < 4096
      → after.screen.mem (0xD0000 + 4096 * t + i) ≡ before.screen.mem (0xB8000 + i)
  pub column : after.last_screen_x t ≡ before.screen.x
  pub row : after.last_screen_y t ≡ before.screen.y

vid_addr : (t : ℕ) → t < 3 → get_term_vid_addr t ≡ 0xD0000 + 4096 * t
unfolding get_term_vid_addr
vid_addr t lt = ground arith

module _ (t : ℕ) (s : Sched) (lt : t < 3) (here : s.procs.display_terminal < 3)
    (other : t ≢ s.procs.display_terminal) where
  abbrev at_cur : ℕ
  at_cur = 0xD0000 + 4096 * s.procs.display_terminal

  abbrev at_new : ℕ
  at_new = 0xD0000 + 4096 * t

  abbrev saved : Memory
  saved = copy_loop 4096 0 s.screen.mem video at_cur

  mem_after : (switch_display_terminal t s).screen.mem ≡ copy_loop 4096 0 saved at_new video
  unfolding switch_display_terminal update_cursor
  mem_after = rw (vid_addr s.procs.display_terminal here) (rw (vid_addr t lt) refl)

  -- The other terminal's screen is shown, whatever it has kept.
  pub switch_display_terminal-Shows : Shows t s (switch_display_terminal t s)
  unfolding switch_display_terminal update_cursor
  switch_display_terminal-Shows = record {
    display = refl;
    shown = λ i li. rw mem_after (
        ground (
          arith,
          copy_loop_copies 4096 0 i saved at_new video,
          copy_loop_frame 4096 0 s.screen.mem video at_cur (at_new + i),
        ));
    column = ground arith;
    row = ground arith;
    cursor = ground arith;
  }

  -- The screen that was shown is kept.
  pub switch_display_terminal-Keeps : Keeps s.procs.display_terminal s (switch_display_terminal t s)
  unfolding switch_display_terminal update_cursor
  switch_display_terminal-Keeps = record {
    kept = λ i li. rw mem_after (
        ground (
          arith,
          copy_loop_frame 4096 0 saved at_new video (at_cur + i),
          copy_loop_copies 4096 0 i s.screen.mem video at_cur,
        ));
    column = ground arith;
    row = ground arith;
  }

  switch_display_terminal_frame :
      (a : ℕ)
      → Outside a video 4096
      → Outside a at_cur 4096
      → (switch_display_terminal t s).screen.mem a ≡ s.screen.mem a
  switch_display_terminal_frame a out out' = rw mem_after (
      ground (
        arith,
        copy_loop_frame 4096 0 saved at_new video a,
        copy_loop_frame 4096 0 s.screen.mem video at_cur a,
      ))

-- A switch to another terminal and back shows the same screen as before, with its place, and nothing of
-- what the other terminal has kept is lost: it has its 4096 bytes again.
pub switch_display_terminal_back :
    (t : ℕ) (s : Sched)
    → t < 3
    → s.procs.display_terminal < 3
    → t ≢ s.procs.display_terminal
    → let u = switch_display_terminal s.procs.display_terminal (switch_display_terminal t s) in
      ((i : ℕ) → i < 4096 → u.screen.mem (0xB8000 + i) ≡ s.screen.mem (0xB8000 + i))
      × ((i : ℕ)
          → i < 4096
          → u.screen.mem (0xD0000 + 4096 * t + i) ≡ s.screen.mem (0xD0000 + 4096 * t + i))
      × (u.screen.x ≡ s.screen.x)
      × (u.screen.y ≡ s.screen.y)
      × (u.procs.display_terminal ≡ s.procs.display_terminal)
switch_display_terminal_back t s lt here other =
    let d : ℕ = s.procs.display_terminal in
    let v : Sched = switch_display_terminal t s in
    let shows : Shows t s v = switch_display_terminal-Shows t s lt here other in
    let keeps : Keeps d s v = switch_display_terminal-Keeps t s lt here other in
    let now : v.procs.display_terminal ≡ t = shows.display in
    let other' : d ≢ v.procs.display_terminal = λ e. other (omega arith) in
    let shows' : Shows d v (switch_display_terminal d v) =
      switch_display_terminal-Shows d v here (omega arith) other' in
    let keeps' : Keeps v.procs.display_terminal v (switch_display_terminal d v) =
      switch_display_terminal-Keeps d v here (omega arith) other' in
    (
      λ i li. shows'.shown i li ∙ keeps.kept i li,
      λ i li.
          (ap (λ w. (switch_display_terminal d v).screen.mem (0xD0000 + 4096 * w + i)) (sym now)
            ∙ keeps'.kept i li)
          ∙ shows.shown i li,
      shows'.column ∙ keeps.column,
      shows'.row ∙ keeps.row,
      shows'.display,
    )
