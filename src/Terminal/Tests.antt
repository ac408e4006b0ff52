-- ===== src/Terminal/Tests.antt =====
-- The keys "ab" and a line end in terminal 0, and a screen with the place in its last row.
use ece391_mp.Prelude.{ℕ, inl, refl, arith, ◌==◌, if◌then◌else◌}
use ece391_mp.Screen.{Screen}
use ece391_mp.Screen.Bounds.{OnScreen}
use ece391_mp.Terminal.{Keys, terminal_read}
use ece391_mp.Terminal.Read.{IsLine, HasLine, terminal_read-HasLine}

abbrev typed : ℕ → ℕ
typed i = if i == 0 then b'a' else if i == 1 then b'b' else if i == 2 then b'\n' else 0

abbrev keys : Keys
keys = record { display_terminal = 0; key_index = λ t. 3; key_buffer = λ t. typed; enter_down = 1 }

abbrev screen : Screen
screen = record { mem = λ a. b'x'; video_mem = 0xB8000; x = 70; y = 24; cursor = 0; wrapped = 0 }

typed-IsLine : IsLine typed 2
typed-IsLine = record { body = λ i lt. ground arith; end = refl }

screen-OnScreen : OnScreen screen
screen-OnScreen = record { column = omega arith; row = omega arith }

terminal_read_example : HasLine keys screen 1000 2000 2 (terminal_read keys screen 1000 2000 10)
terminal_read_example =
    terminal_read-HasLine keys screen 1000 2000 10 2 typed-IsLine (omega arith) (omega arith)
      (omega arith) (inl (omega arith))
