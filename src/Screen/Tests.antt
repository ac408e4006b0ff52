-- ===== src/Screen/Tests.antt =====
-- A blank screen at 0xB8000, with the place in the middle, in the last column, and in the last row.
use ece391_mp.Prelude.{ℕ, List, [], ◌∷◌, arith}
use ece391_mp.Screen.{Screen, puts}
use ece391_mp.Screen.Bounds.{OnScreen, puts_leaves_screen}

abbrev at_place : ℕ → ℕ → Screen
at_place x y = record { mem = λ a. 0; video_mem = 0xB8000; x = x; y = y; cursor = 0; wrapped = 0 }

abbrev middle : Screen
middle = at_place 40 12

abbrev bottom : Screen
bottom = at_place 78 24

abbrev prompt : List ℕ
prompt = b'a' ∷ b'b' ∷ b'c' ∷ []

middle-OnScreen : OnScreen middle
middle-OnScreen = record { column = omega arith; row = omega arith }

bottom-OnScreen : OnScreen bottom
bottom-OnScreen = record { column = omega arith; row = omega arith }

puts_leaves_screen_example : ¬ OnScreen (puts 3 prompt bottom)
puts_leaves_screen_example = puts_leaves_screen 3 prompt bottom (omega arith) (omega arith)
