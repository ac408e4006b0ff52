-- ===== src/Printf/Tests.antt =====
-- Formats on a blank screen.
use ece391_mp.Prelude.{ℕ, List, [], ◌∷◌}
use ece391_mp.Screen.{Screen}

abbrev blank : Screen
blank = record { mem = λ a. 0; video_mem = 0xB8000; x = 0; y = 0; cursor = 0; wrapped = 0 }

abbrev greeting : List ℕ
greeting = b'h' ∷ b'i' ∷ b'\n' ∷ []
