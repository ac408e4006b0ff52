-- ===== src/ArgUtil/Tests.antt =====
-- The text "aa a" at 100.
use ece391_mp.Prelude.{ℕ, refl, arith, leb, ltb, ◌==◌, ◌&&◌, if◌then◌else◌, List}
use ece391_mp.Prelude.Memory.{Memory, IsString, bytes}

abbrev text : Memory
text a = if a == 102 then b' ' else if leb 100 a && ltb a 104 then b'a' else 0

abbrev command : List ℕ
command = bytes text 100 4

text_100 : IsString text 100 4
text_100 = record { body = λ i p. ground arith; eos = refl }

text_103 : IsString text 103 1
text_103 = record { body = λ i p. ground arith; eos = refl }
