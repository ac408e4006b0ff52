-- ===== src/CharUtil/Tests.antt =====
-- Strings in a small memory: the text "aaa" at 100 and at 200.
use ece391_mp.Prelude.{refl, arith, leb, ltb, ◌&&◌, ◌||◌, if◌then◌else◌}
use ece391_mp.Prelude.Memory.{Memory, IsString}

abbrev letters : Memory
letters a = if (leb 100 a && ltb a 103) || (leb 200 a && ltb a 203) then b'a' else 0

abbrev full : Memory
full a = b'a'

letters_100 : IsString letters 100 3
letters_100 = record { body = λ i p. ground arith; eos = refl }

letters_200 : IsString letters 200 3
letters_200 = record { body = λ i p. ground arith; eos = refl }
