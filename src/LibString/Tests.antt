-- ===== src/LibString/Tests.antt =====
-- The string "ab" at 100, and "ac" at 200.
use ece391_mp.Prelude.{ℕ, ◌<◌, refl, arith, ◌==◌, if◌then◌else◌}
use ece391_mp.Prelude.Memory.{Memory, IsString}

abbrev text : Memory
text a =
    if a == 100
    then b'a'
    else if a == 101
    then b'b'
    else if a == 200
    then b'a'
    else if a == 201
    then b'c'
    else 0

text_100 : IsString text 100 2
text_100 = record { body = λ i p. ground arith; eos = refl }

byte-text : (a : ℕ) → text a < 256
byte-text a = ground arith
