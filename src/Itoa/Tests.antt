-- ===== src/Itoa/Tests.antt =====
-- A number in a memory of NULs, and a string turned round.
use ece391_mp.Prelude.{ℕ, ◌≡◌, refl, arith, some, ◌==◌, if◌then◌else◌}
use ece391_mp.Prelude.Memory.{Memory, IsString}
use ece391_mp.Itoa.{itoa}
use ece391_mp.Itoa.Number.{Written, itoa-Written}

abbrev blank : Memory
blank a = 0

itoa_example :
    (m' : Memory) × (n : ℕ) × (itoa 33 blank 391 100 10 ≡ some m') × Written 10 blank m' 100 391 n
itoa_example = itoa-Written blank 391 100 10 (omega arith) (omega arith) (omega arith)

abbrev text : Memory
text a = if a == 100 then b'a' else if a == 101 then b'b' else 0

text_100 : IsString text 100 2
text_100 = record { body = λ i p. ground arith; eos = refl }
