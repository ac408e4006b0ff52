-- ===== src/Keyboard/Layout.antt =====
-- The character of a key: the table's index against a description of the US layout.
use ece391_mp.Prelude.{
  ℕ, zero, suc, ◌-◌, ◌<◌, ◌≡◌, inl, inr, refl, arith, Bool, true, false, [], ◌∷◌, ltb, leb, ◌==◌,
  ◌&&◌, ◌||◌, not, get_or, if◌then◌else◌, eq_cases, ==→eq, ltb→lt,
}
use ece391_mp.Keyboard.{other, decode, index_of, key_table}
use ece391_mp.Keyboard.Handler.{input_of}

-- The scancodes of the keys with a character in the four main rows; the star of the keypad is not one of them.
abbrev pub is_key : ℕ → Bool
is_key sc =
    leb 0x02 sc && leb sc 0x0D
    || leb 0x10 sc && leb sc 0x1B
    || leb 0x1E sc && leb sc 0x29
    || leb 0x2B sc && leb sc 0x35

unfoldable pub us_key : ℕ → ℕ
us_key sc =
    if leb sc 0x0D
    then get_or
        (b'1' ∷ b'2' ∷ b'3' ∷ b'4' ∷ b'5' ∷ b'6' ∷ b'7' ∷ b'8' ∷ b'9' ∷ b'0' ∷ b'-' ∷ b'=' ∷ [])
        (sc - 0x02) 0
    else if leb sc 0x1B
    then get_or
        (b'q' ∷ b'w' ∷ b'e' ∷ b'r' ∷ b't' ∷ b'y' ∷ b'u' ∷ b'i' ∷ b'o' ∷ b'p' ∷ b'[' ∷ b']' ∷ [])
        (sc - 0x10) 0
    else if leb sc 0x29
    then get_or
        (b'a' ∷ b's' ∷ b'd' ∷ b'f' ∷ b'g' ∷ b'h' ∷ b'j' ∷ b'k' ∷ b'l' ∷ b';' ∷ b'\'' ∷ b'`' ∷ [])
        (sc - 0x1E) 0
    else get_or (b'\\' ∷ b'z' ∷ b'x' ∷ b'c' ∷ b'v' ∷ b'b' ∷ b'n' ∷ b'm' ∷ b',' ∷ b'.' ∷ b'/' ∷ [])
        (sc - 0x2B) 0

-- The other sign of a key, for the keys that are no letters.
unfoldable pub other_sign : ℕ → ℕ
other_sign c =
    if c == b'1'
    then b'!'
    else if c == b'2'
    then b'@'
    else if c == b'3'
    then b'#'
    else if c == b'4'
    then b'$'
    else if c == b'5'
    then b'%'
    else if c == b'6'
    then b'^'
    else if c == b'7'
    then b'&'
    else if c == b'8'
    then b'*'
    else if c == b'9'
    then b'('
    else if c == b'0'
    then b')'
    else if c == b'-'
    then b'_'
    else if c == b'='
    then b'+'
    else if c == b'['
    then b'{'
    else if c == b']'
    then b'}'
    else if c == b';'
    then b':'
    else if c == b'\''
    then b'"'
    else if c == b'`'
    then b'~'
    else if c == b'\\'
    then b'|'
    else if c == b','
    then b'<'
    else if c == b'.'
    then b'>'
    else b'?'

abbrev pub xor : Bool → Bool → Bool
xor true b = not b
xor false b = b

-- A letter is a capital when exactly one of shift and caps lock holds; the caps lock does nothing to the
-- other keys.
unfoldable pub us_layout : Bool → Bool → ℕ → ℕ
us_layout shift caps sc =
    let c = us_key sc in
    if leb b'a' c && leb c b'z'
    then (if xor shift caps then c - 32 else c)
    else if shift
    then other_sign c
    else c

unfoldable all_below : ℕ → (ℕ → Bool) → Bool
all_below zero p = true
all_below (suc n) p = p n && all_below n p

all_below-holds : (n : ℕ) (p : ℕ → Bool) (i : ℕ) → all_below n p ≡ true → i < n → p i ≡ true
unfolding all_below
all_below-holds zero p i all lt = absurd (omega arith)
all_below-holds (suc n) p i all lt = elim (eq_cases i n) [
  | inl e ↦ rw e (ground (arith))
  | inr ne ↦ all_below-holds n p i (ground arith) (omega arith)
]

unfoldable right : ℕ → Bool → Bool → ℕ → Bool
right beyond shift caps sc =
    not (is_key sc)
    || (ltb (index_of sc shift caps) 104
        && get_or key_table (index_of sc shift caps) beyond == us_layout shift caps sc
        && ltb 32 (us_layout shift caps sc)
        && ltb (us_layout shift caps sc) 127)

right_everywhere : (beyond : ℕ) (shift caps : Bool) → all_below 54 (right beyond shift caps) ≡ true
unfolding all_below right index_of us_layout us_key other_sign
right_everywhere beyond true true = refl
right_everywhere beyond true false = refl
right_everywhere beyond false true = refl
right_everywhere beyond false false = refl

when : (k b : Bool) → k ≡ true → (not k || b) ≡ true → b ≡ true
when true b h i = i
when false b h i = ground arith

four :
    (a b c d : Bool) → (a && b && c && d) ≡ true → (a ≡ true) × (b ≡ true) × (c ≡ true) × (d ≡ true)
four true true true true h = (refl, refl, refl, refl)
four true true true false h = ground arith
four true true false d h = ground arith
four true false c d h = ground arith
four false b c d h = ground arith

module _ (sc : ℕ) (key : is_key sc ≡ true) where
  pub decode-key : decode sc ≡ other
  unfolding decode
  decode-key = ground (arith, key)

  module _ (behind : ℕ → ℕ) (shift caps : Bool) where
    abbrev beyond : ℕ
    beyond = behind (index_of sc shift caps)

    all_right : right beyond shift caps sc ≡ true
    all_right =
        all_below-holds 54 (right beyond shift caps) sc (right_everywhere beyond shift caps)
          (ground (arith, key))

    abbrev index : ℕ
    index = index_of sc shift caps

    facts :
        (ltb index 104 ≡ true)
        × ((get_or key_table index beyond == us_layout shift caps sc) ≡ true)
        × (ltb 32 (us_layout shift caps sc) ≡ true)
        × (ltb (us_layout shift caps sc) 127 ≡ true)
    unfolding right
    facts =
        four (ltb index 104) (get_or key_table index beyond == us_layout shift caps sc)
          (ltb 32 (us_layout shift caps sc)) (ltb (us_layout shift caps sc) 127)
          (when (is_key sc) _ key all_right)

    -- For every key of the four main rows that has a character (scancodes 0x02 to 0x0D, 0x10 to 0x1B,
    -- 0x1E to 0x29 and 0x2B to 0x35), and whatever of shift and caps lock holds, the index is inside the
    -- table of 104 bytes, and the byte there is the character of the US layout.
    pub input_of-us_layout : (index < 104) × (input_of behind index ≡ us_layout shift caps sc)
    input_of-us_layout =
        (ltb→lt index 104 facts.0, ==→eq (input_of behind index) (us_layout shift caps sc) facts.1)

    -- It is a printable character, no space.
    pub us_layout-printable : (32 < us_layout shift caps sc) × (us_layout shift caps sc < 127)
    us_layout-printable =
        (ltb→lt 32 (us_layout shift caps sc) facts.2, ltb→lt (us_layout shift caps sc) 127 facts.3)
