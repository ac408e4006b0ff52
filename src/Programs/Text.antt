-- ===== src/Programs/Text.antt =====
-- The texts that ece391cat.c, ece391ls.c and ece391shell.c of syscalls print, each up to its NUL.
use ece391_mp.Prelude.{ℕ, List, [], ◌∷◌}

abbrev pub could_not_read : List ℕ
could_not_read =
    b'c' ∷ b'o' ∷ b'u' ∷ b'l' ∷ b'd' ∷ b' ' ∷ b'n' ∷ b'o' ∷ b't' ∷ b' ' ∷ b'r' ∷ b'e' ∷ b'a' ∷ b'd'
    ∷ b' ' ∷ b'a' ∷ b'r' ∷ b'g' ∷ b'u' ∷ b'm' ∷ b'e' ∷ b'n' ∷ b't' ∷ b's' ∷ b'\n' ∷ []

abbrev pub not_found : List ℕ
not_found =
    b'f' ∷ b'i' ∷ b'l' ∷ b'e' ∷ b' ' ∷ b'n' ∷ b'o' ∷ b't' ∷ b' ' ∷ b'f' ∷ b'o' ∷ b'u' ∷ b'n' ∷ b'd'
    ∷ b'\n' ∷ []

abbrev pub read_failed : List ℕ
read_failed =
    b'f' ∷ b'i' ∷ b'l' ∷ b'e' ∷ b' ' ∷ b'r' ∷ b'e' ∷ b'a' ∷ b'd' ∷ b' ' ∷ b'f' ∷ b'a' ∷ b'i' ∷ b'l'
    ∷ b'e' ∷ b'd' ∷ b'\n' ∷ []

abbrev pub directory_open_failed : List ℕ
directory_open_failed =
    b'd' ∷ b'i' ∷ b'r' ∷ b'e' ∷ b'c' ∷ b't' ∷ b'o' ∷ b'r' ∷ b'y' ∷ b' ' ∷ b'o' ∷ b'p' ∷ b'e' ∷ b'n'
    ∷ b' ' ∷ b'f' ∷ b'a' ∷ b'i' ∷ b'l' ∷ b'e' ∷ b'd' ∷ b'\n' ∷ []

abbrev pub entry_read_failed : List ℕ
entry_read_failed =
    b'd' ∷ b'i' ∷ b'r' ∷ b'e' ∷ b'c' ∷ b't' ∷ b'o' ∷ b'r' ∷ b'y' ∷ b' ' ∷ b'e' ∷ b'n' ∷ b't' ∷ b'r'
    ∷ b'y' ∷ b' ' ∷ b'r' ∷ b'e' ∷ b'a' ∷ b'd' ∷ b' ' ∷ b'f' ∷ b'a' ∷ b'i' ∷ b'l' ∷ b'e' ∷ b'd'
    ∷ b'\n' ∷ []

abbrev pub prompt : List ℕ
prompt = b'3' ∷ b'9' ∷ b'1' ∷ b'O' ∷ b'S' ∷ b'>' ∷ b' ' ∷ []

abbrev pub keyboard_failed : List ℕ
keyboard_failed =
    b'r' ∷ b'e' ∷ b'a' ∷ b'd' ∷ b' ' ∷ b'f' ∷ b'r' ∷ b'o' ∷ b'm' ∷ b' ' ∷ b'k' ∷ b'e' ∷ b'y' ∷ b'b'
    ∷ b'o' ∷ b'a' ∷ b'r' ∷ b'd' ∷ b' ' ∷ b'f' ∷ b'a' ∷ b'i' ∷ b'l' ∷ b'e' ∷ b'd' ∷ b'\n' ∷ []

abbrev pub no_such_command : List ℕ
no_such_command =
    b'n' ∷ b'o' ∷ b' ' ∷ b's' ∷ b'u' ∷ b'c' ∷ b'h' ∷ b' ' ∷ b'c' ∷ b'o' ∷ b'm' ∷ b'm' ∷ b'a' ∷ b'n'
    ∷ b'd' ∷ b'\n' ∷ []

abbrev pub by_exception : List ℕ
by_exception =
    b'p' ∷ b'r' ∷ b'o' ∷ b'g' ∷ b'r' ∷ b'a' ∷ b'm' ∷ b' ' ∷ b't' ∷ b'e' ∷ b'r' ∷ b'm' ∷ b'i' ∷ b'n'
    ∷ b'a' ∷ b't' ∷ b'e' ∷ b'd' ∷ b' ' ∷ b'b' ∷ b'y' ∷ b' ' ∷ b'e' ∷ b'x' ∷ b'c' ∷ b'e' ∷ b'p'
    ∷ b't' ∷ b'i' ∷ b'o' ∷ b'n' ∷ b'\n' ∷ []

abbrev pub abnormally : List ℕ
abnormally =
    b'p' ∷ b'r' ∷ b'o' ∷ b'g' ∷ b'r' ∷ b'a' ∷ b'm' ∷ b' ' ∷ b't' ∷ b'e' ∷ b'r' ∷ b'm' ∷ b'i' ∷ b'n'
    ∷ b'a' ∷ b't' ∷ b'e' ∷ b'd' ∷ b' ' ∷ b'a' ∷ b'b' ∷ b'n' ∷ b'o' ∷ b'r' ∷ b'm' ∷ b'a' ∷ b'l'
    ∷ b'l' ∷ b'y' ∷ b'\n' ∷ []

abbrev pub starting : List ℕ
starting =
    b'S' ∷ b't' ∷ b'a' ∷ b'r' ∷ b't' ∷ b'i' ∷ b'n' ∷ b'g' ∷ b' ' ∷ b'3' ∷ b'9' ∷ b'1' ∷ b' ' ∷ b'S'
    ∷ b'h' ∷ b'e' ∷ b'l' ∷ b'l' ∷ b'\n' ∷ []
