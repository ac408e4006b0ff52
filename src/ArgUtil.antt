-- ===== src/ArgUtil.antt =====
-- student-distrib/utils/arg_util.c: the words of a command line, counted, measured and copied.
pub mod Words
pub mod Count
pub mod Argument
pub mod Next
pub mod Tests
use ece391_mp.Prelude.{
  ℕ, zero, suc, ◌+◌, Bool, true, false, not, Option, none, some, ltb, leb, ◌==◌, ◌&&◌, ◌||◌,
  if◌then◌else◌,
}
use ece391_mp.Prelude.Words.{minus_one, is_neg}
use ece391_mp.Prelude.Memory.{Memory, store}
use ece391_mp.CharUtil.{string_length}

-- `in_arg`, and `arg_count` or `arg_index`.
pub record Scan : Type 0 where
  pub in_arg : Bool
  pub arg : ℕ

abbrev pub start : Scan
start = record { in_arg = false; arg = 0 }

-- The two tests at the head of each of the three loops.
unfoldable pub scan_step : ℕ → Scan → Scan
scan_step c sc =
    if c == b' ' && sc.in_arg
    then record { in_arg = false; arg = sc.arg + 1 }
    else if not (c == b' ') && not sc.in_arg
    then record { in_arg = true; arg = sc.arg }
    else sc

unfoldable pub count_loop : ℕ → ℕ → Memory → ℕ → Scan → Scan
count_loop zero i m s sc = sc
count_loop (suc rounds) i m s sc = count_loop rounds (i + 1) m s (scan_step (m (s + i)) sc)

-- `if (in_arg) arg_count++; return arg_count`
abbrev pub total : Scan → ℕ
total sc = if sc.in_arg then sc.arg + 1 else sc.arg

unfoldable pub get_argument_count : Memory → ℕ → ℕ
get_argument_count m s =
    let length = string_length m s in
    if is_neg length then minus_one else total (count_loop length 0 m s start)

-- `arg_count <= 0 || index >= arg_count`
abbrev pub no_argument : ℕ → ℕ → Bool
no_argument count index = count == 0 || is_neg count || leb count index

unfoldable pub measure_loop : ℕ → ℕ → Memory → ℕ → ℕ → Scan → ℕ → ℕ
measure_loop zero i m s index sc arg_length = arg_length
measure_loop (suc rounds) i m s index sc arg_length =
    let next = scan_step (m (s + i)) sc in
    let longer =
      (if not (m (s + i) == b' ') && next.arg == index then arg_length + 1 else arg_length) in
    let rest = measure_loop rounds (i + 1) m s index next longer in
    if ltb index next.arg then longer else rest

unfoldable pub get_argument_length : Memory → ℕ → ℕ → ℕ
get_argument_length m s index =
    if no_argument (get_argument_count m s) index
    then minus_one
    else let length = string_length m s in
      if is_neg length
      then minus_one
      else let arg_length = measure_loop length 0 m s index start 0 in
        if arg_length == 0 then minus_one else arg_length

-- The third loop also writes; it reads the string from the memory as it is by then.
unfoldable pub fetch_loop : ℕ → ℕ → Memory → ℕ → ℕ → ℕ → Scan → ℕ → Memory × ℕ
fetch_loop zero i m s index buf sc j = (m, j)
fetch_loop (suc rounds) i m s index buf sc j =
    let c = m (s + i) in
    let next = scan_step c sc in
    let hit = not (c == b' ') && next.arg == index && not (c == 0) in
    let m' = (if hit then store m (buf + j) c else m) in
    let j' = (if hit then j + 1 else j) in
    let rest = fetch_loop rounds (i + 1) m' s index buf next j' in
    if ltb index next.arg then (m', j') else rest

unfoldable pub get_argument : Memory → ℕ → ℕ → ℕ → Memory × ℕ
get_argument m s index buf =
    if no_argument (get_argument_count m s) index
    then (m, minus_one)
    else let length = string_length m s in
      if is_neg length then (m, minus_one) else fetch_loop length 0 m s index buf start 0

-- `while ((argument_string[i] == ' ') == space) i++`; `none` means that the fuel ran out.
unfoldable pub skip : Bool → ℕ → Memory → ℕ → ℕ → Option ℕ
skip space zero m s i = none
skip space (suc fuel) m s i =
    let rest = skip space fuel m s (i + 1) in
    if (if m (s + i) == b' ' then space else not space) then rest else some i

-- `while (argument_string[i] != '\0') buf[j++] = argument_string[i++]`
unfoldable pub tail_loop : ℕ → Memory → ℕ → ℕ → ℕ → ℕ → Option (Memory × ℕ)
tail_loop zero m s buf i j = none
tail_loop (suc fuel) m s buf i j =
    let rest = tail_loop fuel (store m (buf + j) (m (s + i))) s buf (i + 1) (j + 1) in
    if m (s + i) == 0 then some (m, j) else rest

infixl 5 ◌>>=◌
abbrev ◌>>=◌ : {A B : Type 0} → Option A → (A → Option B) → Option B
none >>= f = none
some a >>= f = f a

unfoldable pub get_next_arguments : ℕ → Memory → ℕ → ℕ → Option (Memory × ℕ)
get_next_arguments fuel m s buf =
    let count = get_argument_count m s in
    if count == 0 || is_neg count
    then some (m, minus_one)
    else if count == 1
    then some (store m buf 0, 0)
    else do
      i1 ← skip true fuel m s 0
      i2 ← skip false fuel m s i1
      i3 ← skip true fuel m s i2
      (m', j) ← tail_loop fuel m s buf i3 0
      some (store m' (buf + j) 0, j)
