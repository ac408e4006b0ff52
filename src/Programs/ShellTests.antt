-- ===== src/Programs/ShellTests.antt =====
-- A user who types "ls", an empty line and "exit".
use ece391_mp.Prelude.{
  ℕ, zero, suc, ◌+◌, ◌≤◌, ◌<◌, ◌≡◌, inl, refl, ap, ◌∙◌, arith, List, [], ◌∷◌, ◌++◌, length, get_or,
  ◌==◌, if◌then◌else◌,
}
use ece391_mp.Prelude.Memory.{Memory, store}
use ece391_mp.CharUtil.Loops.{Outside}
use ece391_mp.Programs.{Syscalls, shell}
use ece391_mp.Programs.Strings.{IsBytes}
use ece391_mp.Programs.Line.{IsLine, exit_line, Command, Got}
use ece391_mp.Programs.Round.{Console, commands}
use ece391_mp.Programs.Shell.{AreTyped, Left, shell-Left}

abbrev put_line : ℕ → List ℕ → Memory → Memory
put_line a [] m = m
put_line a (c ∷ cs) m = store (put_line (a + 1) cs m) a c

put_line_at :
    (w : List ℕ) (a i : ℕ) (m : Memory) → i < length w → put_line a w m (a + i) ≡ get_or w i 0
put_line_at [] a i m lt = absurd (omega arith)
put_line_at (c ∷ cs) a zero m lt = ground arith
put_line_at (c ∷ cs) a (suc i) m lt = ground (arith, put_line_at cs (a + 1) i m)

put_line_frame :
    (w : List ℕ) (a b : ℕ) (m : Memory) → Outside b a (length w) → put_line a w m b ≡ m b
put_line_frame [] a b m out = refl
put_line_frame (c ∷ cs) a b m out = ground (arith, put_line_frame cs (a + 1) b m)

abbrev AreBytes : List ℕ → Type 0
AreBytes [] = Unit {0}
AreBytes (c ∷ cs) = (c < 256) × AreBytes cs

put_line-IsBytes :
    (w : List ℕ) (a : ℕ) (m : Memory) → AreBytes w → IsBytes m → IsBytes (put_line a w m)
put_line-IsBytes [] a m h small b = small b
put_line-IsBytes (c ∷ cs) a m (lt, h) small b =
    ground (arith, put_line-IsBytes cs (a + 1) m h small b)

abbrev word_of : ℕ → Memory → ℕ → List ℕ
word_of zero m a = []
word_of (suc fuel) m a = let rest = word_of fuel m (a + 1) in if m a == 0 then [] else m a ∷ rest

word_of_lem :
    (fuel : ℕ) (m : Memory) (a : ℕ) (w : List ℕ)
    → IsLine w
    → length w < fuel
    → Command m a w
    → word_of fuel m a ≡ w
word_of_lem zero m a w line lt h = absurd (omega arith)
word_of_lem (suc fuel) m a [] line lt h = ground (arith, h.eos)
word_of_lem (suc fuel) m a (c ∷ cs) line lt h = ground (
  arith,
  h.word 0,
  line 0,
  word_of_lem fuel m (a + 1) cs (λ i p. line (suc i) (omega arith)) (omega arith)
      (record { word = λ i p. ground (arith, h.word (suc i)); eos = ground (arith, h.eos) }),
)

abbrev Typing : Type 0
Typing = List (List ℕ) × List (List ℕ)

abbrev type_line : Memory → List (List ℕ) → List (List ℕ) → Memory × Typing × ℕ
type_line m [] ran = (m, ([], ran), 0)
type_line m (w ∷ ws) ran = (put_line 1000 w m, (ws, ran), length w)

abbrev user : Syscalls
user = record {
  State = Typing;
  read = λ f a n m s. type_line m s.0 s.1;
  write = λ f t s. (s, length t);
  open_file = λ a m s. (s, 0);
  getargs = λ a n m s. (m, s, 0);
  execute = λ a m s. ((s.0, s.1 ++ word_of 1024 m a ∷ []), 0);
}

abbrev AreShort : List (List ℕ) → Type 0
AreShort [] = Unit {0}
AreShort (w ∷ ws) = (length w ≤ 1023) × AreBytes w × AreShort ws

abbrev Waiting : Memory → Typing → List (List ℕ) → List (List ℕ) → Type 0
Waiting m s lines ran =
    IsBytes m × Command m 500 exit_line × (s.0 ≡ lines) × (s.1 ≡ ran) × AreShort lines

read_line :
    (m : Memory) (typed : List (List ℕ)) (done : List (List ℕ)) (w : List ℕ)
    (lines ran : List (List ℕ))
    → IsBytes m
    → Command m 500 exit_line
    → typed ≡ w ∷ lines
    → done ≡ ran
    → AreShort (w ∷ lines)
    → let (m', s', n) = type_line m typed done in Got m' 1000 w n × Waiting m' s' lines ran
read_line m typed done w lines ran small lit e d (le, b, short) = rw e (
  record { word = λ i lt. put_line_at w 1000 i m lt; count = inl refl; fits = le },
  (
    put_line-IsBytes w 1000 m b small,
    record {
      word = λ i lt. put_line_frame w 1000 (500 + i) m (omega arith) ∙ lit.word i lt;
      eos = put_line_frame w 1000 504 m (omega arith) ∙ lit.eos;
    },
    refl,
    d,
    short,
  ),
)

own_line :
    (m : Memory) (s : Typing) (lines ran : List (List ℕ)) (i : ℕ)
    → i ≤ 1023
    → Waiting m s lines ran
    → Waiting (store m (1000 + i) 0) s lines ran
own_line m s lines ran i le h = (
  λ b. ground (arith, h.0 b),
  record { word = λ j lt. ground (arith, h.1.word j lt); eos = ground (arith, h.1.eos) },
  h.2,
  h.3,
  h.4,
)

abbrev console : Console user 1000 500
console = record {
  Waits = Waiting;
  write = λ m s text lines ran h. h;
  read = λ m s w lines ran h. read_line m s.0 s.1 w lines ran h.0 h.1 h.2 h.3 h.4;
  own = λ m s lines ran i le h. own_line m s lines ran i le h;
  execute = λ m s w lines ran h line le cmd. (
    h.0,
    h.1,
    h.2,
    ap (λ v. v ++ word_of 1024 m 1000 ∷ []) h.3
        ∙ ap (λ v. ran ++ v ∷ []) (word_of_lem 1024 m 1000 w line (omega arith) cmd),
    h.4,
  );
  literal = λ m s lines ran h. (h.0, h.1);
}

abbrev at_prompt : Memory
at_prompt = put_line 500 exit_line (λ a. 0)

abbrev typed : List (List ℕ)
typed = (b'l' ∷ b's' ∷ []) ∷ [] ∷ []

ls-IsLine : IsLine (b'l' ∷ b's' ∷ [])
ls-IsLine zero lt = (omega arith, omega arith)
ls-IsLine (suc zero) lt = (omega arith, omega arith)
ls-IsLine (suc (suc i)) lt = absurd (omega arith)

typed-AreTyped : AreTyped typed
typed-AreTyped = (
  ls-IsLine,
  λ e. absurd (omega (arith, ap (length {0}) e)),
  ((λ i lt. absurd (omega arith)), λ e. absurd (omega (arith, ap (length {0}) e)), tt),
)

prompt-Waiting :
    Waiting at_prompt
      (typed ++ exit_line ∷ (b'c' ∷ []) ∷ [], [])
      (typed ++ exit_line ∷ (b'c' ∷ []) ∷ [])
      []
prompt-Waiting = (
  put_line-IsBytes exit_line 500 (λ a. 0) (omega arith) (λ a. omega arith),
  record { word = λ i lt. put_line_at exit_line 500 i (λ a. 0) lt; eos = refl },
  refl,
  refl,
  ground arith,
)

shell-Left_example :
    Left user 1000 500 console
      ((b'c' ∷ []) ∷ [])
      (commands typed)
      (shell user 3 500 1000 at_prompt (typed ++ exit_line ∷ (b'c' ∷ []) ∷ [], []))
shell-Left_example =
    shell-Left user 1000 500 console 3 at_prompt (typed ++ exit_line ∷ (b'c' ∷ []) ∷ [], []) typed
      ((b'c' ∷ []) ∷ []) [] typed-AreTyped (omega arith) prompt-Waiting
