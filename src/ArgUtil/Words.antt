-- ===== src/ArgUtil/Words.antt =====
-- What arg_util.c computes, described on lists: the words of a text are its maximal runs of bytes
-- other than the space.
use mathlib.Core.List.{tail}
use ece391_mp.Prelude.{
  ap, sym, ◌∙◌, ℕ, zero, suc, ◌+◌, ◌-◌, ◌≤◌, ◌<◌, ◌≡◌, refl, Bool, true, false, List, [], ◌∷◌, ◌++◌,
  arith, length, get_or, ◌==◌, if◌then◌else◌, length-append,
}

-- A run that has ended, unless it is empty.
abbrev pub close_run : List ℕ → List (List ℕ) → List (List ℕ)
close_run [] ws = ws
close_run (x ∷ xs) ws = (x ∷ xs) ∷ ws

-- The words of a text behind the run `run`.
abbrev pub words_from : List ℕ → List ℕ → List (List ℕ)
words_from run [] = close_run run []
words_from run (c ∷ cs) =
    let ended = close_run run (words_from [] cs) in
    let longer = words_from (run ++ c ∷ []) cs in if c == b' ' then ended else longer

abbrev pub words : List ℕ → List (List ℕ)
words = words_from []

-- The word with a number, empty when there is none.
abbrev pub word_at : List (List ℕ) → ℕ → List ℕ
word_at ws k = get_or ws k []

abbrev pub is_open : List ℕ → Bool
is_open [] = false
is_open (x ∷ xs) = true

pub is_open-snoc : (run : List ℕ) (c : ℕ) → is_open (run ++ c ∷ []) ≡ true
is_open-snoc [] c = refl
is_open-snoc (x ∷ run) c = refl

-- A run that is open is the beginning of the first word.
pub length-le-first : (run cs : List ℕ) → length run ≤ length (word_at (words_from run cs) 0)
length-le-first [] cs = omega arith
length-le-first (x ∷ run) [] = omega arith
length-le-first (x ∷ run) (c ∷ cs) =
    ground (arith, length-le-first (x ∷ run ++ c ∷ []) cs, length-append {0} (x ∷ run) (c ∷ []))

pub word_at-cons :
    (w : List ℕ) (ws : List (List ℕ)) (k : ℕ)
    → word_at (w ∷ ws) k ≡ (if k == 0 then w else word_at ws (k - 1))
word_at-cons w ws zero = refl
word_at-cons w ws (suc k) = ground arith

-- No word is empty.
pub word_at-pos :
    (run cs : List ℕ) (k : ℕ)
    → k < length (words_from run cs)
    → 0 < length (word_at (words_from run cs) k)
word_at-pos [] [] k h = absurd (omega arith)
word_at-pos (x ∷ run) [] k h = ground (arith, word_at-cons (x ∷ run) [] k)
word_at-pos [] (c ∷ cs) k h = ground (arith, word_at-pos [] cs k, word_at-pos (c ∷ []) cs k)
word_at-pos (x ∷ run) (c ∷ cs) k h = ground (
  arith,
  word_at-cons (x ∷ run) (words_from [] cs) k,
  word_at-pos [] cs (k - 1),
  word_at-pos (x ∷ run ++ c ∷ []) cs k,
)

-- A text has no more words than bytes.
pub length-words_from-le : (run cs : List ℕ) → length (words_from run cs) ≤ length cs + length run
length-words_from-le [] [] = omega arith
length-words_from-le (x ∷ run) [] = omega arith
length-words_from-le [] (c ∷ cs) =
    ground (arith, length-words_from-le [] cs, length-words_from-le (c ∷ []) cs)
length-words_from-le (x ∷ run) (c ∷ cs) = ground (
  arith,
  length-words_from-le [] cs,
  length-words_from-le (x ∷ run ++ c ∷ []) cs,
  length-append {0} (x ∷ run) (c ∷ []),
)

-- The text behind its leading spaces, and behind its leading bytes other than the space.
abbrev pub drop_spaces : List ℕ → List ℕ
drop_spaces [] = []
drop_spaces (c ∷ cs) = let rest = drop_spaces cs in if c == b' ' then rest else c ∷ cs

abbrev pub drop_word : List ℕ → List ℕ
drop_word [] = []
drop_word (c ∷ cs) = let rest = drop_word cs in if c == b' ' then c ∷ cs else rest

-- The text from its second word on.
abbrev pub after_first : List ℕ → List ℕ
after_first cs = drop_spaces (drop_word (drop_spaces cs))

pub words-drop_spaces : (cs : List ℕ) → words (drop_spaces cs) ≡ words cs
words-drop_spaces [] = refl
words-drop_spaces (c ∷ cs) = ground (arith, words-drop_spaces cs)

pub tail-words_from :
    (x : ℕ) (run cs : List ℕ) → tail (words_from (x ∷ run) cs) ≡ words (drop_word cs)
tail-words_from x run [] = refl
tail-words_from x run (c ∷ cs) = ground (arith, tail-words_from x (run ++ c ∷ []) cs)

pub tail-words : (cs : List ℕ) → tail (words (drop_spaces cs)) ≡ words (drop_word (drop_spaces cs))
tail-words [] = refl
tail-words (c ∷ cs) = ground (arith, tail-words cs, tail-words_from c [] cs)

-- The words of the rest are the words but the first.
pub words-after_first : (cs : List ℕ) → words (after_first cs) ≡ tail (words cs)
words-after_first cs =
    words-drop_spaces (drop_word (drop_spaces cs))
    ∙ sym (tail-words cs)
    ∙ ap tail (words-drop_spaces cs)

-- A word is no longer than the text.
pub length-word_at-le :
    (run cs : List ℕ) (k : ℕ) → length (word_at (words_from run cs) k) ≤ length cs + length run
length-word_at-le [] [] zero = omega arith
length-word_at-le [] [] (suc k) = omega arith
length-word_at-le (x ∷ run) [] zero = omega arith
length-word_at-le (x ∷ run) [] (suc k) = omega arith
length-word_at-le [] (c ∷ cs) k =
    ground (arith, length-word_at-le [] cs k, length-word_at-le (c ∷ []) cs k)
length-word_at-le (x ∷ run) (c ∷ cs) k = ground (
  arith,
  word_at-cons (x ∷ run) (words_from [] cs) k,
  length-word_at-le [] cs (k - 1),
  length-word_at-le (x ∷ run ++ c ∷ []) cs k,
  length-append {0} (x ∷ run) (c ∷ []),
)

length-drop_spaces-le : (cs : List ℕ) → length (drop_spaces cs) ≤ length cs
length-drop_spaces-le [] = omega arith
length-drop_spaces-le (c ∷ cs) = ground (arith, length-drop_spaces-le cs)

length-drop_word-le : (cs : List ℕ) → length (drop_word cs) ≤ length cs
length-drop_word-le [] = omega arith
length-drop_word-le (c ∷ cs) = ground (arith, length-drop_word-le cs)

pub length-after_first-le : (cs : List ℕ) → length (after_first cs) ≤ length cs
length-after_first-le cs = omega (
  arith,
  length-drop_spaces-le (drop_word (drop_spaces cs)),
  length-drop_word-le (drop_spaces cs),
  length-drop_spaces-le cs,
)

run_counts : (x : ℕ) (run cs : List ℕ) → 0 < length (words_from (x ∷ run) cs)
run_counts x run [] = omega arith
run_counts x run (c ∷ cs) = ground (arith, run_counts x (run ++ c ∷ []) cs)

drop_spaces-empty : (cs : List ℕ) → length (words cs) ≡ 0 → drop_spaces cs ≡ []
drop_spaces-empty [] e = refl
drop_spaces-empty (c ∷ cs) e = ground (arith, drop_spaces-empty cs, run_counts c [] cs)

length-tail : (ws : List (List ℕ)) → length ws ≤ 1 → length (tail ws) ≡ 0
length-tail [] le = refl
length-tail (w ∷ []) le = refl
length-tail (w ∷ v ∷ ws) le = absurd (omega arith)

-- Behind the only word nothing is left.
pub after_first-empty : (cs : List ℕ) → length (words cs) ≤ 1 → after_first cs ≡ []
after_first-empty cs le = drop_spaces-empty (drop_word (drop_spaces cs)) (
    ap (length {0}) (sym (words-drop_spaces (drop_word (drop_spaces cs))))
    ∙ ap (length {0}) (words-after_first cs)
    ∙ length-tail (words cs) le)
