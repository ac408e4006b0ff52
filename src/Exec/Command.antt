-- ===== src/Exec/Command.antt =====
-- The command of execute of student-distrib/syscalls.c: the copy of it and its first word.
use ece391_mp.Prelude.{
  ℕ, suc, ◌+◌, ◌≤◌, ◌<◌, ◌≡◌, ◌≢◌, ap, ◌∙◌, arith, List, [], length, get_or, ltb, if◌then◌else◌,
}
use ece391_mp.Prelude.Words.{minus_one}
use ece391_mp.Prelude.Memory.{Memory, IsString, bytes, bytes-eq, length-bytes, store, Disjoint}
use ece391_mp.CharUtil.{copy_string}
use ece391_mp.CharUtil.Copy.{IsCopied, copy_string_copies}
use ece391_mp.CharUtil.Loops.{Outside}
use ece391_mp.ArgUtil.{get_argument_length, get_argument}
use ece391_mp.ArgUtil.Words.{words, word_at, length-word_at-le}
use ece391_mp.ArgUtil.Count.{get_argument_length_lem}
use ece391_mp.ArgUtil.Argument.{Fetched, get_argument_fetches}
use ece391_mp.Exec.Execute.{Locals, arg_buffer_at}

-- The arrays on the kernel's stack, by their sizes, a command of `n` bytes at `source` and the literal
-- do not meet, and the arrays do not meet the argument buffers.
pub record Laid (l : Locals) (m : Memory) (source n : ℕ) : Type 0 where
  pub source_ne : source ≢ 0
  pub command : IsString m source n
  pub short : n < 128
  pub copy_ne : l.all_arguments_copy ≢ 0
  pub copy_room : l.all_arguments_copy + 128 < 4294967296
  pub source_copy : Disjoint source (suc n) l.all_arguments_copy 128
  pub name_ne : l.executable ≢ 0
  pub copy_name : Disjoint l.all_arguments_copy 128 l.executable 128
  pub copy_bytes : Disjoint l.all_arguments_copy 128 l.first_bytes 5
  pub copy_magic : Disjoint l.all_arguments_copy 128 l.magic 4
  pub copy_buffer : (pid : ℕ) → pid < 6 → Disjoint l.all_arguments_copy 128 (arg_buffer_at pid) 128
  pub elf : m (l.elf + 3) ≡ 0
  pub elf_copy : Outside (l.elf + 3) l.all_arguments_copy 128
  pub elf_name : Outside (l.elf + 3) l.executable 128
  pub elf_bytes : Outside (l.elf + 3) l.first_bytes 5
  pub elf_magic : Outside (l.elf + 3) l.magic 4

-- The memory `m'` has the command in the local copy, and nothing but the two first arrays has changed.
pub record Copied (l : Locals) (m m' : Memory) (source n : ℕ) : Type 0 where
  pub command : IsString m' l.all_arguments_copy n
  pub text : bytes m' l.all_arguments_copy n ≡ bytes m source n
  pub frame : (a : ℕ) → Outside a l.all_arguments_copy 128 → Outside a l.executable 128 → m' a ≡ m a

-- The word `w` and a NUL at an address.
pub record Holds (m : Memory) (at : ℕ) (w : List ℕ) : Type 0 where
  pub word : (i : ℕ) → i < length w → m (at + i) ≡ get_or w i 0
  pub eos : m (at + length w) ≡ 0

pub IsString-frame :
    (m m' : Memory) (s n : ℕ)
    → ((i : ℕ) → i ≤ n → m' (s + i) ≡ m (s + i))
    → IsString m s n
    → IsString m' s n
IsString-frame m m' s n same str = record {
  body = λ i lt. ground (arith, same i, str.body i);
  eos = ground (arith, same n, str.eos);
}

-- A change outside the local copy keeps the command.
pub Copied-frame :
    (l : Locals) (m m1 m2 : Memory) (source n : ℕ)
    → n < 128
    → ((i : ℕ) → i < 128 → m2 (l.all_arguments_copy + i) ≡ m1 (l.all_arguments_copy + i))
    → Copied l m m1 source n
    → IsString m2 l.all_arguments_copy n × (bytes m2 l.all_arguments_copy n ≡ bytes m source n)
Copied-frame l m m1 m2 source n lt same c = (
  IsString-frame m1 m2 l.all_arguments_copy n (λ i le. same i (omega arith)) c.command,
  bytes-eq m2 m1 l.all_arguments_copy l.all_arguments_copy n (λ i p. same i (omega arith)) ∙ c.text,
)

module _ (l : Locals) (m : Memory) (source n : ℕ) (laid : Laid l m source n) where
  abbrev pub text : List ℕ
  text = bytes m source n

  abbrev pub name : List ℕ
  name = word_at (words text) 0

  abbrev pub copy : Memory
  copy = (copy_string m source l.all_arguments_copy).0

  pub copy-Copied : Copied l m copy source n
  copy-Copied =
      let c : IsCopied m copy source l.all_arguments_copy n =
        (copy_string_copies m source l.all_arguments_copy n laid.source_ne laid.copy_ne laid.command
          (omega (arith, laid.short)) (omega (arith, laid.short, laid.copy_room))
          (ground (arith, laid.short, laid.source_copy))).1 in
      record {
        command = c.string;
        text = bytes-eq copy m l.all_arguments_copy source n (λ i p. c.same i (omega arith));
        frame = λ a o1 o2. ground (arith, c.frame a, laid.short);
      }

  -- The length of the first word, or -1 when there is none.
  pub command_length-eq :
      get_argument_length copy l.all_arguments_copy 0
      ≡ (if ltb 0 (length (words text)) then length name else minus_one)
  command_length-eq =
      get_argument_length_lem copy l.all_arguments_copy n laid.copy_ne copy-Copied.command
        (omega (arith, laid.short)) 0
      ∙ ap (λ t. if ltb 0 (length (words t)) then length (word_at (words t) 0) else minus_one)
          copy-Copied.text

  pub name_short : length name < 128
  name_short = omega (arith, laid.short, length-word_at-le [] text 0, length-bytes m source n)

  -- The memory in which the name is fetched.
  abbrev pub sized : Memory
  sized = store copy (l.executable + length name) 0

  sized-Copied : Copied l m sized source n
  sized-Copied =
      let (str, t) =
        Copied-frame l m copy sized source n laid.short
          (λ i lt. ground (arith, laid.copy_name, name_short)) copy-Copied in
      record {
        command = str;
        text = t;
        frame = λ a o1 o2. ground (arith, copy-Copied.frame a, name_short);
      }

  module _ (some_word : 0 < length (words text)) where
    abbrev pub named : Memory
    named = (get_argument sized l.all_arguments_copy 0 l.executable).0

    fetched :
        Fetched sized l.executable name (get_argument sized l.all_arguments_copy 0 l.executable)
    fetched =
        (rw sized-Copied.text at (
            get_argument_fetches sized l.all_arguments_copy n 0 l.executable laid.copy_ne
              sized-Copied.command (omega (arith, laid.short))))
          some_word (ground (arith, laid.copy_name, laid.short, name_short))

    -- The first word is fetched into the array of the name, and its length is the result.
    pub get_argument-name :
        get_argument sized l.all_arguments_copy 0 l.executable ≡ (named, length name)
    get_argument-name = ap (λ j. (named, j)) fetched.1

    pub named-Copied : Copied l m named source n
    named-Copied =
        let (str, t) =
          Copied-frame l m sized named source n laid.short
            (λ i lt.
              fetched.0.frame (l.all_arguments_copy + i)
                (ground (arith, laid.copy_name, name_short)))
            sized-Copied in
        record {
          command = str;
          text = t;
          frame = λ a o1 o2.
              fetched.0.frame a (ground (arith, name_short)) ∙ sized-Copied.frame a o1 o2;
        }

    pub named-Holds : Holds named l.executable name
    named-Holds = record {
      word = fetched.0.written;
      eos = ground (arith, fetched.0.frame (l.executable + length name));
    }
