-- ===== src/CharUtil/Copy.antt =====
-- What `copy_string`, `copy_buf` and `substring` leave in memory.
use ece391_mp.Prelude.{ℕ, suc, ◌+◌, ◌-◌, ◌≤◌, ◌<◌, ◌≡◌, ◌≢◌, ◌⊎◌, refl, arith}
use ece391_mp.Prelude.Words.{minus_one}
use ece391_mp.Prelude.Memory.{Memory, IsString, Disjoint, store}
use ece391_mp.CharUtil.{max_count, copy_string, copy_buf, substring, copy_loop, substring_loop}
use ece391_mp.CharUtil.Loops.{
  Outside, copy_loop_frame, copy_loop_copies, substring_loop_frame, substring_loop_copies,
}
use ece391_mp.CharUtil.Length.{string_length_lem, string_length_unterminated}

-- The destination holds the string, which is copied with its NUL, and nothing else changed.
pub record IsCopied (m m' : Memory) (source dest n : ℕ) : Type 0 where
  pub string : IsString m' dest n
  pub same : (i : ℕ) → i ≤ n → m' (dest + i) ≡ m (source + i)
  pub frame : (a : ℕ) → Outside a dest (suc n) → m' a ≡ m a

module _ (m : Memory) (source dest n : ℕ) (s≢ : source ≢ 0) (d≢ : dest ≢ 0) where
  module _ (str : IsString m source n) (fits : n ≤ max_count) (room : dest + n < 4294967296) where
    copied : Memory
    copied = store (copy_loop n 0 m source dest) (dest + n) 0

    copy_string-eq : copy_string m source dest ≡ (copied, 0)
    unfolding copy_string copied
    copy_string-eq = ground (arith, string_length_lem m source n s≢ str)

    module _ (apart : Disjoint source (suc n) dest (suc n)) where
      copied-same : (i : ℕ) → i ≤ n → copied (dest + i) ≡ m (source + i)
      unfolding copied
      copied-same i le = ground (arith, copy_loop_copies n 0 i m source dest, str.eos)

      copied-frame : (a : ℕ) → Outside a dest (suc n) → copied a ≡ m a
      unfolding copied
      copied-frame a out = ground (arith, copy_loop_frame n 0 m source dest a)

      copied-IsCopied : IsCopied m copied source dest n
      copied-IsCopied = record {
        string = record {
          body = λ i p. ground (arith, copied-same i, str.body i);
          eos = ground (arith, copied-same n, str.eos);
        };
        same = copied-same;
        frame = copied-frame;
      }

      -- A string of at most a million bytes is copied with its NUL to a place that does not meet it,
      -- the result is 0, and no other byte changes.
      pub copy_string_copies :
          ((copy_string m source dest).1 ≡ 0)
          × IsCopied m (copy_string m source dest).0 source dest n
      copy_string_copies = rw copy_string-eq (refl, copied-IsCopied)

  -- A source that shows no NUL in its first 1,000,001 bytes is not copied: the byte before the destination is
  -- set to 0, no other byte changes, and the result is the 0 of success.
  pub copy_string_unterminated :
      ((i : ℕ) → i ≤ max_count → m (source + i) ≢ 0)
      → dest < 4294967296
      → copy_string m source dest ≡ (store m (dest - 1) 0, 0)
  unfolding copy_string copy_loop
  copy_string_unterminated full room = ground (arith, string_length_unterminated m source s≢ full)

  -- `copy_buf` copies `n` bytes, NULs and all, to a place that does not meet them, and changes no
  -- other byte.
  pub copy_buf_copies :
      Disjoint source n dest n
      → ((copy_buf m source dest n).1 ≡ 0)
        × ((i : ℕ) → i < n → (copy_buf m source dest n).0 (dest + i) ≡ m (source + i))
        × ((a : ℕ) → Outside a dest n → (copy_buf m source dest n).0 a ≡ m a)
  unfolding copy_buf
  copy_buf_copies apart = (
    ground arith,
    λ i p. ground (arith, copy_loop_copies n 0 i m source dest),
    λ a out. ground (arith, copy_loop_frame n 0 m source dest a),
  )

-- A good substring call writes the bytes from `start` up to `end` and a NUL, and nothing else.
pub record IsSubstring (m m' : Memory) (s buf start end : ℕ) : Type 0 where
  pub same : (i : ℕ) → i < end - start → m' (buf + i) ≡ m (s + (start + i))
  pub eos : m' (buf + (end - start)) ≡ 0
  pub frame : (a : ℕ) → Outside a buf (suc (end - start)) → m' a ≡ m a

module _ (m : Memory) (s buf start end n : ℕ) (s≢ : s ≢ 0) (b≢ : buf ≢ 0) (str : IsString m s n)
    (fits : n ≤ max_count) where
  module _ (le : start ≤ end) (hi : end ≤ n) where
    cut : Memory
    cut = store (substring_loop (end - start) start start m s buf) (buf + (end - start)) 0

    substring-eq : substring m s buf start end ≡ (cut, 0)
    unfolding substring cut
    substring-eq = ground (arith, string_length_lem m s n s≢ str)

    cut-same :
        Disjoint s (suc n) buf (suc (end - start))
        → (i : ℕ) → i < end - start
        → cut (buf + i) ≡ m (s + (start + i))
    unfolding cut
    cut-same apart i p =
        ground (arith, substring_loop_copies (end - start) start start (start + i) m s buf)

    cut-frame : (a : ℕ) → Outside a buf (suc (end - start)) → cut a ≡ m a
    unfolding cut
    cut-frame a out = ground (arith, substring_loop_frame (end - start) start start m s buf a)

    cut-eos : cut (buf + (end - start)) ≡ 0
    unfolding cut
    cut-eos = ground arith

  -- Inside the string `substring` returns 0 and writes exactly the bytes asked for and a NUL.
  pub substring_inside :
      start ≤ end
      → end ≤ n
      → Disjoint s (suc n) buf (suc (end - start))
      → ((substring m s buf start end).1 ≡ 0)
        × IsSubstring m (substring m s buf start end).0 s buf start end
  substring_inside le hi apart =
      rw (substring-eq le hi)
        (refl, record { same = cut-same le hi apart; eos = cut-eos le hi; frame = cut-frame le hi })

  -- Outside it refuses with -1 and writes nothing.
  pub substring_outside : (end < start) ⊎ (n < end) → substring m s buf start end ≡ (m, minus_one)
  unfolding substring
  substring_outside out = ground (arith, string_length_lem m s n s≢ str)
