-- ===== src/Programs/Copying.antt =====
-- The user programs ece391cat.c and ece391ls.c print what the kernel gives them.
use ece391_mp.Prelude.{
  ℕ, zero, suc, ◌+◌, ◌≤◌, ◌<◌, ◌≡◌, ◌≢◌, refl, sym, ap, ◌∙◌, arith, List, [], ◌∷◌, ◌++◌, append-nil,
  append_assoc, length, Option, some,
}
use ece391_mp.Prelude.Words.{minus_one}
use ece391_mp.Prelude.Memory.{Memory, store, bytes, length-bytes, bytes_snoc, bytes-eq}
use ece391_mp.Programs.{Syscalls, cat_loop, cat, ls_loop, ls}

-- What `read` promises of an open file, and `write` of the screen: `Reads m s left shown` says that the file has
-- the pieces `left` before its end, and that the pieces `shown` have been written. A read gives the next piece, of
-- 1 to `nbytes` bytes, and 0 only behind the last one; every write of 1 to `nbytes` + 1 bytes succeeds.
pub record Stream (sys : Syscalls) (fd buf nbytes : ℕ) : Type 1 where
  pub Reads : Memory → sys.State → List (List ℕ) → List (List ℕ) → Type 0
  pub at_end :
      (m : Memory) (s : sys.State) (shown : List (List ℕ))
      → Reads m s [] shown
      → let (m', s', n) = sys.read fd buf nbytes m s in (n ≡ 0) × Reads m' s' [] shown
  pub piece :
      (m : Memory) (s : sys.State) (w : List ℕ) (left shown : List (List ℕ))
      → Reads m s (w ∷ left) shown
      → let (m', s', n) = sys.read fd buf nbytes m s in
        (n ≡ length w) × (0 < n) × (n ≤ nbytes) × (bytes m' buf n ≡ w) × Reads m' s' left shown
  pub write :
      (m : Memory) (s : sys.State) (w : List ℕ) (left shown : List (List ℕ))
      → 0 < length w
      → length w ≤ nbytes + 1
      → Reads m s left shown
      → let (s', r) = sys.write 1 w s in (r ≢ minus_one) × Reads m s' left (shown ++ w ∷ [])

-- The pieces as lines.
abbrev pub lines : List (List ℕ) → List (List ℕ)
lines [] = []
lines (w ∷ ws) = (w ++ b'\n' ∷ []) ∷ lines ws

bytes-line : (m : Memory) (a n c : ℕ) → bytes (store m (a + n) c) a (n + 1) ≡ bytes m a n ++ c ∷ []
bytes-line m a n c =
    let e : n + 1 ≡ suc n = omega arith in
    ap (bytes (store m (a + n) c) a) e
    ∙ bytes_snoc (store m (a + n) c) a n
    ∙ ap (λ v. v ++ store m (a + n) c (a + n) ∷ [])
        (bytes-eq (store m (a + n) c) m a a n (λ i lt. ground arith))
    ∙ ap (λ x. bytes m a n ++ x ∷ []) (ground arith)

-- The program has ended with status 0, has written the pieces of `text`, and has read all.
abbrev pub Done :
    (sys : Syscalls) (fd buf nbytes : ℕ)
    → Stream sys fd buf nbytes
    → List (List ℕ)
    → Option (Memory × sys.State × ℕ)
    → Type 0
Done sys fd buf nbytes stream text o =
    (m : Memory) × (s : sys.State) × (o ≡ some (m, s, 0)) × stream.Reads m s [] text

Done-eq :
    (sys : Syscalls) (fd buf nbytes : ℕ) (stream : Stream sys fd buf nbytes)
    (text text' : List (List ℕ)) (o o' : Option (Memory × sys.State × ℕ))
    → text' ≡ text
    → o' ≡ o
    → Done sys fd buf nbytes stream text o
    → Done sys fd buf nbytes stream text' o'
Done-eq sys fd buf nbytes stream text text' o o' e d h = rw (e, d) h

module _ (sys : Syscalls) (fd buf : ℕ) where
  module _ (stream : Stream sys fd buf 1024) where
    cat_loop-Done :
        (fuel : ℕ) (m : Memory) (s : sys.State) (left shown : List (List ℕ))
        → length left < fuel
        → stream.Reads m s left shown
        → Done sys fd buf 1024 stream (shown ++ left) (cat_loop sys fuel fd buf m s)
    unfolding cat_loop
    cat_loop-Done zero m s left shown lt h = absurd (omega arith)
    cat_loop-Done (suc fuel) m s [] shown lt h =
        let (m1, s1, n) = sys.read fd buf 1024 m s in
        let (none_left, g) = stream.at_end m s shown h in
        (m1, s1, ground (arith, none_left), rw append-nil g)
    cat_loop-Done (suc fuel) m s (w ∷ left) shown lt h =
        let (m1, s1, n) = sys.read fd buf 1024 m s in
        let (len, pos, le, eq, g) = stream.piece m s w left shown h in
        let (s2, r) = sys.write 1 (bytes m1 buf n) s1 in
        let (good, g') =
          stream.write m1 s1 (bytes m1 buf n) left shown (omega (arith, length-bytes m1 buf n, pos))
            (omega (arith, length-bytes m1 buf n)) g in
        Done-eq sys fd buf 1024 stream ((shown ++ bytes m1 buf n ∷ []) ++ left) _
          (cat_loop sys fuel fd buf m1 s2) _
          (ap (λ v. shown ++ (v ∷ left)) (sym eq)
            ∙ sym (append_assoc shown (bytes m1 buf n ∷ []) left))
          (ground (arith, pos, le, good))
          (cat_loop-Done fuel m1 s2 left (shown ++ bytes m1 buf n ∷ []) (omega arith) g')

    -- With its argument read and its file open, cat ends with status 0 and has written the whole file, piece by
    -- piece; the fuel is for one round more than the file has pieces.
    pub cat-Done :
        (fuel : ℕ) (m : Memory) (s : sys.State) (left shown : List (List ℕ))
        → let (m1, s1, r) = sys.getargs buf 1024 m s in
          let (s2, f) = sys.open_file buf m1 s1 in
          r ≡ 0
          → f ≡ fd
          → fd ≢ minus_one
          → stream.Reads m1 s2 left shown
          → length left < fuel
          → Done sys fd buf 1024 stream (shown ++ left) (cat sys fuel buf m s)
    unfolding cat
    cat-Done fuel m s left shown got opened ne h enough =
        let (m1, s1, r) = sys.getargs buf 1024 m s in
        let (s2, f) = sys.open_file buf m1 s1 in
        Done-eq sys fd buf 1024 stream (shown ++ left) _ (cat_loop sys fuel fd buf m1 s2) _ refl
          (ground (arith, got, opened, ne)) (cat_loop-Done fuel m1 s2 left shown enough h)

  -- The program may write behind a piece in its buffer.
  module _ (stream : Stream sys fd buf 32)
      (own : (m : Memory) (s : sys.State) (left shown : List (List ℕ)) (i c : ℕ)
        → i ≤ 32
        → stream.Reads m s left shown
        → stream.Reads (store m (buf + i) c) s left shown) where
    ls_loop-Done :
        (fuel : ℕ) (m : Memory) (s : sys.State) (left shown : List (List ℕ))
        → length left < fuel
        → stream.Reads m s left shown
        → Done sys fd buf 32 stream (shown ++ lines left) (ls_loop sys fuel fd buf m s)
    unfolding ls_loop
    ls_loop-Done zero m s left shown lt h = absurd (omega arith)
    ls_loop-Done (suc fuel) m s [] shown lt h =
        let (m1, s1, n) = sys.read fd buf 32 m s in
        let (none_left, g) = stream.at_end m s shown h in
        (m1, s1, ground (arith, none_left), rw append-nil g)
    ls_loop-Done (suc fuel) m s (w ∷ left) shown lt h =
        let (m1, s1, n) = sys.read fd buf 32 m s in
        let (len, pos, le, eq, g) = stream.piece m s w left shown h in
        let m2 : Memory = store m1 (buf + n) b'\n' in
        let line : List ℕ = bytes m2 buf (n + 1) in
        let (s2, r) = sys.write 1 line s1 in
        let (good, g') =
          stream.write m2 s1 line left shown (omega (arith, length-bytes m2 buf (n + 1)))
            (omega (arith, length-bytes m2 buf (n + 1))) (own m1 s1 left shown n b'\n' le g) in
        let is_line : w ++ b'\n' ∷ [] ≡ line =
          ap (λ v. v ++ b'\n' ∷ []) (sym eq) ∙ sym (bytes-line m1 buf n b'\n') in
        Done-eq sys fd buf 32 stream ((shown ++ line ∷ []) ++ lines left) _
          (ls_loop sys fuel fd buf m2 s2) _
          (ap (λ v. shown ++ (v ∷ lines left)) is_line
            ∙ sym (append_assoc shown (line ∷ []) (lines left)))
          (ground (arith, pos, le, good))
          (ls_loop-Done fuel m2 s2 left (shown ++ line ∷ []) (omega arith) g')

    -- With the directory open, ls ends with status 0 and has written each piece that a read gave as a line.
    pub ls-Done :
        (fuel dot : ℕ) (m : Memory) (s : sys.State) (left shown : List (List ℕ))
        → let (s1, f) = sys.open_file dot m s in
          f ≡ fd
          → fd ≢ minus_one
          → stream.Reads m s1 left shown
          → length left < fuel
          → Done sys fd buf 32 stream (shown ++ lines left) (ls sys fuel dot buf m s)
    unfolding ls
    ls-Done fuel dot m s left shown opened ne h enough =
        let (s1, f) = sys.open_file dot m s in
        Done-eq sys fd buf 32 stream (shown ++ lines left) _ (ls_loop sys fuel fd buf m s1) _ refl
          (ground (arith, opened, ne)) (ls_loop-Done fuel m s1 left shown enough h)
