-- ===== src/FileSys/Dir.antt =====
-- `dir_read` lists the directory, an entry for each call, and `put_next_dir_name` its names as strings.
use ece391_mp.Prelude.{
  ℕ, zero, suc, ◌+◌, ◌≤◌, ◌<◌, ◌≡◌, ◌≢◌, ◌⊎◌, inl, inr, refl, arith, eq_cases, Option, none, some,
  ==_ne, List, [], ◌∷◌, ◌==◌, if◌then◌else◌,
}
use ece391_mp.Prelude.Memory.{Memory, store, bytes, bytes-eq, Disjoint, IsString}
use ece391_mp.CharUtil.{copy_buf, copy_loop}
use ece391_mp.CharUtil.Loops.{Outside, copy_loop_copies, copy_loop_frame}
use ece391_mp.FileSys.{
  FileSys, Dentry, dentry_count, dentry_at, read_dentry_by_index, first_index, next_index,
  with_dentry, dir_read, put_next_dir_name, put_loop, fname_max_len,
}

module _ (m : Memory) (dentry buf nbytes : ℕ) (d≢ : dentry ≢ 0) (b≢ : buf ≢ 0) (fits : nbytes ≤ 64)
    (apart : Disjoint dentry 64 buf 64) where
  filled : Dentry → Memory
  filled d = copy_loop nbytes 0 (with_dentry m dentry d) dentry buf

  dir_read-more :
      (fs : FileSys)
      → fs.dr_index < dentry_count fs
      → dir_read fs m dentry buf nbytes ≡ (next_index fs, filled (dentry_at fs fs.dr_index), nbytes)
  unfolding dir_read read_dentry_by_index filled copy_buf
  dir_read-more fs lt = ground arith

  dir_read-end :
      (fs : FileSys)
      → dentry_count fs ≤ fs.dr_index
      → dir_read fs m dentry buf nbytes ≡ (first_index fs, m, 0)
  unfolding dir_read read_dentry_by_index
  dir_read-end fs le = ground arith

  filled-bytes : (d : Dentry) → bytes (filled d) buf nbytes ≡ bytes d 0 nbytes
  unfolding filled
  filled-bytes d =
      bytes-eq (filled d) d buf 0 nbytes
        (λ i p. ground (arith, copy_loop_copies nbytes 0 i (with_dentry m dentry d) dentry buf))

  filled-frame :
      (d : Dentry) (a : ℕ) → Outside a buf nbytes → Outside a dentry 64 → filled d a ≡ m a
  unfolding filled
  filled-frame d a out1 out2 =
      ground (arith, copy_loop_frame nbytes 0 (with_dentry m dentry d) dentry buf a)

-- The reads of a program that lists the directory: it calls `dir_read` until the result is 0, and
-- keeps what each call left in the buffer; the state of the file system at the end is returned too.
pub listing : ℕ → FileSys → Memory → ℕ → ℕ → ℕ → Option (List (List ℕ) × FileSys)
listing zero fs m dentry buf nbytes = none
listing (suc fuel) fs m dentry buf nbytes =
    let (fs', m', n) = dir_read fs m dentry buf nbytes in
    let rest = listing fuel fs' m' dentry buf nbytes in
    if n == 0
    then some ([], fs')
    else elim rest [ none ↦ none | some (names, fs'') ↦ some (bytes m' buf n ∷ names, fs'') ]

-- The first `nbytes` bytes of `r` entries from the one with the number `i` on.
abbrev pub entries : FileSys → ℕ → ℕ → ℕ → List (List ℕ)
entries fs nbytes i zero = []
entries fs nbytes i (suc r) = bytes (dentry_at fs i) 0 nbytes ∷ entries fs nbytes (i + 1) r

module _ (dentry buf nbytes : ℕ) (d≢ : dentry ≢ 0) (b≢ : buf ≢ 0) (some_bytes : 0 < nbytes)
    (fits : nbytes ≤ 64) (apart : Disjoint dentry 64 buf 64) where
  listing_lem :
      (fuel r i : ℕ) (fs : FileSys) (m : Memory)
      → fs.dr_index ≡ i
      → i + r ≡ dentry_count fs
      → r < fuel
      → dentry_count fs < 4294967296
      → listing fuel fs m dentry buf nbytes ≡ some (entries fs nbytes i r, first_index fs)
  unfolding listing
  listing_lem zero r i fs m at e f small = absurd (omega arith)
  listing_lem (suc fuel) zero i fs m at e f small =
      rw (dir_read-end m dentry buf nbytes d≢ b≢ fits apart fs (omega arith)) (ground arith)
  listing_lem (suc fuel) (suc r) i fs m at e f small =
      let d : Dentry = dentry_at fs i in
      let next : FileSys = next_index fs in
      let m' : Memory = filled m dentry buf nbytes d≢ b≢ fits apart d in
      ground (
        arith,
        dir_read-more m dentry buf nbytes d≢ b≢ fits apart fs,
        listing_lem fuel r (i + 1) next m' (omega arith) (omega arith) (omega arith) small,
        filled-bytes m dentry buf nbytes d≢ b≢ fits apart d,
      )

  -- From the first index on, a program that reads the directory until the result is 0 gets the first
  -- `nbytes` bytes (1 to 64) of all `dentry_count` entries in order, and leaves the index at the first again.
  pub listing-entries :
      (fuel : ℕ) (fs : FileSys) (m : Memory)
      → fs.dr_index ≡ 0
      → dentry_count fs < fuel
      → dentry_count fs < 4294967296
      → listing fuel fs m dentry buf nbytes
        ≡ some (entries fs nbytes 0 (dentry_count fs), first_index fs)
  listing-entries fuel fs m at f small =
      listing_lem fuel (dentry_count fs) 0 fs m at (omega arith) f small

module _ (d : Dentry) (buf : ℕ) where
  -- The bytes of the name up to `n` have been copied, and the others have been left alone.
  record Put (m m' : Memory) (n : ℕ) : Type 0 where
    copied : (i : ℕ) → i < n → m' (buf + i) ≡ d i
    nonzero : (i : ℕ) → i < n → d i ≢ 0
    frame : (a : ℕ) → Outside a buf n → m' a ≡ m a

  Put-snoc :
      (m m' : Memory) (n : ℕ) → d n ≢ 0 → Put m m' n → Put m (store m' (buf + n) (d n)) (n + 1)
  Put-snoc m m' n ne h = record {
    copied =
        λ i p. elim (eq_cases i n) [ inl e ↦ ground arith | inr o ↦ ground (arith, h.copied i) ];
    nonzero = λ i p. elim (eq_cases i n) [ inl e ↦ rw e ne | inr o ↦ h.nonzero i (omega arith) ];
    frame = λ a out. ground (arith, h.frame a);
  }

  abbrev PutDone : Memory → Memory × ℕ → Type 0
  PutDone m (m', n) = Put m m' n × (n ≤ fname_max_len) × ((n ≡ fname_max_len) ⊎ (d n ≡ 0))

  put_loop_lem :
      (r i : ℕ) (m m' : Memory)
      → i + r ≡ fname_max_len
      → Put m m' i
      → PutDone m (put_loop r i d m' buf)
  unfolding put_loop
  put_loop_lem zero i m m' e h = (h, omega arith, inl (omega arith))
  put_loop_lem (suc r) i m m' e h = elim (eq_cases (d i) 0) [
    | inl z ↦ rw z (h, omega arith, inr z)
    | inr ne ↦
        rw (==_ne (d i) 0 ne) (put_loop_lem r (i + 1) m _ (omega arith) (Put-snoc m m' i ne h))
  ]

-- An entry of the directory is put as a string: its name, cut at its NUL, and a NUL behind it. No byte
-- outside the 33 bytes of the buffer changes, the index moves on, and the result is 1.
pub record PutName (d : Dentry) (m m' : Memory) (buf : ℕ) : Type 0 where
  pub size : ℕ
  pub size_le : size ≤ fname_max_len
  pub string : IsString m' buf size
  pub name : (i : ℕ) → i < size → m' (buf + i) ≡ d i
  pub whole : (size ≡ fname_max_len) ⊎ (d size ≡ 0)
  pub frame : (a : ℕ) → Outside a buf 33 → m' a ≡ m a

PutDone-PutName :
    (d : Dentry) (buf : ℕ) (m : Memory) (r : Memory × ℕ)
    → PutDone d buf (store m (buf + 32) 0) r
    → PutName d m (store r.0 (buf + r.1) 0) buf
PutDone-PutName d buf m (m', n) (h, le, ends) = record {
  size = n;
  size_le = le;
  string = record { body = λ i p. ground (arith, h.copied i, h.nonzero i); eos = ground arith };
  name = λ i p. ground (arith, h.copied i);
  whole = ends;
  frame = λ a out. ground (arith, h.frame a);
}

put_start : (d : Dentry) (m : Memory) (buf : ℕ) → PutDone d buf m (put_loop fname_max_len 0 d m buf)
put_start d m buf = put_loop_lem d buf fname_max_len 0 m m refl (record {
  copied = λ i p. absurd (omega arith);
  nonzero = λ i p. absurd (omega arith);
  frame = λ a out. refl;
})

module _ (fs : FileSys) (m : Memory) (buf dentry : ℕ) (d≢ : dentry ≢ 0) where
  abbrev d : Dentry
  d = dentry_at fs fs.dr_index

  abbrev put : Memory × ℕ
  put = put_loop fname_max_len 0 d (store m (buf + fname_max_len) 0) buf

  put_next-eq :
      fs.dr_index < dentry_count fs
      → put_next_dir_name fs m buf dentry ≡ (next_index fs, store put.0 (buf + put.1) 0, 1)
  unfolding put_next_dir_name read_dentry_by_index
  put_next-eq lt = ground arith

  -- While entries are left, the next one's name is put in the buffer as a string, the index moves on
  -- and the result is 1.
  pub put_next_dir_name-PutName :
      fs.dr_index < dentry_count fs
      → ((put_next_dir_name fs m buf dentry).0 ≡ next_index fs)
        × PutName (dentry_at fs fs.dr_index) m (put_next_dir_name fs m buf dentry).1 buf
        × ((put_next_dir_name fs m buf dentry).2 ≡ 1)
  put_next_dir_name-PutName lt =
      rw (put_next-eq lt)
        (refl, PutDone-PutName d buf m _ (put_start d (store m (buf + fname_max_len) 0) buf), refl)

  -- Behind the last entry the index goes back to the first, and the result is 0.
  pub put_next_dir_name-end :
      dentry_count fs ≤ fs.dr_index
      → put_next_dir_name fs m buf dentry ≡ (first_index fs, store m (buf + fname_max_len) 0, 0)
  unfolding put_next_dir_name read_dentry_by_index
  put_next_dir_name-end le = ground arith
