-- ===== src/FileSys/Data.antt =====
-- `read_data` copies a part of a file.
use ece391_mp.Prelude.{
  ℕ, zero, suc, ◌+◌, ◌-◌, ◌≤◌, ◌<◌, ◌≡◌, ◌≢◌, ◌⊎◌, inl, inr, refl, arith, min, eq_cases, lt_cases,
}
use ece391_mp.Prelude.Words.{minus_one, u32}
use ece391_mp.Prelude.Memory.{Memory, store}
use ece391_mp.CharUtil.Loops.{Outside}
use ece391_mp.FileSys.{FileSys, inode_count, inode_length, data_addr, read_loop, read_data}

-- The byte of a file at a position.
abbrev pub content : FileSys → Memory → ℕ → ℕ → ℕ
content fs m inode_i pos = m (data_addr fs m inode_i pos)

-- How many bytes a read of `length` bytes at `offset` gives.
abbrev pub available : FileSys → Memory → ℕ → ℕ → ℕ → ℕ
available fs m inode_i offset length = min length (inode_length fs m inode_i - offset)

-- `m'` is `m` with the `n` bytes of the file from `offset` on at `buffer`.
pub record HasRead (fs : FileSys) (m m' : Memory) (inode_i offset buffer n : ℕ) : Type 0 where
  pub written : (i : ℕ) → i < n → m' (buffer + i) ≡ content fs m inode_i (offset + i)
  pub frame : (a : ℕ) → Outside a buffer n → m' a ≡ m a

module _ (fs : FileSys) (m : Memory) (inode_i offset buffer length : ℕ)
    (start32 : offset < 4294967296) (small : inode_length fs m inode_i < 4294967296)
    (apart : (pos : ℕ)
      → pos < inode_length fs m inode_i
      → Outside (data_addr fs m inode_i pos) buffer length) where
  HasRead-snoc :
      (m' : Memory) (n : ℕ)
      → n < length
      → n + offset < inode_length fs m inode_i
      → HasRead fs m m' inode_i offset buffer n
      → HasRead fs m
          (store m' (buffer + n) (m' (data_addr fs m inode_i (n + offset))))
          inode_i
          offset
          buffer
          (n + 1)
  HasRead-snoc m' n lt inside h = record {
    written =
        λ i p. elim (eq_cases i n) [ inl e ↦ last i e | inr ne ↦ ground (arith, h.written i) ];
    frame = λ a out. ground (arith, h.frame a);
  }
    where
      same : m' (data_addr fs m inode_i (n + offset)) ≡ content fs m inode_i (n + offset)
      same = h.frame _ (ground (arith, apart (n + offset)))

      swap : n + offset ≡ offset + n
      swap = omega arith

      last :
          (i : ℕ)
          → i ≡ n
          → store m' (buffer + n) (m' (data_addr fs m inode_i (n + offset))) (buffer + i)
            ≡ content fs m inode_i (offset + i)
      last i e = rw (e, ← swap) (rw same (ground arith))

  read_inside :
      (r n : ℕ) (m' : Memory)
      → n + offset < inode_length fs m inode_i
      → read_loop (suc r) n fs m m' inode_i offset buffer
        ≡ read_loop r
            (n + 1)
            fs
            m
            (store m' (buffer + n) (m' (data_addr fs m inode_i (n + offset))))
            inode_i
            offset
            buffer
  unfolding read_loop
  read_inside r n m' inside =
      let e : u32 (n + offset) ≡ n + offset = omega arith in rw e (ground arith)

  read_past :
      (r n : ℕ) (m' : Memory)
      → n ≤ available fs m inode_i offset length
      → inode_length fs m inode_i ≤ n + offset
      → read_loop (suc r) n fs m m' inode_i offset buffer ≡ (m', n)
  unfolding read_loop
  read_past r n m' le past =
      let e : u32 (n + offset) ≡ n + offset = omega arith in rw e (ground arith)

  guards :
      inode_i < inode_count fs
      → buffer ≢ 0
      → read_data fs m inode_i offset buffer length
        ≡ read_loop length 0 fs m m inode_i offset buffer
  unfolding read_data
  guards lt b≢ = ground arith

  read_loop_lem :
      (r n : ℕ) (m' : Memory)
      → n + r ≡ length
      → n ≤ available fs m inode_i offset length
      → HasRead fs m m' inode_i offset buffer n
      → HasRead fs m
          (read_loop r n fs m m' inode_i offset buffer).0
          inode_i
          offset
          buffer
          (available fs m inode_i offset length)
        × ((read_loop r n fs m m' inode_i offset buffer).1 ≡ available fs m inode_i offset length)
  unfolding read_loop
  read_loop_lem zero n m' e le h =
      let all : n ≡ available fs m inode_i offset length = omega arith in (rw (← all) h, all)
  read_loop_lem (suc r) n m' e le h = elim (lt_cases (n + offset) (inode_length fs m inode_i)) [
    | inl inside ↦ rw (read_inside r n m' inside) (
        read_loop_lem r (n + 1) _ (omega arith) (omega arith)
          (HasRead-snoc m' n (omega arith) inside h))
    | inr past ↦
        let all : n ≡ available fs m inode_i offset length = omega arith in
        rw (read_past r n m' (omega arith) past) (rw (← all) h, all)
  ]

  -- A read of an inode that exists copies as many bytes as the file has behind the offset, at most
  -- `length`, returns their number and changes no other byte; the buffer must not meet the file.
  pub read_data_reads :
      inode_i < inode_count fs
      → buffer ≢ 0
      → HasRead fs m
          (read_data fs m inode_i offset buffer length).0
          inode_i
          offset
          buffer
          (available fs m inode_i offset length)
        × ((read_data fs m inode_i offset buffer length).1 ≡ available fs m inode_i offset length)
  unfolding read_data
  read_data_reads lt b≢ = rw (guards lt b≢) (
      read_loop_lem length 0 m (omega arith) (omega arith)
        (record { written = λ i p. absurd (omega arith); frame = λ a out. refl }))

-- A read of an inode that does not exist, and a read into NULL, return -1 and write nothing.
pub read_data_refuses :
    (fs : FileSys) (m : Memory) (inode_i offset buffer length : ℕ)
    → (inode_count fs ≤ inode_i) ⊎ (buffer ≡ 0)
    → read_data fs m inode_i offset buffer length ≡ (m, minus_one)
unfolding read_data
read_data_refuses fs m inode_i offset buffer length bad = ground arith
