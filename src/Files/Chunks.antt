-- ===== src/Files/Chunks.antt =====
-- A program that reads a file piece by piece gets the whole file.
use ece391_mp.Prelude.{
  ℕ, zero, suc, ◌+◌, ◌-◌, ◌*◌, ◌/◌, ◌≤◌, ◌<◌, ◌≡◌, ◌≢◌, ◌⊎◌, refl, sym, ap, ◌∙◌, arith, min, List,
  ◌∷◌, ◌++◌,
}
use ece391_mp.Prelude.Words.{u32}
use ece391_mp.Prelude.Memory.{Memory, store, load32, bytes, bytes-eq}
use ece391_mp.FileSys.{FileSys, inode_count, inode_addr, inode_length, data_addr, read_data}
use ece391_mp.FileSys.Data.{content, available, HasRead, read_data_reads}
use ece391_mp.Files.{Pcb, file_read}

bytes-plus : (m : Memory) (a n k : ℕ) → bytes m a (n + k) ≡ bytes m a n ++ bytes m (a + n) k
bytes-plus m a zero k = ground arith
bytes-plus m a (suc n) k =
    let step : a + suc n ≡ suc a + n = omega arith in
    let front : suc n + k ≡ suc (n + k) = omega arith in
    rw (step, front) (ap (λ l. m a ∷ l) (bytes-plus m (suc a) n k))

-- The image of the file system takes `size` bytes, the inode and the bytes of its file are in there, and
-- the buffer is not.
pub record Inside (fs : FileSys) (m : Memory) (inode_i size buf nbytes : ℕ) : Type 0 where
  pub inode : inode_addr fs inode_i + 4096 ≤ fs.filesys_addr + size
  pub low :
      (pos : ℕ) → pos < inode_length fs m inode_i → fs.filesys_addr ≤ data_addr fs m inode_i pos
  pub high :
      (pos : ℕ)
      → pos < inode_length fs m inode_i
      → data_addr fs m inode_i pos < fs.filesys_addr + size
  pub length : inode_length fs m inode_i ≤ 4096 * 1023
  pub apart : (buf + nbytes ≤ fs.filesys_addr) ⊎ (fs.filesys_addr + size ≤ buf)

module _ (fs : FileSys) (inode_i size : ℕ) (m m' : Memory)
    (same : (a : ℕ) → fs.filesys_addr ≤ a → a < fs.filesys_addr + size → m' a ≡ m a)
    (inode : inode_addr fs inode_i + 4096 ≤ fs.filesys_addr + size) where
  load32-same :
      (o : ℕ)
      → o + 4 ≤ 4096
      → load32 m' (inode_addr fs inode_i + o) ≡ load32 m (inode_addr fs inode_i + o)
  load32-same o le = ground (
    arith,
    same (inode_addr fs inode_i + o),
    same (inode_addr fs inode_i + o + 1),
    same (inode_addr fs inode_i + o + 2),
    same (inode_addr fs inode_i + o + 3),
  )

  length-same : inode_length fs m' inode_i ≡ inode_length fs m inode_i
  length-same = ground (arith, load32-same 0)

  data_addr-same :
      (pos : ℕ) → pos < 4096 * 1023 → data_addr fs m' inode_i pos ≡ data_addr fs m inode_i pos
  data_addr-same pos lt =
      let at : inode_addr fs inode_i + 4 + 4 * (pos / 4096)
          ≡ inode_addr fs inode_i + (4 + 4 * (pos / 4096)) =
        omega arith in
      rw at (rw (load32-same (4 + 4 * (pos / 4096)) (omega arith)) refl)

module _ (fs : FileSys) (inode_i size buf nbytes fd : ℕ) (exists : inode_i < inode_count fs)
    (b≢ : buf ≢ 0) (some_bytes : 0 < nbytes) where
  abbrev count : Memory → ℕ → ℕ
  count m pos = available fs m inode_i pos nbytes

  abbrev after : Memory → ℕ → Memory
  after m pos = (read_data fs m inode_i pos buf nbytes).0

  module _ (m : Memory) (inside : Inside fs m inode_i size buf nbytes) (pos : ℕ)
      (le : pos ≤ inode_length fs m inode_i) where
    reads :
        HasRead fs m (after m pos) inode_i pos buf (count m pos)
        × ((read_data fs m inode_i pos buf nbytes).1 ≡ count m pos)
    reads =
        let short : inode_length fs m inode_i ≤ 4096 * 1023 = inside.length in
        read_data_reads fs m inode_i pos buf nbytes (omega arith) (omega arith)
          (λ at lt. ground (arith, inside.apart, inside.low at lt, inside.high at lt)) exists b≢

    same_image : (a : ℕ) → fs.filesys_addr ≤ a → a < fs.filesys_addr + size → after m pos a ≡ m a
    same_image a lo hi = ground (arith, reads.0.frame a, inside.apart)

    same_length : inode_length fs (after m pos) inode_i ≡ inode_length fs m inode_i
    same_length = length-same fs inode_i size m (after m pos) same_image inside.inode

    same_content :
        (at : ℕ)
        → at < inode_length fs m inode_i
        → content fs (after m pos) inode_i at ≡ content fs m inode_i at
    same_content at lt =
        let short : inode_length fs m inode_i ≤ 4096 * 1023 = inside.length in
        let addr : data_addr fs (after m pos) inode_i at ≡ data_addr fs m inode_i at =
          data_addr-same fs inode_i size m (after m pos) same_image inside.inode at (omega arith) in
        ap (after m pos) addr
        ∙ same_image (data_addr fs m inode_i at) (inside.low at lt) (inside.high at lt)

    still_Inside : Inside fs (after m pos) inode_i size buf nbytes
    still_Inside =
        let short : inode_length fs m inode_i ≤ 4096 * 1023 = inside.length in
        let addr : (at : ℕ)
            → at < inode_length fs m inode_i
            → data_addr fs (after m pos) inode_i at ≡ data_addr fs m inode_i at =
          λ at lt.
            data_addr-same fs inode_i size m (after m pos) same_image inside.inode at
              (omega arith) in
        record {
          inode = inside.inode;
          low = rw same_length (λ at lt. rw (addr at lt) (inside.low at lt));
          high = rw same_length (λ at lt. rw (addr at lt) (inside.high at lt));
          length = rw same_length inside.length;
          apart = inside.apart;
        }

    file_read_reads :
        (p : Pcb)
        → p.inode fd ≡ inode_i
        → p.pos fd ≡ pos
        → file_read fs m fd buf nbytes p
          ≡ (after m pos, record p { pos = store p.pos fd (pos + count m pos) }, count m pos)
    unfolding file_read
    file_read_reads p e at =
        let short : inode_length fs m inode_i ≤ 4096 * 1023 = inside.length in
        let small : u32 (pos + count m pos) ≡ pos + count m pos = omega arith in
        rw (file_read, e, at, reads.1, small) refl

  module _ (m : Memory) (p : Pcb) (inside : Inside fs m inode_i size buf nbytes)
      (e : p.inode fd ≡ inode_i) (le : p.pos fd ≤ inode_length fs m inode_i) where
    abbrev n : ℕ
    n = count m (p.pos fd)

    abbrev next : Pcb
    next = record p { pos = store p.pos fd (p.pos fd + n) }

    step : file_read fs m fd buf nbytes p ≡ (after m (p.pos fd), next, n)
    step = file_read_reads m inside (p.pos fd) le p e refl

    piece : bytes (after m (p.pos fd)) buf n ≡ bytes (content fs m inode_i) (p.pos fd) n
    piece =
        bytes-eq (after m (p.pos fd)) (content fs m inode_i) buf (p.pos fd) n
          (reads m inside (p.pos fd) le).0.written

    others :
        (at k : ℕ)
        → at + k ≤ inode_length fs m inode_i
        → bytes (content fs (after m (p.pos fd)) inode_i) at k ≡ bytes (content fs m inode_i) at k
    others at k fits =
        bytes-eq (content fs (after m (p.pos fd)) inode_i) (content fs m inode_i) at at k
          (λ i lt. same_content m inside (p.pos fd) le (at + i) (omega arith))

    joined :
        n ≤ inode_length fs m inode_i - p.pos fd
        → bytes (content fs m inode_i) (p.pos fd) n
            ++ bytes
                (content fs m inode_i)
                (p.pos fd + n)
                (inode_length fs m inode_i - (p.pos fd + n))
          ≡ bytes (content fs m inode_i) (p.pos fd) (inode_length fs m inode_i - p.pos fd)
    joined fits =
        let all : n + (inode_length fs m inode_i - (p.pos fd + n))
            ≡ inode_length fs m inode_i - p.pos fd =
          omega arith in
        sym (
          bytes-plus (content fs m inode_i) (p.pos fd) n
            (inode_length fs m inode_i - (p.pos fd + n)))
        ∙ ap (bytes (content fs m inode_i) (p.pos fd)) all

  -- The program reads `inode_i` through `fd`, and is somewhere in it.
  pub record At (m : Memory) (p : Pcb) : Type 0 where
    pub inside : Inside fs m inode_i size buf nbytes
    pub inode : p.inode fd ≡ inode_i
    pub position : p.pos fd ≤ inode_length fs m inode_i

  -- What is left of the file behind the position.
  abbrev pub rest_of : Memory → Pcb → List ℕ
  rest_of m p = bytes (content fs m inode_i) (p.pos fd) (inode_length fs m inode_i - p.pos fd)

  -- A read puts the beginning of what is left, up to `nbytes` bytes, into the buffer, and the rest of it is left.
  pub file_read-At :
      (m : Memory) (p : Pcb)
      → At m p
      → let (m', q, k) = file_read fs m fd buf nbytes p in
        (k ≡ min nbytes (inode_length fs m inode_i - p.pos fd))
        × At m' q
        × (rest_of m p ≡ bytes m' buf k ++ rest_of m' q)
  file_read-At m p a =
      let k : ℕ = n m p a.inside a.inode a.position in
      let q : Pcb = next m p a.inside a.inode a.position in
      let m' : Memory = after m (p.pos fd) in
      let at : q.pos fd ≡ p.pos fd + k = ground arith in
      let same : inode_length fs m' inode_i ≡ inode_length fs m inode_i =
        same_length m a.inside (p.pos fd) a.position in
      let le : p.pos fd ≤ inode_length fs m inode_i = a.position in
      let later : rest_of m' q
          ≡ bytes (content fs m inode_i) (p.pos fd + k)
              (inode_length fs m inode_i - (p.pos fd + k)) =
        (rw (at, same) refl)
        ∙ others m p a.inside a.inode a.position (p.pos fd + k)
            (inode_length fs m inode_i - (p.pos fd + k)) (omega arith) in
      rw (step m p a.inside a.inode a.position) (
        refl,
        record {
          inside = still_Inside m a.inside (p.pos fd) a.position;
          inode = a.inode;
          position = rw (at, same) (omega arith);
        },
        sym (
            ap (λ l. l ++ rest_of m' q) (piece m p a.inside a.inode a.position)
            ∙ ap (λ l. bytes (content fs m inode_i) (p.pos fd) k ++ l) later
            ∙ joined m p a.inside a.inode a.position (omega arith)),
      )
