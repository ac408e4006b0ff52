-- ===== src/Programs/FileStream.antt =====
-- The kernel's file_read and terminal_write behind the calls of the user program ece391cat.c.
use ece391_mp.Prelude.{
  ℕ, zero, suc, ◌+◌, ◌-◌, ◌≤◌, ◌<◌, ◌≡◌, ◌≢◌, refl, sym, ap, ◌∙◌, arith, min, List, [], ◌∷◌, ◌++◌,
  length, ◌==◌, if◌then◌else◌,
}
use ece391_mp.Prelude.Words.{minus_one}
use ece391_mp.Prelude.Memory.{Memory, store, bytes, length-bytes}
use ece391_mp.FileSys.{FileSys, inode_count, inode_length}
use ece391_mp.FileSys.Data.{content}
use ece391_mp.Files
use ece391_mp.Files.{Pcb, file_read}
use ece391_mp.Screen.{Screen}
use ece391_mp.Terminal.{terminal_write}
use ece391_mp.Terminal.Write.{terminal_write_accepts}
use ece391_mp.Files.Chunks.{At, rest_of, file_read-At}
use ece391_mp.Programs.{Syscalls}
use ece391_mp.Programs.Copying.{Stream}

-- The text is cut into pieces of `nbytes` bytes, the last one of what is left.
abbrev pub Pieces : ℕ → List (List ℕ) → List ℕ → Type 0
Pieces nbytes [] rest = rest ≡ []
Pieces nbytes (w ∷ ws) rest =
    (later : List ℕ) × (rest ≡ w ++ later)
    × (length w ≡ min nbytes (length rest))
    × (0 < length w)
    × Pieces nbytes ws later

head_or : List ℕ → ℕ
head_or [] = 0
head_or (c ∷ cs) = c

tail_or : List ℕ → List ℕ
tail_or [] = []
tail_or (c ∷ cs) = cs

-- Two texts in which equally long pieces come first.
same_split : (a b c d : List ℕ) → length a ≡ length b → a ++ c ≡ b ++ d → (a ≡ b) × (c ≡ d)
unfolding head_or tail_or
same_split [] [] c d l e = (refl, e)
same_split [] (y ∷ b) c d l e = absurd (omega arith)
same_split (x ∷ a) [] c d l e = absurd (omega arith)
same_split (x ∷ a) (y ∷ b) c d l e =
    let (f, g) = same_split a b c d (omega arith) (ap tail_or e) in
    (ap (λ z. z ∷ a) (ap head_or e) ∙ ap (λ v. y ∷ v) f, g)

pub some_room : 0 < 1024
some_room = omega arith

-- The bytes of a list from an address on, over a memory.
abbrev pub laid : ℕ → List ℕ → Memory → Memory
laid a [] m = m
laid a (c ∷ cs) m = store (laid (a + 1) cs m) a c

-- What a write depends on: the number of keys in the buffer of the displayed terminal, the address of the local
-- array of `terminal_write`, the table of the terminal's operations, and the writes of the other tables.
pub record Console : Type 0 where
  pub key_index : ℕ
  pub buffer : ℕ
  pub terminal_funcs : ℕ
  pub other_write : ℕ → List ℕ → Screen → Screen × ℕ

-- The kernel's `terminal_write` of the bytes `w`, which the program has at `buf`.
abbrev pub write_bytes : Console → ℕ → List ℕ → Screen → Screen × ℕ
write_bytes con buf w s =
    terminal_write con.key_index (record s { mem = laid buf w s.mem }) con.buffer buf (length w)

-- One write after the other.
abbrev pub write_all : Console → ℕ → List (List ℕ) → Screen → Screen
write_all con buf [] s = s
write_all con buf (w ∷ ws) s = write_all con buf ws (write_bytes con buf w s).0

write_all_snoc :
    (con : Console) (buf : ℕ) (ws : List (List ℕ)) (w : List ℕ) (s : Screen)
    → write_all con buf (ws ++ w ∷ []) s ≡ (write_bytes con buf w (write_all con buf ws s)).0
write_all_snoc con buf [] w s = refl
write_all_snoc con buf (v ∷ ws) w s = write_all_snoc con buf ws w (write_bytes con buf v s).0

-- The system call `write` of the bytes `w` at `buf`, through the table that the descriptor names.
unfoldable pub write_piece : Console → ℕ → ℕ → List ℕ → Pcb → Screen → Screen × ℕ
write_piece con buf f w p s =
    Files.write
      (λ funcs.
        if funcs == con.terminal_funcs then write_bytes con buf w s else con.other_write funcs w s)
      (s, minus_one) p f buf (length w)

-- The descriptor 1 is the terminal's.
abbrev pub Shows : Console → Pcb → Type 0
Shows con p = (p.flags 1 ≢ 0) × (p.fops 1 ≡ con.terminal_funcs)

write_piece_lem :
    (con : Console) (buf : ℕ) (w : List ℕ) (p : Pcb) (s : Screen)
    → buf ≢ 0
    → 0 < length w
    → length w < 2147483648
    → Shows con p
    → write_piece con buf 1 w p s ≡ write_bytes con buf w s
unfolding write_piece Files.write
write_piece_lem con buf w p s ne pos lt (used, terminal) = ground arith

-- The kernel's part of the system calls of `cat`: the control block of the process, and the screen with the
-- kernel's memory. The descriptors and arguments that `open` and `getargs` give are parameters.
module _ (fs : FileSys) (inode_i size buf fd : ℕ) (exists : inode_i < inode_count fs) (b≢ : buf ≢ 0)
    (con : Console) (opens : ℕ → Memory → Pcb → Pcb × ℕ)
    (arguments : ℕ → ℕ → Memory → Memory × ℕ) where
  abbrev pub file_calls : Syscalls
  file_calls = record {
    State = Pcb × Screen;
    read = λ f a n m s. let (m', p, k) = file_read fs m f a n s.0 in (m', (p, s.1), k);
    write = λ f w s. let (t, r) = write_piece con buf f w s.0 s.1 in ((s.0, t), r);
    open_file = λ a m s. let (p, f) = opens a m s.0 in ((p, s.1), f);
    getargs = λ a n m s. let (m', r) = arguments a n m in (m', s, r);
    execute = λ a m s. (s, 0);
  }

  abbrev pub Open : Memory → Pcb → Type 0
  Open = At fs inode_i size buf 1024 fd exists b≢ some_room

  abbrev pub text : Memory → Pcb → List ℕ
  text = rest_of fs inode_i size buf 1024 fd exists b≢ some_room

  abbrev Reading : Screen → Memory → Pcb × Screen → List (List ℕ) → List (List ℕ) → Type 0
  Reading start m s left shown =
      Open m s.0
      × Pieces 1024 left (text m s.0)
      × Shows con s.0
      × (s.1 ≡ write_all con buf shown start)

  text_length : (m : Memory) (p : Pcb) → length (text m p) ≡ inode_length fs m inode_i - p.pos fd
  text_length m p =
      length-bytes (content fs m inode_i) (p.pos fd) (inode_length fs m inode_i - p.pos fd)

  empty_read :
      (m m' : Memory) (k : ℕ) (rest : List ℕ) → [] ≡ bytes m' buf k ++ rest → (k ≡ 0) × (rest ≡ [])
  empty_read m m' zero rest e = (refl, sym e)
  empty_read m m' (suc k) rest e = absurd (omega (arith, ap (length {0}) e))

  file_at_end :
      (m : Memory) (p : Pcb)
      → Open m p
      → text m p ≡ []
      → let (m', q, k) = file_read fs m fd buf 1024 p in (k ≡ 0) × Open m' q × (text m' q ≡ [])
  file_at_end m p o e =
      let (m', q, k) = file_read fs m fd buf 1024 p in
      let (len, o', t) = file_read-At fs inode_i size buf 1024 fd exists b≢ some_room m p o in
      let (z, r) = empty_read m m' k (text m' q) (sym e ∙ t) in (z, o', r)

  file_piece :
      (m : Memory) (p : Pcb) (w later : List ℕ)
      → Open m p
      → text m p ≡ w ++ later
      → length w ≡ min 1024 (length (text m p))
      → let (m', q, k) = file_read fs m fd buf 1024 p in
        (k ≡ length w) × Open m' q × (bytes m' buf k ≡ w) × (text m' q ≡ later)
  file_piece m p w later o e l =
      let (m', q, k) = file_read fs m fd buf 1024 p in
      let (len, o', t) = file_read-At fs inode_i size buf 1024 fd exists b≢ some_room m p o in
      let same : k ≡ length w = omega (arith, len, l, text_length m p) in
      let (f, g) =
        same_split (bytes m' buf k) w (text m' q) later (length-bytes m' buf k ∙ same)
          (sym t ∙ e) in
      (same, o', f, g)

  -- A read moves the position and nothing else.
  file_read-Shows :
      (m : Memory) (p : Pcb)
      → Shows con p
      → let (m', q, k) = file_read fs m fd buf 1024 p in Shows con q
  unfolding file_read
  file_read-Shows m p h = h

  write_piece-Reading :
      (start : Screen) (m : Memory) (s : Pcb × Screen) (w : List ℕ) (left shown : List (List ℕ))
      → 0 < length w
      → length w ≤ 1025
      → Reading start m s left shown
      → let (t, r) = write_piece con buf 1 w s.0 s.1 in
        (r ≢ minus_one) × Reading start m (s.0, t) left (shown ++ w ∷ [])
  write_piece-Reading start m s w left shown pos le (o, p, t, e) =
      rw (write_piece_lem con buf w s.0 s.1 b≢ pos (omega arith) t) (
        omega (
          arith,
          terminal_write_accepts con.key_index (record s.1 { mem = laid buf w s.1.mem }) con.buffer
              buf (length w) b≢ pos (omega arith),
        ),
        (
          o,
          p,
          t,
          ap (λ v. (write_bytes con buf w v).0) e ∙ sym (write_all_snoc con buf shown w start),
        ),
      )

  abbrev file_stream : Screen → Stream file_calls fd buf 1024
  file_stream start = record {
    Reads = Reading start;
    at_end = λ m s shown (o, p, t, e).
        let (z, o', r) = file_at_end m s.0 o p in (z, (o', r, file_read-Shows m s.0 t, e));
    piece = λ m s w left shown (o, (later, e, l, pos, p), t, d).
        let (k, o', b, n) = file_piece m s.0 w later o e l in
        (k, rw k pos, rw k (omega (arith, l)), b, (o', rw n p, file_read-Shows m s.0 t, d));
    write = λ m s w left shown pos le h. write_piece-Reading start m s w left shown pos le h;
  }
