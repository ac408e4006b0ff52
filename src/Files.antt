-- ===== src/Files.antt =====
-- The files of a process: open, close, read and write of student-distrib/syscalls.c on the file array
-- of the process control block, with the close handlers of student-distrib/terminal.c and filesys.c.
pub mod Open
pub mod Close
pub mod Chunks
pub mod Tests
use ece391_mp.Prelude.{
  ℕ, zero, suc, ◌+◌, ◌-◌, ◌*◌, ◌%◌, Bool, Option, none, some, ltb, leb, ◌==◌, ◌&&◌, ◌||◌, not,
  if◌then◌else◌,
}
use ece391_mp.Prelude.Words.{minus_one, is_neg, u32}
use ece391_mp.Prelude.Memory.{Memory, store}
use ece391_mp.CharUtil.{string_length}
use ece391_mp.FileSys.{FileSys, Dentry, file_type, inode_index, read_dentry_by_name, read_data}
use ece391_mp.Machine.{Machine}
use ece391_mp.Pic.{disable_irq}
use ece391_mp.Rtc.{rtc_close}

abbrev pub min_fd : ℕ
min_fd = 2

abbrev pub max_fd : ℕ
max_fd = 7

abbrev pub file_array_len : ℕ
file_array_len = 8

-- The addresses of the four tables of file operations, which the linker chooses.
pub record Tables : Type 0 where
  pub terminal_funcs : ℕ
  pub rtc_funcs : ℕ
  pub fsys_funcs : ℕ
  pub dir_funcs : ℕ

-- The file array, a function of the index for each field, and the argument buffer behind it.
pub record Pcb : Type 0 where
  pub fops : ℕ → ℕ
  pub inode : ℕ → ℕ
  pub pos : ℕ → ℕ
  pub flags : ℕ → ℕ
  pub file_name : ℕ → ℕ → ℕ
  pub arg_buffer : ℕ → ℕ

-- The loop that looks for an unused entry: -1 when there is none.
unfoldable pub free_fd : ℕ → ℕ → (ℕ → ℕ) → ℕ
free_fd zero index flags = minus_one
free_fd (suc rounds) index flags =
    let rest = free_fd rounds (index + 1) flags in if flags index == 0 then index else rest

abbrev pub set_entry : ℕ → ℕ → ℕ → Pcb → Pcb
set_entry fd funcs inode p = record p {
  fops = store p.fops fd funcs;
  inode = store p.inode fd inode;
  pos = store p.pos fd 0;
  flags = store p.flags fd 1;
}

abbrev pub clear_name : ℕ → Pcb → Pcb
clear_name fd p = record p { file_name = λ e i. if e == fd && ltb i 32 then 0 else p.file_name e i }

-- `copy_string(filename, fd_ptr->file_name)`. A name of 32 bytes has its NUL behind the 32 bytes of the
-- field: in the low byte of the next entry's `fops`, or in the argument buffer behind the last entry.
-- The length -1 puts a 0 in the high byte of `flags`, where a 0 is.
unfoldable pub put_name : Memory → ℕ → ℕ → Pcb → Pcb
put_name m filename fd p =
    let n = string_length m filename in
    let over = n == 32 in
    if filename == 0 then clear_name fd p else if is_neg n then p else record p {
      file_name =
          λ e i. if e == fd && leb i n && ltb i 32 then m (filename + i) else p.file_name e i;
      fops =
          if over && ltb fd max_fd
          then store p.fops (fd + 1) (p.fops (fd + 1) - p.fops (fd + 1) % 256)
          else p.fops;
      arg_buffer = if over && fd == max_fd then store p.arg_buffer 0 0 else p.arg_buffer;
    }

module _ (tables : Tables) where
  open tables use {terminal_funcs, rtc_funcs, fsys_funcs, dir_funcs}

  -- The branches of `open` on the type of the file.
  unfoldable pub open_entry : Memory → ℕ → Dentry → ℕ → Pcb → Pcb × ℕ
  open_entry m filename d fd p =
      if file_type d == 0
      then (set_entry fd rtc_funcs 0 p, fd)
      else if file_type d == 1
      then (set_entry fd dir_funcs 0 p, fd)
      else if file_type d == 2
      then (put_name m filename fd (set_entry fd fsys_funcs (inode_index d) p), fd)
      else (p, minus_one)

  -- `dentry` is the address of the local variable.
  unfoldable pub open_file : FileSys → Memory → ℕ → ℕ → Pcb → Pcb × ℕ
  open_file fs m filename dentry p =
      let n = string_length m filename in
      let fd = free_fd (file_array_len - min_fd) min_fd p.flags in
      if not (is_neg n) && ltb 32 n
      then (p, minus_one)
      else if fd == minus_one
      then (p, minus_one)
      else elim (read_dentry_by_name fs m filename dentry) [
        | none ↦ (p, minus_one)
        | some d ↦ open_entry m filename d fd p
      ]

  module _ (hw : Machine) where
    open hw use {State}

    unfoldable pub terminal_close : ℕ → State → State × ℕ
    terminal_close fd h = if fd == 0 || fd == 1 then (h, minus_one) else (disable_irq hw 1 h, 0)

    -- `fops->close(fd)`: `file_close` and `dir_close` return 0. A pointer to none of the tables has no
    -- handler behind it, and `none` says so.
    unfoldable pub call_close : ℕ → ℕ → State → Option (State × ℕ)
    call_close funcs fd h =
        if funcs == terminal_funcs
        then some (terminal_close fd h)
        else if funcs == rtc_funcs
        then some (h, rtc_close)
        else if funcs == fsys_funcs || funcs == dir_funcs
        then some (h, 0)
        else none

    abbrev pub closed : ℕ → Pcb → Pcb
    closed fd p =
        clear_name fd (record p {
          fops = store p.fops fd 0;
          pos = store p.pos fd 0;
          flags = store p.flags fd 0;
        })

    unfoldable pub close_result : ℕ → Pcb → Option (State × ℕ) → Option (Pcb × State × ℕ)
    close_result fd p none = none
    close_result fd p (some (h, r)) =
        some (if r == 0 then (closed fd p, h, 0) else (p, h, minus_one))

    -- `fd` is the bit pattern of an `int32_t`, so a negative one is above `MAX_FD` here.
    unfoldable pub close : ℕ → Pcb → State → Option (Pcb × State × ℕ)
    close fd p h =
        if ltb fd min_fd || ltb max_fd fd || p.flags fd == 0
        then some (p, h, minus_one)
        else close_result fd p (call_close (p.fops fd) fd h)

-- `read` and `write` before the call of the handler: `call` is `fops->read(fd, buf, nbytes)` or the
-- write, and `refused` the result -1.
module _ {ℓ} {R : Type ℓ} (call : ℕ → R) (refused : R) where
  unfoldable pub read : Pcb → ℕ → ℕ → ℕ → R
  read p fd buf nbytes =
      if buf == 0 || is_neg fd || ltb max_fd fd || fd == 1 || is_neg nbytes
      then refused
      else if p.flags fd == 0
      then refused
      else call (p.fops fd)

  unfoldable pub write : Pcb → ℕ → ℕ → ℕ → R
  write p fd buf nbytes =
      if is_neg fd || ltb max_fd fd || fd == 0 || buf == 0 || is_neg nbytes
      then refused
      else if p.flags fd == 0
      then refused
      else call (p.fops fd)

-- `file_read` of student-distrib/filesys.c on the entry `fd`; a result -1 counts the position down.
unfoldable pub file_read : FileSys → Memory → ℕ → ℕ → ℕ → Pcb → Memory × Pcb × ℕ
file_read fs m fd buf nbytes p =
    let (m', count) = read_data fs m (p.inode fd) (p.pos fd) buf nbytes in
    (m', record p { pos = store p.pos fd (u32 (p.pos fd + count)) }, count)
