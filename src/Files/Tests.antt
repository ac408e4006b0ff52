-- ===== src/Files/Tests.antt =====
-- A process with its two terminal descriptors, and a file system with one file, named "a".
use ece391_mp.Prelude.{
  ℕ, ◌+◌, ◌<◌, ◌≡◌, ◌≢◌, inl, refl, arith, some, ltb, leb, ◌==◌, ◌&&◌, if◌then◌else◌,
}
use ece391_mp.Prelude.Memory.{Memory, IsString}
use ece391_mp.CharUtil.{string_length}
use ece391_mp.CharUtil.Length.{string_length_lem}
use ece391_mp.FileSys.{FileSys, dentry_at, read_dentry_by_name, dentry_loop, name_loop}
use ece391_mp.Machine.{Machine}
use ece391_mp.Files.{Tables, Pcb, closed, close, open_file, free_fd}
use ece391_mp.Files.Open.{Opened, open_file-Opened, open_file_long_name}
use ece391_mp.Files.Close.{AllKnown, Apart, close-AllKnown, close-open}

abbrev boot : ℕ → ℕ
boot o =
    if o == 0
    then 1
    else if o == 4
    then 1
    else if leb 64 o && ltb o 96
    then b'a'
    else if o == 96
    then 2
    else 0

abbrev image : FileSys
image = record { filesys_addr = 8192; boot_block = boot; dr_index = 0 }

-- The name of the file has all of the 32 bytes.
abbrev user : Memory
user a = if leb 100 a && ltb a 132 then b'a' else 0

user_100 : IsString user 100 32
user_100 = record { body = λ i p. ground arith; eos = refl }

name_length : string_length user 100 ≡ 32
name_length = string_length_lem user 100 32 (omega arith) user_100 (omega arith)

found : read_dentry_by_name image user 100 400 ≡ some (dentry_at image 0)
unfolding read_dentry_by_name dentry_loop name_loop
found = refl

abbrev short_boot : ℕ → ℕ
short_boot o =
    if o == 0 then 1 else if o == 4 then 1 else if o == 64 then b'a' else if o == 96 then 2 else 0

abbrev short_image : FileSys
short_image = record { filesys_addr = 8192; boot_block = short_boot; dr_index = 0 }

abbrev short_user : Memory
short_user a = if a == 100 then b'a' else 0

short_100 : IsString short_user 100 1
short_100 = record { body = λ i p. ground arith; eos = refl }

short_length : string_length short_user 100 ≡ 1
short_length = string_length_lem short_user 100 1 (omega arith) short_100 (omega arith)

short_found : read_dentry_by_name short_image short_user 100 400 ≡ some (dentry_at short_image 0)
unfolding read_dentry_by_name dentry_loop name_loop
short_found = refl

abbrev tables : Tables
tables = record {
  terminal_funcs = 0x410000;
  rtc_funcs = 0x410010;
  fsys_funcs = 0x410020;
  dir_funcs = 0x410030;
}

-- The entries below `n` are in use, by the terminal.
abbrev using : ℕ → Pcb
using n = record {
  fops = λ e. if ltb e n then 0x410000 else 0;
  inode = λ e. 0;
  pos = λ e. 0;
  flags = λ e. if ltb e n then 1 else 0;
  file_name = λ e i. 0;
  arg_buffer = λ i. 0;
}

using-AllKnown : (n : ℕ) → AllKnown tables (using n)
using-AllKnown n e used = inl (ground arith)

abbrev quiet : Machine
quiet = record { State = ℕ; outb = λ v port h. h; inb = λ port h. (0, h) }

tables-Apart : Apart tables
tables-Apart = record { rtc = omega arith; fsys = omega arith; dir = omega arith }

open_file_example :
    let (q, fd) = open_file tables short_image short_user 100 400 (using 2) in
    Opened tables (dentry_at short_image 0) (using 2) q fd
    × ((i : ℕ) → q.file_name fd i ≡ (if leb i 1 then short_user (100 + i) else 0))
open_file_example =
    open_file-Opened tables short_image short_user 100 400 (using 2) (dentry_at short_image 0) 2 1
      short_found (omega arith) (omega arith) short_length (omega arith) (omega arith) refl
      (omega arith)

short-Opened :
    let out = open_file tables short_image short_user 100 400 (using 2) in
    Opened tables (dentry_at short_image 0) (using 2) out.0 out.1
short-Opened =
    (open_file-Opened tables short_image short_user 100 400 (using 2) (dentry_at short_image 0) 2 1
      short_found (omega arith) (omega arith) short_length (omega arith) (omega arith) refl
      (omega arith)).0

-- The descriptor 2 is unused, and 3 is a file's.
abbrev gap : Pcb
gap = record (using 2) {
  fops = λ e. if e == 3 then 0x410025 else (using 2).fops e;
  flags = λ e. if e == 3 then 1 else (using 2).flags e;
}

next_inside : free_fd 6 2 gap.flags < 7
unfolding free_fd
next_inside = omega arith

open_file_long_name_example :
    let (q, k) = open_file tables image user 100 400 gap in
    (k ≡ 2)
    × (q.flags 2 ≡ 1)
    × (q.fops 2 ≡ 0x410020)
    × (q.inode 2 ≡ 0)
    × ((i : ℕ) → i < 32 → q.file_name 2 i ≡ user (100 + i))
    × (q.flags 3 ≡ 1)
    × (q.fops 3 ≡ 0x410000)
unfolding free_fd
open_file_long_name_example =
    open_file_long_name tables image user 100 400 gap (dentry_at image 0) 2 32 found (omega arith)
      (omega arith) name_length (omega arith) (omega arith) refl refl refl next_inside

close_keeps_example :
    (q : Pcb) × (k : ℕ) × (r : ℕ) × (close tables quiet 2 (using 3) 0 ≡ some (q, k, r))
    × AllKnown tables q
close_keeps_example = close-AllKnown tables quiet 2 (using 3) 0 (using-AllKnown 3)

close-open_example :
    let out = open_file tables short_image short_user 100 400 (using 2) in
    (close tables quiet out.1 out.0 0 ≡ some (closed tables quiet out.1 out.0, 0, 0))
    × ((e : ℕ) → (closed tables quiet out.1 out.0).flags e ≡ (using 2).flags e)
    × ((e i : ℕ)
        → e ≢ out.1
        → (closed tables quiet out.1 out.0).file_name e i ≡ out.0.file_name e i)
close-open_example =
    let out = open_file tables short_image short_user 100 400 (using 2) in
    close-open tables quiet (dentry_at short_image 0) (using 2) out.0 out.1 0 tables-Apart
      short-Opened
