-- ===== src/FileSys.antt =====
-- student-distrib/filesys.c: the read-only file system, an image of 4 KB blocks in memory. The image
-- is read from the memory at `filesys_addr`; the boot block is the kernel's copy of its first block.
-- Addresses are plain sums: an image does not wrap round the address space.
pub mod Names
pub mod ByName
pub mod Data
pub mod Dir
pub mod Tests
use ece391_mp.Prelude.{
  ℕ, zero, suc, ◌+◌, ◌-◌, ◌*◌, ◌/◌, ◌%◌, Bool, true, false, Option, none, some, ltb, leb, ◌==◌,
  ◌&&◌, ◌||◌, if◌then◌else◌, not,
}
use ece391_mp.Prelude.Words.{u32, minus_one, is_neg}
use ece391_mp.Prelude.Memory.{Memory, store, load32}
use ece391_mp.CharUtil.{copy_buf}

abbrev pub block_size : ℕ
block_size = 4096

abbrev pub fname_max_len : ℕ
fname_max_len = 32

-- `boot_block` gives the bytes from the kernel's copy on; behind its 4096 bytes it gives what lies
-- there.
pub record FileSys : Type 0 where
  pub filesys_addr : ℕ
  pub boot_block : ℕ → ℕ
  pub dr_index : ℕ

-- The 64 bytes of a directory entry.
abbrev pub Dentry : Type 0
Dentry = ℕ → ℕ

abbrev pub file_type : Dentry → ℕ
file_type d = load32 d 32

abbrev pub inode_index : Dentry → ℕ
inode_index d = load32 d 36

abbrev pub dentry_count : FileSys → ℕ
dentry_count fs = load32 fs.boot_block 0

abbrev pub inode_count : FileSys → ℕ
inode_count fs = load32 fs.boot_block 4

-- `boot_block.dentries[i]`
abbrev pub dentry_at : FileSys → ℕ → Dentry
dentry_at fs i o = fs.boot_block (64 + 64 * i + o)

unfoldable pub init_filesys : Memory → ℕ → FileSys → FileSys
init_filesys m fs_addr fs = record {
  filesys_addr = fs_addr;
  boot_block = λ o. if ltb o block_size then m (fs_addr + o) else fs.boot_block o;
  dr_index = 0;
}

-- The inner loop of `read_dentry_by_name`, with the rounds that are left; `(a | b) == '\0'` says that
-- both are 0.
unfoldable pub name_loop : ℕ → ℕ → Dentry → Memory → ℕ → Bool
name_loop zero j name m fname = false
name_loop (suc rounds) j name m fname =
    let rest = name_loop rounds (j + 1) name m fname in
    if not (name j == m (fname + j))
    then false
    else if (name j == 0 && m (fname + j) == 0) || j == fname_max_len - 1
    then true
    else rest

unfoldable pub dentry_loop : ℕ → ℕ → FileSys → Memory → ℕ → Option Dentry
dentry_loop zero i fs m fname = none
dentry_loop (suc rounds) i fs m fname =
    let rest = dentry_loop rounds (i + 1) fs m fname in
    if name_loop fname_max_len 0 (dentry_at fs i) m fname then some (dentry_at fs i) else rest

-- `some d` is the result 0 with `d` written to the caller's variable, whose address is `dentry`;
-- `none` is -1. The outer loop runs to `inode_count`.
unfoldable pub read_dentry_by_name : FileSys → Memory → ℕ → ℕ → Option Dentry
read_dentry_by_name fs m fname dentry =
    if fname == 0 || dentry == 0
    then none
    else if m fname == 0
    then none
    else dentry_loop (inode_count fs) 0 fs m fname

unfoldable pub read_dentry_by_index : FileSys → ℕ → ℕ → Option Dentry
read_dentry_by_index fs index dentry =
    if leb (dentry_count fs) index
    then none
    else if dentry == 0
    then none
    else some (dentry_at fs index)

-- `((inode_t*)(filesys_addr + BLOCK_SIZE))[i]`
abbrev pub inode_addr : FileSys → ℕ → ℕ
inode_addr fs i = fs.filesys_addr + block_size + block_size * i

abbrev pub inode_length : FileSys → Memory → ℕ → ℕ
inode_length fs m i = load32 m (inode_addr fs i)

-- The address of a byte of a file: `data_blocks[inode.data_indices[pos >> 12]].data[pos & 0xFFF]`.
abbrev pub data_addr : FileSys → Memory → ℕ → ℕ → ℕ
data_addr fs m i pos =
    fs.filesys_addr
    + block_size * (1 + inode_count fs)
    + block_size * load32 m (inode_addr fs i + 4 + 4 * (pos / block_size))
    + pos % block_size

unfoldable pub file_size : FileSys → Memory → ℕ → ℕ → ℕ
file_size fs m fname dentry = elim (read_dentry_by_name fs m fname dentry) [
  | none ↦ minus_one
  | some d ↦ inode_length fs m (inode_index d)
]

-- The loop of `read_data`; the inode is the copy that was made in the memory `image`.
unfoldable pub read_loop : ℕ → ℕ → FileSys → Memory → Memory → ℕ → ℕ → ℕ → Memory × ℕ
read_loop zero byte_count fs image m inode_i offset buffer = (m, byte_count)
read_loop (suc rounds) byte_count fs image m inode_i offset buffer =
    let pos = u32 (byte_count + offset) in
    let rest =
      read_loop rounds (byte_count + 1) fs image
        (store m (buffer + byte_count) (m (data_addr fs image inode_i pos))) inode_i offset
        buffer in
    if ltb pos (inode_length fs image inode_i) then rest else (m, byte_count)

unfoldable pub read_data : FileSys → Memory → ℕ → ℕ → ℕ → ℕ → Memory × ℕ
read_data fs m inode_i offset buffer length =
    if leb (inode_count fs) inode_i
    then (m, minus_one)
    else if buffer == 0
    then (m, minus_one)
    else read_loop length 0 fs m m inode_i offset buffer

unfoldable pub read_file_bytes_by_name : FileSys → Memory → ℕ → ℕ → ℕ → ℕ → Memory × ℕ
read_file_bytes_by_name fs m fname dentry buf length =
    elim (read_dentry_by_name fs m fname dentry) [
      | none ↦ (m, minus_one)
      | some d ↦
          let (m', n) = read_data fs m (inode_index d) 0 buf length in
          (m', if is_neg n then minus_one else 0)
    ]

-- `for (i = 0; i < FNAME_MAX_LEN && dentry.name[i] != '\0'; i++) buf[i] = dentry.name[i]`
unfoldable pub put_loop : ℕ → ℕ → Dentry → Memory → ℕ → Memory × ℕ
put_loop zero i d m buf = (m, i)
put_loop (suc rounds) i d m buf =
    let rest = put_loop rounds (i + 1) d (store m (buf + i) (d i)) buf in
    if d i == 0 then (m, i) else rest

abbrev pub next_index : FileSys → FileSys
next_index fs = record fs { dr_index = u32 (fs.dr_index + 1) }

abbrev pub first_index : FileSys → FileSys
first_index fs = record fs { dr_index = 0 }

unfoldable pub put_next_dir_name : FileSys → Memory → ℕ → ℕ → FileSys × Memory × ℕ
put_next_dir_name fs m buf dentry =
    let m1 = store m (buf + fname_max_len) 0 in
    elim (read_dentry_by_index fs fs.dr_index dentry) [
      | none ↦ (first_index fs, m1, 0)
      | some d ↦
          let (m2, i) = put_loop fname_max_len 0 d m1 buf in
          (next_index fs, store m2 (buf + i) 0, 1)
    ]

-- The 64 bytes of an entry, written to the local variable at the address `dentry`.
abbrev pub with_dentry : Memory → ℕ → Dentry → Memory
with_dentry m dentry d a = if leb dentry a && ltb a (dentry + 64) then d (a - dentry) else m a

unfoldable pub dir_read : FileSys → Memory → ℕ → ℕ → ℕ → FileSys × Memory × ℕ
dir_read fs m dentry buf nbytes = elim (read_dentry_by_index fs fs.dr_index dentry) [
  | none ↦ (first_index fs, m, 0)
  | some d ↦ (next_index fs, (copy_buf (with_dentry m dentry d) dentry buf nbytes).0, nbytes)
]
