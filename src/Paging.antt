-- ===== src/Paging.antt =====
-- student-distrib/paging.c: the page directory and the one page table of the kernel, and the walk that
-- the processor makes through them.
pub mod Map
pub mod Init
pub mod Tests
use ece391_mp.Prelude.{
  ℕ, zero, suc, ◌+◌, ◌-◌, ◌*◌, ◌/◌, ◌%◌, Bool, Option, none, some, ltb, leb, ◌==◌, ◌&&◌, ◌||◌, not,
  if◌then◌else◌,
}
use ece391_mp.Prelude.Words.{minus_one}
use ece391_mp.Prelude.Memory.{put}

-- A 32-bit entry in the finest cut of the three layouts of x86_desc.h: bit 6 is `dirty` or `ignored0`,
-- bit 8 is `global`, and `ptr` is bits 31 to 22 of a 4 MB page and bits 31 to 12 of the others.
pub record Entry : Type 0 where
  pub present : ℕ
  pub read_write : ℕ
  pub user_supervisor : ℕ
  pub write_through : ℕ
  pub cache_disable : ℕ
  pub accessed : ℕ
  pub bit_6 : ℕ
  pub page_size : ℕ
  pub bit_8 : ℕ
  pub bits_11_9 : ℕ
  pub bit_12 : ℕ
  pub bits_20_13 : ℕ
  pub bit_21 : ℕ
  pub bits_31_22 : ℕ

pub record Paging : Type 0 where
  pub page_dir : ℕ → Entry
  pub page_table : ℕ → Entry

-- The field `ptr` of 20 bits.
abbrev pub ptr_20 : Entry → ℕ
ptr_20 e = e.bit_12 + 2 * e.bits_20_13 + 512 * e.bit_21 + 1024 * e.bits_31_22

abbrev pub set_ptr_20 : ℕ → Entry → Entry
set_ptr_20 v e = record e {
  bit_12 = v % 2;
  bits_20_13 = v / 2 % 256;
  bit_21 = v / 512 % 2;
  bits_31_22 = v / 1024 % 1024;
}

-- `((a | b) & (n - 1)) != 0` for a power of two `n`.
abbrev pub misaligned : ℕ → ℕ → ℕ → Bool
misaligned a b n = not (a % n == 0 && b % n == 0)

-- The first three lines of both branches that write an entry.
abbrev pub set_rights : ℕ → ℕ → ℕ → Entry → Entry
set_rights present read_write user_supervisor e = record e {
  present = present;
  read_write = read_write % 2;
  user_supervisor = user_supervisor % 2;
}

abbrev pub map_table_page : ℕ → ℕ → ℕ → Entry → Entry
map_table_page physical_addr read_write user_supervisor e =
    if physical_addr == 0
    then set_rights 0 read_write user_supervisor e
    else set_ptr_20 (physical_addr / 4096) (record (set_rights 1 read_write user_supervisor e) {
      write_through = 0;
      cache_disable = 0;
      accessed = 0;
      bit_6 = 0;
      page_size = 0;
      bit_8 = 0;
      bits_11_9 = 0;
    })

abbrev pub map_large_page : ℕ → ℕ → ℕ → Entry → Entry
map_large_page physical_addr read_write user_supervisor e =
    if physical_addr == 0
    then set_rights 0 read_write user_supervisor (record e { page_size = 1 })
    else record (set_rights 1 read_write user_supervisor e) {
      write_through = 0;
      cache_disable = 0;
      accessed = 0;
      bit_6 = 0;
      page_size = 1;
      bit_8 = 0;
      bits_11_9 = 1;
      bit_12 = 0;
      bits_20_13 = 0;
      bit_21 = 0;
      bits_31_22 = physical_addr / 4194304 % 1024;
    }

-- The entry of the directory that leads to the page table at `table_addr`.
abbrev pub table_entry : ℕ → Entry → Entry
table_entry table_addr e =
    set_ptr_20 (table_addr / 4096)
      (record e { page_size = 0; present = 1; read_write = 1; user_supervisor = 1 })

-- `table_addr` is the address of `page_table`. The flush of the translation buffer is not modelled: the
-- walk always reads the entries.
unfoldable pub map_v_p : ℕ → ℕ → ℕ → ℕ → ℕ → ℕ → Paging → Paging × ℕ
map_v_p table_addr virtual_addr physical_addr kb_or_mb read_write user_supervisor p =
    let i = virtual_addr / 4194304 in
    let k = virtual_addr / 4096 % 1024 in
    if not (kb_or_mb == 0) && not (kb_or_mb == 1)
    then (p, minus_one)
    else if virtual_addr == 0
    then (p, minus_one)
    else if kb_or_mb == 0 && misaligned virtual_addr physical_addr 4096
    then (p, minus_one)
    else if kb_or_mb == 1 && misaligned virtual_addr physical_addr 16384
    then (p, minus_one)
    else if kb_or_mb == 0 && leb 0x400000 virtual_addr
    then (p, minus_one)
    else if kb_or_mb == 0
    then (
      record {
        page_dir = put p.page_dir i (table_entry table_addr (p.page_dir i));
        page_table =
            put p.page_table k
              (map_table_page physical_addr read_write user_supervisor (p.page_table k));
      },
      0,
    )
    else (
      record p {
        page_dir =
            put p.page_dir i
              (map_large_page physical_addr read_write user_supervisor (p.page_dir i));
      },
      0,
    )

-- `pde_pte` and `pte_4kb` as `init_paging` sets them: nothing is present.
abbrev pub blank_entry : Entry
blank_entry = record {
  present = 0;
  read_write = 0;
  user_supervisor = 1;
  write_through = 0;
  cache_disable = 0;
  accessed = 0;
  bit_6 = 0;
  page_size = 0;
  bit_8 = 0;
  bits_11_9 = 0;
  bit_12 = 0;
  bits_20_13 = 0;
  bit_21 = 0;
  bits_31_22 = 0;
}

-- `for (; rounds > 0; i++) entries[i] = blank`
unfoldable pub blank_loop : ℕ → ℕ → (ℕ → Entry) → ℕ → Entry
blank_loop zero i entries = entries
blank_loop (suc rounds) i entries = blank_loop rounds (i + 1) (put entries i blank_entry)

-- Both arrays have 1024 entries. The registers that turn paging on are not modelled.
unfoldable pub init_paging : ℕ → Paging → Paging
init_paging table_addr p =
    let blank : Paging = record {
      page_dir = blank_loop 1024 0 p.page_dir;
      page_table = blank_loop 1024 0 p.page_table;
    } in
    (map_v_p table_addr 0xB8000 0xB8000 0 1 1
      (map_v_p table_addr 0x400000 0x400000 1 1 1 blank).0).0

-- The walk of the processor for a 32-bit address: the physical address and the entry that gives the
-- rights. A table at another place than `table_addr` is not the kernel's, and `none` stands for it too.
unfoldable pub walk : ℕ → Paging → ℕ → Option (ℕ × Entry)
walk table_addr p addr =
    let d = p.page_dir (addr / 4194304) in
    let e = p.page_table (addr / 4096 % 1024) in
    if d.present == 0
    then none
    else if d.page_size == 1
    then some (d.bits_20_13 * 4294967296 + d.bits_31_22 * 4194304 + addr % 4194304, d)
    else if not (ptr_20 d == table_addr / 4096) || e.present == 0
    then none
    else some (ptr_20 e * 4096 + addr % 4096, e)
