-- ===== src/Paging/Map.antt =====
-- Where the processor finds an address after map_v_p.
use ece391_mp.Prelude.{
  ℕ, ◌+◌, ◌-◌, ◌*◌, ◌/◌, ◌%◌, ◌≤◌, ◌<◌, ◌≡◌, ◌≢◌, ◌⊎◌, inl, inr, refl, arith, none, some, ◌==◌,
  if◌then◌else◌,
}
use ece391_mp.Prelude.Memory.{put}
use ece391_mp.Paging.{
  Entry, Paging, map_v_p, walk, map_large_page, map_table_page, table_entry, ptr_20,
}

-- The address `addr` is found at `target`, with the rights that were asked for.
pub record FoundAt (table_addr : ℕ) (p : Paging) (addr target read_write user_supervisor : ℕ)
    : Type 0 where
  pub entry : Entry
  pub found : walk table_addr p addr ≡ some (target, entry)
  pub writable : entry.read_write ≡ read_write % 2
  pub user : entry.user_supervisor ≡ user_supervisor % 2

-- The directory entry leads to the kernel's table.
pub record Leads (table_addr : ℕ) (e : Entry) : Type 0 where
  pub present : e.present ≡ 1
  pub page_size : e.page_size ≡ 0
  pub ptr : ptr_20 e ≡ table_addr / 4096

-- The directory entry of a mapped 4 MB page, and the table entry of a mapped 4 KB page.
module _ (table_addr w us : ℕ) (p : Paging) where
  large : ℕ → ℕ → Paging
  large v a = record p {
    page_dir = put p.page_dir (v / 4194304) (map_large_page a w us (p.page_dir (v / 4194304)));
  }

  small : ℕ → ℕ → Paging
  small v a = record {
    page_dir = put p.page_dir (v / 4194304) (table_entry table_addr (p.page_dir (v / 4194304)));
    page_table =
        put p.page_table (v / 4096 % 1024) (map_table_page a w us (p.page_table (v / 4096 % 1024)));
  }

  large-eq :
      (v a : ℕ)
      → v ≢ 0
      → v % 16384 ≡ 0
      → a % 16384 ≡ 0
      → map_v_p table_addr v a 1 w us p ≡ (large v a, 0)
  unfolding map_v_p large
  large-eq v a v≢ av aa = ground arith

  small-eq :
      (v a : ℕ)
      → v ≢ 0
      → v % 4096 ≡ 0
      → a % 4096 ≡ 0
      → v < 4194304
      → map_v_p table_addr v a 0 w us p ≡ (small v a, 0)
  unfolding map_v_p small
  small-eq v a v≢ av aa low = ground arith

  walk-large :
      (v a offset : ℕ)
      → v % 4194304 ≡ 0
      → a < 4294967296
      → a ≢ 0
      → offset < 4194304
      → walk table_addr (large v a) (v + offset)
        ≡ some (a / 4194304 * 4194304 + offset, map_large_page a w us (p.page_dir (v / 4194304)))
  unfolding walk large
  walk-large v a offset av a32 a≢ lt =
      let same : (v + offset) / 4194304 ≡ v / 4194304 = omega arith in rw same (ground arith)

  walk-small :
      (v a offset : ℕ)
      → table_addr < 4294967296
      → v % 4096 ≡ 0
      → v < 4194304
      → a % 4096 ≡ 0
      → a < 4294967296
      → a ≢ 0
      → offset < 4096
      → walk table_addr (small v a) (v + offset)
        ≡ some (a + offset, map_table_page a w us (p.page_table (v / 4096 % 1024)))
  unfolding walk small
  walk-small v a offset table32 av low aa a32 a≢ lt =
      let same : (v + offset) / 4194304 ≡ v / 4194304 = omega arith in
      let same' : (v + offset) / 4096 % 1024 ≡ v / 4096 % 1024 = omega arith in
      rw (same, same') (ground arith)

  walk-large_other :
      (v a addr : ℕ)
      → addr / 4194304 ≢ v / 4194304
      → walk table_addr (large v a) addr ≡ walk table_addr p addr
  unfolding walk large
  walk-large_other v a addr other = ground arith

  walk-small_other :
      (v a addr : ℕ)
      → table_addr < 4294967296
      → v < 4194304
      → Leads table_addr (p.page_dir 0)
      → addr / 4096 ≢ v / 4096
      → addr < 4194304
      → walk table_addr (small v a) addr ≡ walk table_addr p addr
  unfolding walk small
  walk-small_other v a addr table32 low linked other a32 =
      let z : v / 4194304 ≡ 0 = omega arith in
      let za : addr / 4194304 ≡ 0 = omega arith in
      let page : addr / 4096 % 1024 ≢ v / 4096 % 1024 = omega arith in
      rw (z, za) (ground (arith, linked.present, linked.page_size, linked.ptr))

  walk-large_off :
      (v addr : ℕ) → addr / 4194304 ≡ v / 4194304 → walk table_addr (large v 0) addr ≡ none
  unfolding walk large
  walk-large_off v addr same = rw same (ground arith)

  walk-small_off :
      (v addr : ℕ) → v < 4194304 → addr / 4096 ≡ v / 4096 → walk table_addr (small v 0) addr ≡ none
  unfolding walk small
  walk-small_off v addr low same =
      let page : addr / 4096 % 1024 ≡ v / 4096 % 1024 = omega arith in
      let dir : addr / 4194304 ≡ v / 4194304 = omega arith in rw (page, dir) (ground arith)

module _ (table_addr w us : ℕ) (p : Paging) (v a : ℕ) (v≢ : v ≢ 0) (a32 : a < 4294967296) where
  -- A 4 MB page at aligned addresses maps each of its addresses to the same place in the physical
  -- page with the rights that were asked for, every address outside it is found where it was, and the
  -- result is 0.
  pub map_v_p-large :
      (offset addr : ℕ)
      → v % 4194304 ≡ 0
      → a % 4194304 ≡ 0
      → a ≢ 0
      → offset < 4194304
      → addr / 4194304 ≢ v / 4194304
      → let q = (map_v_p table_addr v a 1 w us p).0 in
        FoundAt table_addr q (v + offset) (a + offset) w us
        × (walk table_addr q addr ≡ walk table_addr p addr)
        × ((map_v_p table_addr v a 1 w us p).1 ≡ 0)
  map_v_p-large offset addr av aa a≢ lt other =
      rw (large-eq table_addr w us p v a v≢ (omega arith) (omega arith)) (
        record {
          entry = map_large_page a w us (p.page_dir (v / 4194304));
          found = ground (arith, walk-large table_addr w us p v a offset);
          writable = ground arith;
          user = ground arith;
        },
        walk-large_other table_addr w us p v a addr other,
        refl,
      )

  -- A 4 KB page below 4 MB likewise; the addresses below 4 MB outside the page are found where they were if
  -- the first directory entry led to the kernel's table.
  pub map_v_p-small :
      (offset addr : ℕ)
      → table_addr < 4294967296
      → v % 4096 ≡ 0
      → v < 4194304
      → a % 4096 ≡ 0
      → a ≢ 0
      → offset < 4096
      → Leads table_addr (p.page_dir 0)
      → addr / 4096 ≢ v / 4096
      → addr < 4194304
      → let q = (map_v_p table_addr v a 0 w us p).0 in
        FoundAt table_addr q (v + offset) (a + offset) w us
        × (walk table_addr q addr ≡ walk table_addr p addr)
        × ((map_v_p table_addr v a 0 w us p).1 ≡ 0)
  map_v_p-small offset addr table32 av low aa a≢ lt linked other addr32 =
      rw (small-eq table_addr w us p v a v≢ av aa low) (
        record {
          entry = map_table_page a w us (p.page_table (v / 4096 % 1024));
          found = walk-small table_addr w us p v a offset table32 av low aa a32 a≢ lt;
          writable = ground arith;
          user = ground arith;
        },
        walk-small_other table_addr w us p v a addr table32 low linked other addr32,
        refl,
      )

  -- The check of a 4 MB page asks for 16 KB only: a physical address that is no multiple of 4 MB is
  -- accepted, and the page is mapped to the multiple below it.
  pub map_v_p_unaligned :
      v % 4194304 ≡ 0
      → a % 16384 ≡ 0
      → a % 4194304 ≢ 0
      → 4194304 ≤ a
      → ((map_v_p table_addr v a 1 w us p).1 ≡ 0)
        × FoundAt table_addr (map_v_p table_addr v a 1 w us p).0 v (a - a % 4194304) w us
  map_v_p_unaligned av aa unaligned big =
      rw (large-eq table_addr w us p v a v≢ (omega arith) (omega arith)) (
        refl,
        record {
          entry = map_large_page a w us (p.page_dir (v / 4194304));
          found = ground (arith, walk-large table_addr w us p v a 0);
          writable = ground arith;
          user = ground arith;
        },
      )

-- The physical address 0 takes a page out: none of its addresses is found, whatever rights were given.
pub map_v_p_off :
    (table_addr w us : ℕ) (p : Paging) (v addr kb_or_mb : ℕ)
    → v ≢ 0
    → v % (if kb_or_mb == 1 then 4194304 else 4096) ≡ 0
    → (kb_or_mb ≡ 1) ⊎ ((kb_or_mb ≡ 0) × (v < 4194304))
    → addr / (if kb_or_mb == 1 then 4194304 else 4096)
      ≡ v / (if kb_or_mb == 1 then 4194304 else 4096)
    → walk table_addr (map_v_p table_addr v 0 kb_or_mb w us p).0 addr ≡ none
map_v_p_off table_addr w us p v addr kb_or_mb v≢ av (inl mb) same = rw mb (
    rw (large-eq table_addr w us p v 0 v≢ (ground arith) (omega arith))
      (walk-large_off table_addr w us p v addr (ground arith)))
map_v_p_off table_addr w us p v addr kb_or_mb v≢ av (inr (kb, low)) same = rw kb (
    rw (small-eq table_addr w us p v 0 v≢ (ground arith) (omega arith) low)
      (walk-small_off table_addr w us p v addr low (ground arith)))
