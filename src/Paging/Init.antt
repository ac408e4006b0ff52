-- ===== src/Paging/Init.antt =====
-- The addresses that init_paging maps.
use ece391_mp.Prelude.{
  ℕ, zero, suc, ◌+◌, ◌/◌, ◌%◌, ◌≤◌, ◌<◌, ◌≡◌, inl, inr, refl, arith, Option, none, some, ◌==◌,
  if◌then◌else◌, eq_cases,
}
use ece391_mp.Prelude.Memory.{put}
use ece391_mp.Paging.{
  Entry, Paging, map_v_p, walk, blank_entry, blank_loop, init_paging, map_large_page,
}

blank_loop_frame :
    (rounds i j : ℕ) (entries : ℕ → Entry) → j < i → blank_loop rounds i entries j ≡ entries j
unfolding blank_loop
blank_loop_frame zero i j entries lt = refl
blank_loop_frame (suc r) i j entries lt =
    ground (arith, blank_loop_frame r (i + 1) j (put entries i blank_entry))

blank_loop_lem :
    (rounds i j : ℕ) (entries : ℕ → Entry)
    → i ≤ j
    → j < i + rounds
    → blank_loop rounds i entries j ≡ blank_entry
unfolding blank_loop
blank_loop_lem zero i j entries lo hi = absurd (omega arith)
blank_loop_lem (suc r) i j entries lo hi = elim (eq_cases i j) [
  | inl e ↦ ground (arith, blank_loop_frame r (i + 1) j (put entries i blank_entry))
  | inr ne ↦ blank_loop_lem r (i + 1) j (put entries i blank_entry) (omega arith) (omega arith)
]

-- Where an address is found after `init_paging`: in the page of video memory, in the 4 MB of the
-- kernel, or nowhere.
abbrev pub kernel_map : ℕ → Option ℕ
kernel_map addr =
    if addr / 4096 == 0xB8 then some addr else if addr / 4194304 == 1 then some addr else none

abbrev pub target {κ} : {B : Type κ} → Option (ℕ × B) → Option ℕ
target none = none
target (some (a, e)) = some a

module _ (table_addr : ℕ) (p : Paging) (table32 : table_addr < 4294967296) where
  -- Video memory and the kernel are mapped to themselves and nothing else is mapped.
  pub walk-init_paging :
      (addr : ℕ)
      → addr < 4294967296
      → target (walk table_addr (init_paging table_addr p) addr) ≡ kernel_map addr
  unfolding walk init_paging map_v_p
  walk-init_paging addr a32 = ground (
    arith,
    blank_loop_lem 1024 0 (addr / 4194304) p.page_dir,
    blank_loop_lem 1024 0 (addr / 4096 % 1024) p.page_table,
  )

  -- The kernel's 4 MB can be read and written by user programs.
  pub init_paging_user :
      (addr : ℕ)
      → addr / 4194304 ≡ 1
      → (e : Entry) × (walk table_addr (init_paging table_addr p) addr ≡ some (addr, e))
        × (e.user_supervisor ≡ 1)
        × (e.read_write ≡ 1)
  unfolding walk init_paging map_v_p
  init_paging_user addr inside = (
    map_large_page 0x400000 1 1 (blank_loop 1024 0 p.page_dir 1),
    rw inside (ground arith),
    refl,
    refl,
  )
