-- ===== src/Paging/Tests.antt =====
-- Paging as init_paging leaves it, with the page table at 0x409000.
use ece391_mp.Prelude.{◌+◌, ◌-◌, ◌%◌, ◌≡◌, refl, arith}
use ece391_mp.Paging.{Paging, blank_entry, table_entry, map_v_p, walk, init_paging}
use ece391_mp.Paging.Map.{FoundAt, Leads, map_v_p-large, map_v_p_unaligned}
use ece391_mp.Paging.Init.{kernel_map, target, walk-init_paging}

abbrev pub linked : Paging
linked = record { page_dir = λ i. table_entry 0x409000 blank_entry; page_table = λ i. blank_entry }

pub linked-Leads : Leads 0x409000 (linked.page_dir 0)
linked-Leads = record { present = refl; page_size = refl; ptr = refl }

map_v_p-large_example :
    let q = (map_v_p 0x409000 0x8000000 0x800000 1 1 1 linked).0 in
    FoundAt 0x409000 q (0x8000000 + 5) (0x800000 + 5) 1 1
    × (walk 0x409000 q 0x400000 ≡ walk 0x409000 linked 0x400000)
    × ((map_v_p 0x409000 0x8000000 0x800000 1 1 1 linked).1 ≡ 0)
map_v_p-large_example =
    map_v_p-large 0x409000 1 1 linked 0x8000000 0x800000 (omega arith) (omega arith) 5 0x400000 refl
      refl (omega arith) (omega arith) (omega arith)

map_v_p_unaligned_example :
    ((map_v_p 0x409000 0x8000000 0x804000 1 1 1 linked).1 ≡ 0)
    × FoundAt 0x409000
        (map_v_p 0x409000 0x8000000 0x804000 1 1 1 linked).0
        0x8000000
        (0x804000 - 0x804000 % 4194304)
        1
        1
map_v_p_unaligned_example =
    map_v_p_unaligned 0x409000 1 1 linked 0x8000000 0x804000 (omega arith) (omega arith) refl refl
      (omega arith) (omega arith)

init_paging_example :
    target (walk 0x409000 (init_paging 0x409000 linked) 0xB8010) ≡ kernel_map 0xB8010
init_paging_example = walk-init_paging 0x409000 linked (omega arith) 0xB8010 (omega arith)
