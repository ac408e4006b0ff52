-- ===== src/Exec/Vidmap.antt =====
-- The video memory that vidmap gives to a program.
use ece391_mp.Prelude.{
  ℕ, ◌+◌, ◌/◌, ◌≤◌, ◌<◌, ◌≡◌, ◌≢◌, ◌⊎◌, refl, arith, false, Option, none, some, ltb, leb, ◌==◌,
  ◌||◌,
}
use ece391_mp.Prelude.Words.{minus_one}
use ece391_mp.Prelude.Memory.{load32}
use ece391_mp.CharUtil.Loops.{Outside}
use ece391_mp.Paging.{Paging, walk}
use ece391_mp.Paging.Map.{FoundAt, Leads, map_v_p-small}
use ece391_mp.Exec.{Kernel, vidmap}

-- The program has the page at 0xF8000 for the video memory, and its pointer says so.
pub record Shown (table_addr screen_start : ℕ) (k : Kernel) (out : Kernel × ℕ) : Type 0 where
  pub result : out.1 ≡ 0xF8000
  pub pointer : load32 out.0.sched.screen.mem screen_start ≡ 0xF8000
  pub page :
      (offset : ℕ)
      → offset < 4096
      → FoundAt table_addr out.0.sched.paging (0xF8000 + offset) (0xB8000 + offset) 1 1
  pub others :
      (addr : ℕ)
      → addr / 4096 ≢ 0xF8
      → addr < 4194304
      → walk table_addr out.0.sched.paging addr ≡ walk table_addr k.sched.paging addr
  pub frame : (a : ℕ) → Outside a screen_start 4 → out.0.sched.screen.mem a ≡ k.sched.screen.mem a

-- The call comes back, and the program has the page.
abbrev pub ComesBack : (table_addr screen_start : ℕ) → Kernel → Option (Kernel × ℕ) → Type 0
ComesBack table_addr screen_start k none = ⊥
ComesBack table_addr screen_start k (some out) = Shown table_addr screen_start k out

module _ (table_addr screen_start : ℕ) (k : Kernel) where
  -- A pointer outside the program's page, or into it before the program's image, is refused.
  pub vidmap_refuses :
      (screen_start < 0x8048000) ⊎ (0x8400000 ≤ screen_start)
      → vidmap table_addr screen_start k ≡ some (k, minus_one)
  unfolding vidmap
  vidmap_refuses out = ground arith

  -- A word that goes over the end of the program's page faults.
  pub vidmap_faults :
      screen_start < 0x8400000
      → 0x8400000 < screen_start + 4
      → vidmap table_addr screen_start k ≡ none
  unfolding vidmap
  vidmap_faults inside over = ground arith

  -- For a pointer into the program's page from its image on whose four bytes lie in the page, with the
  -- kernel's table in place, vidmap comes back with 0xF8000 and writes it at the pointer and nothing
  -- else, maps the page there to the video memory with all rights, and leaves the other addresses below 4
  -- MB where they were.
  pub vidmap-Shown :
      0x8048000 ≤ screen_start
      → screen_start + 4 ≤ 0x8400000
      → table_addr < 4294967296
      → Leads table_addr (k.sched.paging.page_dir 0)
      → ComesBack table_addr screen_start k (vidmap table_addr screen_start k)
  unfolding vidmap
  vidmap-Shown lo hi table32 linked =
      let p : Paging = k.sched.paging in
      let inside : (screen_start == 0 || ltb screen_start 0x8048000 || leb 0x8400000 screen_start)
          ≡ false =
        ground arith in
      let whole : ltb 0x8400000 (screen_start + 4) ≡ false = ground arith in
      rw (inside, whole)
        (record {
          result = refl;
          pointer = ground arith;
          page = λ offset lt.
              (map_v_p-small table_addr 1 1 p 0xF8000 0xB8000 (omega arith) (omega arith) offset 0
                table32 refl (omega arith) refl (omega arith) lt linked (omega arith)
                (omega arith)).0;
          others = λ addr other low.
              (map_v_p-small table_addr 1 1 p 0xF8000 0xB8000 (omega arith) (omega arith) 0 addr
                table32 refl (omega arith) refl (omega arith) (omega arith) linked other low).1;
          frame = λ a out. ground arith;
        })
