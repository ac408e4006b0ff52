-- ===== src/Exec/Shared.antt =====
-- halt of student-distrib/syscalls.c closes the files of the parent that have the descriptors of the ended
-- process's files.
use ece391_mp.Prelude.{
  ℕ, zero, suc, ◌+◌, ◌≤◌, ◌<◌, ◌≡◌, ◌≢◌, inl, inr, refl, ap, ◌∙◌, arith, true, some, ◌==◌,
  Bool-cases, eq_cases, lt_cases,
}
use ece391_mp.Prelude.Words.{minus_one}
use ece391_mp.Prelude.Memory.{put}
use ece391_mp.Machine.{Machine}
use ece391_mp.FileSys.{FileSys}
use ece391_mp.Rtc.{rtc_close}
use ece391_mp.Files.{Pcb, Tables, closed, close_result, call_close, terminal_close, close}
use ece391_mp.Files.Close.{Known, AllKnown, AllKnown-closed, close_refuses}
use ece391_mp.Screen.{putc}
use ece391_mp.Exec.{Kernel, close_files, halt}
use ece391_mp.Exec.Close.{forgotten, forgotten-AllKnown, put-AllKnown}
use ece391_mp.Exec.Back.{Calls, Works, pid_of, begun}
use ece391_mp.Exec.Halt.{resumed, front, current, same_pcbs, apart, end_process_goes, halt_ends}

module _ (tables : Tables) (hw : Machine) where
  -- A descriptor from 2 on that is in use, with its handlers known, is closed.
  closes :
      (fd : ℕ) (p : Pcb) (h : hw.State)
      → 2 ≤ fd
      → fd ≤ 7
      → p.flags fd ≢ 0
      → Known tables (p.fops fd)
      → (k : hw.State) × (close tables hw fd p h ≡ some (closed tables hw fd p, k, 0))
  unfolding close close_result call_close terminal_close rtc_close
  closes fd p h lo hi used known = elim (eq_cases (p.fops fd) tables.terminal_funcs) [
    | inl e ↦ ((terminal_close tables hw fd h).0, ground arith)
    | inr ne ↦ (h, ground arith)
  ]

  -- What close makes of the entries in use: it takes the descriptor out, if it is not the terminal's.
  abbrev ClosedOne : ℕ → Pcb → hw.State → Type 0
  ClosedOne fd p h =
      (q : Pcb) × (k : hw.State) × (r : ℕ) × (close tables hw fd p h ≡ some (q, k, r))
      × AllKnown tables q
      × ((j : ℕ) → p.flags j ≡ 0 → q.flags j ≡ 0)
      × (2 ≤ fd → fd ≤ 7 → q.flags fd ≡ 0)

  close-ClosedOne : (fd : ℕ) (p : Pcb) (h : hw.State) → AllKnown tables p → ClosedOne fd p h
  close-ClosedOne fd p h known = elim (lt_cases fd 2) [
    | inl low ↦ (
      p,
      h,
      minus_one,
      close_refuses tables hw fd p h (inl low),
      known,
      λ j z. z,
      λ lo hi. absurd (omega arith),
    )
    | inr lo ↦ elim (lt_cases 7 fd) [
      | inl high ↦ (
        p,
        h,
        minus_one,
        close_refuses tables hw fd p h (inr (inl high)),
        known,
        λ j z. z,
        λ lo hi. absurd (omega arith),
      )
      | inr hi ↦ elim (eq_cases (p.flags fd) 0) [
        | inl unused ↦ (
          p,
          h,
          minus_one,
          close_refuses tables hw fd p h (inr (inr unused)),
          known,
          λ j z. z,
          λ lo hi. unused,
        )
        | inr used ↦
            let (k, e) = closes fd p h lo hi used (known fd used) in
            (
              closed tables hw fd p,
              k,
              0,
              e,
              AllKnown-closed tables hw fd p known,
              λ j z. ground arith,
              λ lo hi. ground arith,
            )
      ]
    ]
  ]

  module _ (ended cur : ℕ) (apart : cur ≢ ended) where
    -- The loop goes through, takes no entry of the process `cur` into use, and takes those out that the ended
    -- process uses from the index on.
    abbrev Lost : ℕ → ℕ → (ℕ → Pcb) → hw.State → Type 0
    Lost rounds i pcbs h =
        (after : ℕ → Pcb) × (h' : hw.State) × (close_files tables hw rounds i ended cur pcbs h
          ≡ some (after, h'))
        × ((j : ℕ) → (pcbs cur).flags j ≡ 0 → (after cur).flags j ≡ 0)
        × ((j : ℕ)
            → i ≤ j
            → j < i + rounds
            → 2 ≤ j
            → j ≤ 7
            → (pcbs ended).flags j ≡ 1
            → (after cur).flags j ≡ 0)

    cur_stays :
        (i j : ℕ) (pcbs : ℕ → Pcb)
        → (forgotten tables hw ended cur i pcbs cur).flags j ≡ (pcbs cur).flags j
    cur_stays i j pcbs = ground arith

    others_stay :
        (i j : ℕ) (pcbs : ℕ → Pcb)
        → i < j
        → (forgotten tables hw ended cur i pcbs ended).flags j ≡ (pcbs ended).flags j
    others_stay i j pcbs lt = ground arith

    used_step :
        (r i : ℕ) (pcbs : ℕ → Pcb) (h : hw.State) (one : ClosedOne i (pcbs cur) h)
        → ((pcbs ended).flags i == 1) ≡ true
        → Lost r (i + 1) (forgotten tables hw ended cur i (put pcbs cur one.0)) one.1
        → Lost (suc r) i pcbs h
    unfolding close_files
    used_step r i pcbs h (q, k, c, e, known, mono, clears) used (after, h', goes, keeps, loses) =
        let changed : ℕ → Pcb = put pcbs cur q in
        (
          after,
          h',
          rw used (rw e goes),
          λ j z. keeps j (cur_stays i j changed ∙ ground (arith, mono j z)),
          λ j lo hi two seven u. elim (eq_cases i j) [
            | inl here ↦ keeps j (cur_stays i j changed ∙ ground (arith, clears, here))
            | inr later ↦
                loses j (omega arith) (omega arith) two seven
                  (others_stay i j changed (omega arith) ∙ ground (arith, u))
          ],
        )

    close_files-Lost :
        (rounds i : ℕ) (pcbs : ℕ → Pcb) (h : hw.State)
        → ((q : ℕ) → AllKnown tables (pcbs q))
        → Lost rounds i pcbs h
    unfolding close_files
    close_files-Lost zero i pcbs h known =
        (pcbs, h, refl, λ j z. z, λ j lo hi two seven u. absurd (omega arith))
    close_files-Lost (suc r) i pcbs h known =
        let one : ClosedOne i (pcbs cur) h = close-ClosedOne i (pcbs cur) h (known cur) in
        elim (Bool-cases ((pcbs ended).flags i == 1)) [
          | inl used ↦ used_step r i pcbs h one used (
              close_files-Lost r (i + 1) (forgotten tables hw ended cur i (put pcbs cur one.0))
                one.1
                (forgotten-AllKnown tables hw ended cur i (put pcbs cur one.0)
                  (put-AllKnown tables hw ended cur cur one.0 pcbs one.4 known)))
          | inr unused ↦
              (let (after, h', goes, keeps, loses) =
                  close_files-Lost r (i + 1) (forgotten tables hw ended cur i pcbs) h
                    (forgotten-AllKnown tables hw ended cur i pcbs known) in
                (
                  after,
                  h',
                  rw unused goes,
                  λ j z. keeps j (cur_stays i j pcbs ∙ z),
                  λ j lo hi two seven u. elim (eq_cases i j) [
                    | inl here ↦ absurd (ground (arith, unused, u, here))
                    | inr later ↦
                        loses j (omega arith) (omega arith) two seven
                          (others_stay i j pcbs (omega arith) ∙ u)
                  ],
                ))
        ]

module _ (tables : Tables) (table_addr : ℕ) (hw : Machine) (fs : FileSys)
    (exe dentry stdin stdout : ℕ) (k : Kernel) (par : ℕ) (c : Calls k par) (w : Kernel)
    (works : Works par
      (pid_of tables table_addr fs exe dentry stdin stdout k par c)
      (begun tables table_addr fs exe dentry stdin stdout k par c)
      w) where
  abbrev over : Kernel
  over = resumed tables table_addr hw fs exe dentry stdin stdout k par c w works

  -- Behind halt the parent has none of the descriptors from 2 on that the ended process used, whatever files
  -- of its own it had there.
  pub halt_closes_parent :
      (key_index : ℕ) (h : hw.State)
      → ((q : ℕ) → AllKnown tables (w.pcbs q))
      → w.vidmap_called ≡ 0
      → (k' : Kernel) × (h' : hw.State) × (halt tables table_addr hw key_index w h ≡ some (k', h'))
        × ((j : ℕ)
            → 2 ≤ j
            → j ≤ 7
            → (w.pcbs (pid_of tables table_addr fs exe dentry stdin stdout k par c)).flags j ≡ 1
            → (k'.pcbs par).flags j ≡ 0)
  unfolding halt
  halt_closes_parent key_index h known unmapped =
      let pid : ℕ = pid_of tables table_addr fs exe dentry stdin stdout k par c in
      let s = same_pcbs tables table_addr hw fs exe dentry stdin stdout k par c w works in
      let f = front tables table_addr hw fs exe dentry stdin stdout k par c w works in
      let (after, h', goes, _, loses) =
        close_files-Lost tables hw pid par
          (apart tables table_addr hw fs exe dentry stdin stdout k par c w works) 8 0 over.pcbs h
          (rw s known) in
      (
        record over {
          pcbs = after;
          sched = record over.sched { screen = putc key_index b'\n' over.sched.screen };
        },
        h',
        halt_ends tables table_addr hw key_index w pid par h f.0 f.1 unmapped
            ∙ end_process_goes tables table_addr hw key_index pid par over after h h'
                (current tables table_addr hw fs exe dentry stdin stdout k par c w works) goes,
        λ j two seven u.
            loses j (omega arith) (omega arith) two seven (ap (λ p. (p pid).flags j) s ∙ u),
      )
