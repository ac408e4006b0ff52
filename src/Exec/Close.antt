-- ===== src/Exec/Close.antt =====
-- The loop of halt over the files of the ended process.
use ece391_mp.Prelude.{
  ℕ, zero, suc, ◌+◌, ◌<◌, ◌≡◌, ◌≢◌, inl, inr, refl, arith, some, ◌==◌, Bool-cases, eq_cases,
}
use ece391_mp.Prelude.Memory.{put}
use ece391_mp.Machine.{Machine}
use ece391_mp.Files.{Pcb, Tables}
use ece391_mp.Files.Close.{AllKnown, close-AllKnown}
use ece391_mp.Exec.{forget, close_files}

-- With handlers behind the entries in use, the loop goes through, they are still known, and the first
-- entries of the ended process, as many as there were rounds, are unused.
abbrev pub Closed : (tables : Tables) (hw : Machine) → ℕ → ℕ → ℕ → ℕ → (ℕ → Pcb) → hw.State → Type 0
Closed tables hw rounds i child cur pcbs h =
    (after : ℕ → Pcb) × (h' : hw.State) × (close_files tables hw rounds i child cur pcbs h
      ≡ some (after, h'))
    × ((q : ℕ) → AllKnown tables (after q))
    × ((j : ℕ) → j < i + rounds → (after child).flags j ≡ 0)

module _ (tables : Tables) (hw : Machine) (child cur : ℕ) where
  abbrev pub forgotten : ℕ → (ℕ → Pcb) → ℕ → Pcb
  forgotten i pcbs = put pcbs child (forget i (pcbs child))

  pub forgotten-AllKnown :
      (i : ℕ) (pcbs : ℕ → Pcb)
      → ((q : ℕ) → AllKnown tables (pcbs q))
      → (q : ℕ) → AllKnown tables (forgotten i pcbs q)
  forgotten-AllKnown i pcbs known q = elim (eq_cases child q) [
    | inl same ↦ (λ e n. ground (arith, same, known child e))
    | inr other ↦ (λ e n. ground (arith, other, known q e))
  ]

  pub put-AllKnown :
      (c : ℕ) (p : Pcb) (pcbs : ℕ → Pcb)
      → AllKnown tables p
      → ((q : ℕ) → AllKnown tables (pcbs q))
      → (q : ℕ) → AllKnown tables (put pcbs c p q)
  put-AllKnown c p pcbs of_p known q = elim (eq_cases c q) [
    | inl same ↦ (λ e n. ground (arith, same, of_p e))
    | inr other ↦ (λ e n. ground (arith, other, known q e))
  ]

  forgotten_flags :
      (i : ℕ) (pcbs : ℕ → Pcb)
      → ((j : ℕ) → j < i → (pcbs child).flags j ≡ 0)
      → (j : ℕ) → j < i + 1
      → (forgotten i pcbs child).flags j ≡ 0
  forgotten_flags i pcbs done j lt = ground (arith, done j)

  pub close_files-Closed :
      (rounds i : ℕ) (pcbs : ℕ → Pcb) (h : hw.State)
      → cur ≢ child
      → ((q : ℕ) → AllKnown tables (pcbs q))
      → ((j : ℕ) → j < i → (pcbs child).flags j ≡ 0)
      → Closed tables hw rounds i child cur pcbs h
  unfolding close_files
  close_files-Closed zero i pcbs h apart known done =
      (pcbs, h, refl, known, λ j lt. done j (omega arith))
  close_files-Closed (suc r) i pcbs h apart known done =
      let (p, k, result, returns, known_p) = close-AllKnown tables hw i (pcbs cur) h (known cur) in
      let changed : ℕ → Pcb = put pcbs cur p in
      elim (Bool-cases ((pcbs child).flags i == 1)) [
        | inl used ↦
            (let (after, h', goes, all, zeros) =
                close_files-Closed r (i + 1) (forgotten i changed) k apart
                  (forgotten-AllKnown i changed (put-AllKnown cur p pcbs known_p known))
                  (forgotten_flags i changed (λ j lt. ground (arith, done j))) in
              (after, h', rw used (rw returns goes), all, λ j lt. zeros j (omega arith)))
        | inr unused ↦
            (let (after, h', goes, all, zeros) =
                close_files-Closed r (i + 1) (forgotten i pcbs) h apart
                  (forgotten-AllKnown i pcbs known) (forgotten_flags i pcbs done) in
              (after, h', rw unused goes, all, λ j lt. zeros j (omega arith)))
      ]
