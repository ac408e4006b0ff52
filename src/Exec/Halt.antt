-- ===== src/Exec/Halt.antt =====
-- halt as a whole: it comes back, and its parent goes on as it stopped.
use ece391_mp.Prelude.{ℕ, ◌<◌, ◌≡◌, ◌≢◌, refl, ap, ◌∙◌, arith, Option, some}
use ece391_mp.Machine.{Machine}
use ece391_mp.FileSys.{FileSys}
use ece391_mp.Files.{Pcb, Tables}
use ece391_mp.Files.Close.{AllKnown}
use ece391_mp.Screen.{putc}
use ece391_mp.Exec.{Kernel, resume_parent, close_files, end_process, halt}
use ece391_mp.Exec.Close.{close_files-Closed}
use ece391_mp.Exec.Back.{Calls, Works, Back, pid_of, added, begun, begun_facts, resume_parent-Back}

module _ (tables : Tables) (table_addr : ℕ) (hw : Machine) (key_index : ℕ) where
  pub end_process_goes :
      (child cur : ℕ) (u : Kernel) (after : ℕ → Pcb) (h h' : hw.State)
      → u.sched.procs.running_procs u.sched.procs.running_terminal ≡ cur
      → close_files tables hw 8 0 child cur u.pcbs h ≡ some (after, h')
      → end_process tables table_addr hw key_index 0 child u h
        ≡ some (
          record u {
            pcbs = after;
            sched = record u.sched { screen = putc key_index b'\n' u.sched.screen };
          },
          h',
        )
  unfolding end_process
  end_process_goes child cur u after h h' d goes = rw (end_process, d) (rw goes refl)

  pub halt_ends :
      (w : Kernel) (child par : ℕ) (h : hw.State)
      → w.sched.procs.running_procs w.sched.procs.running_terminal ≡ child
      → w.sched.procs.parent child ≡ par
      → w.vidmap_called ≡ 0
      → halt tables table_addr hw key_index w h
        ≡ end_process tables table_addr hw key_index 0 child
            (resume_parent tables table_addr child par w)
            h
  unfolding halt
  halt_ends w child par h a b unmapped =
      let go : ℕ → ℕ → ℕ → Option (Kernel × hw.State) = λ v x p.
        end_process tables table_addr hw key_index v x (resume_parent tables table_addr x p w) h in
      ap (λ x. go w.vidmap_called x (w.sched.procs.parent x)) a
      ∙ ap (λ p. go w.vidmap_called child p) b
      ∙ ap (λ v. go v child par) unmapped

module _ (tables : Tables) (table_addr : ℕ) (hw : Machine) (fs : FileSys)
    (exe dentry stdin stdout : ℕ) (k : Kernel) (par : ℕ) (c : Calls k par) (w : Kernel)
    (works : Works par
      (pid_of tables table_addr fs exe dentry stdin stdout k par c)
      (begun tables table_addr fs exe dentry stdin stdout k par c)
      w) where
  abbrev pub child : ℕ
  child = pid_of tables table_addr fs exe dentry stdin stdout k par c

  abbrev pub resumed : Kernel
  resumed = resume_parent tables table_addr child par w

  back : Back table_addr par child k resumed
  back = resume_parent-Back tables table_addr fs exe dentry stdin stdout k par c w works

  pub front :
      (w.sched.procs.running_procs w.sched.procs.running_terminal ≡ child)
      × (w.sched.procs.parent child ≡ par)
  front =
      let (p, _, _, _, _) = begun_facts tables table_addr fs exe dentry stdin stdout k par c in
      let procs : w.sched.procs ≡ _ = works.procs ∙ p in rw procs (ground arith, ground arith)

  pub current : resumed.sched.procs.running_procs resumed.sched.procs.running_terminal ≡ par
  current = rw back.procs c.foremost

  pub same_pcbs : resumed.pcbs ≡ w.pcbs
  unfolding resume_parent
  same_pcbs = refl

  pub apart : par ≢ child
  apart e =
      c.alive (
        ap k.sched.procs.procs e
        ∙ (added tables table_addr fs exe dentry stdin stdout k par c).free)

  -- With handlers behind the files in use, and no video memory mapped for the program, `halt` comes back:
  -- the parent has its registers, its page and its place in the process table again, and no file of the
  -- ended process is in use.
  pub halt-Back :
      (key_index : ℕ) (h : hw.State)
      → ((q : ℕ) → AllKnown tables (w.pcbs q))
      → w.vidmap_called ≡ 0
      → (k' : Kernel) × (h' : hw.State) × (halt tables table_addr hw key_index w h ≡ some (k', h'))
        × Back table_addr par child k k'
        × ((j : ℕ) → j < 8 → (k'.pcbs child).flags j ≡ 0)
  unfolding halt
  halt-Back key_index h known unmapped =
      let (after, h', goes, _, unused) =
        close_files-Closed tables hw child par 8 0 resumed.pcbs h apart (rw same_pcbs known)
          (λ j lt. absurd (omega arith)) in
      let b : Back table_addr par child k resumed = back in
      (
        record resumed {
          pcbs = after;
          sched = record resumed.sched { screen = putc key_index b'\n' resumed.sched.screen };
        },
        h',
        halt_ends tables table_addr hw key_index w child par h front.0 front.1 unmapped
            ∙ end_process_goes tables table_addr hw key_index child par resumed after h h' current
                goes,
        record { procs = b.procs; esp = b.esp; ebp = b.ebp; page = b.page },
        unused,
      )
