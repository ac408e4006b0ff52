-- ===== src/Files/Close.antt =====
-- When `close` closes an entry, and that it undoes `open`.
use ece391_mp.Prelude.{
  ℕ, ◌≤◌, ◌<◌, ◌≡◌, ◌≢◌, ◌⊎◌, inl, inr, refl, arith, some, eq_cases, lt_cases, ◌==◌, if◌then◌else◌,
}
use ece391_mp.Prelude.Words.{minus_one}
use ece391_mp.FileSys.{Dentry}
use ece391_mp.Machine.{Machine}
use ece391_mp.Rtc.{rtc_close}
use ece391_mp.Files.{Tables, Pcb, closed, close_result, call_close, terminal_close, close}
use ece391_mp.Files.Open.{Opened, funcs_of}

-- The pointer is to one of the four tables of operations.
abbrev pub Known : Tables → ℕ → Type 0
Known tables a =
    (a ≡ tables.terminal_funcs)
    ⊎ (a ≡ tables.rtc_funcs)
    ⊎ (a ≡ tables.fsys_funcs)
    ⊎ (a ≡ tables.dir_funcs)

-- An entry that is in use has handlers.
abbrev pub AllKnown : Tables → Pcb → Type 0
AllKnown tables p = (e : ℕ) → p.flags e ≢ 0 → Known tables (p.fops e)

-- The table of the terminal is none of the others.
pub record Apart (tables : Tables) : Type 0 where
  pub rtc : tables.rtc_funcs ≢ tables.terminal_funcs
  pub fsys : tables.fsys_funcs ≢ tables.terminal_funcs
  pub dir : tables.dir_funcs ≢ tables.terminal_funcs

-- `open` keeps a handler behind every entry in use.
pub Opened-AllKnown :
    (tables : Tables) (d : Dentry) (p q : Pcb) (fd : ℕ)
    → Opened tables d p q fd
    → AllKnown tables p
    → AllKnown tables q
unfolding funcs_of
Opened-AllKnown tables d p q fd o h e n = elim (eq_cases e fd) [
  | inl same ↦ rw same (ground (arith, o.funcs))
  | inr ne ↦ ground (arith, o.others e ne, h e)
]

rtc_close_zero : rtc_close ≡ 0
unfolding rtc_close
rtc_close_zero = refl

module _ (tables : Tables) (hw : Machine) where
  -- A descriptor that is out of range, one of the terminal's own two, or not in use, is refused with
  -- -1, and nothing changes.
  pub close_refuses :
      (fd : ℕ) (p : Pcb) (h : hw.State)
      → (fd < 2) ⊎ (7 < fd) ⊎ (p.flags fd ≡ 0)
      → close tables hw fd p h ≡ some (p, h, minus_one)
  unfolding close
  close_refuses fd p h bad = ground arith

  handler_returns :
      (a fd : ℕ) (h : hw.State)
      → Known tables a
      → (k : hw.State) × (r : ℕ) × (call_close tables hw a fd h ≡ some (k, r))
  unfolding call_close
  handler_returns a fd h known = elim (eq_cases a tables.terminal_funcs) [
    | inl e ↦ ((terminal_close tables hw fd h).0, (terminal_close tables hw fd h).1, ground arith)
    | inr ne ↦ (h, 0, ground (arith, rtc_close_zero))
  ]

  pub AllKnown-closed :
      (fd : ℕ) (p : Pcb) → AllKnown tables p → AllKnown tables (closed tables hw fd p)
  AllKnown-closed fd p known e n = ground (arith, known e)

  goes_through :
      (fd : ℕ) (p : Pcb) (h k : hw.State) (r : ℕ)
      → 2 ≤ fd
      → fd ≤ 7
      → p.flags fd ≢ 0
      → call_close tables hw (p.fops fd) fd h ≡ some (k, r)
      → close tables hw fd p h
        ≡ some (if r == 0 then (closed tables hw fd p, k, 0) else (p, k, minus_one))
  unfolding close close_result
  goes_through fd p h k r lo hi used e = ground arith

  after :
      (fd : ℕ) (p : Pcb) (h : hw.State)
      → 2 ≤ fd
      → fd ≤ 7
      → p.flags fd ≢ 0
      → AllKnown tables p
      → (k : hw.State) × (r : ℕ) × (call_close tables hw (p.fops fd) fd h ≡ some (k, r))
      → (q : Pcb) × (k : hw.State) × (r : ℕ) × (close tables hw fd p h ≡ some (q, k, r))
        × AllKnown tables q
  after fd p h lo hi used known (k, r, e) =
      let g = goes_through fd p h k r lo hi used e in
      elim (eq_cases r 0) [
        | inl z ↦ (closed tables hw fd p, k, 0, ground (arith, g), AllKnown-closed fd p known)
        | inr nz ↦ (p, k, minus_one, ground (arith, g), known)
      ]

  -- With a handler behind every entry in use `close` returns for every descriptor, and after it every
  -- entry in use still has a handler.
  pub close-AllKnown :
      (fd : ℕ) (p : Pcb) (h : hw.State)
      → AllKnown tables p
      → (q : Pcb) × (k : hw.State) × (r : ℕ) × (close tables hw fd p h ≡ some (q, k, r))
        × AllKnown tables q
  close-AllKnown fd p h known = elim (lt_cases fd 2) [
    | inl low ↦ (p, h, minus_one, close_refuses fd p h (inl low), known)
    | inr lo ↦ elim (lt_cases 7 fd) [
      | inl high ↦ (p, h, minus_one, close_refuses fd p h (inr (inl high)), known)
      | inr hi ↦ elim (eq_cases (p.flags fd) 0) [
        | inl unused ↦ (p, h, minus_one, close_refuses fd p h (inr (inr unused)), known)
        | inr used ↦
            after fd p h lo hi used known (handler_returns (p.fops fd) fd h (known fd used))
      ]
    ]
  ]

  -- After a file has been opened, `close` of its descriptor returns 0 and leaves the machine alone, and
  -- the entries in use are those from before `open`, so the next `open` gets the same descriptor.
  pub close-open :
      (d : Dentry) (p q : Pcb) (fd : ℕ) (h : hw.State)
      → Apart tables
      → Opened tables d p q fd
      → (close tables hw fd q h ≡ some (closed tables hw fd q, h, 0))
        × ((e : ℕ) → (closed tables hw fd q).flags e ≡ p.flags e)
        × ((e i : ℕ) → e ≢ fd → (closed tables hw fd q).file_name e i ≡ q.file_name e i)
  unfolding close close_result call_close funcs_of rtc_close
  close-open d p q fd h apart o = (
    ground (arith, o.funcs, o.low, o.high, o.in_use, apart.rtc, apart.fsys, apart.dir),
    λ e. elim (eq_cases e fd) [
      | inl same ↦ ground (arith, o.unused)
      | inr ne ↦ ground (arith, o.others e ne)
    ],
    λ e i ne. ground arith,
  )
