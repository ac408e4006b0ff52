-- ===== src/Idt/Vectors.antt =====
-- Which handler each vector leads to after init_idt.
use ece391_mp.Prelude.{
  ℕ, zero, suc, ◌+◌, ◌-◌, ◌*◌, ◌%◌, ◌<◌, ◌≡◌, inl, inr, refl, arith, ltb, leb, ◌==◌, ◌&&◌, ◌||◌,
  if◌then◌else◌, eq_cases,
}
use ece391_mp.Prelude.Memory.{put}
use ece391_mp.Idt.{
  Gate, Handlers, set_handler_address, set_idt_entry, provisional_gate, provisional_loop, set_run,
  setup_idt_exceptions, setup_idt_interrupts, init_idt,
}

provisional_loop_lem :
    (rounds n j : ℕ) (h : Handlers) (idt : ℕ → Gate)
    → provisional_loop rounds n h idt j
      ≡ (if leb n j && ltb j (n + rounds) then provisional_gate h j (idt j) else idt j)
unfolding provisional_loop
provisional_loop_lem zero n j h idt = ground arith
provisional_loop_lem (suc r) n j h idt = elim (eq_cases n j) [
  | inl e ↦ rw e (
      ground (arith, provisional_loop_lem r (j + 1) j h (put idt j (provisional_gate h j (idt j)))))
  | inr ne ↦
      ground (arith, provisional_loop_lem r (n + 1) j h (put idt n (provisional_gate h n (idt n))))
]

set_run_lem :
    (rounds n i j : ℕ) (handler : ℕ → ℕ) (idt : ℕ → Gate)
    → set_run rounds n i handler idt j ≡ (
        if leb n j && ltb j (n + rounds)
        then set_handler_address (handler (i + j - n)) (idt j)
        else idt j)
unfolding set_run
set_run_lem zero n i j handler idt = ground arith
set_run_lem (suc r) n i j handler idt = elim (eq_cases n j) [
  | inl e ↦
      rw e
        (ground (arith, set_run_lem r (j + 1) (i + 1) j handler (set_idt_entry idt j (handler i))))
  | inr ne ↦
      ground (arith, set_run_lem r (n + 1) (i + 1) j handler (set_idt_entry idt n (handler i)))
]

-- The handler of a vector: the exceptions, the lines 0 to 9 and 13 to 15 and the system call have one,
-- and the others get the provisional interrupt.
abbrev pub handler_of : Handlers → ℕ → ℕ
handler_of h n =
    if ltb n 32
    then h.excpt n
    else if ltb n 42 || (leb 45 n && ltb n 48)
    then h.irq (n - 32)
    else if n == 0x80
    then h.sys_call
    else h.provisional_interrupt

-- A gate that the processor takes: present, a 32-bit interrupt gate of the kernel's code segment.
pub record IsGate (g : Gate) (handler dpl : ℕ) : Type 0 where
  pub address : g.offset_31_16 * 65536 + g.offset_15_00 ≡ handler % 4294967296
  pub present : g.present ≡ 1
  pub level : g.dpl ≡ dpl
  pub selector : g.seg_selector ≡ 0x10
  pub interrupt_gate :
      (g.reserved4 ≡ 0)
      × (g.reserved3 ≡ 0)
      × (g.reserved2 ≡ 1)
      × (g.reserved1 ≡ 1)
      × (g.size ≡ 1)
      × (g.reserved0 ≡ 0)

init_idt-eq :
    (h : Handlers) (idt : ℕ → Gate) (n : ℕ)
    → n < 256
    → init_idt h idt n ≡ set_handler_address (handler_of h n) (provisional_gate h n (idt n))
unfolding init_idt setup_idt_interrupts setup_idt_exceptions
init_idt-eq h idt n lt =
    let first : ℕ → Gate = provisional_loop 256 0 h idt in
    let second : ℕ → Gate = set_run 32 0 0 h.excpt first in
    let third : ℕ → Gate = set_run 10 32 0 h.irq second in
    ground (
      arith,
      provisional_loop_lem 256 0 n h idt,
      set_run_lem 32 0 0 n h.excpt first,
      set_run_lem 10 32 0 n h.irq second,
      set_run_lem 3 45 13 n h.irq third,
    )

-- After `init_idt` every one of the 256 vectors is an interrupt gate to its handler, and only the
-- system call can be raised by a program.
pub init_idt-IsGate :
    (h : Handlers) (idt : ℕ → Gate) (n : ℕ)
    → n < 256
    → IsGate (init_idt h idt n) (handler_of h n) (if n == 0x80 then 3 else 0)
init_idt-IsGate h idt n lt = rw (init_idt-eq h idt n lt) (record {
  address = omega arith;
  present = refl;
  level = refl;
  selector = refl;
  interrupt_gate = (refl, refl, refl, refl, refl, refl);
})
