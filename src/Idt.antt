-- ===== src/Idt.antt =====
-- student-distrib/idt.c: the table of the processor's 256 vectors.
pub mod Messages
pub mod Print
pub mod Vectors
pub mod Tests
use ece391_mp.Prelude.{ℕ, zero, suc, ◌+◌, ◌-◌, ◌*◌, ◌/◌, ◌%◌, Bool, ltb, leb, ◌==◌, if◌then◌else◌}
use ece391_mp.Prelude.Memory.{put}

-- `idt_desc_t`
pub record Gate : Type 0 where
  pub offset_15_00 : ℕ
  pub seg_selector : ℕ
  pub reserved4 : ℕ
  pub reserved3 : ℕ
  pub reserved2 : ℕ
  pub reserved1 : ℕ
  pub size : ℕ
  pub reserved0 : ℕ
  pub dpl : ℕ
  pub present : ℕ
  pub offset_31_16 : ℕ

-- The addresses of the handlers, which the linker chooses: `excpt n` is `excptN_handler`, and `irq n` the
-- entry of the assembly for the line `n`.
pub record Handlers : Type 0 where
  pub excpt : ℕ → ℕ
  pub irq : ℕ → ℕ
  pub sys_call : ℕ
  pub provisional_exception : ℕ
  pub provisional_interrupt : ℕ

abbrev pub num_vec : ℕ
num_vec = 256

abbrev pub sys_call_vector : ℕ
sys_call_vector = 0x80

abbrev pub kernel_cs : ℕ
kernel_cs = 0x0010

-- `SET_IDT_ENTRY`
abbrev pub set_handler_address : ℕ → Gate → Gate
set_handler_address handler g = record g {
  offset_31_16 = handler / 65536 % 65536;
  offset_15_00 = handler % 65536;
}

abbrev pub set_idt_entry : (ℕ → Gate) → ℕ → ℕ → ℕ → Gate
set_idt_entry idt n handler = put idt n (set_handler_address handler (idt n))

-- The body of the loop of `init_idt`.
abbrev pub provisional_gate : Handlers → ℕ → Gate → Gate
provisional_gate h n g =
    set_handler_address (if ltb n 32 then h.provisional_exception else h.provisional_interrupt)
      (record g {
        present = 1;
        dpl = if n == sys_call_vector then 3 else 0;
        reserved0 = 0;
        size = 1;
        reserved1 = 1;
        reserved2 = 1;
        reserved3 = 0;
        reserved4 = 0;
        seg_selector = kernel_cs;
      })

unfoldable pub provisional_loop : ℕ → ℕ → Handlers → (ℕ → Gate) → ℕ → Gate
provisional_loop zero n h idt = idt
provisional_loop (suc rounds) n h idt =
    provisional_loop rounds (n + 1) h (put idt n (provisional_gate h n (idt n)))

-- A run of lines `SET_IDT_ENTRY(idt[n], ...)` with the handlers from `i` on.
unfoldable pub set_run : ℕ → ℕ → ℕ → (ℕ → ℕ) → (ℕ → Gate) → ℕ → Gate
set_run zero n i handler idt = idt
set_run (suc rounds) n i handler idt =
    set_run rounds (n + 1) (i + 1) handler (set_idt_entry idt n (handler i))

unfoldable pub setup_idt_exceptions : Handlers → (ℕ → Gate) → ℕ → Gate
setup_idt_exceptions h idt = set_run 32 0 0 h.excpt idt

-- The lines 10, 11 and 12 are left out.
unfoldable pub setup_idt_interrupts : Handlers → (ℕ → Gate) → ℕ → Gate
setup_idt_interrupts h idt = set_run 3 45 13 h.irq (set_run 10 32 0 h.irq idt)

unfoldable pub init_idt : Handlers → (ℕ → Gate) → ℕ → Gate
init_idt h idt =
    let set : ℕ → Gate =
      setup_idt_interrupts h (setup_idt_exceptions h (provisional_loop num_vec 0 h idt)) in
    set_idt_entry set sys_call_vector h.sys_call
