-- ===== src/Idt/Messages.antt =====
-- The handlers of student-distrib/idt.c and student-distrib/irq_handle.c, which print a message. An
-- exception handler then loops for ever, and an interrupt handler ends the interrupt.
use Prim.Native.String.{String}
use Prim.Native.Char.{code}
use ece391_mp.Prelude.{ℕ, List, [], ◌∷◌, get_or, Option, none, some}
use ece391_mp.Machine.{Machine}
use ece391_mp.Screen.{Screen}
use ece391_mp.Printf.{printf}

-- The bytes of an ASCII text.
abbrev pub codes : String → List ℕ
codes String.[] = []
codes (String.◌∷◌ c s) = code c ∷ codes s

-- The message of `excptN_handler`, by N.
unfoldable pub excpt_messages : List String
excpt_messages =
    "EXCEPTION0: Divide by Zero Error\n" ∷ "EXCEPTION1: Debug\n" ∷ "EXCEPTION2: NMI Interrupt\n"
    ∷ "EXCEPTION3: Breakpoint\n" ∷ "EXCEPTION4: Overflow" ∷ "EXCEPTION5: BOUND Range Exceeded"
    ∷ "EXCEPTION6: Invalid Opcode" ∷ "EXCEPTION7: Device Not Available"
    ∷ "EXCEPTION8: double fault\n" ∷ "EXCEPTION9: Coprocessor Segment Overrun"
    ∷ "EXCEPTION10: Invalid TSS" ∷ "EXCEPTION11: Segment Not Present\n"
    ∷ "EXCEPTION12: Stack Fault\n" ∷ "EXCEPTION13: General Protection" ∷ "EXCEPTION14: Page Fault\n"
    ∷ "EXCEPTION15: Reserved for Intel" ∷ "EXCEPTION16: Floating-Point Error"
    ∷ "EXCEPTION17: Alignment Check" ∷ "EXCEPTION18: Machine Check"
    ∷ "EXCEPTION19: SIMD Floating-Point\n" ∷ "EXCEPTION20: Virtualization Exception"
    ∷ "EXCEPTION21: Reserved for Intel" ∷ "EXCEPTION22: Reserved for Intel"
    ∷ "EXCEPTION23: Reserved for Intel" ∷ "EXCEPTION24: Reserved for Intel"
    ∷ "EXCEPTION25: Reserved for Intel" ∷ "EXCEPTION26: Reserved for Intel"
    ∷ "EXCEPTION27: Reserved for Intel" ∷ "EXCEPTION28: Reserved for Intel"
    ∷ "EXCEPTION29: Reserved for Intel" ∷ "EXCEPTION30: Security Explination"
    ∷ "EXCEPTION31: Reserved for Intel" ∷ []

-- The message of `irqN_handler`, by N.
unfoldable pub irq_messages : List String
irq_messages =
    "Interrupt0: System timer" ∷ "Interrupt1: Keyboard controller" ∷ "Interrupt2: Slave cascade"
    ∷ "Interrupt3: Serial port 2 controller" ∷ "Interrupt4: Serial port 1 controller"
    ∷ "Interrupt5: Parallel port 2/3 OR sound card" ∷ "Interrupt6: Floppy disk controller"
    ∷ "Interrupt7: Parallel port 1" ∷ "Interrupt8: RTC interrupt"
    ∷ "Interrupt9: ACPI system control interrupt" ∷ "Interrupt10: Open interrupt for peripherals"
    ∷ "Interrupt11: Open interrupt for peripherals" ∷ "Interrupt12: Mouse"
    ∷ "Interrupt13: Inter-processor interupt" ∷ "Interrupt14: Primary ATA channel"
    ∷ "Interrupt15: Secondary ATA channel" ∷ []

module _ (key_index fuel : ℕ) (args : ℕ → ℕ) (conv_buf : ℕ) where
  -- The screen on which `excptN_handler` loops.
  unfoldable pub excpt_handler : ℕ → Screen → Option (Screen × ℕ)
  excpt_handler n s = printf key_index fuel (codes (get_or excpt_messages n "")) args conv_buf s

  unfoldable pub provisional_exception : Screen → Option (Screen × ℕ)
  provisional_exception s =
      printf key_index fuel (codes "provisional exception: EMPTY") args conv_buf s

  unfoldable pub provisional_interrupt : Screen → Option (Screen × ℕ)
  provisional_interrupt s =
      printf key_index fuel (codes "provisional interrupt: EMPTY") args conv_buf s

  -- `irqN_handler`; `cli` and `sti` are left out.
  unfoldable pub irq_handler : (hw : Machine) → ℕ → Screen → hw.State → Option (Screen × hw.State)
  irq_handler hw n s h =
      elim (printf key_index fuel (codes (get_or irq_messages n "")) args conv_buf s) [
        | none ↦ none
        | some (t, r) ↦ some (t, hw.outb 0x20 0x20 h)
      ]
