-- ===== src/Idt/Tests.antt =====
-- The vectors of a table that was empty.
use ece391_mp.Prelude.{◌+◌, ◌*◌, arith}
use ece391_mp.Idt.{Gate, Handlers, init_idt}
use ece391_mp.Idt.Vectors.{handler_of, IsGate, init_idt-IsGate}

abbrev handlers : Handlers
handlers = record {
  excpt = λ n. 0x401000 + 16 * n;
  irq = λ n. 0x402000 + 16 * n;
  sys_call = 0x403000;
  provisional_exception = 0x404000;
  provisional_interrupt = 0x405000;
}

abbrev empty_gate : Gate
empty_gate = record {
  offset_15_00 = 0;
  seg_selector = 0;
  reserved4 = 0;
  reserved3 = 0;
  reserved2 = 0;
  reserved1 = 0;
  size = 0;
  reserved0 = 0;
  dpl = 0;
  present = 0;
  offset_31_16 = 0;
}

init_idt_example : IsGate (init_idt handlers (λ n. empty_gate) 33) (handler_of handlers 33) 0
init_idt_example = init_idt-IsGate handlers (λ n. empty_gate) 33 (omega arith)
