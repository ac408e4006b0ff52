-- ===== src/Machine.antt =====
-- What the kernel uses of the machine: byte reads and writes of I/O ports. The hardware is a parameter
-- of the drivers, and each driver names the documented behaviour of its device that it relies on.
use ece391_mp.Prelude.{ℕ}

pub record Machine : Type 1 where
  pub State : Type 0
  -- `outb(value, port)`; the instruction writes the low byte of the value.
  pub outb : ℕ → ℕ → State → State
  -- `inb(port)`, with the state after it: a read can have effects.
  pub inb : ℕ → State → ℕ × State
