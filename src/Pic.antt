-- ===== src/Pic.antt =====
-- student-distrib/i8259.c: the two interrupt controllers.
pub mod Bits
pub mod Irq
pub mod Tests
use Prim.Native.Nat.{bit_and, bit_or}
use ece391_mp.Prelude.{ℕ, ◌+◌, ◌-◌, ◌%◌, ◌^◌, Bool, ltb, leb, ◌&&◌, if◌then◌else◌}
use ece391_mp.Prelude.Words.{u8}
use ece391_mp.Machine.{Machine}

abbrev pub master_8259_port : ℕ
master_8259_port = 0x20

abbrev pub master_8259_port_dat : ℕ
master_8259_port_dat = 0x21

abbrev pub slave_8259_port : ℕ
slave_8259_port = 0xA0

abbrev pub slave_8259_port_dat : ℕ
slave_8259_port_dat = 0xA1

abbrev pub eoi : ℕ
eoi = 0x60

abbrev pub irq_amnt : ℕ
irq_amnt = 8

abbrev pub irq2 : ℕ
irq2 = 2

-- `1 << n`; the processor takes the count modulo 32.
abbrev pub one_shl : ℕ → ℕ
one_shl n = 2 ^ (n % 32)

-- `x & ~(1 << n)` and `x | (1 << n)`, of which `outb` writes the low byte.
unfoldable pub clear_bit : ℕ → ℕ → ℕ
clear_bit x n = u8 (bit_and x (4294967295 - one_shl n))

unfoldable pub set_bit : ℕ → ℕ → ℕ
set_bit x n = u8 (bit_or x (one_shl n))

module _ (hw : Machine) where
  open hw use {State, outb, inb}

  -- `outb(inb(port) & ~(1 << n), port)`
  unfoldable pub unmask : ℕ → ℕ → State → State
  unmask port n h = let (v, h') = inb port h in outb (clear_bit v n) port h'

  -- `outb(inb(port) | (1 << n), port)`
  unfoldable pub mask : ℕ → ℕ → State → State
  mask port n h = let (v, h') = inb port h in outb (set_bit v n) port h'

  unfoldable pub i8259_init : State → State
  i8259_init h =
      let h1 = outb 0x11 slave_8259_port (outb 0x11 master_8259_port h) in
      let h2 = outb 0x28 slave_8259_port_dat (outb 0x20 master_8259_port_dat h1) in
      let h3 = outb 0x02 slave_8259_port_dat (outb 0x04 master_8259_port_dat h2) in
      let h4 = outb 0x01 slave_8259_port_dat (outb 0x01 master_8259_port_dat h3) in
      outb 0xFF slave_8259_port_dat (outb 0xFF master_8259_port_dat h4)

  unfoldable pub enable_irq : ℕ → State → State
  enable_irq irq_num h =
      if leb irq_amnt irq_num && ltb irq_num (irq_amnt + irq_amnt)
      then unmask slave_8259_port_dat (irq_num % irq_amnt) (unmask master_8259_port_dat irq2 h)
      else unmask master_8259_port_dat irq_num h

  -- The guard is `irq_num < IRQ_AMNT`, so the lines of the master go to the slave's port.
  unfoldable pub disable_irq : ℕ → State → State
  disable_irq irq_num h =
      if ltb irq_num irq_amnt
      then mask slave_8259_port_dat (irq_num % irq_amnt) (mask master_8259_port_dat irq2 h)
      else mask master_8259_port_dat irq_num h

  unfoldable pub send_eoi : ℕ → State → State
  send_eoi irq_num h =
      if ltb irq_num irq_amnt
      then outb (u8 (bit_or eoi irq_num)) master_8259_port h
      else outb (u8 (bit_or eoi irq2)) master_8259_port
          (outb (u8 (bit_or eoi (irq_num % irq_amnt))) slave_8259_port h)
