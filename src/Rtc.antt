-- ===== src/Rtc.antt =====
-- student-distrib/rtc.c: the real-time clock runs at 1024 Hz, and the driver divides it down to a
-- frequency that a program sets.
pub mod Write
pub mod Tick
pub mod Read
pub mod Tests
use Prim.Native.Nat.{bit_and, bit_or}
use ece391_mp.Prelude.{
  ℕ, zero, suc, ◌+◌, ◌-◌, ◌/◌, ◌%◌, Bool, true, false, not, Option, none, some, ltb, ◌==◌, ◌&&◌,
  ◌||◌, if◌then◌else◌,
}
use ece391_mp.Prelude.Words.{u8, u32, minus_one, is_neg, sub32}
use ece391_mp.Prelude.Memory.{Memory, load32}
use ece391_mp.Machine.{Machine}
use ece391_mp.Pic.{enable_irq, send_eoi}

abbrev pub max_freq : ℕ
max_freq = 1024

abbrev pub def_freq : ℕ
def_freq = 2

abbrev pub rtc_irq : ℕ
rtc_irq = 8

abbrev pub rtc_port : ℕ
rtc_port = 0x70

abbrev pub cmos_port : ℕ
cmos_port = 0x71

-- `IR_flag`, `clk` and `virtual_freq`; the frequency is the bit pattern of an `int32_t`.
pub record Rtc : Type 0 where
  pub ir_flag : ℕ
  pub clk : ℕ
  pub virtual_freq : ℕ

-- The size of `MAX_FREQ / virtual_freq`; the sign does not matter to the remainder by it.
abbrev pub period : ℕ → ℕ
period freq = max_freq / (if is_neg freq then 4294967296 - freq else freq)

-- The count of `rtc_handler` and its flag; `none` is a division by zero.
unfoldable pub tick : Rtc → Option Rtc
tick r =
    let t = record r { clk = (r.clk + 1) % max_freq } in
    if t.virtual_freq == 0
    then some t
    else if period t.virtual_freq == 0
    then none
    else some (if t.clk % period t.virtual_freq == 0 then record t { ir_flag = 1 } else t)

-- The checks of `rtc_write` on the frequency.
unfoldable pub is_allowed : ℕ → Bool
is_allowed freq =
    not (not (is_neg freq) && ltb max_freq freq)
    && not (freq == 1)
    && bit_and freq (sub32 freq 1) == 0

-- The write of a frequency that has been read from the buffer.
unfoldable pub set_frequency : Rtc → ℕ → Rtc × ℕ
set_frequency r freq =
    if is_allowed freq then (record r { virtual_freq = freq }, 4) else (r, minus_one)

unfoldable pub rtc_write : Rtc → Memory → ℕ → ℕ → Rtc × ℕ
rtc_write r m buf nbytes =
    if not (nbytes == 4) || buf == 0 then (r, minus_one) else set_frequency r (load32 m buf)

-- `while (!IR_flag)` with the interrupts that come during the wait, at most `fuel`: an interrupt that
-- divides by zero does not return, and `none` says that the read has not returned.
unfoldable pub rtc_read : ℕ → Rtc → Option (Rtc × ℕ)
rtc_read zero r = if r.ir_flag == 0 then none else some (record r { ir_flag = 0 }, 0)
rtc_read (suc fuel) r = elim (r.ir_flag == 0) [
  | true ↦ elim (tick r) [ none ↦ none | some t ↦ rtc_read fuel t ]
  | false ↦ some (record r { ir_flag = 0 }, 0)
]

module _ (hw : Machine) where
  open hw use {State, outb, inb}

  unfoldable pub rtc_handler : Rtc → State → Option (Rtc × State)
  rtc_handler r h = elim (tick r) [
    | none ↦ none
    | some t ↦ some (t, send_eoi hw rtc_irq (inb cmos_port (outb 0x0C rtc_port h)).1)
  ]

  -- The default frequency is written from a constant of 4 bytes.
  unfoldable pub rtc_open : Rtc → State → Rtc × State × ℕ
  rtc_open r h = (record (set_frequency r def_freq).0 { clk = 0 }, enable_irq hw rtc_irq h, 0)

  unfoldable pub rtc_init : Rtc → State → Rtc × State
  unfolding rtc_open
  rtc_init r h =
      let h1 = outb (bit_or 0x0B 0x80) rtc_port h in
      let (b, h2) = inb cmos_port h1 in
      let h3 = outb (bit_or 0x40 b) cmos_port h2 in
      let h4 = outb (bit_or 0x80 0x0A) rtc_port h3 in
      let (a, h5) = inb cmos_port h4 in
      let h6 = outb (bit_or (bit_and a 0xF0) 0x06) cmos_port h5 in
      let (r', h7, n) = rtc_open r h6 in (r', enable_irq hw rtc_irq h7)

  unfoldable pub rtc_get_rate : State → ℕ × State
  rtc_get_rate h =
      let (a, h') = inb cmos_port (outb (bit_or 0x80 0x0A) rtc_port h) in (bit_and (u8 a) 0x0F, h')

  unfoldable pub rtc_is_on : State → ℕ × State
  rtc_is_on h =
      let (b, h') = inb cmos_port (outb (bit_or 0x0B 0x80) rtc_port h) in
      (if bit_and 0x40 b == 0 then 0 else 1, h')

unfoldable pub rtc_close : ℕ
rtc_close = 0
