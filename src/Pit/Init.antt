-- ===== src/Pit/Init.antt =====
-- What pit_init makes of the interval timer, and what its interrupts do.
use ece391_mp.Prelude.{ℕ, ◌+◌, ◌*◌, ◌/◌, ◌%◌, ◌≤◌, ◌<◌, ◌≡◌, ◌≢◌, ap, ◌∙◌, arith}
use ece391_mp.Machine.{Machine}
use ece391_mp.Pic.{master_8259_port_dat, enable_irq, unmask}
use ece391_mp.Pic.Irq.{PicMasks, masked, masked-enable_irq}
use ece391_mp.Pit.{int_interval, pit_max_freq, pit_ch0, pit_cmd, pit_mode3, divisor, pit_init}

-- The documented behaviour of the 8253 that the kernel relies on: the command 0x36 makes channel 0 a square wave
-- whose reload value is written with its low byte first; no other port changes the value.
pub record PitChip (hw : Machine) : Type 0 where
  pub reload : hw.State → ℕ
  pub is_low : hw.State → ℕ
  pub low : hw.State → ℕ
  pub outb_mode : (h : hw.State) → is_low (hw.outb pit_mode3 pit_cmd h) ≡ 1
  pub outb_low :
      (v : ℕ) (h : hw.State)
      → v < 256
      → is_low h ≡ 1
      → (is_low (hw.outb v pit_ch0 h) ≡ 0) × (low (hw.outb v pit_ch0 h) ≡ v)
  pub outb_high :
      (v : ℕ) (h : hw.State)
      → v < 256
      → is_low h ≡ 0
      → reload (hw.outb v pit_ch0 h) ≡ low h + 256 * v
  pub outb_other :
      (v port : ℕ) (h : hw.State)
      → port ≢ pit_ch0
      → port ≢ pit_cmd
      → reload (hw.outb v port h) ≡ reload h
  pub inb_other : (port : ℕ) (h : hw.State) → port ≢ pit_ch0 → reload (hw.inb port h).1 ≡ reload h

module _ (hw : Machine) (pit : PitChip hw) (pic : PicMasks hw) where
  enabled : (h : hw.State) → pit.reload (enable_irq hw 0 h) ≡ pit.reload h
  unfolding enable_irq unmask
  enabled h =
      pit.outb_other _ master_8259_port_dat _ (omega arith) (omega arith)
      ∙ pit.inb_other master_8259_port_dat h (omega arith)

  module _ (h : hw.State) where
    abbrev with_mode : hw.State
    with_mode = hw.outb pit_mode3 pit_cmd h

    abbrev with_low : hw.State
    with_low = hw.outb (divisor % 256) pit_ch0 with_mode

    abbrev loaded : hw.State
    loaded = hw.outb (divisor / 256 % 256) pit_ch0 with_low

    reload_is : pit.reload (enable_irq hw 0 loaded) ≡ 17897
    reload_is =
        let (l, v) = pit.outb_low (divisor % 256) with_mode (omega arith) (pit.outb_mode h) in
        enabled loaded
        ∙ pit.outb_high (divisor / 256 % 256) with_low (omega arith) l
        ∙ ap (λ x. x + 256 * (divisor / 256 % 256)) v

    -- pit_init gives the timer the largest number of ticks that take no longer than 15 ms, and takes its
    -- interrupts.
    pub pit_init-reload :
        let r = pit.reload (pit_init hw h) in
        (r * 1000 ≤ int_interval * pit_max_freq)
        × (int_interval * pit_max_freq < (r + 1) * 1000)
        × (masked hw pic (pit_init hw h) 0 ≡ 0)
    unfolding pit_init
    pit_init-reload = (
      omega (arith, reload_is),
      omega (arith, reload_is),
      masked-enable_irq hw pic 0 0 loaded (omega arith) (omega arith),
    )
