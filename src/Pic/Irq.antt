-- ===== src/Pic/Irq.antt =====
-- Which interrupt lines `enable_irq`, `disable_irq` and `send_eoi` act on.
use Prim.Native.Nat.{bit_or}
use ece391_mp.Prelude.{
  ℕ, ◌+◌, ◌-◌, ◌%◌, ◌<◌, ◌≡◌, refl, ap, Bool, false, ◌&&◌, ◌||◌, arith, ltb, leb, ◌==◌,
  if◌then◌else◌, lt_cases, ==→eq, inl, inr,
}
use ece391_mp.Prelude.Words.{u8}
use ece391_mp.Machine.{Machine}
use ece391_mp.Pic.{
  master_8259_port_dat, slave_8259_port_dat, clear_bit, set_bit, unmask, mask, enable_irq,
  disable_irq, send_eoi, eoi, master_8259_port, slave_8259_port,
}
use ece391_mp.Pic.Bits.{bit, bit-clear_bit, bit-set_bit, all_below, all_below_sound}

-- What the kernel relies on of the two controllers once they are initialised: a data port is read and
-- written as the controller's mask of its eight lines.
pub record PicMasks (hw : Machine) : Type 0 where
  pub master : hw.State → ℕ
  pub slave : hw.State → ℕ
  pub master_byte : (h : hw.State) → master h < 256
  pub slave_byte : (h : hw.State) → slave h < 256
  pub inb_master : (h : hw.State) → hw.inb master_8259_port_dat h ≡ (master h, h)
  pub inb_slave : (h : hw.State) → hw.inb slave_8259_port_dat h ≡ (slave h, h)
  pub outb_master : (v : ℕ) (h : hw.State) → v < 256 → master (hw.outb v master_8259_port_dat h) ≡ v
  pub outb_slave : (v : ℕ) (h : hw.State) → v < 256 → slave (hw.outb v slave_8259_port_dat h) ≡ v
  pub outb_master_slave :
      (v : ℕ) (h : hw.State) → slave (hw.outb v master_8259_port_dat h) ≡ slave h
  pub outb_slave_master :
      (v : ℕ) (h : hw.State) → master (hw.outb v slave_8259_port_dat h) ≡ master h

module _ (hw : Machine) (pic : PicMasks hw) where
  open hw use {State, outb, inb}
  open pic use {master, slave}

  -- 1 if the line is masked: lines 0 to 7 are the master's, 8 to 15 the slave's.
  abbrev pub masked : State → ℕ → ℕ
  masked h k = if ltb k 8 then bit (master h) k else bit (slave h) (k - 8)

  unmask_master :
      (n : ℕ) (h : State)
      → unmask hw master_8259_port_dat n h ≡ outb (clear_bit (master h) n) master_8259_port_dat h
  unfolding unmask
  unmask_master n h =
      ap (λ (p : ℕ × State). outb (clear_bit p.0 n) master_8259_port_dat p.1) (pic.inb_master h)

  unmask_slave :
      (n : ℕ) (h : State)
      → unmask hw slave_8259_port_dat n h ≡ outb (clear_bit (slave h) n) slave_8259_port_dat h
  unfolding unmask
  unmask_slave n h =
      ap (λ (p : ℕ × State). outb (clear_bit p.0 n) slave_8259_port_dat p.1) (pic.inb_slave h)

  mask_master :
      (n : ℕ) (h : State)
      → mask hw master_8259_port_dat n h ≡ outb (set_bit (master h) n) master_8259_port_dat h
  unfolding mask
  mask_master n h =
      ap (λ (p : ℕ × State). outb (set_bit p.0 n) master_8259_port_dat p.1) (pic.inb_master h)

  mask_slave :
      (n : ℕ) (h : State)
      → mask hw slave_8259_port_dat n h ≡ outb (set_bit (slave h) n) slave_8259_port_dat h
  unfolding mask
  mask_slave n h =
      ap (λ (p : ℕ × State). outb (set_bit p.0 n) slave_8259_port_dat p.1) (pic.inb_slave h)

  byte-clear_bit : (x n : ℕ) → clear_bit x n < 256
  unfolding clear_bit
  byte-clear_bit x n = omega arith

  byte-set_bit : (x n : ℕ) → set_bit x n < 256
  unfolding set_bit
  byte-set_bit x n = omega arith

  master-unmask_master :
      (n : ℕ) (h : State) → master (unmask hw master_8259_port_dat n h) ≡ clear_bit (master h) n
  master-unmask_master n h =
      rw (unmask_master n h) (pic.outb_master _ h (byte-clear_bit (master h) n))

  slave-unmask_master : (n : ℕ) (h : State) → slave (unmask hw master_8259_port_dat n h) ≡ slave h
  slave-unmask_master n h = rw (unmask_master n h) (pic.outb_master_slave _ h)

  master-unmask_slave : (n : ℕ) (h : State) → master (unmask hw slave_8259_port_dat n h) ≡ master h
  master-unmask_slave n h = rw (unmask_slave n h) (pic.outb_slave_master _ h)

  slave-unmask_slave :
      (n : ℕ) (h : State) → slave (unmask hw slave_8259_port_dat n h) ≡ clear_bit (slave h) n
  slave-unmask_slave n h = rw (unmask_slave n h) (pic.outb_slave _ h (byte-clear_bit (slave h) n))

  master-mask_master :
      (n : ℕ) (h : State) → master (mask hw master_8259_port_dat n h) ≡ set_bit (master h) n
  master-mask_master n h = rw (mask_master n h) (pic.outb_master _ h (byte-set_bit (master h) n))

  slave-mask_master : (n : ℕ) (h : State) → slave (mask hw master_8259_port_dat n h) ≡ slave h
  slave-mask_master n h = rw (mask_master n h) (pic.outb_master_slave _ h)

  master-mask_slave : (n : ℕ) (h : State) → master (mask hw slave_8259_port_dat n h) ≡ master h
  master-mask_slave n h = rw (mask_slave n h) (pic.outb_slave_master _ h)

  slave-mask_slave :
      (n : ℕ) (h : State) → slave (mask hw slave_8259_port_dat n h) ≡ set_bit (slave h) n
  slave-mask_slave n h = rw (mask_slave n h) (pic.outb_slave _ h (byte-set_bit (slave h) n))

  -- Enabling a line unmasks it, and with a line of the slave the line 2 that the slave hangs on; all
  -- the other lines keep their masks.
  pub masked-enable_irq :
      (irq k : ℕ) (h : State)
      → irq < 16
      → k < 16
      → masked (enable_irq hw irq h) k
        ≡ (if k == irq || (leb 8 irq && k == 2) then 0 else masked h k)
  unfolding enable_irq
  masked-enable_irq irq k h hi hk = elim (lt_cases irq 8) [
    | inl lt ↦ ground (
      arith,
      master-unmask_master irq h,
      slave-unmask_master irq h,
      bit-clear_bit irq k (master h),
      pic.master_byte h,
    )
    | inr ge ↦
        let h' : State = unmask hw master_8259_port_dat 2 h in
        ground (
          arith,
          master-unmask_master 2 h,
          slave-unmask_master 2 h,
          master-unmask_slave (irq % 8) h',
          slave-unmask_slave (irq % 8) h',
          bit-clear_bit 2 k (master h),
          bit-clear_bit (irq % 8) (k - 8) (slave h),
          pic.master_byte h,
          pic.slave_byte h,
        )
  ]

  -- Disabling a line of the master masks the line 2 that the slave hangs on and the slave's line of the
  -- same number, and leaves its own mask alone unless it is line 2; disabling a line of the slave
  -- changes no mask.
  pub masked-disable_irq :
      (irq k : ℕ) (h : State)
      → irq < 16
      → k < 16
      → masked (disable_irq hw irq h) k
        ≡ (if ltb irq 8 && (k == 2 || k == irq + 8) then 1 else masked h k)
  unfolding disable_irq
  masked-disable_irq irq k h hi hk = elim (lt_cases irq 8) [
    | inl lt ↦
        let h' : State = mask hw master_8259_port_dat 2 h in
        ground (
          arith,
          master-mask_master 2 h,
          slave-mask_master 2 h,
          master-mask_slave (irq % 8) h',
          slave-mask_slave (irq % 8) h',
          bit-set_bit 2 k (master h),
          bit-set_bit (irq % 8) (k - 8) (slave h),
          pic.master_byte h,
          pic.slave_byte h,
        )
    | inr ge ↦ ground (
      arith,
      master-mask_master irq h,
      slave-mask_master irq h,
      bit-set_bit irq k (master h),
      pic.master_byte h,
    )
  ]

-- What the kernel relies on of the end of an interrupt: the byte 0x60 + n at a command port ends the
-- service of the line n of that controller, and of no other line.
pub record PicService (hw : Machine) : Type 0 where
  pub serving : hw.State → ℕ → Bool
  pub eoi_master :
      (n k : ℕ) (h : hw.State)
      → n < 8
      → serving (hw.outb (0x60 + n) master_8259_port h) k ≡ (if k == n then false else serving h k)
  pub eoi_slave :
      (n k : ℕ) (h : hw.State)
      → n < 8
      → serving (hw.outb (0x60 + n) slave_8259_port h) k
        ≡ (if k == n + 8 then false else serving h k)

eoi_byte : (n : ℕ) → n < 8 → u8 (bit_or eoi n) ≡ 0x60 + n
unfolding all_below
eoi_byte n h = ==→eq _ _ (all_below_sound 8 (λ n. u8 (bit_or eoi n) == 0x60 + n) n refl h)

module _ (hw : Machine) (pic : PicService hw) where
  open pic use {serving}

  -- The end of an interrupt ends the service of its line, and with a line of the slave that of the
  -- line 2, and of no other line.
  pub serving-send_eoi :
      (irq k : ℕ) (h : hw.State)
      → irq < 16
      → serving (send_eoi hw irq h) k
        ≡ (if k == irq || (leb 8 irq && k == 2) then false else serving h k)
  unfolding send_eoi
  serving-send_eoi irq k h hi = elim (lt_cases irq 8) [
    | inl lt ↦ ground (arith, eoi_byte irq lt, pic.eoi_master irq k h)
    | inr ge ↦ ground (
      arith,
      eoi_byte (irq % 8) (omega arith),
      eoi_byte 2 (omega arith),
      pic.eoi_slave (irq % 8) k h,
      pic.eoi_master 2 k (hw.outb (u8 (bit_or eoi (irq % 8))) slave_8259_port h),
    )
  ]
