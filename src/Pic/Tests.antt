-- ===== src/Pic/Tests.antt =====
-- A machine with two controllers that do what the kernel relies on.
use ece391_mp.Prelude.{
  ℕ, ◌+◌, ◌-◌, ◌%◌, ◌<◌, ◌≡◌, refl, Bool, true, false, arith, ◌==◌, if◌then◌else◌,
}
use ece391_mp.Machine.{Machine}
use ece391_mp.Pic.{enable_irq}
use ece391_mp.Pic.Irq.{PicMasks, PicService, masked, masked-enable_irq}

record Chips : Type 0 where
  master : ℕ
  slave : ℕ
  in_service : ℕ → Bool

abbrev end_service : ℕ → Chips → Chips
end_service line h = record h { in_service = λ k. if k == line then false else h.in_service k }

abbrev write_port : ℕ → ℕ → Chips → Chips
write_port v port h =
    if port == 0x21
    then record h { master = v % 256 }
    else if port == 0xA1
    then record h { slave = v % 256 }
    else if port == 0x20
    then end_service (v - 0x60) h
    else if port == 0xA0
    then end_service (v - 0x60 + 8) h
    else h

abbrev read_port : ℕ → Chips → ℕ × Chips
read_port port h =
    if port == 0x21
    then (h.master % 256, h)
    else if port == 0xA1
    then (h.slave % 256, h)
    else (0, h)

abbrev chips : Machine
chips = record { State = Chips; outb = write_port; inb = read_port }

abbrev chip_masks : PicMasks chips
chip_masks = record {
  master = λ h. h.master % 256;
  slave = λ h. h.slave % 256;
  master_byte = λ h. omega arith;
  slave_byte = λ h. omega arith;
  inb_master = λ h. refl;
  inb_slave = λ h. refl;
  outb_master = λ v h lt. omega arith;
  outb_slave = λ v h lt. omega arith;
  outb_master_slave = λ v h. refl;
  outb_slave_master = λ v h. refl;
}

eoi_master_chip :
    (n k : ℕ) (h : Chips)
    → n < 8
    → (write_port (0x60 + n) 0x20 h).in_service k ≡ (if k == n then false else h.in_service k)
eoi_master_chip n k h lt = ground arith

eoi_slave_chip :
    (n k : ℕ) (h : Chips)
    → n < 8
    → (write_port (0x60 + n) 0xA0 h).in_service k ≡ (if k == n + 8 then false else h.in_service k)
eoi_slave_chip n k h lt = ground arith

abbrev chip_service : PicService chips
chip_service = record {
  serving = λ h. h.in_service;
  eoi_master = eoi_master_chip;
  eoi_slave = eoi_slave_chip;
}

abbrev all_masked : Chips
all_masked = record { master = 0xFF; slave = 0xFF; in_service = λ k. true }

enable_irq_example : masked chips chip_masks (enable_irq chips 8 all_masked) 2 ≡ 0
enable_irq_example = masked-enable_irq chips chip_masks 8 2 all_masked (omega arith) (omega arith)
