-- ===== src/Drivers/Examples.antt =====
-- The devices, on a line of keys and on small port states.
use toy_kernel.Common.{◌+◌, ◌*◌, ◌≡◌, [], ◌∷◌, arith, ◌==◌, if◌then◌else◌}
use toy_kernel.Drivers.Ports.{Ports, inb}
use toy_kernel.Drivers.Pic.{
  set_irq_mask, clear_irq_mask, remap_pic, pic_1_cmd, pic_1_data, pic_2_cmd, pic_2_data,
}
use toy_kernel.Drivers.Chip.{Chip, programmed, chip_after, remap_pic-programmed}
use toy_kernel.Drivers.Masks.{masked, set_irq_mask_lem, clear_irq_mask_lem}
use toy_kernel.Drivers.Line.{Got, get, line_of_keys, get-Got}
use toy_kernel.Drivers.Clock.{from_bcd, from_bcd_lem}

abbrev idle_ports : Ports
idle_ports = record { value = λ _. 0xb8; log = [] }

set_irq_mask_run :
    masked (set_irq_mask idle_ports 1) 9 ≡ (if 9 == 1 then 1 else masked idle_ports 9)
set_irq_mask_run = set_irq_mask_lem idle_ports 1 9 (omega arith) (omega arith) (omega arith)

clear_irq_mask_run :
    masked (clear_irq_mask idle_ports 12) 12 ≡ (if 12 == 12 then 0 else masked idle_ports 12)
clear_irq_mask_run = clear_irq_mask_lem idle_ports 12 12 (omega arith) (omega arith) (omega arith)

-- A controller as the processor's firmware leaves it.
abbrev firmware_chip : Chip
firmware_chip = programmed 8 4 0xb8

remap_pic-programmed_example :
    let log = (remap_pic idle_ports).log in
    (chip_after pic_1_cmd firmware_chip log ≡ programmed 0x20 4 (inb idle_ports pic_1_data))
    × (chip_after pic_2_cmd firmware_chip log ≡ programmed 0x28 2 (inb idle_ports pic_2_data))
remap_pic-programmed_example = remap_pic-programmed idle_ports firmware_chip firmware_chip

get-Got_example :
    Got
      (λ _. 0)
      (get (λ _. 0) (0x61 ∷ 0x62 ∷ 0x08 ∷ 0x63 ∷ 0x0d ∷ []))
      (line_of_keys [] (0x61 ∷ 0x62 ∷ 0x08 ∷ 0x63 ∷ 0x0d ∷ []))
get-Got_example = get-Got (λ _. 0) (0x61 ∷ 0x62 ∷ 0x08 ∷ 0x63 ∷ 0x0d ∷ [])

from_bcd_run : from_bcd (5 * 16 + 9) ≡ 5 * 10 + 9
from_bcd_run = from_bcd_lem 5 9 (omega arith) (omega arith)
