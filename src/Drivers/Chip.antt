-- ===== src/Drivers/Chip.antt =====
-- An interrupt controller as its data sheet describes it, and what the writes of
-- src/kernel/interrupts/pic.c make of it. A command with bit 4 set, the first initialisation word,
-- starts the initialisation and clears the mask: the data port then takes the vector, the cascade
-- lines unless the controller is single, and the mode if bit 0 asked for it, in this order. Outside
-- the initialisation the data port takes the mask. Other commands are without effect here.
use toy_kernel.Common.{
  ℕ, ◌+◌, ◌*◌, ◌/◌, ◌%◌, ◌^◌, ◌≡◌, refl, Bool, true, false, List, [], ◌∷◌, ◌==◌, if◌then◌else◌,
}
use toy_kernel.Drivers.Ports.{Ports, outb, inb, io_wait}
use toy_kernel.Drivers.Pic.{pic_1_cmd, pic_1_data, pic_2_cmd, pic_2_data, remap_pic}

-- What the data port takes next.
pub data Stage : Type 0 where
  ready : Stage
  vector_word : Stage
  cascade_word : Stage
  mode_word : Stage

pub record Chip : Type 0 where
  pub stage : Stage
  pub single : Bool
  pub needs_mode : Bool
  pub vector : ℕ
  pub cascade : ℕ
  pub mode : ℕ
  pub mask : ℕ

abbrev pub after_cascade : Chip → Stage
after_cascade c = if c.needs_mode then mode_word else ready

abbrev pub after_vector : Chip → Stage
after_vector c = if c.single then after_cascade c else cascade_word

unfoldable pub command : Chip → ℕ → Chip
command c v =
    if v / 2 ^ 4 % 2 == 1
    then record c {
      stage = vector_word;
      single = v / 2 % 2 == 1;
      needs_mode = v % 2 == 1;
      mask = 0;
    }
    else c

unfoldable pub data_word : Stage → Chip → ℕ → Chip
data_word ready c v = record c { mask = v }
data_word vector_word c v = record c { stage = after_vector c; vector = v / 8 * 8 }
data_word cascade_word c v = record c { stage = after_cascade c; cascade = v }
data_word mode_word c v = record c { stage = ready; mode = v }

-- The controller with its command port at `base` after the writes of a log, the latest first.
unfoldable pub chip_after : (base : ℕ) → Chip → List (ℕ × ℕ) → Chip
unfolding command data_word
chip_after base start [] = start
chip_after base start ((port, v) ∷ log) =
    let c = chip_after base start log in
    if port == base then command c v else if port == base + 1 then data_word (c.stage) c v else c

-- A cascaded controller that is out of its initialisation, in 8086 mode.
abbrev pub programmed : (vector cascade mask : ℕ) → Chip
programmed vector cascade mask = record {
  stage = ready;
  single = false;
  needs_mode = true;
  vector = vector;
  cascade = cascade;
  mode = 1;
  mask = mask;
}

-- After `remap_pic`, whatever state the two controllers were in before, both are out of their
-- initialisation and in 8086 mode: the first raises the interrupts from 0x20 on and has the second
-- on its line 2, the second raises those from 0x28 on and knows its line, and each has the mask that
-- its data port read before.
pub remap_pic-programmed :
    (s : Ports) (first second : Chip)
    → let log = (remap_pic s).log in
      (chip_after pic_1_cmd first log ≡ programmed 0x20 (2 ^ 2) (inb s pic_1_data))
      × (chip_after pic_2_cmd second log ≡ programmed 0x28 2 (inb s pic_2_data))
unfolding remap_pic outb inb io_wait chip_after command data_word
remap_pic-programmed s first second = (refl, refl)
