-- ===== src/Boot.antt =====
-- src/kernel/boot/bootparams.h: what the bootloader hands to the kernel. A C array with its count
-- is a list; `name` is left out, since no code reads it.
use toy_kernel.Common.{ℕ, List}

pub record MemoryRegion : Type 0 where
  pub begin_low : ℕ
  pub begin_high : ℕ
  pub length_low : ℕ
  pub length_high : ℕ
  pub kind : ℕ
  pub acpi : ℕ

-- `RegionCount` is the length of `regions`.
pub record MemoryInfo : Type 0 where
  pub regions : List MemoryRegion

pub record BootModule : Type 0 where
  pub base : ℕ
  pub size : ℕ

-- `ModuleCount` is the length of `modules`.
pub record BootParams : Type 0 where
  pub memory : MemoryInfo
  pub boot_device : ℕ
  pub modules : List BootModule
