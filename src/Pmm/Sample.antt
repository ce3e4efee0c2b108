-- ===== src/Pmm/Sample.antt =====
-- A small physical memory for the runs: 256 frames, with the bitmap in frame 1, and frames 0 to 3
-- and 255 in use. Frame 2 holds a page directory whose first entry names the empty table in frame 3.
-- `high_pmm` has the same frames, and its bitmap in the higher half, as the kernel has it.
use toy_kernel.Common.{ℕ, zero, suc, ◌/◌, ◌<◌, ◌≡◌, refl, true, [], arith, ◌==◌, if◌then◌else◌}
use toy_kernel.Memory.{Mem, IsBytes, read32}
use toy_kernel.Pmm.State.{Pmm, used, test_bit}
use toy_kernel.Pmm.Alloc.Valid.{IsValid}

abbrev pub small_mem : Mem
small_mem a =
    if a == 0x1000
    then 15
    else if a == 0x101f
    then 0x80
    else if a == 0x2000
    then 3
    else if a == 0x2001
    then 0x30
    else 0

abbrev pub small_pmm : Pmm
small_pmm = record {
  mem = small_mem;
  total_memory = 0x100000;
  total_pages = 256;
  total_block = 8;
  total_used_blocks = 5;
  bit_map = 0x1000;
  bitmap_sizeb = 32;
  bit_map_end = 0x1020;
  memory_map = record { regions = [] };
  kernel_start_addr = 0;
  kernel_end_addr = 0x1000;
}

pub small_pmm-IsBytes : IsBytes small_mem
small_pmm-IsBytes a = ground arith

pub small_pmm-used : (n : ℕ) → n < 4 → used small_pmm n ≡ true
unfolding used test_bit read32
small_pmm-used zero h = refl
small_pmm-used (suc zero) h = refl
small_pmm-used (suc (suc zero)) h = refl
small_pmm-used (suc (suc (suc zero))) h = refl
small_pmm-used (suc (suc (suc (suc n)))) h = absurd (omega arith)

pub small_pmm-IsValid : IsValid small_pmm
small_pmm-IsValid = record {
  bytes = small_pmm-IsBytes;
  small = omega arith;
  nonempty = omega arith;
  in_space = omega arith;
  owned = λ a l h f. small_pmm-used (a / 4096) (omega arith);
}

abbrev pub high_mem : Mem
high_mem a =
    if a == 0xc0012000
    then 15
    else if a == 0xc001201f
    then 0x80
    else if a == 0x2000
    then 3
    else if a == 0x2001
    then 0x30
    else 0

abbrev pub high_pmm : Pmm
high_pmm = record small_pmm {
  mem = high_mem;
  bit_map = 0xc0012000;
  bit_map_end = 0xc0012020;
  kernel_start_addr = 0xc0000000;
  kernel_end_addr = 0xc0011234;
}

pub high_pmm-IsBytes : IsBytes high_mem
high_pmm-IsBytes a = ground arith

pub high_pmm-used : (n : ℕ) → n < 4 → used high_pmm n ≡ true
unfolding used test_bit read32
high_pmm-used zero h = refl
high_pmm-used (suc zero) h = refl
high_pmm-used (suc (suc zero)) h = refl
high_pmm-used (suc (suc (suc zero))) h = refl
high_pmm-used (suc (suc (suc (suc n)))) h = absurd (omega arith)

pub high_pmm-IsValid : IsValid high_pmm
high_pmm-IsValid = record {
  bytes = high_pmm-IsBytes;
  small = omega arith;
  nonempty = omega arith;
  in_space = omega arith;
  owned = λ a l h f. absurd (omega (arith, l, f));
}
