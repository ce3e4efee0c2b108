-- ===== src/Pmm/Init.antt =====
-- Setting up the physical memory manager: the sizes from the memory map, the place of the bitmap,
-- and the frames that are reserved before the first allocation (`INIT_MEMORY` of
-- src/kernel/mm/pmm/pmm.c). The addresses of the linker's symbols `__kernel__start` and
-- `__kernel__end` are arguments: virtual addresses from 0xc0000000 on, from which the code derives
-- the address of the bitmap and the page numbers that it reserves.
pub mod Grow
pub mod Valid
use toy_kernel.Common.{
  ℕ, zero, suc, ◌+◌, ◌-◌, ◌*◌, ◌/◌, ◌%◌, ◌^◌, ◌≤◌, ◌<◌, min, max, bit_and, bit_or, ◌≡◌, refl, sym,
  ap, ◌∙◌, ◌≢◌, ◌↔◌, ◌⊎◌, inl, inr, Bool, true, false, not, ◌&&◌, ◌||◌, Option, none, some, List,
  [], ◌∷◌, ◌++◌, map, arith, ltb, leb, ◌==◌, ◌!=◌, if◌then◌else◌, ltb→lt, leb→le, ==_iff,
  Bool-cases, Option-cases, u8, u16, u32, sub32, ◌<<<◌, ◌>>>◌, length, get_elem?, get_or, set, drop,
  take, replicate, length-append, length-set, get_elem?-set_self, get_elem?-set_ne,
}
use toy_kernel.Memory.{memset}
use toy_kernel.Boot.{MemoryRegion, MemoryInfo, BootModule, BootParams}
use toy_kernel.Pmm.State.{Pmm, per_block_size}
use toy_kernel.Pmm.Alloc.{reserve_memory_block}

-- `TOTAL_MEMORY` is a `uint32_t`, and the length of a region has 64 bits.
unfoldable pub sum_usable : List MemoryRegion → ℕ → ℕ
sum_usable [] total = total
sum_usable (r ∷ rs) total =
    sum_usable rs
      (if r.kind == 1 then u32 (total + (r.length_high * 2 ^ 32 + r.length_low)) else total)

unfoldable pub get_memory_info : Pmm → MemoryInfo → Pmm
unfolding sum_usable
get_memory_info s memory =
    let total = sum_usable memory.regions 0 in
    let pages = total / per_block_size in
    record s {
      total_memory = total;
      total_pages = pages;
      bitmap_sizeb = (pages + 7) / 8;
      total_block = (pages + 31) / 32;
      memory_map = memory;
    }

unfoldable pub set_kernel_addr : Pmm → (kernel_start kernel_end : ℕ) → Pmm
set_kernel_addr s kernel_start kernel_end = record s {
  kernel_start_addr = kernel_start;
  kernel_end_addr = kernel_end;
}

-- `~0xFFF` is `0xfffff000`.
unfoldable pub setup_memory_bitmap : Pmm → Pmm
setup_memory_bitmap s =
    let bit_map_start = bit_and (u32 (s.kernel_end_addr + 0xfff)) 0xfffff000 in
    record s {
      bit_map = bit_map_start;
      bit_map_end = u32 (bit_map_start + s.bitmap_sizeb);
      mem = memset s.mem bit_map_start 0 s.bitmap_sizeb;
    }

unfoldable pub reserve_memory : Pmm → Pmm
unfolding reserve_memory_block
reserve_memory s =
    let low = reserve_memory_block s 0 0x500 in
    let boot = reserve_memory_block low 0x7c00 512 in
    let kernel =
      reserve_memory_block boot boot.kernel_start_addr
        (sub32 boot.kernel_end_addr boot.kernel_start_addr) in
    reserve_memory_block kernel kernel.bit_map kernel.bitmap_sizeb

unfoldable pub reserve_modules : Pmm → List BootModule → Pmm
reserve_modules s [] = s
reserve_modules s (m ∷ ms) = reserve_modules (reserve_memory_block s m.base m.size) ms

unfoldable pub init_memory : Pmm → (kernel_start kernel_end : ℕ) → BootParams → Pmm
unfolding set_kernel_addr get_memory_info setup_memory_bitmap reserve_memory reserve_modules
init_memory s kernel_start kernel_end boot_params =
    let named = set_kernel_addr s kernel_start kernel_end in
    let sized = get_memory_info named boot_params.memory in
    let mapped = setup_memory_bitmap sized in
    reserve_modules (reserve_memory mapped) boot_params.modules
