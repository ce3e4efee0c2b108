-- ===== src/Pmm/Examples.antt =====
-- The theorems at the small memory.
use toy_kernel.Common.{
  ℕ, ◌+◌, ◌*◌, ◌/◌, ◌≤◌, ◌<◌, max, ◌≡◌, refl, ◌⊎◌, inl, inr, true, false, none, some, [], ◌∷◌,
  arith, ◌==◌, if◌then◌else◌, Bool-cases,
}
use toy_kernel.Memory.{read32, write32, memset}
use toy_kernel.Pmm.State.{Pmm, invalid_frame, bit_map_word, test_bit, used, set_bit, unset_bit}
use toy_kernel.Pmm.Sample.{small_pmm, small_pmm-IsBytes, small_pmm-IsValid}
use toy_kernel.Pmm.Bitmap.{used-set_bit, used-unset_bit}
use toy_kernel.Pmm.Search.{get_free_memory_block, get_free_frame_by_size}
use toy_kernel.Pmm.Search.Free.{IsFirst, free, get_free_memory_block-IsFirst}
use toy_kernel.Pmm.Search.FirstFit.{fits, get_free_frame_by_size-IsFirst}
use toy_kernel.Pmm.Alloc.{pages_of, allocate_block, deallocate_memory_by_size}
use toy_kernel.Pmm.Alloc.Valid.{IsValid, frames}
use toy_kernel.Boot.{BootParams}
use toy_kernel.Pmm.Alloc.Mark.{within}
use toy_kernel.Pmm.Init.{sum_usable, init_memory}
use toy_kernel.Pmm.Init.Grow.{All}
use toy_kernel.Pmm.Init.Valid.{IsBootable, size_of, linker_pages, init_memory-IsValid}
use toy_kernel.Pmm.Alloc.Block.{Outcome, allocate_block-Outcome}
use toy_kernel.Pmm.Alloc.Release.{allocate_page_twice, deallocate-allocate_page}
use toy_kernel.Pmm.Alloc.Guard.{handed_out, allocations_stop_early}
use toy_kernel.Pmm.Alloc.Count.{IsCounted, count_below, allocate_page-IsCounted}

used-set_bit_example : used (set_bit small_pmm 7) 3 ≡ (if 7 == 3 then true else used small_pmm 3)
used-set_bit_example = used-set_bit small_pmm 7 3 small_pmm-IsBytes

used-unset_bit_example :
    used (unset_bit small_pmm 2) 3 ≡ (if 2 == 3 then false else used small_pmm 3)
used-unset_bit_example = used-unset_bit small_pmm 2 3 small_pmm-IsBytes

get_free_memory_block-IsFirst_example :
    let r = get_free_memory_block small_pmm in
    IsFirst (free small_pmm) 0 256 (if r == invalid_frame then none else some r)
get_free_memory_block-IsFirst_example = get_free_memory_block-IsFirst small_pmm (omega arith)

get_free_frame_by_size-IsFirst_example :
    let r = get_free_frame_by_size small_pmm 3 in
    IsFirst (fits small_pmm 3) 0 256 (if r == invalid_frame then none else some r)
get_free_frame_by_size-IsFirst_example =
    get_free_frame_by_size-IsFirst small_pmm 3 (omega arith) (omega arith) (omega arith)

last_is_used : fits small_pmm 2 255 ≡ false
unfolding fits free used test_bit read32
last_is_used = refl

ends_inside : (b : ℕ) → b < 256 → fits small_pmm 2 b ≡ true → b + 2 ≤ 256
ends_inside b h t = elim (Bool-cases (b == 255)) [
  | inl e ↦ let q : b ≡ 255 = ground arith in let clash = rw q at t in ground (arith, last_is_used)
  | inr e ↦ ground arith
]

allocate_block-Outcome_example : Outcome small_pmm 2 (allocate_block small_pmm 2)
allocate_block-Outcome_example =
    allocate_block-Outcome small_pmm 2 small_pmm-IsValid (omega arith) (omega arith) ends_inside

first_page : (allocate_block small_pmm 1).0 ≡ 0x4000
unfolding allocate_block get_free_frame_by_size get_free_memory_block bit_map_word read32 used
    test_bit
first_page = refl

second_page : (allocate_block (allocate_block small_pmm 1).1 1).0 ≡ 0x5000
unfolding allocate_block get_free_frame_by_size get_free_memory_block bit_map_word read32 used
    test_bit set_bit memset write32
second_page = refl

allocate_page_twice_example :
    let (a, t) = allocate_block small_pmm 1 in
    let (b, u) = allocate_block t 1 in (a + 4096 ≤ b) ⊎ (b + 4096 ≤ a)
allocate_page_twice_example =
    allocate_page_twice small_pmm small_pmm-IsValid (λ e. omega (arith, e, first_page))
      (λ e. omega (arith, e, second_page))

deallocate-allocate_page_example :
    let (addr, t) = allocate_block small_pmm 1 in
    let u = deallocate_memory_by_size t addr 1 in
    ((c : ℕ) → c < 256 → used u c ≡ used small_pmm c) × (u.total_used_blocks ≡ 5)
deallocate-allocate_page_example =
    deallocate-allocate_page small_pmm small_pmm-IsValid (λ e. omega (arith, e, first_page))

-- The counter, 5, of the small memory leaves three of its eight blocks.
allocations_stop_early_example :
    (handed_out 20 small_pmm + 5 ≤ max 5 8) × (handed_out 20 small_pmm * 32 ≤ frames small_pmm)
allocations_stop_early_example = allocations_stop_early 20 small_pmm small_pmm-IsValid

small_pmm-IsCounted : IsCounted small_pmm
unfolding count_below used test_bit read32
small_pmm-IsCounted = refl

allocate_page-IsCounted_example : IsCounted (allocate_block small_pmm 1).1
allocate_page-IsCounted_example =
    allocate_page-IsCounted small_pmm small_pmm-IsValid small_pmm-IsCounted

-- 256 MiB of usable memory from 1 MiB on.
abbrev boot_params : BootParams
boot_params = record {
  memory = record {
    regions =
        record {
          begin_low = 0x100000;
          begin_high = 0;
          length_low = 0x10000000;
          length_high = 0;
          kind = 1;
          acpi = 0;
        }
        ∷ [];
  };
  boot_device = 0;
  modules = record { base = 0x200000; size = 0x1000 } ∷ [];
}

abbrev before_boot : Pmm
before_boot = record small_pmm { total_used_blocks = 0 }

-- The kernel's addresses: its image from 0xc0000000 on.
is_bootable : IsBootable before_boot 0xc0000000 0xc0011234 boot_params
unfolding sum_usable All
is_bootable = record {
  bytes = small_pmm-IsBytes;
  unused = refl;
  ordered = omega arith;
  below = omega arith;
  room = omega arith;
  in_space = omega arith;
  modules = (omega arith, tt);
}

init_memory-IsValid_example :
    let t = init_memory before_boot 0xc0000000 0xc0011234 boot_params in
    IsValid t
    × ((c : ℕ)
        → c < size_of boot_params.memory / 4 * 32
        → All (λ m. within (m.base / 4096) (pages_of m.size) c ≡ false) boot_params.modules
        → used t c ≡ linker_pages 0xc0000000 0xc0011234 boot_params.memory c)
init_memory-IsValid_example =
    init_memory-IsValid before_boot 0xc0000000 0xc0011234 boot_params is_bootable
