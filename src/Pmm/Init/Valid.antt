-- ===== src/Pmm/Init/Valid.antt =====
-- `INIT_MEMORY` establishes the invariant, and which frames it marks. `ks` and `ke` are the linker's
-- symbols, which src/kernel/kernel.ld puts at 0xc0000000 and behind.
use toy_kernel.Common.{
  ℕ, ◌+◌, ◌-◌, ◌*◌, ◌/◌, ◌^◌, ◌≤◌, ◌<◌, ◌≡◌, refl, ◌∙◌, Bool, true, false, ◌||◌, List, [], ◌∷◌,
  arith, u32, sub32, ◌%◌, if◌then◌else◌,
}
use mathlib.Core.Path.{ap₂}
use toy_kernel.Common.Bits.{and_zero}
use toy_kernel.Common.Bits.Split.{page_mask}
use toy_kernel.Memory.{Mem, IsBytes, read32}
use toy_kernel.Memory.Fill.{memset-IsBytes, memset_inside}
use toy_kernel.Boot.{MemoryRegion, MemoryInfo, BootParams}
use toy_kernel.Pmm.State.{Pmm, used, test_bit, bit_map_word}
use toy_kernel.Pmm.Alloc.{pages_of, reserve_memory_block}
use toy_kernel.Pmm.Alloc.Mark.{Marked, within}
use toy_kernel.Pmm.Alloc.Valid.{IsValid}
use toy_kernel.Pmm.Init.{
  sum_usable, get_memory_info, set_kernel_addr, setup_memory_bitmap, reserve_memory,
  reserve_modules, init_memory,
}
use toy_kernel.Pmm.Init.Grow.{
  Grown, Grown-trans, reserve_memory_block-Marked, reserve_memory_block-Grown, All,
  reserve_modules-Grown, used-reserve_modules, count-reserve_memory_block,
  SameSizes-reserve_memory_block,
}

-- The number of words of the bitmap that `get_memory_info` computes.
abbrev pub blocks_of : MemoryInfo → ℕ
blocks_of memory = (sum_usable memory.regions 0 / 4096 + 31) / 32

-- The bytes of the bitmap.
abbrev pub size_of : MemoryInfo → ℕ
size_of memory = (sum_usable memory.regions 0 / 4096 + 7) / 8

-- Where `setup_memory_bitmap` puts the bitmap: at the first page behind the kernel.
abbrev pub map_start : ℕ → ℕ
map_start kernel_end = (kernel_end + 0xfff) / 4096 * 4096

sum_usable-lt : (rs : List MemoryRegion) (total : ℕ) → total < 2 ^ 32 → sum_usable rs total < 2 ^ 32
unfolding sum_usable
sum_usable-lt [] total h = h
sum_usable-lt (r ∷ rs) total h = sum_usable-lt rs _ (ground arith)

-- The pages reserved for the bytes of the bitmap cover its words too.
covers :
    (n m a : ℕ)
    → n < 2 ^ 20
    → m * 4096 ≤ a
    → a < m * 4096 + 4 * ((n + 31) / 32)
    → within (m * 4096 / 4096) (pages_of ((n + 7) / 8)) (a / 4096) ≡ true
covers n m a small l h =
    let low : m * 4096 / 4096 ≡ m = omega arith in
    let cut : u32 ((n + 7) / 8 + 4096 - 1) ≡ (n + 7) / 8 + 4095 = omega arith in
    let above : m ≤ a / 4096 = omega arith in
    let below : a / 4096 < m + ((n + 7) / 8 + 4095) / 4096 = omega arith in
    rw (low, cut) (ground arith)

-- The pages that `reserve_memory` marks, by the linker's addresses.
abbrev pub linker_pages : (ks ke : ℕ) → MemoryInfo → ℕ → Bool
linker_pages ks ke memory c =
    within 0 1 c
    || within 7 1 c
    || within (ks / 4096) (pages_of (ke - ks)) c
    || within (map_start ke / 4096) (pages_of (size_of memory)) c

or_of_marks :
    {u t v w x : Bool} (p q r z : Bool)
    → u ≡ false
    → t ≡ (if p then true else u)
    → v ≡ (if q then true else t)
    → w ≡ (if r then true else v)
    → x ≡ (if z then true else w)
    → x ≡ (p || q || r || z)
or_of_marks p q r z a b c d e = ground (arith, a, b, c, d, e)

read32_zero : (m : Mem) (a : ℕ) → ((b : ℕ) → a ≤ b → b < a + 4 → m b ≡ 0) → read32 m a ≡ 0
unfolding read32
read32_zero m a h = omega (
  arith,
  h a (omega arith) (omega arith),
  h (a + 1) (omega arith) (omega arith),
  h (a + 2) (omega arith) (omega arith),
  h (a + 3) (omega arith) (omega arith),
)

-- The conditions on the start: the kernel and the bitmap lie below the end of the address space,
-- and the pages of the kernel and the two low reservations leave the guard open.
pub record IsBootable (s : Pmm) (ks ke : ℕ) (bp : BootParams) : Type 0 where
  pub bytes : IsBytes s.mem
  pub unused : s.total_used_blocks ≡ 0
  pub ordered : ks ≤ ke
  pub below : ke + 0xfff < 2 ^ 32
  pub room : 2 + pages_of (ke - ks) < blocks_of bp.memory
  pub in_space : map_start ke + 4 * blocks_of bp.memory ≤ 2 ^ 32
  pub modules : All (λ m. m.base < 2 ^ 32) bp.modules

module _ (s : Pmm) (ks ke : ℕ) (bp : BootParams) (boot : IsBootable s ks ke bp) where
  abbrev mapped : Pmm
  mapped = setup_memory_bitmap (get_memory_info (set_kernel_addr s ks ke) bp.memory)

  total_small : sum_usable bp.memory.regions 0 < 2 ^ 32
  total_small = sum_usable-lt bp.memory.regions 0 (omega arith)

  bit_map-mapped : mapped.bit_map ≡ map_start ke
  unfolding setup_memory_bitmap get_memory_info set_kernel_addr
  bit_map-mapped =
      let cut : u32 (ke + 0xfff) ≡ ke + 0xfff = omega (arith, boot.below) in
      rw cut (page_mask (ke + 0xfff) boot.below)

  blocks-mapped : mapped.total_block ≡ blocks_of bp.memory
  unfolding setup_memory_bitmap get_memory_info set_kernel_addr
  blocks-mapped = refl

  mapped-IsBytes : IsBytes mapped.mem
  unfolding setup_memory_bitmap get_memory_info set_kernel_addr
  mapped-IsBytes = memset-IsBytes s.mem _ 0 _ boot.bytes

  unused-mapped : mapped.total_used_blocks ≡ 0
  unfolding setup_memory_bitmap get_memory_info set_kernel_addr
  unused-mapped = boot.unused

  abbrev low : Pmm
  low = reserve_memory_block mapped 0 0x500

  abbrev loader : Pmm
  loader = reserve_memory_block low 0x7c00 512

  abbrev kernel : Pmm
  kernel = reserve_memory_block loader ks (ke - ks)

  low-Grown : Grown mapped low
  low-Grown = reserve_memory_block-Grown mapped 0 0x500 mapped-IsBytes (omega arith)

  loader-Grown : Grown mapped loader
  loader-Grown =
      Grown-trans low-Grown
        (reserve_memory_block-Grown low 0x7c00 512 low-Grown.bytes (omega arith))

  loader-count : loader.total_used_blocks ≤ 2
  loader-count = omega (
    arith,
    unused-mapped,
    count-reserve_memory_block mapped 0 0x500,
    count-reserve_memory_block low 0x7c00 512,
  )

  kernel-Marked : Marked true loader (ks / 4096) (pages_of (ke - ks)) kernel
  kernel-Marked =
      reserve_memory_block-Marked loader ks (ke - ks) loader-Grown.bytes
        (omega (arith, boot.below, boot.ordered))
        (omega (arith, loader-count, loader-Grown.same_blocks, blocks-mapped, boot.room))

  kernel-count : kernel.total_used_blocks ≤ 2 + pages_of (ke - ks)
  kernel-count = omega (arith, loader-count, count-reserve_memory_block loader ks (ke - ks))

  kernel-Grown : Grown mapped kernel
  kernel-Grown = Grown-trans loader-Grown (
      reserve_memory_block-Grown loader ks (ke - ks) loader-Grown.bytes
        (omega (arith, boot.below, boot.ordered)))

  loader-start : loader.kernel_start_addr ≡ ks
  unfolding setup_memory_bitmap get_memory_info set_kernel_addr
  loader-start =
      (SameSizes-reserve_memory_block low 0x7c00 512).same_start
      ∙ (SameSizes-reserve_memory_block mapped 0 0x500).same_start

  loader-end : loader.kernel_end_addr ≡ ke
  unfolding setup_memory_bitmap get_memory_info set_kernel_addr
  loader-end =
      (SameSizes-reserve_memory_block low 0x7c00 512).same_end
      ∙ (SameSizes-reserve_memory_block mapped 0 0x500).same_end

  kernel-size : kernel.bitmap_sizeb ≡ (sum_usable bp.memory.regions 0 / 4096 + 7) / 8
  unfolding setup_memory_bitmap get_memory_info set_kernel_addr
  kernel-size =
      (SameSizes-reserve_memory_block loader ks (ke - ks)).same_size
      ∙ (SameSizes-reserve_memory_block low 0x7c00 512).same_size
      ∙ (SameSizes-reserve_memory_block mapped 0 0x500).same_size

  abbrev reserved : Pmm
  reserved = reserve_memory_block kernel kernel.bit_map kernel.bitmap_sizeb

  reserve_memory-mapped : reserve_memory mapped ≡ reserved
  unfolding reserve_memory
  reserve_memory-mapped =
      let len : sub32 ke ks ≡ ke - ks = omega (arith, boot.below, boot.ordered) in
      rw (loader-start, loader-end, len)

  reserved-Marked :
      Marked true kernel (kernel.bit_map / 4096) (pages_of kernel.bitmap_sizeb) reserved
  reserved-Marked =
      reserve_memory_block-Marked kernel kernel.bit_map kernel.bitmap_sizeb kernel-Grown.bytes
        (omega (arith, kernel-Grown.same_map, bit_map-mapped, boot.below))
        (omega (arith, kernel-count, kernel-Grown.same_blocks, blocks-mapped, boot.room))

  reserved-Grown : Grown kernel reserved
  reserved-Grown =
      reserve_memory_block-Grown kernel kernel.bit_map kernel.bitmap_sizeb kernel-Grown.bytes
        (omega (arith, kernel-Grown.same_map, bit_map-mapped, boot.below))

  final-Grown : Grown reserved (reserve_modules reserved bp.modules)
  final-Grown = reserve_modules-Grown reserved bp.modules reserved-Grown.bytes boot.modules

  map-used :
      (a : ℕ)
      → map_start ke ≤ a
      → a < map_start ke + 4 * blocks_of bp.memory
      → used reserved (a / 4096) ≡ true
  map-used a l h =
      let inside : within (kernel.bit_map / 4096) (pages_of kernel.bitmap_sizeb) (a / 4096) ≡ true =
        ap₂ (λ b z. within (b / 4096) (pages_of z) (a / 4096))
          (kernel-Grown.same_map ∙ bit_map-mapped) kernel-size
        ∙ covers (sum_usable bp.memory.regions 0 / 4096) ((ke + 0xfff) / 4096) a
            (omega (arith, total_small)) l h in
      reserved-Marked.marks (a / 4096) ∙ rw inside

  abbrev final : Pmm
  final = reserve_modules reserved bp.modules

  final-blocks : final.total_block ≡ blocks_of bp.memory
  final-blocks =
      final-Grown.same_blocks ∙ reserved-Grown.same_blocks ∙ kernel-Grown.same_blocks
      ∙ blocks-mapped

  final-map : final.bit_map ≡ map_start ke
  final-map =
      final-Grown.same_map ∙ reserved-Grown.same_map ∙ kernel-Grown.same_map ∙ bit_map-mapped

  final-IsValid : IsValid final
  final-IsValid = record {
    bytes = final-Grown.bytes;
    small = omega (arith, total_small, final-blocks);
    nonempty = omega (arith, boot.room, final-blocks);
    in_space = omega (arith, final-blocks, final-map, boot.in_space);
    owned = λ a l h f.
        final-Grown.keeps (a / 4096)
          (map-used a (omega (arith, final-map)) (omega (arith, final-map, final-blocks)));
  }

  size-mapped : mapped.bitmap_sizeb ≡ size_of bp.memory
  unfolding setup_memory_bitmap get_memory_info set_kernel_addr
  size-mapped = refl

  zeroed : (a : ℕ) → map_start ke ≤ a → a < map_start ke + size_of bp.memory → mapped.mem a ≡ 0
  unfolding setup_memory_bitmap get_memory_info set_kernel_addr
  zeroed a l h =
      memset_inside s.mem mapped.bit_map 0 (size_of bp.memory) a (omega (arith, bit_map-mapped))
        (omega (arith, bit_map-mapped))

  mapped-free : (c : ℕ) → c < size_of bp.memory / 4 * 32 → used mapped c ≡ false
  unfolding used test_bit bit_map_word
  mapped-free c h =
      let word : read32 mapped.mem (mapped.bit_map + 4 * (c / 32)) ≡ 0 =
        read32_zero mapped.mem _
          (λ b l m. zeroed b (omega (arith, bit_map-mapped)) (omega (arith, bit_map-mapped))) in
      rw (word, and_zero (2 ^ (c % 32)))

  low-Marked : Marked true mapped 0 1 low
  low-Marked =
      reserve_memory_block-Marked mapped 0 0x500 mapped-IsBytes (omega arith)
        (omega (arith, unused-mapped, blocks-mapped, boot.room))

  loader-Marked : Marked true low 7 1 loader
  loader-Marked = reserve_memory_block-Marked low 0x7c00 512 low-Grown.bytes (omega arith) (
      omega (
        arith,
        unused-mapped,
        count-reserve_memory_block mapped 0 0x500,
        low-Grown.same_blocks,
        blocks-mapped,
        boot.room,
      ))

  reserved-marks :
      (c : ℕ) → c < size_of bp.memory / 4 * 32 → used reserved c ≡ linker_pages ks ke bp.memory c
  reserved-marks c h =
      let map_marks =
        reserved-Marked.marks c
        ∙ ap₂ (λ b z. if within (b / 4096) (pages_of z) c then true else used kernel c)
            (kernel-Grown.same_map ∙ bit_map-mapped) kernel-size in
      or_of_marks (within 0 1 c) (within 7 1 c) (within (ks / 4096) (pages_of (ke - ks)) c)
        (within (map_start ke / 4096) (pages_of (size_of bp.memory)) c) (mapped-free c h)
        (low-Marked.marks c) (loader-Marked.marks c) (kernel-Marked.marks c) map_marks

  -- On a bootable start, `INIT_MEMORY` leaves a valid state. In the whole words of the bitmap the
  -- frames marked used are, outside the loaded modules, exactly these: frame 0, frame 7, the page
  -- numbers of the linker's addresses from `__kernel__start` to `__kernel__end`, and the page
  -- numbers of the bitmap's own address.
  pub init_memory-IsValid :
      let t = init_memory s ks ke bp in
      IsValid t
      × ((c : ℕ)
          → c < size_of bp.memory / 4 * 32
          → All (λ m. within (m.base / 4096) (pages_of m.size) c ≡ false) bp.modules
          → used t c ≡ linker_pages ks ke bp.memory c)
  unfolding init_memory
  init_memory-IsValid = rw reserve_memory-mapped (
    final-IsValid,
    λ c h apart.
        used-reserve_modules reserved bp.modules c reserved-Grown.bytes boot.modules apart
        ∙ reserved-marks c h,
  )
