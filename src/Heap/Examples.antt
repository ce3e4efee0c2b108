-- ===== src/Heap/Examples.antt =====
-- A heap of one page with a block in use between two free ones.
use toy_kernel.Common.{ℕ, ◌+◌, ◌≡◌, refl, inr, true, false, some, List, [], ◌∷◌, arith, u32}
use toy_kernel.Pmm.Sample.{small_pmm}
use toy_kernel.Heap.{
  Heap, MallocBlock, header_size, find_block, malloc_split, merge_blocks, malloc_next_block,
}
use toy_kernel.Heap.Tiling.{Tiles, in_use, malloc_split-Tiles}
use toy_kernel.Heap.Merge.{merge_blocks-Tiles}
use toy_kernel.Heap.Serve.{Served, malloc_next_block-Served, malloc_next_block-in_use}

abbrev heap_start : ℕ
heap_start = 0xd1000000

abbrev first : MallocBlock
first = record { address = heap_start; size = 88; free = true }

abbrev second : MallocBlock
second = record { address = heap_start + 100; size = 188; free = false }

abbrev third : MallocBlock
third = record { address = heap_start + 300; size = 3784; free = true }

abbrev blocks : List MallocBlock
blocks = first ∷ second ∷ third ∷ []

abbrev heap_of : List MallocBlock → Heap
heap_of list = record {
  vmm = record { pmm = small_pmm; current_page_directory = 0x2000; cr3 = 0x2000; paging = true };
  malloc_list = list;
  malloc_virt_address = heap_start;
  malloc_phys_address = 0x8000;
  total_malloc_pages = 1;
}

blocks-Tiles : Tiles heap_start blocks (heap_start + 4096)
unfolding Tiles
blocks-Tiles = (refl, (refl, (refl, refl)))

malloc_split-Tiles_run :
    Tiles heap_start (malloc_split first 40 (second ∷ third ∷ [])) (heap_start + 4096)
malloc_split-Tiles_run =
    malloc_split-Tiles first 40 (second ∷ third ∷ []) heap_start (heap_start + 4096) (omega arith)
      (omega arith) blocks-Tiles

merge_blocks-Tiles_example :
    Tiles heap_start (merge_blocks blocks) (heap_start + 4096)
    × (in_use (merge_blocks blocks) ≡ in_use blocks)
merge_blocks-Tiles_example =
    merge_blocks-Tiles blocks heap_start (heap_start + 4096) (omega arith) blocks-Tiles

malloc_next_block-Served_example :
    (ptr : ℕ) × (t : Heap) × (malloc_next_block (heap_of blocks) 40 ≡ some (ptr, t))
    × Served (heap_of blocks) heap_start (heap_start + 4096) 40 [] first (second ∷ third ∷ []) ptr t
unfolding find_block
malloc_next_block-Served_example =
    malloc_next_block-Served (heap_of blocks) first (second ∷ third ∷ []) heap_start
      (heap_start + 4096) 40 refl (omega arith) (omega arith) (omega arith) blocks-Tiles refl
      (inr (omega arith))

malloc_next_block-in_use_example :
    malloc_next_block (heap_of (second ∷ [])) 188
    ≡ some (u32 (heap_start + 100 + header_size), heap_of (second ∷ []))
malloc_next_block-in_use_example =
    malloc_next_block-in_use (heap_of (second ∷ [])) second refl (omega arith)
