-- ===== src/Heap.antt =====
-- The allocator behind `malloc` and `free`, src/kernel/mm/handler/malloc.c: a singly linked list
-- of blocks, each with a header of 12 bytes in front of its payload. The list is a `List` in the
-- order of the `next` pointers, each block beside the address of its header; the empty list is the
-- null head. `none` stands for a call that does not return: a null head read, or the loop on an
-- 8-bit page count that never ends.
pub mod Tiling
pub mod Merge
pub mod Serve
mod Examples
use toy_kernel.Common.{
  ℕ, zero, suc, ◌+◌, ◌-◌, ◌*◌, ◌/◌, ◌%◌, ◌^◌, ◌≤◌, ◌<◌, min, max, bit_and, bit_or, ◌≡◌, refl, sym,
  ap, ◌∙◌, ◌≢◌, ◌↔◌, ◌⊎◌, inl, inr, Bool, true, false, not, ◌&&◌, ◌||◌, Option, none, some, List,
  [], ◌∷◌, ◌++◌, map, arith, ltb, leb, ◌==◌, ◌!=◌, if◌then◌else◌, ltb→lt, leb→le, ==_iff,
  Bool-cases, Option-cases, u8, u16, u32, sub32, ◌<<<◌, ◌>>>◌, length, get_elem?, get_or, set, drop,
  take, replicate, length-append, length-set, get_elem?-set_self, get_elem?-set_ne,
}
use toy_kernel.Pmm.Alloc.{allocate_block}
use toy_kernel.Vmm.Entry.{page_size, pte_read_write, set_attribute}
use toy_kernel.Vmm.Tables.{Vmm, update32, get_page, allocate_page, map_page}

pub record MallocBlock : Type 0 where
  pub address : ℕ
  pub size : ℕ
  pub free : Bool

pub record Heap : Type 0 where
  pub vmm : Vmm
  pub malloc_list : List MallocBlock
  pub malloc_virt_address : ℕ
  pub malloc_phys_address : ℕ
  pub total_malloc_pages : ℕ

-- `sizeof(malloc_block_t)`
abbrev pub header_size : ℕ
header_size = 12

-- The loop that maps in the pages of a new heap, with `left` rounds to go.
unfoldable pub init_loop : Vmm → (left i phys virt : ℕ) → Vmm
init_loop s zero i phys virt = s
init_loop s (suc left) i phys virt =
    let (_, mapped) = map_page s (u32 (phys + i * page_size)) virt in
    let writable = update32 mapped (get_page mapped virt) (λ e. set_attribute e pte_read_write) in
    init_loop writable left (i + 1) phys (u32 (virt + page_size))

-- A partial page is counted twice, by rounding up and by the test for a remainder.
unfoldable pub init_pages : ℕ → ℕ
init_pages bytes =
    let pages = u32 (bytes + page_size - 1) / page_size in
    if bytes % page_size == 0 then pages else u32 (pages + 1)

unfoldable pub malloc_init : Heap → ℕ → Heap
unfolding init_pages
malloc_init h bytes =
    let pages = init_pages bytes in
    let (phys, p) = allocate_block h.vmm.pmm pages in
    let s = record (h.vmm) { pmm = p } in
    record h {
      vmm = init_loop s pages 0 phys h.malloc_virt_address;
      malloc_phys_address = phys;
      total_malloc_pages = pages;
      malloc_list =
          record {
            address = h.malloc_virt_address;
            size = sub32 (u32 (pages * page_size)) header_size;
            free = true;
          }
          ∷ [];
    }

-- `malloc_split` on the first block of a list.
unfoldable pub malloc_split : MallocBlock → ℕ → List MallocBlock → List MallocBlock
malloc_split node size rest =
    record node { size = size; free = false }
    ∷ record {
      address = u32 (node.address + size + header_size);
      size = sub32 (sub32 node.size size) header_size;
      free = true;
    }
    ∷ rest

-- The block that the search stops at: the first free one that is large enough, or else the last.
-- The result is the blocks before it, the block, and the blocks after it.
unfoldable pub find_block :
    MallocBlock → List MallocBlock → ℕ → List MallocBlock × MallocBlock × List MallocBlock
find_block cur [] size = ([], cur, [])
find_block cur (next ∷ rest) size =
    let (before, found, after) = find_block next rest size in
    if ltb cur.size size || not cur.free
    then (cur ∷ before, found, after)
    else ([], cur, next ∷ rest)

-- `num_pages`, a `uint8_t`, from `num_pages` on: the first count that is enough.
unfoldable pub count_pages : (left num_pages size want : ℕ) → Option ℕ
count_pages zero num_pages size want = none
count_pages (suc left) num_pages size want =
    let rest = count_pages left (u8 (num_pages + 1)) size want in
    if ltb (u32 (size + num_pages * page_size)) want then rest else some num_pages

-- The loop that maps in more pages, with `left` rounds to go. The page table entry that the code
-- changes after `map_page` is its own local variable.
unfoldable pub grow_loop : Heap → (left virt : ℕ) → MallocBlock → Heap × MallocBlock
grow_loop h zero virt cur = (h, cur)
grow_loop h (suc left) virt cur =
    let (temp, p) = allocate_block h.vmm.pmm 1 in
    let (_, s) = map_page (record (h.vmm) { pmm = p }) temp virt in
    grow_loop (record h { vmm = s; total_malloc_pages = u32 (h.total_malloc_pages + 1) }) left
      (u32 (virt + page_size)) (record cur { size = u32 (cur.size + page_size) })

-- The part of `malloc_next_block` after the search.
unfoldable pub serve_block :
    Heap
    → (before : List MallocBlock) → MallocBlock
    → (after : List MallocBlock) → ℕ
    → Option (ℕ × Heap)
unfolding malloc_split
serve_block h before cur after size =
    let answer = u32 (cur.address + header_size) in
    if size == cur.size
    then some (answer, record h { malloc_list = before ++ record cur { free = false } ∷ after })
    else if ltb (u32 (size + header_size)) cur.size
    then some (answer, record h { malloc_list = before ++ malloc_split cur size after })
    else elim (count_pages 256 1 cur.size (u32 (size + header_size))) [
      | none ↦ none
      | some num_pages ↦
          let virt = u32 (h.malloc_virt_address + h.total_malloc_pages * page_size) in
          let (grown, node) = grow_loop h num_pages virt cur in
          some (answer, record grown { malloc_list = before ++ malloc_split node size after })
    ]

unfoldable pub search_and_serve : Heap → List MallocBlock → ℕ → Option (ℕ × Heap)
unfolding serve_block find_block
search_and_serve h [] size = none
search_and_serve h (head ∷ rest) size =
    let (before, cur, after) = find_block head rest size in serve_block h before cur after size

-- A head of size 0 is set up again.
unfoldable pub with_heap : Heap → ℕ → Option Heap
unfolding malloc_init
with_heap h size = elim (h.malloc_list) [
  | [] ↦ none
  | head ∷ rest ↦ some (if head.size == 0 then malloc_init h size else h)
]

unfoldable pub malloc_next_block : Heap → ℕ → Option (ℕ × Heap)
unfolding with_heap search_and_serve
malloc_next_block h size = if size == 0 then some (0, h) else elim (with_heap h size) [
  | none ↦ none
  | some ready ↦ search_and_serve ready ready.malloc_list size
]

-- After a merge the code goes on at the block behind the one that was merged in.
unfoldable pub merge_from : MallocBlock → List MallocBlock → List MallocBlock
merge_from cur [] = cur ∷ []
merge_from cur (next ∷ []) =
    if cur.free && next.free
    then record cur { size = u32 (cur.size + next.size + header_size) } ∷ []
    else cur ∷ next ∷ []
merge_from cur (next ∷ after ∷ rest) =
    let merged = merge_from after rest in
    let kept = merge_from next (after ∷ rest) in
    if cur.free && next.free
    then record cur { size = u32 (cur.size + next.size + header_size) } ∷ merged
    else cur ∷ kept

unfoldable pub merge_blocks : List MallocBlock → List MallocBlock
unfolding merge_from
merge_blocks [] = []
merge_blocks (head ∷ rest) = merge_from head rest

unfoldable pub merge_free_blocks : Heap → Heap
unfolding merge_blocks
merge_free_blocks h = record h { malloc_list = merge_blocks h.malloc_list }

-- The search of `malloc_free` never looks at the last block. `none` is a pointer not found.
unfoldable pub free_in : List MallocBlock → ℕ → Option (List MallocBlock)
free_in [] ptr = none
free_in (cur ∷ []) ptr = none
free_in (cur ∷ next ∷ rest) ptr =
    let later = free_in (next ∷ rest) ptr in
    if u32 (cur.address + header_size) == ptr
    then some (record cur { free = true } ∷ next ∷ rest)
    else elim later [ none ↦ none | some list ↦ some (cur ∷ list) ]

-- `none` for a null head, which the loop reads through.
unfoldable pub malloc_free : Heap → ℕ → Option Heap
unfolding free_in merge_free_blocks
malloc_free h ptr = elim (h.malloc_list) [
  | [] ↦ none
  | head ∷ rest ↦ some (elim (free_in (head ∷ rest) ptr) [
    | none ↦ h
    | some list ↦ merge_free_blocks (record h { malloc_list = list })
  ])
]
