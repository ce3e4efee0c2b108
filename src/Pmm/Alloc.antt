-- ===== src/Pmm/Alloc.antt =====
-- Reserving, allocating and giving back frames: the functions of src/kernel/mm/pmm/pmm.c that
-- change the bitmap. A `for` loop recurs on the rounds left. A function that returns an address
-- returns it beside the new state; the address 0 is its failure.
pub mod Mark
pub mod Valid
pub mod Block
pub mod Release
pub mod Guard
pub mod Count
use toy_kernel.Common.{
  ℕ, zero, suc, ◌+◌, ◌-◌, ◌*◌, ◌/◌, ◌%◌, ◌^◌, ◌≤◌, ◌<◌, min, max, bit_and, bit_or, ◌≡◌, refl, sym,
  ap, ◌∙◌, ◌≢◌, ◌↔◌, ◌⊎◌, inl, inr, Bool, true, false, not, ◌&&◌, ◌||◌, Option, none, some, List,
  [], ◌∷◌, ◌++◌, map, arith, ltb, leb, ◌==◌, ◌!=◌, if◌then◌else◌, ltb→lt, leb→le, ==_iff,
  Bool-cases, Option-cases, u8, u16, u32, sub32, ◌<<<◌, ◌>>>◌, length, get_elem?, get_or, set, drop,
  take, replicate, length-append, length-set, get_elem?-set_self, get_elem?-set_ne,
}
use toy_kernel.Memory.{memset}
use toy_kernel.Pmm.State.{Pmm, per_block_size, invalid_frame, set_bit, unset_bit, used}
use toy_kernel.Pmm.Search.{get_free_memory_block, get_free_frame_by_size}

-- `(size + PER_BLOCK_SIZE - 1) / PER_BLOCK_SIZE` on `uint32_t`.
abbrev pub pages_of : ℕ → ℕ
pages_of size = u32 (size + per_block_size - 1) / per_block_size

-- `set_bit(page); TOTAL_USED_BLOCKS++;`
unfoldable pub take_frame : Pmm → ℕ → Pmm
take_frame s page = record (set_bit s page) { total_used_blocks = u32 (s.total_used_blocks + 1) }

-- `unset_bit(page); TOTAL_USED_BLOCKS--;`
unfoldable pub give_frame : Pmm → ℕ → Pmm
give_frame s page = record (unset_bit s page) { total_used_blocks = sub32 s.total_used_blocks 1 }

unfoldable pub reserve_loop : Pmm → (start_page left i : ℕ) → Pmm
reserve_loop s start_page zero i = s
reserve_loop s start_page (suc left) i =
    let page = u32 (start_page + i) in
    reserve_loop (if used s page then s else take_frame s page) start_page left (i + 1)

unfoldable pub reserve_memory_block : Pmm → ℕ → ℕ → Pmm
unfolding reserve_loop take_frame
reserve_memory_block s base size =
    if leb s.total_block s.total_used_blocks
    then s
    else reserve_loop s (base / per_block_size) (pages_of size) 0

unfoldable pub unset_loop : Pmm → (start_page left i : ℕ) → Pmm
unset_loop s start_page zero i = s
unset_loop s start_page (suc left) i =
    unset_loop (give_frame s (u32 (start_page + i))) start_page left (i + 1)

unfoldable pub unreserve_memory_block : Pmm → ℕ → ℕ → Pmm
unfolding unset_loop give_frame
unreserve_memory_block s base size = unset_loop s (base / per_block_size) (pages_of size) 0

unfoldable pub allocate_chunk : Pmm → ℕ × Pmm
unfolding take_frame
allocate_chunk s =
    if leb s.total_block s.total_used_blocks
    then (0, s)
    else let frame = get_free_memory_block s in
      if frame == invalid_frame then (0, s) else (u32 (frame * per_block_size), take_frame s frame)

unfoldable pub mark_loop : Pmm → (frame left i : ℕ) → Pmm
mark_loop s frame zero i = s
mark_loop s frame (suc left) i = mark_loop (take_frame s (u32 (frame + i))) frame left (i + 1)

-- `memset((void *)addr, 0, size)` on the memory of the state.
abbrev pub clear_memory : Pmm → ℕ → ℕ → Pmm
clear_memory s addr size = record s { mem = memset s.mem addr 0 size }

unfoldable pub allocate_byte : Pmm → ℕ → ℕ × Pmm
unfolding mark_loop take_frame
allocate_byte s size =
    let frames = pages_of size in
    let frame = get_free_frame_by_size s frames in
    if frame == invalid_frame
    then (0, s)
    else let addr = u32 (frame * per_block_size) in
      (addr, clear_memory (mark_loop s frame frames 0) addr size)

unfoldable pub allocate_block : Pmm → ℕ → ℕ × Pmm
unfolding mark_loop take_frame
allocate_block s size =
    let frame = get_free_frame_by_size s size in
    if frame == invalid_frame
    then (0, s)
    else let addr = u32 (frame * per_block_size) in
      (addr, clear_memory (mark_loop s frame size 0) addr (u32 (size * per_block_size)))

unfoldable pub deallocate_memory : Pmm → ℕ → Pmm
unfolding give_frame
deallocate_memory s base = give_frame s (base / per_block_size)

unfoldable pub deallocate_memory_by_size : Pmm → ℕ → ℕ → Pmm
unfolding unset_loop give_frame
deallocate_memory_by_size s base size = unset_loop s (base / per_block_size) (pages_of size) 0
