-- ===== src/Vmm/Tables.antt =====
-- Mapping, unmapping and freeing pages in the current page directory: the functions of
-- src/kernel/mm/vmm/vmm.c that work on a directory already set up. Memory is reached at its
-- physical addresses, as the identity mapping of the kernel does. Several macros applied one after
-- the other to the same entry are composed into one read and write of it.
pub mod Walk
pub mod Layout
pub mod Change
pub mod Map
pub mod MapUser
pub mod Unmap
use toy_kernel.Common.{
  ℕ, zero, suc, ◌+◌, ◌-◌, ◌*◌, ◌/◌, ◌%◌, ◌^◌, ◌≤◌, ◌<◌, min, max, bit_and, bit_or, ◌≡◌, refl, sym,
  ap, ◌∙◌, ◌≢◌, ◌↔◌, ◌⊎◌, inl, inr, Bool, true, false, not, ◌&&◌, ◌||◌, Option, none, some, List,
  [], ◌∷◌, ◌++◌, map, arith, ltb, leb, ◌==◌, ◌!=◌, if◌then◌else◌, ltb→lt, leb→le, ==_iff,
  Bool-cases, Option-cases, u8, u16, u32, sub32, ◌<<<◌, ◌>>>◌, length, get_elem?, get_or, set, drop,
  take, replicate, length-append, length-set, get_elem?-set_self, get_elem?-set_ne,
}
use toy_kernel.Memory.{Mem, read32, write32, memset}
use toy_kernel.Pmm.State.{Pmm}
use toy_kernel.Pmm.Alloc.{allocate_block, deallocate_memory_by_size}
use toy_kernel.Vmm.Entry.{
  page_size, pte_present, pte_read_write, pte_user, pd_index, pt_index, page_phys_address,
  set_attribute, clear_attribute, test_attribute, set_frame,
}

-- `current_page_directory`, beside the processor's CR3, its paging flag, and the physical memory.
pub record Vmm : Type 0 where
  pub pmm : Pmm
  pub current_page_directory : ℕ
  pub cr3 : ℕ
  pub paging : Bool

-- The state with other memory contents.
abbrev pub with_mem : Vmm → Mem → Vmm
with_mem s m = record s { pmm = record (s.pmm) { mem = m } }

-- `*p = f(*p)` for a `uint32_t *p`.
unfoldable pub update32 : Vmm → ℕ → (ℕ → ℕ) → Vmm
update32 s p f = with_mem s (write32 s.pmm.mem p (f (read32 s.pmm.mem p)))

-- `&pd->entries[PD_INDEX(address)]`
unfoldable pub directory_entry : Vmm → ℕ → ℕ
directory_entry s address = s.current_page_directory + 4 * pd_index address

unfoldable pub get_page : Vmm → ℕ → ℕ
unfolding directory_entry
get_page s address =
    page_phys_address (read32 s.pmm.mem (directory_entry s address)) + 4 * pt_index address

unfoldable pub allocate_page : Vmm → ℕ → ℕ × Vmm
unfolding update32
allocate_page s page =
    let (block, p) = allocate_block s.pmm 1 in
    let t = record s { pmm = p } in
    if block == 0
    then (0, t)
    else (block, update32 t page (λ e. set_attribute (set_frame e block) pte_present))

unfoldable pub free_page : Vmm → ℕ → Vmm
unfolding update32
free_page s page =
    let address = page_phys_address (read32 s.pmm.mem page) in
    let t =
      if address == 0 then s else record s { pmm = deallocate_memory_by_size s.pmm address 1 } in
    update32 t page (λ e. clear_attribute e pte_present)

unfoldable pub unmap_page : Vmm → ℕ → Vmm
unfolding update32 get_page
unmap_page s virt_address =
    update32 s (get_page s virt_address) (λ e. clear_attribute (set_frame e 0) pte_present)

-- The part of `map_page` and `map_page_user` that brings in a page table: allocated, cleared, and
-- entered into the directory with `flags`. `false` is running out of memory.
unfoldable pub new_table : Vmm → ℕ → (ℕ → ℕ) → Bool × Vmm
unfolding update32 directory_entry
new_table s virt_address flags =
    let (table, p) = allocate_block s.pmm 1 in
    let t = record s { pmm = p } in
    if table == 0 then (false, t) else (
      true,
      update32 (with_mem t (memset t.pmm.mem table 0 4096)) (directory_entry t virt_address)
          (λ e. set_frame (flags e) table),
    )

unfoldable pub is_present : Vmm → ℕ → Bool
unfolding directory_entry
is_present s virt_address =
    bit_and (read32 s.pmm.mem (directory_entry s virt_address)) pte_present == pte_present

unfoldable pub map_in : Vmm → (phys_address virt_address : ℕ) → Vmm
unfolding update32 get_page
map_in s phys_address virt_address =
    update32 s (get_page s virt_address) (λ e. set_frame (set_attribute e pte_present) phys_address)

unfoldable pub map_page : Vmm → (phys_address virt_address : ℕ) → Bool × Vmm
unfolding new_table is_present map_in
map_page s phys_address virt_address =
    let (found, t) =
      if is_present s virt_address
      then (true, s)
      else new_table s virt_address
          (λ e. set_attribute (set_attribute e pte_present) pte_read_write) in
    if found then (true, map_in t phys_address virt_address) else (false, t)

unfoldable pub map_in_user : Vmm → (phys_address virt_address : ℕ) → Vmm
unfolding update32 get_page
map_in_user s phys_address virt_address = update32 s (get_page s virt_address) (λ e.
    set_frame (set_attribute (set_attribute (set_attribute e pte_present) pte_read_write) pte_user)
      phys_address)

-- `flush_tlb_entry` has no effect here: a translation is always looked up in memory.
unfoldable pub map_page_user : Vmm → (phys_address virt_address : ℕ) → Bool × Vmm
unfolding new_table is_present map_in_user update32 directory_entry
map_page_user s phys_address virt_address =
    let (found, t) =
      if is_present s virt_address
      then (true, update32 s (directory_entry s virt_address) (λ e. set_attribute e pte_user))
      else new_table s virt_address (λ e.
        set_attribute (set_attribute (set_attribute e pte_present) pte_read_write) pte_user) in
    if found then (true, map_in_user t phys_address virt_address) else (false, t)
