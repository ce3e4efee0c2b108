-- ===== src/Vmm/Setup.antt =====
-- Setting up paging, `INITIALIZE_VMEMORY` of src/kernel/mm/vmm/vmm.c: a page directory, a table for
-- the kernel in the higher half, and a table that maps the first 4 MiB to themselves.
pub mod Fill
pub mod Install
pub mod Directory
pub mod Initial
mod Examples
use toy_kernel.Common.{
  ℕ, zero, suc, ◌+◌, ◌-◌, ◌*◌, ◌/◌, ◌%◌, ◌^◌, ◌≤◌, ◌<◌, min, max, bit_and, bit_or, ◌≡◌, refl, sym,
  ap, ◌∙◌, ◌≢◌, ◌↔◌, ◌⊎◌, inl, inr, Bool, true, false, not, ◌&&◌, ◌||◌, Option, none, some, List,
  [], ◌∷◌, ◌++◌, map, arith, ltb, leb, ◌==◌, ◌!=◌, if◌then◌else◌, ltb→lt, leb→le, ==_iff,
  Bool-cases, Option-cases, u8, u16, u32, sub32, ◌<<<◌, ◌>>>◌, length, get_elem?, get_or, set, drop,
  take, replicate, length-append, length-set, get_elem?-set_self, get_elem?-set_ne,
}
use toy_kernel.Memory.{Mem, write32, memset}
use toy_kernel.Pmm.Alloc.{allocate_block}
use toy_kernel.Vmm.Entry.{
  page_size, pte_present, pte_read_write, pt_index, set_attribute, set_frame,
}
use toy_kernel.Vmm.Tables.{Vmm, with_mem, update32, directory_entry}

abbrev pub kernel_address : ℕ
kernel_address = 0x100000

abbrev pub kernel_virt_base : ℕ
kernel_virt_base = 0xc0000000

-- The loop that clears the entries of the directory a second time, from entry `i` on.
unfoldable pub clear_loop : Mem → (directory left i : ℕ) → Mem
clear_loop m directory zero i = m
clear_loop m directory (suc left) i =
    clear_loop (write32 m (directory + 4 * i) 0) directory left (i + 1)

-- The address 0 is an absent directory, which the code stores before it tests for it.
unfoldable pub setup_page_directory_table : Vmm → Bool × Vmm
setup_page_directory_table s =
    let (directory, p) = allocate_block s.pmm 1 in
    let t = record s { pmm = p; current_page_directory = directory } in
    if directory == 0
    then (false, t)
    else (true, with_mem t (clear_loop (memset t.pmm.mem directory 0 4096) directory 1024 0))

-- The loop that fills a page table, with `left` rounds to go.
unfoldable pub table_loop : Mem → (table left frame virt : ℕ) → Mem
table_loop m table zero frame virt = m
table_loop m table (suc left) frame virt =
    let page = set_frame (set_attribute (set_attribute 0 pte_present) pte_read_write) frame in
    table_loop (write32 m (table + 4 * pt_index virt) page) table left (u32 (frame + page_size))
      (u32 (virt + page_size))

-- `setup_higher_half_kernel` and `setup_page_table` are this with other addresses.
unfoldable pub setup_table : Vmm → (frame virt : ℕ) → Bool × Vmm
unfolding update32 directory_entry
setup_table s frame virt =
    let (table, p) = allocate_block s.pmm 1 in
    let t = record s { pmm = p } in
    if table == 0 then (false, t) else (
      true,
      update32 (with_mem t (table_loop (memset t.pmm.mem table 0 4096) table 1024 frame virt))
          (directory_entry t virt)
          (λ e. set_frame (set_attribute (set_attribute e pte_present) pte_read_write) table),
    )

unfoldable pub setup_higher_half_kernel : Vmm → Bool × Vmm
unfolding setup_table
setup_higher_half_kernel s = setup_table s kernel_address kernel_virt_base

unfoldable pub setup_page_table : Vmm → Bool × Vmm
unfolding setup_table
setup_page_table s = setup_table s 0 0

unfoldable pub set_page_directory : Vmm → Bool × Vmm
set_page_directory s =
    if s.current_page_directory == 0
    then (false, s)
    else (true, record s { cr3 = s.current_page_directory })

unfoldable pub enable_paging : Vmm → Bool × Vmm
enable_paging s = (true, record s { paging = true })

-- The results of the five calls are dropped.
unfoldable pub initialize_vmemory : Vmm → Bool × Vmm
initialize_vmemory s =
    let (_, directory) = setup_page_directory_table s in
    let (_, higher) = setup_higher_half_kernel directory in
    let (_, lower) = setup_page_table higher in
    let (_, loaded) = set_page_directory lower in
    let (_, enabled) = enable_paging loaded in (true, enabled)
