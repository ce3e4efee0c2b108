-- ===== src/Vmm/Setup/Examples.antt =====
-- Setting up paging in the small memory.
use toy_kernel.Common.{
  ℕ, ◌+◌, ◌-◌, ◌/◌, ◌^◌, ◌<◌, ◌≡◌, refl, true, false, none, some, arith, ◌==◌, if◌then◌else◌,
}
use toy_kernel.Memory.{read32, write32, memset}
use toy_kernel.Pmm.Sample.{small_pmm, small_pmm-used, small_pmm-IsValid}
use toy_kernel.Pmm.State.{used, test_bit, set_bit, bit_map_word}
use toy_kernel.Pmm.Search.{get_free_memory_block, get_free_frame_by_size}
use toy_kernel.Pmm.Alloc.{allocate_block}
use toy_kernel.Vmm.Entry.{set_frame, set_attribute, pt_index, pd_index}
use toy_kernel.Vmm.Tables.{Vmm, update32, directory_entry}
use toy_kernel.Vmm.Tables.Walk.{walk}
use toy_kernel.Vmm.Tables.Layout.{IsTables}
use toy_kernel.Vmm.Setup.{
  clear_loop, table_loop, setup_table, setup_page_directory_table, setup_higher_half_kernel,
  setup_page_table, initialize_vmemory,
}
use toy_kernel.Vmm.Setup.Initial.{initialize_vmemory-walk}

abbrev before_paging : Vmm
before_paging = record { pmm = small_pmm; current_page_directory = 0; cr3 = 0; paging = false }

directory_done : (setup_page_directory_table before_paging).0 ≡ true
unfolding setup_page_directory_table allocate_block get_free_frame_by_size get_free_memory_block
    bit_map_word read32 used test_bit
directory_done = refl

higher_done : (setup_higher_half_kernel (setup_page_directory_table before_paging).1).0 ≡ true
unfolding setup_page_directory_table setup_higher_half_kernel setup_table allocate_block
    get_free_frame_by_size get_free_memory_block bit_map_word read32 used test_bit set_bit memset
    write32 clear_loop
higher_done = refl

lower_done :
    (setup_page_table (setup_higher_half_kernel (setup_page_directory_table before_paging).1).1).0
    ≡ true
unfolding setup_page_directory_table setup_higher_half_kernel setup_page_table setup_table
    allocate_block get_free_frame_by_size get_free_memory_block bit_map_word read32 used test_bit
    set_bit memset write32 clear_loop table_loop set_frame set_attribute pt_index pd_index update32
    directory_entry
lower_done = refl

initialize_vmemory-walk_example :
    let t = (initialize_vmemory before_paging).1 in
    IsTables t
    × (t.cr3 ≡ t.current_page_directory)
    × (t.paging ≡ true)
    × ((w : ℕ)
        → w < 2 ^ 32
        → walk t w ≡ (
            if w / 2 ^ 22 == 0
            then some w
            else if w / 2 ^ 22 == 768
            then some (w - 0xc0000000 + 0x100000)
            else none))
initialize_vmemory-walk_example =
    initialize_vmemory-walk before_paging small_pmm-IsValid (omega arith)
      (small_pmm-used 0 (omega arith)) directory_done higher_done lower_done
