-- ===== src/Vmm/Entry.antt =====
-- The macros of src/kernel/mm/vmm/vmm.h on an entry of a page directory or a page table.
pub mod Laws
pub mod Flags
use toy_kernel.Common.{
  ℕ, zero, suc, ◌+◌, ◌-◌, ◌*◌, ◌/◌, ◌%◌, ◌^◌, ◌≤◌, ◌<◌, min, max, bit_and, bit_or, ◌≡◌, refl, sym,
  ap, ◌∙◌, ◌≢◌, ◌↔◌, ◌⊎◌, inl, inr, Bool, true, false, not, ◌&&◌, ◌||◌, Option, none, some, List,
  [], ◌∷◌, ◌++◌, map, arith, ltb, leb, ◌==◌, ◌!=◌, if◌then◌else◌, ltb→lt, leb→le, ==_iff,
  Bool-cases, Option-cases, u8, u16, u32, sub32, ◌<<<◌, ◌>>>◌, length, get_elem?, get_or, set, drop,
  take, replicate, length-append, length-set, get_elem?-set_self, get_elem?-set_ne,
}

abbrev pub page_size : ℕ
page_size = 4096

abbrev pub pte_present : ℕ
pte_present = 1

abbrev pub pte_read_write : ℕ
pte_read_write = 2

abbrev pub pte_user : ℕ
pte_user = 4

unfoldable pub pd_index : ℕ → ℕ
pd_index address = address >>> 22

unfoldable pub pt_index : ℕ → ℕ
pt_index address = bit_and (address >>> 12) 0x3ff

-- `~0xFFF` is `0xfffff000`.
unfoldable pub page_phys_address : ℕ → ℕ
page_phys_address entry = bit_and entry 0xfffff000

unfoldable pub set_attribute : ℕ → ℕ → ℕ
set_attribute entry attr = bit_or entry attr

-- `~attr` on `uint32_t`.
unfoldable pub clear_attribute : ℕ → ℕ → ℕ
clear_attribute entry attr = bit_and entry (2 ^ 32 - 1 - attr)

unfoldable pub test_attribute : ℕ → ℕ → ℕ
test_attribute entry attr = bit_and entry attr

-- `~0x7FFFF000` is `0x80000fff`.
unfoldable pub set_frame : ℕ → ℕ → ℕ
set_frame entry address = bit_or (bit_and entry 0x80000fff) address
