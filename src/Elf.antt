-- ===== src/Elf.antt =====
-- The loader of user programs, `elf_load` of src/kernel/loader/elf.c. The image is read where it
-- lies in memory; addresses of the image and of the pages that it is copied to are the physical
-- ones, as under the kernel's identity mapping. What the code prints is left out.
pub mod Page
mod Examples
use toy_kernel.Common.{
  ℕ, zero, suc, ◌+◌, ◌-◌, ◌*◌, ◌/◌, ◌%◌, ◌^◌, ◌≤◌, ◌<◌, min, max, bit_and, bit_or, ◌≡◌, refl, sym,
  ap, ◌∙◌, ◌≢◌, ◌↔◌, ◌⊎◌, inl, inr, Bool, true, false, not, ◌&&◌, ◌||◌, Option, none, some, List,
  [], ◌∷◌, ◌++◌, map, arith, ltb, leb, ◌==◌, ◌!=◌, if◌then◌else◌, ltb→lt, leb→le, ==_iff,
  Bool-cases, Option-cases, u8, u16, u32, sub32, ◌<<<◌, ◌>>>◌, length, get_elem?, get_or, set, drop,
  take, replicate, length-append, length-set, get_elem?-set_self, get_elem?-set_ne,
}
use toy_kernel.Memory.{Mem, read32, memcpy}
use toy_kernel.Pmm.Alloc.{allocate_block}
use toy_kernel.Vmm.Entry.{page_size}
use toy_kernel.Vmm.Tables.{Vmm, with_mem, map_page_user}

-- `ELF_OK` and the `ELF_ERR_*` codes, 0 and -1 to -5.
pub data ElfStatus : Type 0 where
  elf_ok : ElfStatus
  elf_err_magic : ElfStatus
  elf_err_class : ElfStatus
  elf_err_type : ElfStatus
  elf_err_no_load : ElfStatus
  elf_err_oom : ElfStatus

unfoldable pub read16 : Mem → ℕ → ℕ
read16 m a = m a + m (a + 1) * 2 ^ 8

-- The fields of `Elf32_Ehdr` that the loader reads.
pub record Ehdr : Type 0 where
  pub e_ident : ℕ → ℕ
  pub e_type : ℕ
  pub e_entry : ℕ
  pub e_phoff : ℕ
  pub e_phentsize : ℕ
  pub e_phnum : ℕ

unfoldable pub read_ehdr : Mem → ℕ → Ehdr
unfolding read16 read32
read_ehdr m image = record {
  e_ident = λ i. m (image + i);
  e_type = read16 m (image + 16);
  e_entry = read32 m (image + 24);
  e_phoff = read32 m (image + 28);
  e_phentsize = read16 m (image + 42);
  e_phnum = read16 m (image + 44);
}

-- The fields of `Elf32_Phdr` that the loader reads.
pub record Phdr : Type 0 where
  pub p_type : ℕ
  pub p_offset : ℕ
  pub p_vaddr : ℕ
  pub p_filesz : ℕ
  pub p_memsz : ℕ

unfoldable pub read_phdr : Mem → ℕ → Phdr
unfolding read32
read_phdr m a = record {
  p_type = read32 m a;
  p_offset = read32 m (a + 4);
  p_vaddr = read32 m (a + 8);
  p_filesz = read32 m (a + 16);
  p_memsz = read32 m (a + 20);
}

abbrev pub et_exec : ℕ
et_exec = 2

abbrev pub pt_load : ℕ
pt_load = 1

-- The checks of the header, in the order of the code; `none` is a header that passes.
unfoldable pub check_header : Ehdr → Option ElfStatus
check_header e =
    if e.e_ident 0 != 0x7f || e.e_ident 1 != 0x45 || e.e_ident 2 != 0x4c || e.e_ident 3 != 0x46
    then some elf_err_magic
    else if e.e_ident 4 != 1
    then some elf_err_class
    else if e.e_type != et_exec
    then some elf_err_type
    else none

-- The bytes of the file that belong in the page at `page_off`.
unfoldable pub copy_size : (filesz page_off : ℕ) → ℕ
copy_size filesz page_off =
    if ltb page_off filesz
    then if ltb page_size (filesz - page_off) then page_size else filesz - page_off
    else 0

-- The copy of the file's bytes into a page that was just allocated.
unfoldable pub fill_page : Mem → (phys src filesz page_off : ℕ) → Mem
unfolding copy_size
fill_page m phys src filesz page_off =
    if ltb page_off filesz
    then memcpy m phys (u32 (src + page_off)) (copy_size filesz page_off)
    else m

-- One round of the page loop: `false` is out of memory. The result of `map_page_user` is dropped.
unfoldable pub load_page : Vmm → (src vaddr filesz page_off : ℕ) → Bool × Vmm
unfolding fill_page
load_page s src vaddr filesz page_off =
    let (phys, p) = allocate_block s.pmm 1 in
    let t = record s { pmm = p } in
    if phys == 0
    then (false, t)
    else let copied = with_mem t (fill_page t.pmm.mem phys src filesz page_off) in
      (true, (map_page_user copied phys (u32 (vaddr + page_off))).1)

-- The page loop from page `p` on, with `left` rounds to go.
unfoldable pub load_pages : Vmm → (src vaddr filesz left p : ℕ) → Bool × Vmm
unfolding load_page
load_pages s src vaddr filesz zero p = (true, s)
load_pages s src vaddr filesz (suc left) p =
    let (loaded, t) = load_page s src vaddr filesz (u32 (p * page_size)) in
    let rest = load_pages t src vaddr filesz left (p + 1) in if loaded then rest else (false, t)

unfoldable pub load_segment : Vmm → (image : ℕ) → Phdr → Bool × Vmm
unfolding load_pages
load_segment s image phdr =
    load_pages s (u32 (image + phdr.p_offset)) phdr.p_vaddr phdr.p_filesz
      (u32 (phdr.p_memsz + page_size - 1) / page_size) 0

-- The loop over the program headers from header `i` on, with `left` to go. Both headers are read
-- anew in each round, but their number once, before the loop. `none` is out of memory, and the number
-- counts the segments that were loaded.
unfoldable pub load_segments : Vmm → (image left i loaded : ℕ) → Option ℕ × Vmm
unfolding load_segment read_ehdr read_phdr
load_segments s image zero i loaded = (some loaded, s)
load_segments s image (suc left) i loaded =
    let ehdr = read_ehdr s.pmm.mem image in
    let phdr = read_phdr s.pmm.mem (u32 (image + ehdr.e_phoff + i * ehdr.e_phentsize)) in
    let skipped = load_segments s image left (i + 1) loaded in
    let (done, t) = load_segment s image phdr in
    let rest = load_segments t image left (i + 1) (loaded + 1) in
    if phdr.p_type != pt_load then skipped else if done then rest else (none, t)

-- The status, `*entry_out` after the call, and the state.
unfoldable pub elf_load : Vmm → (image entry_out : ℕ) → ElfStatus × ℕ × Vmm
unfolding read_ehdr check_header load_segments
elf_load s image entry_out =
    let ehdr = read_ehdr s.pmm.mem image in
    let (loaded, t) = load_segments s image ehdr.e_phnum 0 0 in
    elim (check_header ehdr) [
      | some status ↦ (status, entry_out, s)
      | none ↦ elim loaded [
        | none ↦ (elf_err_oom, entry_out, t)
        | some n ↦
            if n == 0
            then (elf_err_no_load, entry_out, t)
            else (elf_ok, (read_ehdr t.pmm.mem image).e_entry, t)
      ]
    ]
