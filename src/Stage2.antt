-- ===== src/Stage2.antt =====
-- The boot loader's second stage as a program: src/bootloader/stage2/main.c, memdetects.c and
-- memory.c, on the disk and the file system. Its `memcpy` and `memset` are those of the kernel, and
-- so are its page tables and its bitmap, but for the boot modules, which it does not reserve.
pub mod Detect
pub mod Load
pub mod Chunks
pub mod Whole
mod Examples
use toy_kernel.Common.{
  ℕ, zero, suc, ◌+◌, ◌-◌, ◌*◌, ◌/◌, ◌%◌, ◌^◌, ◌≤◌, ◌<◌, min, max, bit_and, bit_or, ◌≡◌, refl, sym,
  ap, ◌∙◌, ◌≢◌, ◌↔◌, ◌⊎◌, inl, inr, Bool, true, false, not, ◌&&◌, ◌||◌, Option, none, some, List,
  [], ◌∷◌, ◌++◌, map, arith, ltb, leb, ◌==◌, ◌!=◌, if◌then◌else◌, ltb→lt, leb→le, ==_iff,
  Bool-cases, Option-cases, u8, u16, u32, sub32, ◌<<<◌, ◌>>>◌, length, get_elem?, get_or, set, drop,
  take, replicate, length-append, length-set, get_elem?-set_self, get_elem?-set_ne,
}
use toy_kernel.Memory.{Mem}
use toy_kernel.Boot.{MemoryInfo, BootModule, BootParams}
use toy_kernel.Pmm.State.{Pmm}
use toy_kernel.Pmm.Init.{init_memory}
use toy_kernel.Vmm.Entry.{page_size}
use toy_kernel.Vmm.Tables.{Vmm, unmap_page}
use toy_kernel.Vmm.Setup.{kernel_address, initialize_vmemory}
use toy_kernel.Disk.{Bios, Disk, disk_initialize}
use toy_kernel.Fat.{Fat, Drive}
use toy_kernel.Fat.Open.{Opened, opened_file, null, null_read, endless, fat_open, fat_close}
use toy_kernel.Fat.Start.{fat_initialize}
use toy_kernel.Stage2.Detect.{E820Answer, memory_detect}
use toy_kernel.Stage2.Load.{load_loop}

abbrev pub memory_kernel_addr : ℕ
memory_kernel_addr = 0x100000

abbrev pub memory_userland_addr : ℕ
memory_userland_addr = 0x50000

-- "/kernel.bin"
abbrev pub kernel_path : List ℕ
kernel_path = 0x2f ∷ 0x6b ∷ 0x65 ∷ 0x72 ∷ 0x6e ∷ 0x65 ∷ 0x6c ∷ 0x2e ∷ 0x62 ∷ 0x69 ∷ 0x6e ∷ []

-- "/userland.elf"
abbrev pub userland_path : List ℕ
userland_path =
    0x2f ∷ 0x75 ∷ 0x73 ∷ 0x65 ∷ 0x72 ∷ 0x6c ∷ 0x61 ∷ 0x6e ∷ 0x64 ∷ 0x2e ∷ 0x65 ∷ 0x6c ∷ 0x66 ∷ []

-- How loading ends: an error that is printed before the loader stops for good, a read through a null
-- pointer, a loop that takes more rounds than it was given, or the parameters and the memory that
-- the kernel is started with.
pub data Started : Type 0 where
  disk_error : Started
  fat_error : Started
  reads_null : Started
  unfinished : Started
  loaded : BootParams → Mem → Fat → Started

-- The part of `start` that loads the user program, if it is on the disk.
unfoldable pub load_userland :
    Drive → (fuel : ℕ) → (memory : MemoryInfo) → (boot_device : ℕ) → Mem → Fat → Started
load_userland drive fuel memory boot_device m fat =
    let (result, opened) = fat_open drive fat fuel userland_path in
    let without : BootParams = record {
      memory = memory;
      boot_device = boot_device;
      modules = [];
    } in
    elim (result) [
      | opened_file h ↦ elim (load_loop drive fuel m opened h memory_userland_addr 0) [
        | none ↦ unfinished
        | some (n, read, total) ↦
            loaded
              (record without {
                modules = record { base = memory_userland_addr; size = total } ∷ [];
              })
              n (fat_close read h)
      ]
      | null ↦ loaded without m opened
      | null_read ↦ reads_null
      | endless ↦ unfinished
    ]

-- The part of `start` from the kernel's file on. Whether that was found is not tested.
unfoldable pub load_kernel :
    Drive → (fuel : ℕ) → List E820Answer → (boot_device : ℕ) → Mem → Fat → Started
unfolding load_userland
load_kernel drive fuel answers boot_device m fat =
    let (result, opened) = fat_open drive fat fuel kernel_path in
    let memory : MemoryInfo = record { regions = memory_detect answers } in
    elim (result) [
      | opened_file h ↦ elim (load_loop drive fuel m opened h memory_kernel_addr 0) [
        | none ↦ unfinished
        | some (n, read, total) ↦ load_userland drive fuel memory boot_device n (fat_close read h)
      ]
      | null ↦ reads_null
      | null_read ↦ reads_null
      | endless ↦ unfinished
    ]

-- `start` up to the set-up of memory. `disk` and `fat` are what the structures hold at first, and
-- `fuel` bounds each search of a directory and each file's loop.
unfoldable pub start :
    Bios → Disk → Fat → (fuel : ℕ) → List E820Answer → (boot_drive : ℕ) → Mem → Started
unfolding load_kernel
start bios disk fat fuel answers boot_drive m =
    let (found, ready, next) = disk_initialize bios disk 0 boot_drive in
    let drive : Drive = record { bios = bios; disk = ready } in
    let (mounted, with_root) = fat_initialize drive (record fat { call = next }) in
    if not found
    then disk_error
    else if not mounted
    then fat_error
    else load_kernel drive fuel answers (u8 boot_drive) m with_root

-- The loop that takes the kernel's pages out of the first 4 MiB, with `left` rounds to go.
unfoldable pub unmap_loop : Vmm → (left virt : ℕ) → Vmm
unmap_loop s zero virt = s
unmap_loop s (suc left) virt = unmap_loop (unmap_page s virt) left (virt + page_size)

-- `Initialize_memories`
unfoldable pub initialize_memories : Vmm → (start_addr end_addr : ℕ) → BootParams → Bool × Vmm
initialize_memories s start_addr end_addr boot_params =
    initialize_vmemory (record s {
      pmm = init_memory s.pmm start_addr end_addr (record boot_params { modules = [] });
    })

-- The last part of `start`, up to the jump to 0xc0000000.
unfoldable pub start_memory : Vmm → (start_addr end_addr : ℕ) → BootParams → Vmm
unfolding initialize_memories unmap_loop
start_memory s start_addr end_addr boot_params =
    unmap_loop (initialize_memories s start_addr end_addr boot_params).1
      ((0x400000 - kernel_address) / page_size) kernel_address
