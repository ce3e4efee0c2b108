-- ===== src/Start.antt =====
-- The start of the kernel: src/kernel/kmain.c, hal/hal.c and hal/memory.c.
pub mod First
mod Examples
use toy_kernel.Common.{
  ℕ, zero, suc, ◌+◌, ◌-◌, ◌*◌, ◌/◌, ◌%◌, ◌^◌, ◌≤◌, ◌<◌, min, max, bit_and, bit_or, ◌≡◌, refl, sym,
  ap, ◌∙◌, ◌≢◌, ◌↔◌, ◌⊎◌, inl, inr, Bool, true, false, not, ◌&&◌, ◌||◌, Option, none, some, List,
  [], ◌∷◌, ◌++◌, map, arith, ltb, leb, ◌==◌, ◌!=◌, if◌then◌else◌, ltb→lt, leb→le, ==_iff,
  Bool-cases, Option-cases, u8, u16, u32, sub32, ◌<<<◌, ◌>>>◌, length, get_elem?, get_or, set, drop,
  take, replicate, length-append, length-set, get_elem?-set_self, get_elem?-set_ne,
}
use toy_kernel.Boot.{BootParams}
use toy_kernel.Memory.{memset}
use toy_kernel.Pmm.Init.{init_memory}
use toy_kernel.Vmm.Tables.{Vmm}
use toy_kernel.Vmm.Setup.{initialize_vmemory}
use toy_kernel.Screen.{Screen, clrscr, put_s}
use toy_kernel.Drivers.Ports.{Ports}
use toy_kernel.Drivers.Pic.{remap_pic}
use toy_kernel.Gates.Segments.{GdtEntry, Tss, g_gdt, tss_init}
use toy_kernel.Gates.Interrupts.{Idt, Isrs, init_idt_32}
use toy_kernel.Sched.Task.{Kernel}
use toy_kernel.Sched.Switch.{Scheduled, schedule}
use toy_kernel.Sched.Create.{Symbols, init_task, create_user_task_from_elf}

-- The addresses that the linker puts into the image.
pub record Image : Type 0 where
  pub bss_start : ℕ
  pub bss_end : ℕ
  pub kernel_start : ℕ
  pub kernel_end : ℕ
  pub g_tss : ℕ
  pub symbols : Symbols
  pub isrs : Isrs

-- The statics of the kernel's parts, as they are once the zeroed data of the image is zero.
pub record Machine : Type 0 where
  pub kernel : Kernel
  pub screen : Screen
  pub tss : Tss
  pub gdt : List GdtEntry
  pub idt : Idt
  pub ports : Ports

-- `Initialize_memories`; the result of `INITIALIZE_VMEMORY` is dropped.
unfoldable pub initialize_memories : Image → Vmm → BootParams → Vmm
initialize_memories image s boot_params =
    (initialize_vmemory
      (record s { pmm = init_memory s.pmm image.kernel_start image.kernel_end boot_params })).1

-- `HAL_Initialize` up to the interrupts.
unfoldable pub initialize_hardware : Image → BootParams → Machine → Machine
unfolding initialize_memories
initialize_hardware image boot_params m =
    let heap = m.kernel.heap in
    let pmm = heap.vmm.pmm in
    let cleared = record pmm {
      mem = memset pmm.mem image.bss_start 0 (sub32 image.bss_end image.bss_start);
    } in
    let vmm = initialize_memories image (record (heap.vmm) { pmm = cleared }) boot_params in
    let (tss, gdt) = tss_init g_gdt image.g_tss in
    let (idt, ports) = init_idt_32 image.isrs (m.idt, remap_pic m.ports) in
    record {
      kernel = record (m.kernel) { heap = record heap { vmm = vmm } };
      screen = clrscr m.screen;
      tss = tss;
      gdt = gdt;
      idt = idt;
      ports = ports;
    }

-- "HAL: no userland module – check userland.elf on disk", with a line feed.
abbrev pub no_module : List ℕ
no_module =
    0x48 ∷ 0x41 ∷ 0x4c ∷ 0x3a ∷ 0x20 ∷ 0x6e ∷ 0x6f ∷ 0x20 ∷ 0x75 ∷ 0x73 ∷ 0x65 ∷ 0x72 ∷ 0x6c ∷ 0x61
    ∷ 0x6e ∷ 0x64 ∷ 0x20 ∷ 0x6d ∷ 0x6f ∷ 0x64 ∷ 0x75 ∷ 0x6c ∷ 0x65 ∷ 0x20 ∷ 0xe2 ∷ 0x80 ∷ 0x93
    ∷ 0x20 ∷ 0x63 ∷ 0x68 ∷ 0x65 ∷ 0x63 ∷ 0x6b ∷ 0x20 ∷ 0x75 ∷ 0x73 ∷ 0x65 ∷ 0x72 ∷ 0x6c ∷ 0x61
    ∷ 0x6e ∷ 0x64 ∷ 0x2e ∷ 0x65 ∷ 0x6c ∷ 0x66 ∷ 0x20 ∷ 0x6f ∷ 0x6e ∷ 0x20 ∷ 0x64 ∷ 0x69 ∷ 0x73
    ∷ 0x6b ∷ 0x0a ∷ []

-- `HAL_Initialize` from `init_task` on, which makes the first tasks. `none` where an allocation
-- does not return.
unfoldable pub start_tasks : Symbols → BootParams → Kernel → Screen → Option (Scheduled × Screen)
unfolding init_task create_user_task_from_elf schedule
start_tasks symbols boot_params kernel screen = elim (init_task symbols kernel) [
  | none ↦ none
  | some k ↦ elim (boot_params.modules) [
    | [] ↦ some (schedule k, put_s screen no_module)
    | first ∷ _ ↦ elim (create_user_task_from_elf symbols k first.base) [
      | none ↦ none
      | some (_, t) ↦ some (schedule t, screen)
    ]
  ]
]

-- `HAL_Initialize`, which `kstart` calls.
unfoldable pub hal_initialize : Image → BootParams → Machine → Option (Scheduled × Machine)
unfolding initialize_hardware start_tasks
hal_initialize image boot_params m =
    let ready = initialize_hardware image boot_params m in
    elim (start_tasks image.symbols boot_params ready.kernel ready.screen) [
      | none ↦ none
      | some (scheduled, screen) ↦ some (scheduled, record ready { screen = screen })
    ]
