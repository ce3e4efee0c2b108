-- ===== src/Start/Examples.antt =====
-- A start with a user's program, and the theorem about it.
use toy_kernel.Common.{ℕ, ◌≡◌, refl, ◌==◌, if◌then◌else◌, true, Option, none, some, [], ◌∷◌}
use toy_kernel.Pmm.Sample.{small_mem, small_pmm}
use toy_kernel.Boot.{BootParams}
use toy_kernel.Screen.{Screen}
use toy_kernel.Heap.{malloc_next_block, merge_free_blocks}
use toy_kernel.Sched.Task.{Kernel}
use toy_kernel.Sched.Switch.{Scheduled}
use toy_kernel.Sched.Create.{Symbols, init_task, syscall_malloc, create_user_task_from_elf}
use toy_kernel.Elf.{elf_load}
use toy_kernel.Memory.{Mem}
use toy_kernel.Start.{start_tasks}
use toy_kernel.Start.First.{RunsAs, first_to_run, Answers, start_tasks-RunsAs}

abbrev symbols : Symbols
symbols = record {
  task_exit = 0xc0001000;
  task_entry_trampoline = 0xc0002000;
  idle_task = 0xc0003000;
  usermode_trampoline = 0xc0004000;
}

-- The image of a program at 0x200000, entered at 0x400000, with one empty segment to load.
abbrev program_mem : Mem
program_mem a =
    if a == 0x200000
    then 0x7f
    else if a == 0x200001
    then 0x45
    else if a == 0x200002
    then 0x4c
    else if a == 0x200003
    then 0x46
    else if a == 0x200004
    then 1
    else if a == 0x200010
    then 2
    else if a == 0x20001a
    then 0x40
    else if a == 0x20001c
    then 52
    else if a == 0x20002a
    then 32
    else if a == 0x20002c
    then 1
    else if a == 0x200034
    then 1
    else small_mem a

abbrev booted : Kernel
booted = record {
  heap = record {
    vmm = record {
      pmm = record small_pmm { mem = program_mem };
      current_page_directory = 0x2000;
      cr3 = 0x2000;
      paging = true;
    };
    malloc_list = record { address = 0xd1000000; size = 12276; free = true } ∷ [];
    malloc_virt_address = 0xd1000000;
    malloc_phys_address = 0x8000;
    total_malloc_pages = 3;
  };
  tasks = [];
  current_task = 0;
  next_task_id = 0;
  kernel_timer_ms = 0;
  esp0 = 0;
}

abbrev blank : Screen
blank = record { buffer = λ _. 0; x = 0; y = 0; cursor = 0 }

abbrev with_program : BootParams
with_program = record {
  memory = record { regions = [] };
  boot_device = 0;
  modules = record { base = 0x200000; size = 84 } ∷ [];
}

after_init : Option Kernel → Kernel
after_init none = booted
after_init (some k) = k

after_create : Kernel → Option (ℕ × Kernel) → ℕ × Kernel
after_create k none = (0, k)
after_create k (some x) = x

abbrev first_kernel : Kernel
first_kernel = after_init (init_task symbols booted)

made_first : init_task symbols booted ≡ some first_kernel
unfolding init_task after_init syscall_malloc malloc_next_block
made_first = refl

program_runs :
    first_to_run symbols first_kernel with_program.modules ≡ (2, (1, 0x400000, some 0xc0004000))
unfolding init_task after_init syscall_malloc malloc_next_block first_to_run elf_load
    merge_free_blocks
program_runs = refl

answers : Answers symbols first_kernel with_program.modules
unfolding init_task after_init syscall_malloc malloc_next_block create_user_task_from_elf elf_load
    after_create merge_free_blocks
answers =
    (after_create first_kernel (create_user_task_from_elf symbols first_kernel 0x200000), refl)

start_tasks-RunsAs_example :
    (r : Scheduled) × (shown : Screen) × (start_tasks symbols with_program booted blank
      ≡ some (r, shown))
    × RunsAs (first_to_run symbols first_kernel with_program.modules) r
start_tasks-RunsAs_example =
    start_tasks-RunsAs symbols with_program booted first_kernel blank made_first answers
