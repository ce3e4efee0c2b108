-- ===== src/Sched/Create.antt =====
-- Making tasks: `setup_stack`, `init_task`, `create_task` and `create_user_task_from_elf` of
-- src/kernel/scheduler/task.c. `malloc` goes through the system call of that name, whose handler is
-- `syscall_malloc`; `none` is a call that does not return.
use toy_kernel.Common.{ℕ, ◌+◌, Option, none, some, List, [], ◌∷◌, ◌++◌, u16, u32, sub32}
use toy_kernel.Vmm.Entry.{page_size}
use toy_kernel.Vmm.Tables.{map_page_user}
use toy_kernel.Pmm.Alloc.{allocate_block}
use toy_kernel.Heap.{Heap, malloc_init, malloc_next_block, merge_free_blocks}
use toy_kernel.Elf.{elf_ok, elf_load}
use toy_kernel.Sched.Task.{
  Task, Kernel, task_ready, low_task, medium_task, critical_task, task_size, stack_size,
}

-- The addresses of functions.
pub record Symbols : Type 0 where
  pub task_exit : ℕ
  pub task_entry_trampoline : ℕ
  pub idle_task : ℕ
  pub usermode_trampoline : ℕ

-- `syscall_malloc`: the first call sets the heap up, and every call merges free blocks afterwards.
unfoldable pub syscall_malloc : Heap → ℕ → Option (ℕ × Heap)
syscall_malloc h bytes =
    let ready : Heap = elim (h.malloc_list) [ [] ↦ malloc_init h bytes | _ ∷ _ ↦ h ] in
    elim (malloc_next_block ready bytes) [
      | none ↦ none
      | some (ptr, t) ↦ some (ptr, merge_free_blocks t)
    ]

-- The stack pointer, and the eight words from it upward.
unfoldable pub setup_stack : Symbols → (mem entry : ℕ) → ℕ × List ℕ
setup_stack y mem entry = (
  sub32 (u32 (mem + task_size + stack_size)) 32,
  0 ∷ 0 ∷ 0 ∷ 0 ∷ 0x200 ∷ y.task_entry_trampoline ∷ entry ∷ y.task_exit ∷ [],
)

-- A task as the three functions that make one fill it in.
unfoldable pub new_task : Symbols → (mem pid is_user entry user_eip user_esp priority : ℕ) → Task
unfolding setup_stack
new_task y mem pid is_user entry user_eip user_esp priority =
    let (esp, stack) = setup_stack y mem entry in
    record {
      address = mem;
      pid = pid;
      state = task_ready;
      is_user = is_user;
      esp = esp;
      user_eip = user_eip;
      user_esp = user_esp;
      priority = priority;
      time_slice = priority;
      wake_tick = 0;
      stack = stack;
    }

unfoldable pub init_task : Symbols → Kernel → Option Kernel
unfolding new_task
init_task y k = elim (syscall_malloc k.heap (task_size + stack_size)) [
  | none ↦ none
  | some (mem, h) ↦ some (record k {
    heap = h;
    tasks = new_task y mem k.next_task_id 0 y.idle_task 0 0 low_task ∷ [];
    current_task = 0;
    next_task_id = u16 (k.next_task_id + 1);
  })
]

-- The new task goes to the end of the list. The result is its address.
unfoldable pub create_task : Symbols → Kernel → (entry : ℕ) → Option (ℕ × Kernel)
unfolding new_task
create_task y k entry = elim (syscall_malloc k.heap (task_size + stack_size)) [
  | none ↦ none
  | some (mem, h) ↦ some (
    mem,
    record k {
      heap = h;
      tasks = k.tasks ++ new_task y mem k.next_task_id 0 entry 0 0 critical_task ∷ [];
      next_task_id = u16 (k.next_task_id + 1);
    },
  )
]

abbrev pub user_stack_virt : ℕ
user_stack_virt = 0x600000

-- The address 0 is an image that could not be loaded. Neither a failed allocation of the stack nor
-- a failed mapping is noticed.
unfoldable pub create_user_task_from_elf : Symbols → Kernel → (image : ℕ) → Option (ℕ × Kernel)
unfolding new_task
create_user_task_from_elf y k image =
    let (status, entry, s) = elf_load k.heap.vmm image 0 in
    let (stack_phys, p) = allocate_block s.pmm 1 in
    let (_, mapped) = map_page_user (record s { pmm = p }) stack_phys user_stack_virt in
    elim status [
      | elf_ok ↦ elim (syscall_malloc (record (k.heap) { vmm = mapped }) (task_size + stack_size)) [
        | none ↦ none
        | some (mem, h) ↦ some (
          mem,
          record k {
            heap = h;
            tasks =
                k.tasks
                ++ new_task y mem k.next_task_id 1 y.usermode_trampoline entry
                    (user_stack_virt + page_size) medium_task
                  ∷ [];
            next_task_id = u16 (k.next_task_id + 1);
          },
        )
      ]
      | _ ↦ some (0, record k { heap = record (k.heap) { vmm = s } })
    ]
