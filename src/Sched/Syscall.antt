-- ===== src/Sched/Syscall.antt =====
-- The system calls, src/kernel/interrupts/syscall.c.
use toy_kernel.Common.{ℕ, ◌-◌, ◌^◌, none, some, List, [], ◌∷◌, ltb, ◌==◌, if◌then◌else◌, u8}
use toy_kernel.Heap.{malloc_free}
use toy_kernel.Screen.{Screen, put_c, put_s}
use toy_kernel.Drivers.Keyboard.{KeyInfo}
use toy_kernel.Drivers.Line.{get_key}
use toy_kernel.Sched.Task.{Kernel}
use toy_kernel.Sched.Switch.{Scheduled, switched, halted, syscall_sleep, syscall_exit}
use toy_kernel.Sched.Create.{syscall_malloc}

-- What the system calls work on: the kernel, the screen, the keyboard, and the scan codes that are
-- still to come.
pub record System : Type 0 where
  pub kernel : Kernel
  pub screen : Screen
  pub key_info : KeyInfo
  pub codes : List ℕ

-- The registers of the caller that a system call reads or writes.
pub record SavedRegs : Type 0 where
  pub ebx : ℕ
  pub eax : ℕ

-- How a system call goes: it comes back, it switches to another task, it halts until its own task
-- can run, or it never comes back at all.
pub data Called : Type 0 where
  returns : SavedRegs → System → Called
  switches : SavedRegs → System → Called
  halts : SavedRegs → System → Called
  hangs : Called

unfoldable pub scheduled : SavedRegs → System → Scheduled → Called
scheduled regs s (switched k) = switches regs (record s { kernel = k })
scheduled regs s (halted k) = halts regs (record s { kernel = k })

-- `SYSCALL testing `, and the digit that follows.
abbrev pub testing : ℕ → List ℕ
testing digit =
    0x53 ∷ 0x59 ∷ 0x53 ∷ 0x43 ∷ 0x41 ∷ 0x4c ∷ 0x4c ∷ 0x20 ∷ 0x74 ∷ 0x65 ∷ 0x73 ∷ 0x74 ∷ 0x69 ∷ 0x6e
    ∷ 0x67 ∷ 0x20 ∷ digit ∷ []

unfoldable pub syscall_test : ℕ → SavedRegs → System → Called
syscall_test digit regs s = returns regs (record s { screen = put_s s.screen (testing digit) })

unfoldable pub syscall_print : SavedRegs → System → Called
syscall_print regs s = returns regs (record s { screen = put_c s.screen (u8 regs.ebx) })

-- `hangs` where the allocator does not return.
unfoldable pub syscall_malloc_regs : SavedRegs → System → Called
syscall_malloc_regs regs s = elim (syscall_malloc s.kernel.heap regs.ebx) [
  | none ↦ hangs
  | some (ptr, h) ↦
      returns (record regs { eax = ptr }) (record s { kernel = record (s.kernel) { heap = h } })
]

unfoldable pub syscall_free : SavedRegs → System → Called
syscall_free regs s = elim (malloc_free s.kernel.heap regs.ebx) [
  | none ↦ hangs
  | some h ↦ returns regs (record s { kernel = record (s.kernel) { heap = h } })
]

-- `hangs` where no key comes. `beyond` is what the keyboard's handler reads behind its table.
unfoldable pub syscall_getkey : (beyond : ℕ → ℕ) → SavedRegs → System → Called
syscall_getkey beyond regs s = elim (get_key beyond s.key_info s.codes) [
  | none ↦ hangs
  | some (key, info, codes) ↦
      returns (record regs { eax = key }) (record s { key_info = info; codes = codes })
]

-- `syscall_dispatcher` with its table `syscalls`: the call that EAX names, or -1.
unfoldable pub syscall_dispatcher : (beyond : ℕ → ℕ) → SavedRegs → System → Called
unfolding scheduled syscall_test syscall_print syscall_malloc_regs syscall_free syscall_getkey
syscall_dispatcher beyond regs s =
    if ltb 7 regs.eax
    then returns (record regs { eax = 2 ^ 32 - 1 }) s
    else if regs.eax == 0
    then syscall_test 0x30 regs s
    else if regs.eax == 1
    then syscall_test 0x31 regs s
    else if regs.eax == 2
    then (if regs.ebx == 0
        then returns regs s
        else scheduled regs s (syscall_sleep s.kernel regs.ebx))
    else if regs.eax == 3
    then syscall_malloc_regs regs s
    else if regs.eax == 4
    then syscall_free regs s
    else if regs.eax == 5
    then syscall_print regs s
    else if regs.eax == 6
    then scheduled regs s (syscall_exit s.kernel)
    else syscall_getkey beyond regs s
