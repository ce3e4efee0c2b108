-- ===== src/User.antt =====
-- The user library: the system calls of src/userland/lib/syscall.c and syscall.h, the memory functions
-- of stdlib.h, and what stdio.h builds on them.
pub mod Line
pub mod Edit
pub mod Output
mod Examples
use toy_kernel.Common.{
  ℕ, zero, suc, ◌+◌, ◌-◌, ◌*◌, ◌/◌, ◌%◌, ◌^◌, ◌≤◌, ◌<◌, min, max, bit_and, bit_or, ◌≡◌, refl, sym,
  ap, ◌∙◌, ◌≢◌, ◌↔◌, ◌⊎◌, inl, inr, Bool, true, false, not, ◌&&◌, ◌||◌, Option, none, some, List,
  [], ◌∷◌, ◌++◌, map, arith, ltb, leb, ◌==◌, ◌!=◌, if◌then◌else◌, ltb→lt, leb→le, ==_iff,
  Bool-cases, Option-cases, u8, u16, u32, sub32, ◌<<<◌, ◌>>>◌, length, get_elem?, get_or, set, drop,
  take, replicate, length-append, length-set, get_elem?-set_self, get_elem?-set_ne,
}
use toy_kernel.Memory.{Mem, write8}
use toy_kernel.Sched.Syscall.{
  System, SavedRegs, Called, returns, switches, halts, hangs, syscall_dispatcher,
}

-- `_syscall1`: the interrupt with the number in EAX and the argument in EBX.
unfoldable pub syscall1 : (beyond : ℕ → ℕ) → (num arg1 : ℕ) → System → Called
syscall1 beyond num arg1 s = syscall_dispatcher beyond (record { ebx = arg1; eax = num }) s

-- `_syscall0`: EBX is what the caller has in it.
unfoldable pub syscall0 : (beyond : ℕ → ℕ) → (num ebx : ℕ) → System → Called
syscall0 beyond num ebx s = syscall_dispatcher beyond (record { ebx = ebx; eax = num }) s

unfoldable pub sys_sleep : (beyond : ℕ → ℕ) → (ms : ℕ) → System → Called
unfolding syscall1
sys_sleep beyond ms s = syscall1 beyond 2 ms s

unfoldable pub sys_malloc : (beyond : ℕ → ℕ) → (size : ℕ) → System → Called
unfolding syscall1
sys_malloc beyond size s = syscall1 beyond 3 size s

unfoldable pub sys_free : (beyond : ℕ → ℕ) → (ptr : ℕ) → System → Called
unfolding syscall1
sys_free beyond ptr s = syscall1 beyond 4 ptr s

unfoldable pub sys_putc : (beyond : ℕ → ℕ) → (c : ℕ) → System → Called
unfolding syscall1
sys_putc beyond c s = syscall1 beyond 5 (u8 c) s

unfoldable pub sys_exit : (beyond : ℕ → ℕ) → (ebx : ℕ) → System → Called
unfolding syscall0
sys_exit beyond ebx s = syscall0 beyond 6 ebx s

unfoldable pub sys_getkey : (beyond : ℕ → ℕ) → (ebx : ℕ) → System → Called
unfolding syscall0
sys_getkey beyond ebx s = syscall0 beyond 7 ebx s

-- The loop of `calloc` from index `i` on, with `left` rounds to go.
unfoldable pub zero_bytes : Mem → (ptr left i : ℕ) → Mem
zero_bytes m ptr zero i = m
zero_bytes m ptr (suc left) i = zero_bytes (write8 m (ptr + i) 0) ptr left (i + 1)

-- `calloc` on an allocator. The product of its arguments wraps.
unfoldable pub calloc : (malloc : ℕ → ℕ) → Mem → (nmemb size : ℕ) → ℕ × Mem
unfolding zero_bytes
calloc malloc m nmemb size =
    let total = u32 (nmemb * size) in
    let ptr = malloc total in if ptr == 0 then (0, m) else (ptr, zero_bytes m ptr total 0)
