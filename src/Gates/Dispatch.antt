-- ===== src/Gates/Dispatch.antt =====
-- The table of gates that src/kernel/arch/i686/isr.c sets up and dispatches, with the calls that
-- isrs_gen.c lists: one for each of the 256 interrupts, in order.
use toy_kernel.Common.{
  ℕ, zero, suc, ◌+◌, ◌/◌, ◌^◌, ◌<◌, bit_and, bit_or, ◌≡◌, refl, ◌∙◌, inl, inr, true, ◌&&◌, arith,
  ltb, leb, ◌==◌, ◌!=◌, if◌then◌else◌, Bool-cases,
}
use toy_kernel.Gates.Interrupts.{Idt, IdtEntry, idt_set_gate, idt_enable_gate, idt_disable_gate}

-- `IDT_FLAG_RING0 | IDT_FLAG_GATE_32BIT_INT`
abbrev pub idt_flag_gate_32bit_int : ℕ
idt_flag_gate_32bit_int = 0x0e

-- `i686_GDT_CODE_SEGMENT`
abbrev pub code_segment : ℕ
code_segment = 0x08

-- The calls from the interrupt `n` on, `left` of them; `isr n` is the address of `i686_ISRn`.
unfoldable pub gates_from : (isr : ℕ → ℕ) → Idt → (left n : ℕ) → Idt
gates_from isr idt zero n = idt
gates_from isr idt (suc left) n =
    gates_from isr (idt_set_gate idt n (isr n) code_segment idt_flag_gate_32bit_int) left (n + 1)

unfoldable pub isr_initialize_gates : (isr : ℕ → ℕ) → Idt → Idt
isr_initialize_gates isr idt = gates_from isr idt 256 0

-- The loop that enables the gates from `n` on.
unfoldable pub enable_from : Idt → (left n : ℕ) → Idt
enable_from idt zero n = idt
enable_from idt (suc left) n = enable_from (idt_enable_gate idt n) left (n + 1)

unfoldable pub isr_initialize : (isr : ℕ → ℕ) → Idt → Idt
isr_initialize isr idt = idt_disable_gate (enable_from (isr_initialize_gates isr idt) 256 0) 0x80

-- `g_ISRHandlers`: the address of a handler, or the null pointer.
abbrev pub IsrHandlers : Type 0
IsrHandlers = ℕ → ℕ

-- What `i686_ISR_Handler` does with an interrupt: it calls a handler, or it prints what has come.
pub data Dispatched : Type 0 where
  calls : (handler : ℕ) → Dispatched
  unhandled_interrupt : ℕ → Dispatched
  unhandled_exception : ℕ → Dispatched

unfoldable pub isr_handler : IsrHandlers → (interrupt : ℕ) → Dispatched
isr_handler handlers interrupt =
    if handlers interrupt != 0
    then calls (handlers interrupt)
    else if leb 32 interrupt
    then unhandled_interrupt interrupt
    else unhandled_exception interrupt

unfoldable pub isr_register_handler :
    IsrHandlers × Idt → (interrupt handler : ℕ) → IsrHandlers × Idt
isr_register_handler (handlers, idt) interrupt handler =
    (λ n. if n == interrupt then handler else handlers n, idt_enable_gate idt interrupt)

-- The gate of a handler of the kernel, with the flags given.
unfoldable pub kernel_gate : (isr flags : ℕ) → IdtEntry
kernel_gate isr flags = record {
  isr_address_low = bit_and isr 0xffff;
  kernel_cs = code_segment;
  reserved = 0;
  attributes = flags;
  isr_address_high = bit_and (isr / 2 ^ 16) 0xffff;
}

idt_set_gate_lem :
    (idt : Idt) (k base flags n : ℕ)
    → idt_set_gate idt k base code_segment flags n
      ≡ (if n == k then kernel_gate base flags else idt n)
unfolding idt_set_gate kernel_gate
idt_set_gate_lem idt k base flags n = refl

gates_from_lem :
    (isr : ℕ → ℕ) (left k : ℕ) (idt : Idt) (n : ℕ)
    → gates_from isr idt left k n
      ≡ (if leb k n && ltb n (k + left) then kernel_gate (isr n) idt_flag_gate_32bit_int else idt n)
unfolding gates_from
gates_from_lem isr zero k idt n = ground arith
gates_from_lem isr (suc left) k idt n =
    let next = idt_set_gate idt k (isr k) code_segment idt_flag_gate_32bit_int in
    gates_from_lem isr left (k + 1) next n ∙ elim (Bool-cases (n == k)) [
      | inl e ↦
          let q : n ≡ k = ground arith in
          rw q (ground (arith, idt_set_gate_lem idt k (isr k) idt_flag_gate_32bit_int k))
      | inr e ↦ ground (arith, idt_set_gate_lem idt k (isr k) idt_flag_gate_32bit_int n)
    ]

enable_from_lem :
    (left k : ℕ) (idt : Idt) (n : ℕ)
    → enable_from idt left k n ≡ (
        if leb k n && ltb n (k + left)
        then record (idt n) { attributes = bit_or (idt n).attributes 0x80 }
        else idt n)
unfolding enable_from idt_enable_gate
enable_from_lem zero k idt n = ground arith
enable_from_lem (suc left) k idt n =
    ground (arith, enable_from_lem left (k + 1) (idt_enable_gate idt k) n)

isr_initialize_gates_lem :
    (isr : ℕ → ℕ) (idt : Idt) (n : ℕ)
    → n < 256
    → isr_initialize_gates isr idt n ≡ kernel_gate (isr n) idt_flag_gate_32bit_int
unfolding isr_initialize_gates
isr_initialize_gates_lem isr idt n small =
    let inside : (leb 0 n && ltb n (0 + 256)) ≡ true = ground arith in
    gates_from_lem isr 256 0 idt n ∙ rw inside refl

-- After `i686_ISR_Initialize` the gate of each of the 256 interrupts leads to the handler of that
-- number in the kernel's code segment, and is present, but for that of the system call, 0x80.
pub isr_initialize_lem :
    (isr : ℕ → ℕ) (idt : Idt) (n : ℕ)
    → n < 256
    → isr_initialize isr idt n ≡ kernel_gate (isr n) (if n == 0x80 then 0x0e else 0x8e)
unfolding isr_initialize idt_disable_gate kernel_gate
isr_initialize_lem isr idt n small =
    let inside : (leb 0 n && ltb n (0 + 256)) ≡ true = ground arith in
    let enabled = enable_from_lem 256 0 (isr_initialize_gates isr idt) n in
    let made = isr_initialize_gates_lem isr idt n small in
    elim (Bool-cases (n == 0x80)) [
      | inl e ↦ rw (e, enabled, inside, made) refl
      | inr e ↦ rw (e, enabled, inside, made) refl
    ]
