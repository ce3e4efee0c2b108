-- ===== src/Gates/Handlers.antt =====
-- What the table of gates then holds, and the dispatch of src/kernel/arch/i686/isr.c.
use toy_kernel.Common.{
  ℕ, zero, suc, ◌+◌, ◌*◌, ◌/◌, ◌^◌, ◌<◌, bit_and, ◌≡◌, refl, ◌∙◌, inl, inr, Bool, true, false, ◌&&◌,
  ◌||◌, arith, ltb, leb, ◌==◌, if◌then◌else◌, Bool-cases,
}
use toy_kernel.Common.Bits.Split.{bit_and-ones}
use toy_kernel.Drivers.Ports.{Ports}
use toy_kernel.Gates.Interrupts.{
  Idt, IdtEntry, Isrs, set_idt_descriptor_32, has_error_code, exception_loop, interrupt_loop,
  init_idt_32, trap_gate_flags, int_gate_flags, int_gate_user_flags,
}

-- The address that the processor jumps to.
abbrev pub address_of : IdtEntry → ℕ
address_of e = e.isr_address_low + e.isr_address_high * 2 ^ 16

-- The exceptions for which Intel's processors push an error code: the double fault, those from the
-- invalid task state segment to the page fault, the alignment check and control protection.
abbrev pub pushes_error_code : ℕ → Bool
pushes_error_code n = n == 8 || leb 10 n && leb n 14 || n == 17 || n == 21

-- The handler and the flags that each interrupt should have.
unfoldable pub expected : Isrs → ℕ → ℕ × ℕ
expected h n =
    if n == 0x21
    then (h.keyboard_isr, int_gate_flags)
    else if n == 0x20
    then (h.timer_isr, int_gate_flags)
    else if n == 0x80
    then (h.syscall_isr, int_gate_user_flags)
    else if n == 0
    then (h.div_by_0_isr, trap_gate_flags)
    else if ltb n 32
    then (
      if pushes_error_code n then h.default_excp_err_code_isr else h.default_excp_isr,
      trap_gate_flags,
    )
    else (h.default_int_isr, int_gate_flags)

-- The gate made for a handler.
unfoldable pub gate : ℕ × ℕ → IdtEntry
gate (isr, flags) = record {
  isr_address_low = bit_and isr 0xffff;
  kernel_cs = 0x08;
  reserved = 0;
  attributes = flags;
  isr_address_high = bit_and (isr / 2 ^ 16) 0xffff;
}

pub gate-address : (isr flags : ℕ) → isr < 2 ^ 32 → address_of (gate (isr, flags)) ≡ isr
unfolding gate
gate-address isr flags h = omega (arith, bit_and-ones 16 isr, bit_and-ones 16 (isr / 2 ^ 16))

set_lem :
    (idt : Idt) (k isr flags n : ℕ)
    → set_idt_descriptor_32 idt k isr flags n ≡ (if n == k then gate (isr, flags) else idt n)
unfolding set_idt_descriptor_32 gate
set_lem idt k isr flags n = refl

exception_loop_lem :
    (h : Isrs) (left entry : ℕ) (idt : Idt) (n : ℕ)
    → exception_loop h idt left entry n ≡ (
        if leb entry n && ltb n (entry + left)
        then gate (
          if has_error_code n then h.default_excp_err_code_isr else h.default_excp_isr,
          trap_gate_flags,
        )
        else idt n)
unfolding exception_loop set_idt_descriptor_32 gate
exception_loop_lem h zero entry idt n = ground arith
exception_loop_lem h (suc left) entry idt n =
    let isr = if has_error_code entry then h.default_excp_err_code_isr else h.default_excp_isr in
    let next = set_idt_descriptor_32 idt entry isr trap_gate_flags in
    exception_loop_lem h left (entry + 1) next n ∙ elim (Bool-cases (n == entry)) [
      | inl e ↦ let q : n ≡ entry = ground arith in rw q (ground arith)
      | inr e ↦ ground (arith, set_lem idt entry isr trap_gate_flags n)
    ]

interrupt_loop_lem :
    (h : Isrs) (left entry : ℕ) (idt : Idt) (n : ℕ)
    → interrupt_loop h idt left entry n ≡ (
        if leb entry n && ltb n (entry + left)
        then gate (h.default_int_isr, int_gate_flags)
        else idt n)
unfolding interrupt_loop
interrupt_loop_lem h zero entry idt n = ground arith
interrupt_loop_lem h (suc left) entry idt n = ground (
  arith,
  interrupt_loop_lem h left (entry + 1)
      (set_idt_descriptor_32 idt entry h.default_int_isr int_gate_flags) n,
  set_lem idt entry h.default_int_isr int_gate_flags n,
)

has_error_code_lem : (n : ℕ) → has_error_code n ≡ pushes_error_code n
unfolding has_error_code
has_error_code_lem n = ground arith

gates_below :
    (h : Isrs) (idt : Idt) (ports : Ports) (n : ℕ)
    → n < 256
    → (init_idt_32 h (idt, ports)).0 n ≡ gate (expected h n)
unfolding init_idt_32 set_idt_descriptor_32 gate expected
gates_below h idt ports n small =
    let exceptions = exception_loop h idt 32 0 in
    let interrupts = interrupt_loop h exceptions 224 32 in
    let low = exception_loop_lem h 32 0 idt n in
    let high = interrupt_loop_lem h 224 32 exceptions n in
    elim (Bool-cases (n == 0x21)) [
      | inl a ↦ rw a
      | inr a ↦ elim (Bool-cases (n == 0x20)) [
        | inl b ↦ rw (a, b)
        | inr b ↦ elim (Bool-cases (n == 0x80)) [
          | inl c ↦ rw (a, b, c)
          | inr c ↦ elim (Bool-cases (n == 0)) [
            | inl d ↦ rw (a, b, c, d)
            | inr d ↦ elim (Bool-cases (ltb n 32)) [
              | inl e ↦
                  let inside : (leb 32 n && ltb n (32 + 224)) ≡ false = ground arith in
                  let first : (leb 0 n && ltb n (0 + 32)) ≡ true = ground arith in
                  rw (a, b, c, d, e) (high ∙ rw (inside, low, first, has_error_code_lem n))
              | inr e ↦
                  let inside : (leb 32 n && ltb n (32 + 224)) ≡ true = ground arith in
                  rw (a, b, c, d, e) (high ∙ rw inside)
            ]
          ]
        ]
      ]
    ]

-- Entries from 256 on are as before.
gates_above :
    (h : Isrs) (idt : Idt) (ports : Ports) (n : ℕ)
    → ltb n 256 ≡ false
    → (init_idt_32 h (idt, ports)).0 n ≡ idt n
unfolding init_idt_32 set_idt_descriptor_32
gates_above h idt ports n big =
    let low : (leb 0 n && ltb n (0 + 32)) ≡ false = ground arith in
    let high : (leb 32 n && ltb n (32 + 224)) ≡ false = ground arith in
    let exceptions = exception_loop h idt 32 0 in
    let old : interrupt_loop h exceptions 224 32 n ≡ idt n =
      interrupt_loop_lem h 224 32 exceptions n
      ∙ rw high (exception_loop_lem h 32 0 idt n ∙ rw low) in
    let a : (n == 0x21) ≡ false = ground arith in
    let b : (n == 0x20) ≡ false = ground arith in
    let c : (n == 0x80) ≡ false = ground arith in
    let d : (n == 0) ≡ false = ground arith in rw (a, b, c, d) old

-- After `init_idt_32` each of the 256 interrupts has the gate of the handler that it should have,
-- the stub for an error code exactly for the exceptions 8, 10 to 14, 17 and 21, and no other
-- entry is changed.
pub init_idt_32-gates :
    (h : Isrs) (idt : Idt) (ports : Ports) (n : ℕ)
    → (init_idt_32 h (idt, ports)).0 n ≡ (if ltb n 256 then gate (expected h n) else idt n)
init_idt_32-gates h idt ports n = elim (Bool-cases (ltb n 256)) [
  | inl small ↦ rw small (gates_below h idt ports n (ground arith))
  | inr big ↦ rw big (gates_above h idt ports n big)
]
