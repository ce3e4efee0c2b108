-- ===== src/Gates/Interrupts.antt =====
-- Interrupt gates: `set_idt_descriptor_32` and `init_idt_32` of src/kernel/interrupts/idt.c, and
-- the `i686_IDT_*` functions of src/kernel/arch/i686/idt.c.
use toy_kernel.Common.{
  ℕ, zero, suc, ◌+◌, ◌/◌, ◌^◌, bit_and, bit_or, Bool, ◌||◌, ◌==◌, if◌then◌else◌,
}
use toy_kernel.Drivers.Ports.{Ports}
use toy_kernel.Drivers.Pic.{clear_irq_mask, set_pit_channel_mode_frequency}

-- `idt_entry_32_t`, and `IDTEntry`, which has the same fields.
pub record IdtEntry : Type 0 where
  pub isr_address_low : ℕ
  pub kernel_cs : ℕ
  pub reserved : ℕ
  pub attributes : ℕ
  pub isr_address_high : ℕ

abbrev pub trap_gate_flags : ℕ
trap_gate_flags = 0x8f

abbrev pub int_gate_flags : ℕ
int_gate_flags = 0x8e

abbrev pub int_gate_user_flags : ℕ
int_gate_user_flags = 0xee

-- `idt32`
abbrev pub Idt : Type 0
Idt = ℕ → IdtEntry

unfoldable pub set_idt_descriptor_32 : Idt → (entry_number isr flags : ℕ) → Idt
set_idt_descriptor_32 idt entry_number isr flags = λ n.
    if n == entry_number
    then record {
      isr_address_low = bit_and isr 0xffff;
      kernel_cs = 0x08;
      reserved = 0;
      attributes = flags;
      isr_address_high = bit_and (isr / 2 ^ 16) 0xffff;
    }
    else idt n

-- The addresses of the handlers.
pub record Isrs : Type 0 where
  pub default_excp_err_code_isr : ℕ
  pub default_excp_isr : ℕ
  pub default_int_isr : ℕ
  pub div_by_0_isr : ℕ
  pub syscall_isr : ℕ
  pub timer_isr : ℕ
  pub keyboard_isr : ℕ

-- The exceptions that push an error code.
unfoldable pub has_error_code : ℕ → Bool
has_error_code entry =
    entry == 8
    || entry == 10
    || entry == 11
    || entry == 12
    || entry == 13
    || entry == 14
    || entry == 17
    || entry == 21

-- The loop over the exceptions, with `left` rounds to go.
unfoldable pub exception_loop : Isrs → Idt → (left entry : ℕ) → Idt
exception_loop h idt zero entry = idt
exception_loop h idt (suc left) entry =
    exception_loop h
      (set_idt_descriptor_32 idt entry
        (if has_error_code entry then h.default_excp_err_code_isr else h.default_excp_isr)
        trap_gate_flags)
      left (entry + 1)

-- The loop over the other interrupts.
unfoldable pub interrupt_loop : Isrs → Idt → (left entry : ℕ) → Idt
interrupt_loop h idt zero entry = idt
interrupt_loop h idt (suc left) entry =
    interrupt_loop h (set_idt_descriptor_32 idt entry h.default_int_isr int_gate_flags) left
      (entry + 1)

-- The gates, and what is written to the ports of the interrupt controllers and the timer chip.
unfoldable pub init_idt_32 : Isrs → Idt × Ports → Idt × Ports
init_idt_32 h (idt, ports) =
    let exceptions = exception_loop h idt 32 0 in
    let interrupts = interrupt_loop h exceptions 224 32 in
    let divide = set_idt_descriptor_32 interrupts 0 h.div_by_0_isr trap_gate_flags in
    let syscall = set_idt_descriptor_32 divide 0x80 h.syscall_isr int_gate_user_flags in
    let timer = set_idt_descriptor_32 syscall 0x20 h.timer_isr int_gate_flags in
    let keyboard = set_idt_descriptor_32 timer 0x21 h.keyboard_isr int_gate_flags in
    let unmasked = clear_irq_mask (clear_irq_mask (clear_irq_mask ports 0) 1) 2 in
    (keyboard, set_pit_channel_mode_frequency unmasked 0 2 11932)

unfoldable pub idt_set_gate : Idt → (interrupt base segment_descriptor flags : ℕ) → Idt
idt_set_gate idt interrupt base segment_descriptor flags = λ n.
    if n == interrupt
    then record {
      isr_address_low = bit_and base 0xffff;
      kernel_cs = segment_descriptor;
      reserved = 0;
      attributes = flags;
      isr_address_high = bit_and (base / 2 ^ 16) 0xffff;
    }
    else idt n

unfoldable pub idt_enable_gate : Idt → ℕ → Idt
idt_enable_gate idt interrupt = λ n.
    if n == interrupt then record (idt n) { attributes = bit_or (idt n).attributes 0x80 } else idt n

-- `~0x80` on a byte.
unfoldable pub idt_disable_gate : Idt → ℕ → Idt
idt_disable_gate idt interrupt = λ n.
    if n == interrupt
    then record (idt n) { attributes = bit_and (idt n).attributes 0x7f }
    else idt n
