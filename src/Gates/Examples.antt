-- ===== src/Gates/Examples.antt =====
-- The kernel's code segment, and the gates of a kernel at 1 MiB.
use toy_kernel.Common.{◌*◌, ◌/◌, ◌≡◌, [], arith}
use toy_kernel.Drivers.Ports.{Ports}
use toy_kernel.Gates.Segments.{gdt_entry, base_of, limit_of, gdt_entry_lem}
use toy_kernel.Gates.Interrupts.{Idt, Isrs, init_idt_32}
use toy_kernel.Gates.Handlers.{gate, expected, init_idt_32-gates}
use toy_kernel.Gates.Dispatch.{
  unhandled_exception, isr_initialize, isr_handler, isr_register_handler, kernel_gate,
  isr_initialize_lem,
}
use toy_kernel.Common.{◌+◌, refl, ltb, if◌then◌else◌}

gdt_entry_example :
    let e = gdt_entry 0x12345678 0xfffff 0x9a (12 * 16) in
    (base_of e ≡ 0x12345678) × (limit_of e ≡ 0xfffff) × (e.flags_limit_hi / 16 ≡ 12)
gdt_entry_example =
    gdt_entry_lem 0x12345678 0xfffff 0x9a 12 (omega arith) (omega arith) (omega arith)

abbrev isrs : Isrs
isrs = record {
  default_excp_err_code_isr = 0xc0100000;
  default_excp_isr = 0xc0100100;
  default_int_isr = 0xc0100200;
  div_by_0_isr = 0xc0100300;
  syscall_isr = 0xc0100400;
  timer_isr = 0xc0100500;
  keyboard_isr = 0xc0100600;
}

abbrev no_gates : Idt
no_gates _ = record {
  isr_address_low = 0;
  kernel_cs = 0;
  reserved = 0;
  attributes = 0;
  isr_address_high = 0;
}

abbrev no_ports : Ports
no_ports = record { value = λ _. 0; log = [] }

init_idt_32-gates_example :
    (init_idt_32 isrs (no_gates, no_ports)).0 14
    ≡ (if ltb 14 256 then gate (expected isrs 14) else no_gates 14)
init_idt_32-gates_example = init_idt_32-gates isrs no_gates no_ports 14

isr_initialize_run :
    isr_initialize (λ n. 0xc0200000 + 8 * n) no_gates 14 ≡ kernel_gate (0xc0200000 + 8 * 14) 0x8e
isr_initialize_run = isr_initialize_lem (λ n. 0xc0200000 + 8 * n) no_gates 14 (omega arith)

isr_handler_14 :
    isr_handler (isr_register_handler (λ _. 0, no_gates) 13 7).0 14 ≡ unhandled_exception 14
unfolding isr_handler isr_register_handler
isr_handler_14 = refl
