-- ===== src/Gates.antt =====
-- The tables that the processor reads: segment descriptors and the task state segment
-- (src/kernel/arch/i686/gdt.h, gdt.c and tss.c), and interrupt gates
-- (src/kernel/interrupts/idt.c, src/kernel/arch/i686/idt.c and isr.c).
pub mod Segments
pub mod Interrupts
pub mod Handlers
pub mod Dispatch
mod Examples
