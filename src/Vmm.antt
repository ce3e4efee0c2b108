-- ===== src/Vmm.antt =====
-- The virtual memory manager, src/kernel/mm/vmm/vmm.c: two-level page tables of 1024 words in
-- physical memory.
pub mod Entry
pub mod Tables
pub mod Setup
mod Examples
