-- ===== src/Pmm.antt =====
-- The physical memory manager, src/kernel/mm/pmm/pmm.c: a bitmap with one bit for each 4 KB frame.
pub mod State
pub mod Sample
mod Examples
pub mod Bitmap
pub mod Search
pub mod Alloc
pub mod Init
