-- ===== src/Vmm/Tables/Layout.antt =====
-- The invariant of the page tables: they lie in frames of their own, which the bitmap marks used
-- and which do not meet the bitmap, and no entry has its top bit set. The bitmap itself may lie
-- anywhere: above all frames, as in the kernel, or in a frame that it marks used.
use toy_kernel.Common.{ℕ, ◌+◌, ◌*◌, ◌/◌, ◌%◌, ◌^◌, ◌≤◌, ◌<◌, ◌≡◌, ◌≢◌, ◌⊎◌, true}
use toy_kernel.Pmm.State.{Pmm, used}
use toy_kernel.Pmm.Alloc.Valid.{IsValid, frames}
use toy_kernel.Vmm.Tables.{Vmm}
use toy_kernel.Vmm.Tables.Walk.{pde, pte}

pub record IsPage (p : Pmm) (n : ℕ) : Type 0 where
  pub in_frames : n < frames p
  pub in_use : used p n ≡ true
  pub apart : (n * 4096 + 4096 ≤ p.bit_map) ⊎ (p.bit_map + 4 * p.total_block ≤ n * 4096)

abbrev pub table_of : Vmm → ℕ → ℕ
table_of s i = pde s i / 4096

pub record IsTables (s : Vmm) : Type 0 where
  pub valid : IsValid s.pmm
  pub low : s.pmm.total_block ≤ 2 ^ 14
  pub null_used : used s.pmm 0 ≡ true
  pub dir : ℕ
  pub at_dir : s.current_page_directory ≡ dir * 4096
  pub dir_page : IsPage s.pmm dir
  pub table_page : (i : ℕ) → i < 1024 → pde s i % 2 ≡ 1 → IsPage s.pmm (table_of s i)
  pub table_not_dir : (i : ℕ) → i < 1024 → pde s i % 2 ≡ 1 → table_of s i ≢ dir
  pub distinct :
      (i j : ℕ)
      → i < 1024
      → j < 1024
      → pde s i % 2 ≡ 1
      → pde s j % 2 ≡ 1
      → i ≢ j
      → table_of s i ≢ table_of s j
  pub pde_low : (i : ℕ) → i < 1024 → pde s i < 2 ^ 31
  pub pte_low : (i j : ℕ) → i < 1024 → j < 1024 → pde s i % 2 ≡ 1 → pte s i j < 2 ^ 31
