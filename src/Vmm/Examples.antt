-- ===== src/Vmm/Examples.antt =====
-- The theorems at a small memory with the bitmap in the higher half, whose directory has one table.
use toy_kernel.Common.{
  ℕ, ◌+◌, ◌*◌, ◌/◌, ◌%◌, ◌^◌, ◌<◌, ◌≡◌, refl, sym, ◌∙◌, inl, true, none, arith, ◌==◌, if◌then◌else◌,
}
use toy_kernel.Memory.{read32}
use toy_kernel.Pmm.Sample.{high_mem, high_pmm, high_pmm-used, high_pmm-IsValid}
use toy_kernel.Vmm.Tables.{Vmm, map_page, map_page_user, unmap_page}
use toy_kernel.Vmm.Tables.Walk.{pde, pte, walk}
use toy_kernel.Vmm.Tables.Layout.{IsPage, IsTables, table_of}
use toy_kernel.Vmm.Tables.Map.{MapOutcome, map_page-MapOutcome}
use toy_kernel.Vmm.Tables.MapUser.{UserOutcome, map_page_user-UserOutcome}
use toy_kernel.Vmm.Tables.Unmap.{unmap_page_lem}

abbrev high_vmm : Vmm
high_vmm = record { pmm = high_pmm; current_page_directory = 0x2000; cr3 = 0x2000; paging = true }

high-IsPage : (n : ℕ) → 1 < n → n < 4 → IsPage high_pmm n
high-IsPage n l h = record {
  in_frames = omega arith;
  in_use = high_pmm-used n h;
  apart = inl (omega arith);
}

high_pde : (i : ℕ) → i < 1024 → pde high_vmm i ≡ (if i == 0 then 0x3003 else 0)
unfolding read32
high_pde i h = ground arith

present_only : (i : ℕ) → i < 1024 → pde high_vmm i % 2 ≡ 1 → i ≡ 0
present_only i h pr = ground (arith, high_pde i h)

high_table : (i : ℕ) → i < 1024 → pde high_vmm i % 2 ≡ 1 → table_of high_vmm i ≡ 3
high_table i h pr = ground (arith, high_pde i h)

empty_table : (j : ℕ) → j < 1024 → read32 high_mem (3 * 4096 + 4 * j) < 2 ^ 31
unfolding read32
empty_table j h = ground arith

high_pte : (i j : ℕ) → i < 1024 → j < 1024 → pde high_vmm i % 2 ≡ 1 → pte high_vmm i j < 2 ^ 31
high_pte i j hi hj pr = rw (high_table i hi pr) (empty_table j hj)

high_vmm-IsTables : IsTables high_vmm
high_vmm-IsTables = record {
  valid = high_pmm-IsValid;
  low = omega arith;
  null_used = high_pmm-used 0 (omega arith);
  dir = 2;
  at_dir = refl;
  dir_page = high-IsPage 2 (omega arith) (omega arith);
  table_page = λ i h pr. rw (high_table i h pr) (high-IsPage 3 (omega arith) (omega arith));
  table_not_dir = λ i h pr. rw (high_table i h pr) (λ e. omega (arith, e));
  distinct = λ i j hi hj pi pj ne. absurd (ne (present_only i hi pi ∙ sym (present_only j hj pj)));
  pde_low = λ i h. ground (arith, high_pde i h);
  pte_low = high_pte;
}

map_page-MapOutcome_example :
    MapOutcome high_vmm 0x8000 0xd1000000 (map_page high_vmm 0x8000 0xd1000000)
map_page-MapOutcome_example =
    map_page-MapOutcome high_vmm 0x8000 0xd1000000 (omega arith) (omega arith) refl
      high_vmm-IsTables

writable : pde high_vmm 0 % 2 ≡ 1 → pde high_vmm 0 / 2 % 2 ≡ 1
writable pr = omega (arith, high_pde 0 (omega arith))

map_page_user-UserOutcome_example :
    UserOutcome high_vmm 0x8000 0x1000 (map_page_user high_vmm 0x8000 0x1000)
map_page_user-UserOutcome_example =
    map_page_user-UserOutcome high_vmm 0x8000 0x1000 (omega arith) (omega arith) refl
      high_vmm-IsTables writable

unmap_page_example :
    IsTables (unmap_page high_vmm 0x1000)
    × ((w : ℕ)
        → w < 2 ^ 32
        → walk (unmap_page high_vmm 0x1000) w ≡ (if w / 4096 == 1 then none else walk high_vmm w))
unmap_page_example =
    unmap_page_lem high_vmm 0x1000 high_vmm-IsTables (omega arith)
      (omega (arith, high_pde 0 (omega arith)))
