-- ===== src/Vmm/Tables/Unmap.antt =====
-- `unmap_page` and `free_page`.
use toy_kernel.Common.{
  ℕ, ◌+◌, ◌*◌, ◌/◌, ◌%◌, ◌^◌, ◌<◌, ◌≡◌, refl, ◌∙◌, none, arith, ◌==◌, if◌then◌else◌,
}
use toy_kernel.Memory.Words.{read32-lt}
use toy_kernel.Vmm.Entry.{clear_attribute, set_frame}
use toy_kernel.Vmm.Entry.Laws.{set_frame_lem}
use toy_kernel.Vmm.Entry.Flags.{clear_present, clear_attribute-lt}
use toy_kernel.Vmm.Tables.{Vmm, update32, unmap_page}
use toy_kernel.Vmm.Tables.Walk.{pde, pte, walk, pd_of, pt_of}
use toy_kernel.Vmm.Tables.Layout.{IsTables}
use toy_kernel.Vmm.Tables.Map.Entry.{Ready-refl, filled-Put, walk-Put, get_page_lem}

-- With the invariant, and a page table for `v` present, `unmap_page` keeps the invariant, leaves no
-- translation for the page of `v`, and every other translation as it was.
pub unmap_page_lem :
    (s : Vmm) (v : ℕ)
    → IsTables s
    → v < 2 ^ 32
    → pde s (pd_of v) % 2 ≡ 1
    → IsTables (unmap_page s v)
      × ((w : ℕ)
          → w < 2 ^ 32
          → walk (unmap_page s v) w ≡ (if w / 4096 == v / 4096 then none else walk s w))
unfolding unmap_page update32
unmap_page_lem s v u hv pr =
    let e = pte s (pd_of v) (pt_of v) in
    let e_low = u.pte_low (pd_of v) (pt_of v) (omega arith) (omega arith) pr in
    let frame : set_frame e 0 < 2 ^ 31 =
      omega (arith, set_frame_lem e 0 e_low (omega arith) refl) in
    let low = clear_attribute-lt 31 (set_frame e 0) 1 frame in
    let at =
      get_page_lem s v
        (read32-lt s.pmm.mem (s.current_page_directory + 4 * pd_of v) u.valid.bytes) in
    let put =
      filled-Put s s (pd_of v) (pt_of v) (clear_attribute (set_frame e 0) 1) (omega arith)
        (omega arith) (Ready-refl u pr) low in
    rw at (
      put.tables,
      λ w hw.
          walk-Put s _ v (clear_attribute (set_frame e 0) 1) w hv hw put
          ∙ rw (clear_present (set_frame e 0) frame),
    )
