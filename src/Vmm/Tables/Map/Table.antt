-- ===== src/Vmm/Tables/Map/Table.antt =====
-- The new page table that `map_page` and `map_page_user` bring in.
use toy_kernel.Common.{
  ℕ, ◌+◌, ◌*◌, ◌/◌, ◌%◌, ◌^◌, ◌<◌, ◌≡◌, refl, ap, ◌∙◌, ◌≢◌, Bool, true, false, arith,
}
use toy_kernel.Memory.{read32, memset}
use toy_kernel.Memory.Fill.{memset_inside, memset_outside, memset-IsBytes}
use toy_kernel.Pmm.State.{Pmm}
use toy_kernel.Pmm.Alloc.{allocate_block}
use toy_kernel.Pmm.Alloc.Block.{Allocated, Outcome, failed, allocated, allocate_page-Outcome}
use toy_kernel.Vmm.Entry.{set_frame, pd_index}
use toy_kernel.Vmm.Entry.Laws.{set_frame_lem}
use toy_kernel.Vmm.Tables.{Vmm, new_table, with_mem, update32, directory_entry}
use toy_kernel.Vmm.Tables.Walk.{pde, pte, pd_of}
use toy_kernel.Vmm.Tables.Layout.{IsTables}
use toy_kernel.Vmm.Tables.Change.Page.{Same, with_page-Same, not_null, written-Same}
use toy_kernel.Vmm.Tables.Change.Entry.{
  IsEntry, entered, entered-IsTables, pde-entered_self, pde-entered_ne, pte-entered_self,
  pte-entered_ne,
}

-- `t` has one more table than `s`, empty, at entry `i`, with the flags of `e`.
pub record Brought (s : Vmm) (i e : ℕ) (t : Vmm) : Type 0 where
  pub tables : IsTables t
  pub flags : pde t i % 4096 ≡ e % 4096
  pub others : (k : ℕ) → k < 1024 → k ≢ i → pde t k ≡ pde s k
  pub empty : (j : ℕ) → j < 1024 → pte t i j ≡ 0
  pub keeps : (k j : ℕ) → k < 1024 → j < 1024 → k ≢ i → pde s k % 2 ≡ 1 → pte t k j ≡ pte s k j

pub data NewTable (s : Vmm) (i e : ℕ) : Bool × Vmm → Type 0 where
  out_of_memory : NewTable s i e (false, s)
  brought : {t : Vmm} → Brought s i e t → NewTable s i e (true, t)

module _ (s : Vmm) (u : IsTables s) (virt : ℕ) (small : virt < 2 ^ 32) (flags : ℕ → ℕ)
    (absent : pde s (pd_of virt) % 2 ≡ 0) (low : flags (pde s (pd_of virt)) < 2 ^ 31)
    (odd : flags (pde s (pd_of virt)) % 2 ≡ 1) where
  abbrev i : ℕ
  i = pd_of virt

  abbrev e : ℕ
  e = flags (pde s i)

  module _ (addr : ℕ) (p : Pmm) (al : Allocated s.pmm 1 addr p) where
    abbrev n : ℕ
    n = al.frame

    abbrev cleared : Vmm
    cleared = with_mem (record s { pmm = p }) (memset p.mem (n * 4096) 0 4096)

    paged : Same s (record s { pmm = p }) u.dir n
    paged = with_page-Same s u addr p al

    clear : Same s cleared u.dir n
    clear =
        written-Same s (record s { pmm = p }) u.dir n paged (memset p.mem (n * 4096) 0 4096)
          (memset-IsBytes p.mem (n * 4096) 0 4096 al.valid.bytes)
          (λ a h. memset_outside p.mem (n * 4096) 0 4096 a h)

    n_small : n < 2 ^ 19
    n_small = omega (arith, al.fit, u.low)

    v : ℕ
    v = n * 4096 + e % 4096

    zeros : (j : ℕ) → j < 1024 → read32 cleared.pmm.mem (n * 4096 + 4 * j) ≡ 0
    unfolding read32
    zeros j h = omega (
      arith,
      memset_inside p.mem (n * 4096) 0 4096 (n * 4096 + 4 * j) (omega arith) (omega arith),
      memset_inside p.mem (n * 4096) 0 4096 (n * 4096 + 4 * j + 1) (omega arith) (omega arith),
      memset_inside p.mem (n * 4096) 0 4096 (n * 4096 + 4 * j + 2) (omega arith) (omega arith),
      memset_inside p.mem (n * 4096) 0 4096 (n * 4096 + 4 * j + 3) (omega arith) (omega arith),
    )

    v-frame : v / 4096 ≡ n
    unfolding v
    v-frame = omega arith

    v-IsEntry : IsEntry cleared clear.tables.dir i v
    unfolding v
    v-IsEntry = record {
      index = omega arith;
      low = omega (arith, n_small);
      present = omega (arith, odd);
      page = rw v-frame clear.spare.page;
      not_dir = rw (v-frame, clear.dir_eq) clear.spare.not_dir;
      not_other = λ k h ne pr. rw v-frame (clear.spare.not_table k h pr);
      contents = λ j h. rw (v-frame, zeros j h) (omega arith);
    }

    abbrev final : Vmm
    final = entered cleared clear.tables i v v-IsEntry

    at_i : i < 1024
    at_i = omega arith

    final-Brought : Brought s i e final
    unfolding v
    final-Brought = record {
      tables = entered-IsTables cleared clear.tables i v v-IsEntry;
      flags = omega (arith, pde-entered_self cleared clear.tables i v v-IsEntry);
      others = λ k h ne. pde-entered_ne cleared clear.tables i v v-IsEntry k ne ∙ clear.at_pde k h;
      empty =
          λ j h. pte-entered_self cleared clear.tables i v v-IsEntry j h ∙ rw v-frame (zeros j h);
      keeps = λ k j hk hj ne pr.
          pte-entered_ne cleared clear.tables i v v-IsEntry k j hk ne (rw (clear.at_pde k hk) pr) hj
          ∙ clear.at_pte k j hk hj pr;
    }

    by_allocated : allocate_block s.pmm 1 ≡ (addr, p) → new_table s virt flags ≡ (true, final)
    unfolding new_table update32 directory_entry pd_index v
    by_allocated eq =
        let value : set_frame (flags (pde cleared i)) (n * 4096) ≡ v =
          ap (λ x. set_frame (flags x) (n * 4096)) (clear.at_pde i at_i)
          ∙ set_frame_lem e (n * 4096) low (omega (arith, n_small)) (omega arith) in
        rw (eq, not_null s u addr p al, al.addr_of_frame, value)

  by_failed : allocate_block s.pmm 1 ≡ (0, s.pmm) → new_table s virt flags ≡ (false, s)
  unfolding new_table
  by_failed eq = rw eq

  pub new_table-NewTable : NewTable s i e (new_table s virt flags)
  new_table-NewTable = go (allocate_block s.pmm 1) refl (allocate_page-Outcome s.pmm u.valid)
    where
      go :
          (r : ℕ × Pmm)
          → allocate_block s.pmm 1 ≡ r
          → Outcome s.pmm 1 r
          → NewTable s i e (new_table s virt flags)
      go r eq (failed why) = rw (by_failed eq) out_of_memory
      go (addr, p) eq (allocated al) =
          rw (by_allocated addr p al eq) (brought (final-Brought addr p al))
