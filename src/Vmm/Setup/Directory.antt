-- ===== src/Vmm/Setup/Directory.antt =====
-- `setup_page_directory_table` of src/kernel/mm/vmm/vmm.c: an empty directory.
use toy_kernel.Common.{
  ℕ, ◌+◌, ◌*◌, ◌^◌, ◌≤◌, ◌<◌, ◌≡◌, refl, ◌∙◌, ◌≢◌, inl, inr, true, false, arith, ◌==◌, Bool-cases,
}
use toy_kernel.Memory.{Mem, memset}
use toy_kernel.Memory.Words.{read32_nil}
use toy_kernel.Memory.Fill.{memset_inside, memset_outside, memset-IsBytes}
use toy_kernel.Pmm.State.{Pmm, used}
use toy_kernel.Pmm.Alloc.{allocate_block}
use toy_kernel.Pmm.Alloc.Valid.{IsValid, frames}
use toy_kernel.Pmm.Alloc.Block.{
  Allocated, Outcome, failed, allocated, allocate_page-Outcome, run_apart,
}
use toy_kernel.Vmm.Tables.{Vmm}
use toy_kernel.Vmm.Tables.Walk.{pde}
use toy_kernel.Vmm.Tables.Layout.{IsPage, IsTables}
use toy_kernel.Vmm.Tables.Change.{with_mem-IsValid, keep-IsPage}
use toy_kernel.Vmm.Setup.{clear_loop, setup_page_directory_table}
use toy_kernel.Vmm.Setup.Fill.{clear_loop_lem}

-- The directory of `t` is empty.
pub record Empty (t : Vmm) : Type 0 where
  pub tables : IsTables t
  pub nothing : (k : ℕ) → k < 1024 → pde t k ≡ 0

module _ (s : Vmm) (v : IsValid s.pmm) (low : s.pmm.total_block ≤ 2 ^ 14)
    (null_used : used s.pmm 0 ≡ true) (addr : ℕ) (p : Pmm) (al : Allocated s.pmm 1 addr p) where
  abbrev n : ℕ
  n = al.frame

  abbrev zeroed : Mem
  zeroed = memset p.mem (n * 4096) 0 4096

  abbrev directory : Vmm
  directory = record s {
    pmm = record p { mem = clear_loop zeroed (n * 4096) 1024 0 };
    current_page_directory = n * 4096;
  }

  same_as_zeroed : (a : ℕ) → directory.pmm.mem a ≡ zeroed a
  same_as_zeroed =
      clear_loop_lem 1024 0 zeroed (n * 4096) (omega arith)
        (λ a l h. memset_inside p.mem (n * 4096) 0 4096 a l h)

  page : IsPage p n
  page = record {
    in_frames = omega (arith, al.fit, al.same_blocks);
    in_use = ground (arith, al.marks al.frame (omega (arith, al.fit)));
    apart =
        rw (al.same_map, al.same_blocks)
          (omega (arith, run_apart s.pmm n 1 v (omega arith) al.fit al.was_free));
  }

  keeps : IsValid directory.pmm × ((c : ℕ) → c < frames p → used directory.pmm c ≡ used p c)
  keeps =
      with_mem-IsValid p directory.pmm.mem n al.valid page
        (λ a.
          omega (arith, same_as_zeroed a, memset-IsBytes p.mem (n * 4096) 0 4096 al.valid.bytes a))
        (λ a h. same_as_zeroed a ∙ memset_outside p.mem (n * 4096) 0 4096 a h)

  entries : (k : ℕ) → k < 1024 → pde directory k ≡ 0
  entries k h = read32_nil directory.pmm.mem (n * 4096 + 4 * k) (λ b l r.
      same_as_zeroed b ∙ memset_inside p.mem (n * 4096) 0 4096 b (omega arith) (omega arith))

  null_marked : used directory.pmm 0 ≡ true
  null_marked =
      keeps.1 0 (omega (arith, page.in_frames))
      ∙ ground (arith, al.marks 0 (omega (arith, v.nonempty)))

  directory-Empty : Empty directory
  directory-Empty = record {
    tables = record {
      valid = keeps.0;
      low = omega (arith, al.same_blocks);
      null_used = null_marked;
      dir = n;
      at_dir = refl;
      dir_page = keep-IsPage p directory.pmm n refl refl (λ e. keeps.1 n page.in_frames ∙ e) page;
      table_page = λ i h pr. absurd (omega (arith, entries i h));
      table_not_dir = λ i h pr. absurd (omega (arith, entries i h));
      distinct = λ i j hi hj pr. absurd (omega (arith, entries i hi));
      pde_low = λ i h. omega (arith, entries i h);
      pte_low = λ i j hi hj pr. absurd (omega (arith, entries i hi));
    };
    nothing = entries;
  }

  by_allocated :
      allocate_block s.pmm 1 ≡ (addr, p) → setup_page_directory_table s ≡ (true, directory)
  unfolding setup_page_directory_table
  by_allocated eq = let real : (addr == 0) ≡ false = nonzero in rw (eq, real, al.addr_of_frame)
    where
      nonzero : (addr == 0) ≡ false
      nonzero = elim (Bool-cases (n == 0)) [
        | inl e ↦
            let q : n ≡ 0 = ground arith in
            let clash = al.was_free n (omega arith) (omega arith) in
            let clash' = rw q at clash in ground (arith, null_used)
        | inr e ↦ ground (arith, al.addr_of_frame)
      ]

  directory-nonzero : directory.current_page_directory ≢ 0
  directory-nonzero e =
      let q : n ≡ 0 = omega arith in
      let clash = rw q at al.was_free n (omega arith) (omega arith) in ground (arith, null_used)

setup_refused :
    (s : Vmm) → allocate_block s.pmm 1 ≡ (0, s.pmm) → (setup_page_directory_table s).0 ≡ false
unfolding setup_page_directory_table
setup_refused s eq = rw eq refl

-- A page directory that was set up is empty and is not the null address.
pub setup_page_directory_table-Empty :
    (s : Vmm)
    → IsValid s.pmm
    → s.pmm.total_block ≤ 2 ^ 14
    → used s.pmm 0 ≡ true
    → (setup_page_directory_table s).0 ≡ true
    → Empty (setup_page_directory_table s).1
      × ((setup_page_directory_table s).1.current_page_directory ≢ 0)
setup_page_directory_table-Empty s v low null_used done =
    go (allocate_block s.pmm 1) refl (allocate_page-Outcome s.pmm v)
  where
    go :
        (r : ℕ × Pmm)
        → allocate_block s.pmm 1 ≡ r
        → Outcome s.pmm 1 r
        → Empty (setup_page_directory_table s).1
          × ((setup_page_directory_table s).1.current_page_directory ≢ 0)
    go r eq (failed why) = let no = setup_refused s eq in ground arith
    go (addr, p) eq (allocated al) =
        rw (by_allocated s v low null_used addr p al eq) (
          directory-Empty s v low null_used addr p al,
          directory-nonzero s v low null_used addr p al,
        )
