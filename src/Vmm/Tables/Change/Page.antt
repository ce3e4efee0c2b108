-- ===== src/Vmm/Tables/Change/Page.antt =====
-- A page that `allocate_block` has just handed out belongs to no table, and writing in it changes
-- no entry.
use toy_kernel.Common.{
  ℕ, ◌+◌, ◌*◌, ◌%◌, ◌≤◌, ◌<◌, ◌≡◌, refl, sym, ◌∙◌, ◌≢◌, ◌⊎◌, true, false, arith, ◌==◌,
}
use toy_kernel.Memory.{Mem, IsBytes}
use toy_kernel.Pmm.State.{Pmm, used}
use toy_kernel.Pmm.Alloc.Valid.{IsValid, frames}
use toy_kernel.Pmm.Alloc.Block.{Allocated, run_apart}
use toy_kernel.Vmm.Tables.{Vmm, with_mem}
use toy_kernel.Vmm.Tables.Walk.{pde, pte}
use toy_kernel.Vmm.Tables.Layout.{IsPage, IsTables, table_of}
use toy_kernel.Vmm.Tables.Change.{
  SameBut, with_mem-IsValid, keep-IsPage, same-pde, same-pte, same-IsTables,
}

-- The page `n` is neither the directory nor a table.
pub record IsSpare (s : Vmm) (dir n : ℕ) : Type 0 where
  pub page : IsPage s.pmm n
  pub not_dir : n ≢ dir
  pub not_table : (k : ℕ) → k < 1024 → pde s k % 2 ≡ 1 → table_of s k ≢ n

-- `t` has the entries of `s`, and the page `n` to spare.
pub record Same (s t : Vmm) (dir n : ℕ) : Type 0 where
  pub tables : IsTables t
  pub dir_eq : tables.dir ≡ dir
  pub spare : IsSpare t dir n
  pub at_pde : (k : ℕ) → k < 1024 → pde t k ≡ pde s k
  pub at_pte : (k j : ℕ) → k < 1024 → j < 1024 → pde s k % 2 ≡ 1 → pte t k j ≡ pte s k j

module _ (s : Vmm) (u : IsTables s) (addr : ℕ) (p : Pmm) (al : Allocated s.pmm 1 addr p) where
  abbrev pub with_page : Vmm
  with_page = record s { pmm = p }

  free : used s.pmm al.frame ≡ false
  free = al.was_free al.frame (omega arith) (omega arith)

  not_used : (n : ℕ) → used s.pmm n ≡ true → n ≢ al.frame
  not_used n h e = let clash = rw e at h in ground (arith, free)

  apart :
      (al.frame * 4096 + 1 * 4096 ≤ s.pmm.bit_map)
      ⊎ (s.pmm.bit_map + 4 * s.pmm.total_block ≤ al.frame * 4096)
  apart = run_apart s.pmm al.frame 1 u.valid (omega arith) al.fit al.was_free

  keeps : (c : ℕ) → c < frames s.pmm → used s.pmm c ≡ true → used p c ≡ true
  keeps c h e = ground (arith, al.marks c h)

  pub not_null : (addr == 0) ≡ false
  not_null = let ne = not_used 0 u.null_used in ground (arith, al.addr_of_frame)

  outside_pages :
      (n a : ℕ) → IsPage s.pmm n → n * 4096 ≤ a → a < n * 4096 + 4096 → p.mem a ≡ s.pmm.mem a
  outside_pages n a page l h =
      let ne = not_used n page.in_use in
      al.elsewhere a (omega (arith, page.apart)) (omega (arith, al.addr_of_frame))

  pde-with_page : (k : ℕ) → k < 1024 → pde with_page k ≡ pde s k
  pde-with_page k h = same-pde s with_page refl k (λ a l r.
      outside_pages u.dir a u.dir_page (omega (arith, u.at_dir)) (omega (arith, u.at_dir)))

  pte-with_page : (k j : ℕ) → k < 1024 → j < 1024 → pde s k % 2 ≡ 1 → pte with_page k j ≡ pte s k j
  pte-with_page k j hk hj pr =
      same-pte s with_page refl k j (pde-with_page k hk)
        (λ a l r. outside_pages (table_of s k) a (u.table_page k hk pr) (omega arith) (omega arith))

  with_page-IsTables : IsTables with_page
  with_page-IsTables =
      same-IsTables s with_page refl u al.valid al.same_map al.same_blocks keeps pde-with_page
        (λ k j hk hj pr. rw (pte-with_page k j hk hj pr) (u.pte_low k j hk hj pr))

  with_page-IsSpare : IsSpare with_page u.dir al.frame
  with_page-IsSpare = record {
    page = record {
      in_frames = omega (arith, al.fit, al.same_blocks);
      in_use = ground (arith, al.marks al.frame (omega (arith, al.fit)));
      apart = rw (al.same_map, al.same_blocks) (omega (arith, apart));
    };
    not_dir = λ e. not_used u.dir u.dir_page.in_use (sym e);
    not_table = λ k h pr.
        rw (pde-with_page k h)
          (not_used (table_of s k) ((u.table_page k h (rw (pde-with_page k h) at pr)).in_use));
  }

  pub with_page-Same : Same s with_page u.dir al.frame
  with_page-Same = record {
    tables = with_page-IsTables;
    dir_eq = omega (arith, with_page-IsTables.at_dir, u.at_dir);
    spare = with_page-IsSpare;
    at_pde = pde-with_page;
    at_pte = pte-with_page;
  }

-- Writing in the spare page.
module _ (s t : Vmm) (dir n : ℕ) (sm : Same s t dir n) (m : Mem) (bytes : IsBytes m)
    (same : SameBut t.pmm.mem m n) where
  abbrev pub written : Vmm
  written = with_mem t m

  valid : IsValid written.pmm × ((c : ℕ) → c < frames t.pmm → used written.pmm c ≡ used t.pmm c)
  valid = with_mem-IsValid t.pmm m n sm.tables.valid sm.spare.page bytes same

  pde-written : (k : ℕ) → k < 1024 → pde written k ≡ pde t k
  pde-written k h =
      let ne = sm.spare.not_dir in
      same-pde t written refl k (λ a l r. same a (omega (arith, sm.tables.at_dir, sm.dir_eq)))

  pte-written : (k j : ℕ) → k < 1024 → j < 1024 → pde t k % 2 ≡ 1 → pte written k j ≡ pte t k j
  pte-written k j hk hj pr =
      let ne = sm.spare.not_table k hk pr in
      same-pte t written refl k j (pde-written k hk) (λ a l r. same a (omega arith))

  written-IsTables : IsTables written
  written-IsTables =
      same-IsTables t written refl sm.tables valid.0 refl refl (λ c h e. valid.1 c h ∙ e)
        pde-written (λ k j hk hj pr. rw (pte-written k j hk hj pr) (sm.tables.pte_low k j hk hj pr))

  pub written-Same : Same s written dir n
  written-Same = record {
    tables = written-IsTables;
    dir_eq = omega (arith, written-IsTables.at_dir, sm.tables.at_dir, sm.dir_eq);
    spare = record {
      page =
          keep-IsPage t.pmm written.pmm n refl refl (λ e. valid.1 n sm.spare.page.in_frames ∙ e)
            sm.spare.page;
      not_dir = sm.spare.not_dir;
      not_table =
          λ k h pr. rw (pde-written k h) (sm.spare.not_table k h (rw (pde-written k h) at pr));
    };
    at_pde = λ k h. pde-written k h ∙ sm.at_pde k h;
    at_pte =
        λ k j hk hj pr. pte-written k j hk hj (rw (sm.at_pde k hk) pr) ∙ sm.at_pte k j hk hj pr;
  }
