-- ===== src/Vmm/Setup/Initial.antt =====
-- `INITIALIZE_VMEMORY` as a whole.
use toy_kernel.Common.{
  ℕ, ◌+◌, ◌-◌, ◌*◌, ◌/◌, ◌%◌, ◌^◌, ◌≤◌, ◌<◌, ◌≡◌, refl, ◌∙◌, ◌≢◌, inl, inr, Bool, true, false, none,
  some, arith, ◌==◌, if◌then◌else◌, Bool-cases,
}
use toy_kernel.Pmm.State.{used}
use toy_kernel.Pmm.Alloc.{allocate_block}
use toy_kernel.Pmm.Alloc.Valid.{IsValid}
use toy_kernel.Vmm.Tables.{Vmm}
use toy_kernel.Vmm.Tables.Walk.{pde, pte, pd_of, pt_of, walk}
use toy_kernel.Vmm.Tables.Layout.{IsTables}
use toy_kernel.Vmm.Setup.{
  setup_page_directory_table, setup_higher_half_kernel, setup_page_table, setup_table,
  set_page_directory, enable_paging, initialize_vmemory,
}
use toy_kernel.Vmm.Setup.Install.{
  Installed, SetupOutcome, out_of_memory, installed, setup_table-SetupOutcome,
}
use toy_kernel.Vmm.Setup.Directory.{Empty, setup_page_directory_table-Empty}

keeps_directory :
    (s : Vmm) (first base : ℕ)
    → (setup_table s first base).1.current_page_directory ≡ s.current_page_directory
unfolding setup_table
keeps_directory s first base = elim (Bool-cases ((allocate_block s.pmm 1).0 == 0)) [
  | inl e ↦ rw e
  | inr e ↦ rw e
]

Installed-of :
    {s : Vmm} {i first : ℕ} (r : Bool × Vmm)
    → SetupOutcome s i first r
    → r.0 ≡ true
    → Installed s i first r.1
Installed-of r out_of_memory e = ground arith
Installed-of r (installed t) e = t

keeps_directory-higher :
    (s : Vmm) → (setup_higher_half_kernel s).1.current_page_directory ≡ s.current_page_directory
unfolding setup_higher_half_kernel
keeps_directory-higher s = keeps_directory s 0x100000 0xc0000000

keeps_directory-lower :
    (s : Vmm) → (setup_page_table s).1.current_page_directory ≡ s.current_page_directory
unfolding setup_page_table
keeps_directory-lower s = keeps_directory s 0 0

-- The registers are no part of the tables.
registers-IsTables :
    (t : Vmm) (c : ℕ) (b : Bool) → IsTables t → IsTables (record t { cr3 = c; paging = b })
registers-IsTables t c b u = record {
  valid = u.valid;
  low = u.low;
  null_used = u.null_used;
  dir = u.dir;
  at_dir = u.at_dir;
  dir_page = u.dir_page;
  table_page = u.table_page;
  table_not_dir = u.table_not_dir;
  distinct = u.distinct;
  pde_low = u.pde_low;
  pte_low = u.pte_low;
}

initialize_vmemory_lem :
    (s : Vmm)
    → (initialize_vmemory s).1
      ≡ (enable_paging
          (set_page_directory
            (setup_page_table (setup_higher_half_kernel (setup_page_directory_table s).1).1).1).1).1
unfolding initialize_vmemory
initialize_vmemory_lem s = refl

-- The last two calls, on a directory that is there.
registers_lem :
    (t : Vmm)
    → t.current_page_directory ≢ 0
    → (enable_paging (set_page_directory t).1).1
      ≡ record t { cr3 = t.current_page_directory; paging = true }
unfolding enable_paging set_page_directory
registers_lem t ne = let real : (t.current_page_directory == 0) ≡ false = ground arith in rw real

walk-registers :
    (t : Vmm) (c : ℕ) (b : Bool) (w : ℕ) → walk (record t { cr3 = c; paging = b }) w ≡ walk t w
unfolding walk
walk-registers t c b w = refl

module _ (s : Vmm) (v : IsValid s.pmm) (low : s.pmm.total_block ≤ 2 ^ 14)
    (null_used : used s.pmm 0 ≡ true) where
  abbrev with_directory : Vmm
  with_directory = (setup_page_directory_table s).1

  abbrev with_higher : Vmm
  with_higher = (setup_higher_half_kernel with_directory).1

  abbrev with_lower : Vmm
  with_lower = (setup_page_table with_higher).1

  module _ (done : (setup_page_directory_table s).0 ≡ true)
      (done_higher : (setup_higher_half_kernel with_directory).0 ≡ true)
      (done_lower : (setup_page_table with_higher).0 ≡ true) where
    empty : Empty with_directory × (with_directory.current_page_directory ≢ 0)
    empty = setup_page_directory_table-Empty s v low null_used done

    higher : Installed with_directory 768 0x100000 with_higher
    unfolding setup_higher_half_kernel
    higher =
        Installed-of (setup_higher_half_kernel with_directory)
          (setup_table-SetupOutcome with_directory empty.0.tables 0x100000 0xc0000000 refl refl
            (omega arith) (omega arith) (omega (arith, empty.0.nothing 768 (omega arith))))
          done_higher

    none_at_0 : pde with_higher 0 ≡ 0
    none_at_0 = higher.others 0 (omega arith) (omega arith) ∙ empty.0.nothing 0 (omega arith)

    lower : Installed with_higher 0 0 with_lower
    unfolding setup_page_table
    lower =
        Installed-of (setup_page_table with_higher)
          (setup_table-SetupOutcome with_higher higher.tables 0 0 refl refl (omega arith)
            (omega arith) (omega (arith, none_at_0)))
          done_lower

    directory_there : with_lower.current_page_directory ≢ 0
    directory_there =
        rw (keeps_directory-lower with_higher, keeps_directory-higher with_directory) empty.1

    higher_table : (j : ℕ) → j < 1024 → pte with_lower 768 j ≡ 0x100000 + j * 4096 + 3
    higher_table j h =
        lower.keeps 768 j (omega arith) h (omega arith) higher.present ∙ higher.entries j h

    elsewhere : (k : ℕ) → k < 1024 → k ≢ 0 → k ≢ 768 → pde with_lower k ≡ 0
    elsewhere k h z n = lower.others k h z ∙ higher.others k h n ∙ empty.0.nothing k h

    walk-with_lower :
        (w : ℕ)
        → w < 2 ^ 32
        → walk with_lower w ≡ (
            if w / 2 ^ 22 == 0
            then some w
            else if w / 2 ^ 22 == 768
            then some (w - 0xc0000000 + 0x100000)
            else none)
    unfolding walk
    walk-with_lower w h = elim (Bool-cases (pd_of w == 0)) [
      | inl e ↦
          let q : pd_of w ≡ 0 = ground arith in
          rw (q, lower.present, lower.entries (pt_of w) (omega arith))
            (let odd : (0 + pt_of w * 4096 + 3) % 2 ≡ 1 = omega arith in
              let same : (0 + pt_of w * 4096 + 3) / 4096 * 4096 + w % 4096 ≡ w = omega (arith, q) in
              rw (odd, same))
      | inr z ↦ elim (Bool-cases (pd_of w == 768)) [
        | inl e ↦
            let q : pd_of w ≡ 768 = ground arith in
            let present : pde with_lower 768 % 2 ≡ 1 =
              omega (arith, lower.others 768 (omega arith) (omega arith), higher.present) in
            let odd : (0x100000 + pt_of w * 4096 + 3) % 2 ≡ 1 = omega arith in
            let same : (0x100000 + pt_of w * 4096 + 3) / 4096 * 4096 + w % 4096
                ≡ w - 0xc0000000 + 0x100000 =
              omega (arith, q) in
            rw (q, present, higher_table (pt_of w) (omega arith)) (rw (odd, same))
        | inr n ↦
            let nothing = elsewhere (pd_of w) (omega arith) (ground arith) (ground arith) in
            rw (nothing, z, n)
      ]
    ]

    -- On a valid physical memory of at most 2 GiB with frame 0 marked, if none of the three
    -- allocations fails, `INITIALIZE_VMEMORY` leaves the invariant of the page tables, paging on
    -- with CR3 at the directory, the first 4 MiB mapped to themselves, the 4 MiB from 0xC0000000
    -- mapped to those from 0x100000, and nothing else mapped.
    pub initialize_vmemory-walk :
        let t = (initialize_vmemory s).1 in
        IsTables t
        × (t.cr3 ≡ t.current_page_directory)
        × (t.paging ≡ true)
        × ((w : ℕ)
            → w < 2 ^ 32
            → walk t w ≡ (
                if w / 2 ^ 22 == 0
                then some w
                else if w / 2 ^ 22 == 768
                then some (w - 0xc0000000 + 0x100000)
                else none))
    initialize_vmemory-walk =
        rw (initialize_vmemory_lem s, registers_lem with_lower directory_there)
          (
            registers-IsTables with_lower with_lower.current_page_directory true lower.tables,
            refl,
            refl,
            λ w h.
                walk-registers with_lower with_lower.current_page_directory true w
                ∙ walk-with_lower w h,
          )
