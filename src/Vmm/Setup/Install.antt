-- ===== src/Vmm/Setup/Install.antt =====
-- `setup_higher_half_kernel` and `setup_page_table`: a filled table in an entry that was empty.
use toy_kernel.Common.{
  ℕ, ◌+◌, ◌*◌, ◌/◌, ◌%◌, ◌^◌, ◌<◌, ◌≡◌, refl, ap, ◌∙◌, ◌≢◌, Bool, true, false, arith,
}
use toy_kernel.Memory.{Mem, read32, memset}
use toy_kernel.Memory.Fill.{memset_outside, memset-IsBytes}
use toy_kernel.Pmm.State.{Pmm}
use toy_kernel.Pmm.Alloc.{allocate_block}
use toy_kernel.Pmm.Alloc.Block.{Allocated, Outcome, failed, allocated, allocate_page-Outcome}
use toy_kernel.Vmm.Entry.{set_frame, pd_index}
use toy_kernel.Vmm.Entry.Laws.{set_frame_lem}
use toy_kernel.Vmm.Entry.Flags.{kernel_flags, kernel_flags-lt, kernel_flags-present}
use toy_kernel.Vmm.Tables.{Vmm, with_mem, update32, directory_entry}
use toy_kernel.Vmm.Tables.Walk.{pde, pte, pd_of}
use toy_kernel.Vmm.Tables.Layout.{IsTables}
use toy_kernel.Vmm.Tables.Change.Page.{Same, with_page-Same, not_null, written-Same}
use toy_kernel.Vmm.Tables.Change.Entry.{
  IsEntry, entered, entered-IsTables, pde-entered_self, pde-entered_ne, pte-entered_self,
  pte-entered_ne,
}
use toy_kernel.Vmm.Setup.{setup_table, table_loop}
use toy_kernel.Vmm.Setup.Fill.{read-table_loop, table_loop_outside, table_loop-IsBytes}

-- `t` has one more table than `s`, at entry `i`, which maps 4 MiB to the frames from `first` on.
pub record Installed (s : Vmm) (i first : ℕ) (t : Vmm) : Type 0 where
  pub tables : IsTables t
  pub present : pde t i % 2 ≡ 1
  pub entries : (j : ℕ) → j < 1024 → pte t i j ≡ first + j * 4096 + 3
  pub others : (k : ℕ) → k < 1024 → k ≢ i → pde t k ≡ pde s k
  pub keeps : (k j : ℕ) → k < 1024 → j < 1024 → k ≢ i → pde s k % 2 ≡ 1 → pte t k j ≡ pte s k j

pub data SetupOutcome (s : Vmm) (i first : ℕ) : Bool × Vmm → Type 0 where
  out_of_memory : SetupOutcome s i first (false, s)
  installed : {t : Vmm} → Installed s i first t → SetupOutcome s i first (true, t)

module _ (s : Vmm) (u : IsTables s) (first base : ℕ) (aligned : first % 4096 ≡ 0)
    (start : base % 2 ^ 22 ≡ 0) (first_low : first + 2 ^ 22 < 2 ^ 31)
    (base_low : base + 2 ^ 22 < 2 ^ 32) (absent : pde s (pd_of base) % 2 ≡ 0) where
  abbrev i : ℕ
  i = pd_of base

  abbrev e : ℕ
  e = kernel_flags (pde s i)

  at_i : i < 1024
  at_i = omega arith

  low : e < 2 ^ 31
  low = kernel_flags-lt (pde s i) (u.pde_low i at_i)

  module _ (addr : ℕ) (p : Pmm) (al : Allocated s.pmm 1 addr p) where
    abbrev n : ℕ
    n = al.frame

    abbrev zeroed : Mem
    zeroed = memset p.mem (n * 4096) 0 4096

    abbrev full : Vmm
    full = with_mem (record s { pmm = p }) (table_loop zeroed (n * 4096) 1024 first base)

    full-Same : Same s full u.dir n
    full-Same =
        written-Same s (record s { pmm = p }) u.dir n (with_page-Same s u addr p al) full.pmm.mem
          (table_loop-IsBytes (n * 4096) first base aligned start first_low base_low zeroed
            (memset-IsBytes p.mem (n * 4096) 0 4096 al.valid.bytes))
          (λ a h.
            table_loop_outside (n * 4096) first base aligned start first_low base_low zeroed a h
            ∙ memset_outside p.mem (n * 4096) 0 4096 a h)

    contents : (j : ℕ) → j < 1024 → read32 full.pmm.mem (n * 4096 + 4 * j) ≡ first + j * 4096 + 3
    contents j h = read-table_loop (n * 4096) first base aligned start first_low base_low zeroed j h

    n_small : n < 2 ^ 19
    n_small = omega (arith, al.fit, u.low)

    v : ℕ
    v = n * 4096 + e % 4096

    v-frame : v / 4096 ≡ n
    unfolding v
    v-frame = omega arith

    v-IsEntry : IsEntry full full-Same.tables.dir i v
    unfolding v
    v-IsEntry = record {
      index = at_i;
      low = omega (arith, n_small);
      present = omega (arith, kernel_flags-present (pde s i));
      page = rw v-frame full-Same.spare.page;
      not_dir = rw (v-frame, full-Same.dir_eq) full-Same.spare.not_dir;
      not_other = λ k h ne pr. rw v-frame (full-Same.spare.not_table k h pr);
      contents = λ j h. rw (v-frame, contents j h) (omega arith);
    }

    abbrev final : Vmm
    final = entered full full-Same.tables i v v-IsEntry

    final-Installed : Installed s i first final
    final-Installed = record {
      tables = entered-IsTables full full-Same.tables i v v-IsEntry;
      present = rw (pde-entered_self full full-Same.tables i v v-IsEntry) v-IsEntry.present;
      entries = λ j h.
          pte-entered_self full full-Same.tables i v v-IsEntry j h ∙ rw v-frame (contents j h);
      others =
          λ k h ne. pde-entered_ne full full-Same.tables i v v-IsEntry k ne ∙ full-Same.at_pde k h;
      keeps = λ k j hk hj ne pr.
          pte-entered_ne full full-Same.tables i v v-IsEntry k j hk ne
            (rw (full-Same.at_pde k hk) pr) hj
          ∙ full-Same.at_pte k j hk hj pr;
    }

    by_allocated : allocate_block s.pmm 1 ≡ (addr, p) → setup_table s first base ≡ (true, final)
    unfolding setup_table update32 directory_entry pd_index v
    by_allocated eq =
        let value : set_frame (kernel_flags (pde full i)) (n * 4096) ≡ v =
          ap (λ x. set_frame (kernel_flags x) (n * 4096)) (full-Same.at_pde i at_i)
          ∙ set_frame_lem e (n * 4096) low (omega (arith, n_small)) (omega arith) in
        rw (eq, not_null s u addr p al, al.addr_of_frame, value)

  by_failed : allocate_block s.pmm 1 ≡ (0, s.pmm) → setup_table s first base ≡ (false, s)
  unfolding setup_table
  by_failed eq = rw eq

  -- With the invariant and an empty entry, setting up a table changes nothing and fails, or keeps
  -- the invariant and maps the 4 MiB from `base` on to the frames from `first` on.
  pub setup_table-SetupOutcome : SetupOutcome s i first (setup_table s first base)
  setup_table-SetupOutcome = go (allocate_block s.pmm 1) refl (allocate_page-Outcome s.pmm u.valid)
    where
      go :
          (r : ℕ × Pmm)
          → allocate_block s.pmm 1 ≡ r
          → Outcome s.pmm 1 r
          → SetupOutcome s i first (setup_table s first base)
      go r eq (failed why) = rw (by_failed eq) out_of_memory
      go (addr, p) eq (allocated al) =
          rw (by_allocated addr p al eq) (installed (final-Installed addr p al))
