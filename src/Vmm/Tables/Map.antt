-- ===== src/Vmm/Tables/Map.antt =====
-- `map_page`: what the processor then finds at the mapped address and at every other.
pub mod Table
pub mod Entry
use toy_kernel.Common.{
  ℕ, zero, suc, ◌+◌, ◌-◌, ◌*◌, ◌/◌, ◌%◌, ◌^◌, ◌≤◌, ◌<◌, min, max, bit_and, bit_or, ◌≡◌, refl, sym,
  ap, ◌∙◌, ◌≢◌, ◌↔◌, ◌⊎◌, inl, inr, Bool, true, false, not, ◌&&◌, ◌||◌, Option, none, some, List,
  [], ◌∷◌, ◌++◌, map, arith, ltb, leb, ◌==◌, ◌!=◌, if◌then◌else◌, ltb→lt, leb→le, ==_iff,
  Bool-cases, Option-cases, u8, u16, u32, sub32, ◌<<<◌, ◌>>>◌, length, get_elem?, get_or, set, drop,
  take, replicate, length-append, length-set, get_elem?-set_self, get_elem?-set_ne,
}
use toy_kernel.Memory.Words.{read32-lt}
use toy_kernel.Vmm.Entry.{pte_present, set_attribute, set_frame}
use toy_kernel.Vmm.Entry.Laws.{set_frame_lem}
use toy_kernel.Vmm.Entry.Flags.{
  kernel_flags, kernel_flags-lt, kernel_flags-present, set_attribute-lt, set_attribute-present,
}
use toy_kernel.Vmm.Tables.{Vmm, update32, is_present, new_table, map_in, map_page}
use toy_kernel.Vmm.Tables.Walk.{pde, pte, walk, pd_of, pt_of}
use toy_kernel.Vmm.Tables.Layout.{IsTables}
use toy_kernel.Vmm.Tables.Map.Table.{NewTable, out_of_memory, brought, Brought, new_table-NewTable}
use toy_kernel.Vmm.Tables.Map.Entry.{
  Put, Ready, Ready-Brought, Ready-refl, filled, filled-Put, walk-Put, is_present_lem, get_page_lem,
}

-- `t` translates the page of `v` to the page of `p`, and every other address as `s` does.
pub record Mapped (s : Vmm) (p v : ℕ) (t : Vmm) : Type 0 where
  pub tables : IsTables t
  pub translates :
      (w : ℕ)
      → w < 2 ^ 32
      → walk t w ≡ (if w / 4096 == v / 4096 then some (p + w % 4096) else walk s w)

pub data MapOutcome (s : Vmm) (p v : ℕ) : Bool × Vmm → Type 0 where
  unmapped : MapOutcome s p v (false, s)
  mapped : {t : Vmm} → Mapped s p v t → MapOutcome s p v (true, t)

-- An entry with frame `p` and a present flag, put for `v`, maps `v` to `p`.
pub Mapped-Put :
    (s t : Vmm) (p v f : ℕ)
    → v < 2 ^ 32
    → p % 4096 ≡ 0
    → f < 4096
    → f % 2 ≡ 1
    → Put s (pd_of v) (pt_of v) (p + f) t
    → Mapped s p v t
Mapped-Put s t p v f hv aligned hf odd put = record {
  tables = put.tables;
  translates = λ w hw.
      let flag : (p + f) % 2 ≡ 1 = omega arith in
      let frame : (p + f) / 4096 * 4096 ≡ p = omega arith in
      walk-Put s t v (p + f) w hv hw put ∙ rw (flag, frame);
}

module _ (s : Vmm) (p v : ℕ) (hv : v < 2 ^ 32) (hp : p < 2 ^ 31) (aligned : p % 4096 ≡ 0) where
  abbrev flags_of : Vmm → ℕ
  flags_of r = set_attribute (pte r (pd_of v) (pt_of v)) pte_present

  map_in-Put :
      (r : Vmm)
      → Ready s (pd_of v) r
      → Put s (pd_of v) (pt_of v) (p + flags_of r % 4096) (map_in r p v)
  unfolding map_in update32
  map_in-Put r rd =
      let low : flags_of r < 2 ^ 31 =
        set_attribute-lt 31 (pte r (pd_of v) (pt_of v)) 1
          (rd.tables.pte_low (pd_of v) (pt_of v) (omega arith) (omega arith) rd.present)
          (omega arith) in
      let at =
        get_page_lem r v
          (read32-lt r.pmm.mem (r.current_page_directory + 4 * pd_of v) rd.tables.valid.bytes) in
      let entry : set_frame (flags_of r) p ≡ p + flags_of r % 4096 =
        set_frame_lem (flags_of r) p low hp aligned in
      rw (at, entry)
        (filled-Put s r (pd_of v) (pt_of v) (p + flags_of r % 4096) (omega arith) (omega arith) rd
          (omega arith))

  map_in-Mapped : (r : Vmm) → Ready s (pd_of v) r → Mapped s p v (map_in r p v)
  map_in-Mapped r rd =
      Mapped-Put s (map_in r p v) p v (flags_of r % 4096) hv aligned (omega arith)
        (omega (arith, set_attribute-present (pte r (pd_of v) (pt_of v)) 1)) (map_in-Put r rd)

  -- With tables laid out as the invariant says, the bitmap above all frames or in frames marked
  -- used, and a page-aligned physical address below 2 GiB, `map_page` either changes nothing and
  -- returns false, or returns true with the invariant kept, the page of `v` translated to the
  -- page of `p`, and every other address translated as before.
  pub map_page-MapOutcome : IsTables s → MapOutcome s p v (map_page s p v)
  unfolding map_page
  map_page-MapOutcome u = elim (Bool-cases (is_present s v)) [
    | inl there ↦
        rw there
          (mapped (map_in-Mapped s (Ready-refl u (let e = is_present_lem s v in ground arith))))
    | inr absent ↦
        let absent_flag : pde s (pd_of v) % 2 ≡ 0 = let e = is_present_lem s v in ground arith in
        rw absent (
          go (new_table s v kernel_flags) absent_flag (
            new_table-NewTable s u v hv kernel_flags absent_flag
              (kernel_flags-lt (pde s (pd_of v)) (u.pde_low (pd_of v) (omega arith)))
              (kernel_flags-present (pde s (pd_of v)))))
  ]
    where
      go :
          (r : Bool × Vmm)
          → pde s (pd_of v) % 2 ≡ 0
          → NewTable s (pd_of v) (kernel_flags (pde s (pd_of v))) r
          → MapOutcome s p v (if r.0 then (true, map_in r.1 p v) else (false, r.1))
      go r absent_flag out_of_memory = unmapped
      go r absent_flag (brought b) =
          mapped
            (map_in-Mapped _ (Ready-Brought b (kernel_flags-present (pde s (pd_of v))) absent_flag))
