-- ===== src/Vmm/Tables/MapUser.antt =====
-- `map_page_user`: the same translation as `map_page`, and ring 3 may read and write the page.
use toy_kernel.Common.{
  ℕ, ◌+◌, ◌*◌, ◌/◌, ◌%◌, ◌^◌, ◌<◌, ◌≡◌, refl, ◌∙◌, inl, inr, Bool, true, false, arith, ◌==◌,
  if◌then◌else◌, Bool-cases,
}
use toy_kernel.Memory.Words.{read32-lt}
use toy_kernel.Vmm.Entry.{pte_user, set_attribute, set_frame, pd_index}
use toy_kernel.Vmm.Entry.Laws.{set_frame_lem, set_attribute_frame}
use toy_kernel.Vmm.Entry.Flags.{
  user_flags, user_flags-lt, user_flags-present, user_flags-user, set_attribute-lt,
  set_attribute-present, set_attribute-write, set_attribute-user,
}
use toy_kernel.Vmm.Tables.{
  Vmm, update32, directory_entry, is_present, get_page, new_table, map_in_user, map_page_user,
}
use toy_kernel.Vmm.Tables.Walk.{pde, pte, user_walk, pd_of, pt_of}
use toy_kernel.Vmm.Tables.Layout.{IsTables}
use toy_kernel.Vmm.Tables.Change.Entry.{
  IsEntry, entered, entered-IsTables, pde-entered_self, pde-entered_ne, pde-put, pte-entered_self,
  pte-entered_ne,
}
use toy_kernel.Vmm.Tables.Map.{Mapped, Mapped-Put}
use toy_kernel.Vmm.Tables.Map.Table.{NewTable, out_of_memory, brought, new_table-NewTable}
use toy_kernel.Vmm.Tables.Map.Entry.{
  Put, Ready, Ready-Brought, filled-Put, is_present_lem, get_page_lem,
}

pub data UserOutcome (s : Vmm) (p v : ℕ) : Bool × Vmm → Type 0 where
  unmapped : UserOutcome s p v (false, s)
  mapped : {t : Vmm} → Mapped s p v t → user_walk t v ≡ true → UserOutcome s p v (true, t)

-- Setting the user flag of a present entry of the directory.
module _ (s : Vmm) (u : IsTables s) (i : ℕ) (hi : i < 1024) (pr : pde s i % 2 ≡ 1) where
  abbrev e : ℕ
  e = set_attribute (pde s i) pte_user

  e-frame : e / 4096 ≡ pde s i / 4096
  e-frame = set_attribute_frame (pde s i) 4 (omega arith)

  e-IsEntry : IsEntry s u.dir i e
  e-IsEntry = record {
    index = hi;
    low = set_attribute-lt 31 (pde s i) 4 (u.pde_low i hi) (omega arith);
    present = omega (arith, set_attribute-present (pde s i) 4, pr);
    page = rw e-frame (u.table_page i hi pr);
    not_dir = rw e-frame (u.table_not_dir i hi pr);
    not_other = λ k h ne pk. rw e-frame (u.distinct k i h hi pk pr ne);
    contents = λ j h. rw e-frame (u.pte_low i j hi h pr);
  }

  abbrev marked : Vmm
  marked = entered s u i e e-IsEntry

  marked-pde : pde marked i ≡ e
  marked-pde = pde-entered_self s u i e e-IsEntry

  marked-keeps : (k j : ℕ) → k < 1024 → j < 1024 → pde s k % 2 ≡ 1 → pte marked k j ≡ pte s k j
  marked-keeps k j hk hj pk = elim (Bool-cases (k == i)) [
    | inl q ↦
        let same : k ≡ i = ground arith in
        rw same (pte-entered_self s u i e e-IsEntry j hj ∙ rw e-frame refl)
    | inr q ↦ pte-entered_ne s u i e e-IsEntry k j hk (ground arith) pk hj
  ]

  marked-Ready : Ready s i marked
  marked-Ready = record {
    tables = entered-IsTables s u i e e-IsEntry;
    present = rw marked-pde e-IsEntry.present;
    others = λ k h ne. pde-entered_ne s u i e e-IsEntry k ne;
    keeps = marked-keeps;
    empty = λ j h absent. absurd (omega (arith, absent, pr));
  }

module _ (s : Vmm) (p v : ℕ) (hv : v < 2 ^ 32) (hp : p < 2 ^ 31) (aligned : p % 4096 ≡ 0) where
  abbrev flags_of : Vmm → ℕ
  flags_of r = user_flags (pte r (pd_of v) (pt_of v))

  map_in_user-Put :
      (r : Vmm)
      → Ready s (pd_of v) r
      → Put s (pd_of v) (pt_of v) (p + flags_of r % 4096) (map_in_user r p v)
        × (pde (map_in_user r p v) (pd_of v) ≡ pde r (pd_of v))
  unfolding map_in_user update32
  map_in_user-Put r rd =
      let low : flags_of r < 2 ^ 31 =
        user_flags-lt (pte r (pd_of v) (pt_of v))
          (rd.tables.pte_low (pd_of v) (pt_of v) (omega arith) (omega arith) rd.present) in
      let at =
        get_page_lem r v
          (read32-lt r.pmm.mem (r.current_page_directory + 4 * pd_of v) rd.tables.valid.bytes) in
      let entry : set_frame (flags_of r) p ≡ p + flags_of r % 4096 =
        set_frame_lem (flags_of r) p low hp aligned in
      rw (at, entry)
        (
          filled-Put s r (pd_of v) (pt_of v) (p + flags_of r % 4096) (omega arith) (omega arith) rd
              (omega arith),
          pde-put r rd.tables (pd_of v) (pt_of v) (p + flags_of r % 4096) (omega arith)
              (omega arith) rd.present (omega arith) (pd_of v) (omega arith),
        )

  map_in_user-mapped :
      (r : Vmm)
      → Ready s (pd_of v) r
      → pde r (pd_of v) / 2 % 4 ≡ 3
      → UserOutcome s p v (true, map_in_user r p v)
  unfolding user_walk
  map_in_user-mapped r rd dir_user =
      let (put, same) = map_in_user-Put r rd in
      let entry = pte r (pd_of v) (pt_of v) in
      mapped
        (Mapped-Put s (map_in_user r p v) p v (flags_of r % 4096) hv aligned (omega arith)
          (omega (arith, user_flags-present entry)) put)
        (let table : pte (map_in_user r p v) (pd_of v) (pt_of v) / 2 % 4 ≡ 3 =
            rw put.here (omega (arith, user_flags-user entry, aligned)) in
          rw (table, same, dir_user))

  -- With the invariant, the bitmap above all frames or in frames marked used, a page-aligned
  -- physical address below 2 GiB, and the directory entry of `v`, where present, writable,
  -- `map_page_user` either changes nothing and returns false, or returns true with the invariant
  -- kept, the page of `v` translated to the page of `p` with ring 3 allowed to read and write it,
  -- and every other address translated as before.
  pub map_page_user-UserOutcome :
      IsTables s
      → (pde s (pd_of v) % 2 ≡ 1 → pde s (pd_of v) / 2 % 2 ≡ 1)
      → UserOutcome s p v (map_page_user s p v)
  unfolding map_page_user map_in_user update32 directory_entry get_page pd_index
  map_page_user-UserOutcome u writable = elim (Bool-cases (is_present s v)) [
    | inl there ↦
        let pr : pde s (pd_of v) % 2 ≡ 1 = let e = is_present_lem s v in ground arith in
        rw there (
          map_in_user-mapped (marked s u (pd_of v) (omega arith) pr)
            (marked-Ready s u (pd_of v) (omega arith) pr)
            (rw (marked-pde s u (pd_of v) (omega arith) pr) (
              omega (
                arith,
                writable pr,
                set_attribute-write (pde s (pd_of v)) 4,
                set_attribute-user (pde s (pd_of v)) 4,
              ))))
    | inr absent ↦
        let absent_flag : pde s (pd_of v) % 2 ≡ 0 = let e = is_present_lem s v in ground arith in
        rw absent (
          go (new_table s v user_flags) absent_flag (
            new_table-NewTable s u v hv user_flags absent_flag
              (user_flags-lt (pde s (pd_of v)) (u.pde_low (pd_of v) (omega arith)))
              (user_flags-present (pde s (pd_of v)))))
  ]
    where
      go :
          (r : Bool × Vmm)
          → pde s (pd_of v) % 2 ≡ 0
          → NewTable s (pd_of v) (user_flags (pde s (pd_of v))) r
          → UserOutcome s p v (if r.0 then (true, map_in_user r.1 p v) else (false, r.1))
      go r absent_flag out_of_memory = unmapped
      go r absent_flag (brought b) =
          map_in_user-mapped _ (Ready-Brought b (user_flags-present (pde s (pd_of v))) absent_flag)
            (omega (arith, b.flags, user_flags-user (pde s (pd_of v))))
