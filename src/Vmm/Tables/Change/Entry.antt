-- ===== src/Vmm/Tables/Change/Entry.antt =====
-- A new entry of the directory, and a new entry of a table.
use toy_kernel.Common.{
  ℕ, ◌+◌, ◌*◌, ◌/◌, ◌%◌, ◌^◌, ◌<◌, ◌≡◌, refl, sym, ◌∙◌, ◌≢◌, ◌⊎◌, inl, inr, ◌&&◌, arith, ◌==◌,
  Bool-cases,
}
use toy_kernel.Memory.{read32, write32}
use toy_kernel.Memory.Words.{
  read32-write32_self, write32_outside, read32-write32_ne, read32_congr, write32-IsBytes,
}
use toy_kernel.Pmm.State.{used}
use toy_kernel.Pmm.Alloc.Valid.{IsValid, frames}
use toy_kernel.Vmm.Tables.{Vmm, with_mem}
use toy_kernel.Vmm.Tables.Walk.{pde, pte}
use toy_kernel.Vmm.Tables.Layout.{IsPage, IsTables, table_of}
use toy_kernel.Vmm.Tables.Change.{SameBut, with_mem-IsValid, keep-IsPage, same-pde, same-IsTables}

-- A value that may be put in entry `i` of the directory.
pub record IsEntry (s : Vmm) (dir i v : ℕ) : Type 0 where
  pub index : i < 1024
  pub low : v < 2 ^ 31
  pub present : v % 2 ≡ 1
  pub page : IsPage s.pmm (v / 4096)
  pub not_dir : v / 4096 ≢ dir
  pub not_other : (k : ℕ) → k < 1024 → k ≢ i → pde s k % 2 ≡ 1 → table_of s k ≢ v / 4096
  pub contents : (j : ℕ) → j < 1024 → read32 s.pmm.mem (v / 4096 * 4096 + 4 * j) < 2 ^ 31

module _ (s : Vmm) (u : IsTables s) (i v : ℕ) (en : IsEntry s u.dir i v) where
  abbrev pub entered : Vmm
  entered = with_mem s (write32 s.pmm.mem (s.current_page_directory + 4 * i) v)

  same : SameBut s.pmm.mem entered.pmm.mem u.dir
  same a h =
      write32_outside s.pmm.mem (s.current_page_directory + 4 * i) v a
        (omega (arith, u.at_dir, en.index))

  keeps : IsValid entered.pmm × ((c : ℕ) → c < frames s.pmm → used entered.pmm c ≡ used s.pmm c)
  keeps =
      with_mem-IsValid s.pmm entered.pmm.mem u.dir u.valid u.dir_page
        (write32-IsBytes s.pmm.mem (s.current_page_directory + 4 * i) v u.valid.bytes) same

  pub pde-entered_self : pde entered i ≡ v
  pde-entered_self =
      read32-write32_self s.pmm.mem (s.current_page_directory + 4 * i) v (omega (arith, en.low))

  pub pde-entered_ne : (k : ℕ) → k ≢ i → pde entered k ≡ pde s k
  pde-entered_ne k ne =
      read32-write32_ne s.pmm.mem (s.current_page_directory + 4 * i) v
        (s.current_page_directory + 4 * k) (omega arith)

  elsewhere :
      (n j : ℕ)
      → n ≢ u.dir
      → j < 1024
      → read32 entered.pmm.mem (n * 4096 + 4 * j) ≡ read32 s.pmm.mem (n * 4096 + 4 * j)
  elsewhere n j ne h =
      read32_congr entered.pmm.mem s.pmm.mem (n * 4096 + 4 * j) (λ b l r. same b (omega arith))

  pub pte-entered_self :
      (j : ℕ) → j < 1024 → pte entered i j ≡ read32 s.pmm.mem (v / 4096 * 4096 + 4 * j)
  pte-entered_self j h = rw pde-entered_self (elsewhere (v / 4096) j en.not_dir h)

  pub pte-entered_ne :
      (k j : ℕ) → k < 1024 → k ≢ i → pde s k % 2 ≡ 1 → j < 1024 → pte entered k j ≡ pte s k j
  pte-entered_ne k j hk ne pr hj =
      rw (pde-entered_ne k ne) (elsewhere (table_of s k) j (u.table_not_dir k hk pr) hj)

  at-IsPage : (n : ℕ) → IsPage s.pmm n → IsPage entered.pmm n
  at-IsPage n page =
      keep-IsPage s.pmm entered.pmm n refl refl (λ e. keeps.1 n page.in_frames ∙ e) page

  -- The table that a present entry names after the change.
  cases :
      (P : ℕ → ℕ → Type 0)
      → P i v
      → ((k : ℕ) → k < 1024 → k ≢ i → pde s k % 2 ≡ 1 → P k (pde s k))
      → (k : ℕ) → k < 1024
      → pde entered k % 2 ≡ 1
      → P k (pde entered k)
  cases P self other k h pr = elim (Bool-cases (k == i)) [
    | inl e ↦ let q : k ≡ i = ground arith in rw (q, pde-entered_self) self
    | inr e ↦
        let q : k ≢ i = ground arith in
        rw (pde-entered_ne k q) (other k h q (rw (pde-entered_ne k q) at pr))
  ]

  pub entered-IsTables : IsTables entered
  entered-IsTables = record {
    valid = keeps.0;
    low = u.low;
    null_used = keeps.1 0 (omega (arith, u.valid.nonempty)) ∙ u.null_used;
    dir = u.dir;
    at_dir = u.at_dir;
    dir_page = at-IsPage u.dir u.dir_page;
    table_page =
        cases (λ k e. IsPage entered.pmm (e / 4096)) (at-IsPage (v / 4096) en.page)
          (λ k h ne pr. at-IsPage (table_of s k) (u.table_page k h pr));
    table_not_dir =
        cases (λ k e. e / 4096 ≢ u.dir) en.not_dir (λ k h ne pr. u.table_not_dir k h pr);
    distinct = λ k l hk hl pk pl ne.
        cases (λ k e. k ≢ l → e / 4096 ≢ table_of entered l)
          (cases (λ l e. i ≢ l → v / 4096 ≢ e / 4096) (λ d. absurd (d refl))
            (λ l h nl pr d q. en.not_other l h nl pr (sym q)) l hl pl)
          (λ k h nk pr.
            cases (λ l e. k ≢ l → table_of s k ≢ e / 4096) (λ d. en.not_other k h nk pr)
              (λ l h' nl pr' d. u.distinct k l h h' pr pr' d) l hl pl)
          k hk pk ne;
    pde_low = λ k h. elim (Bool-cases (k == i)) [
      | inl e ↦ let q : k ≡ i = ground arith in rw (q, pde-entered_self) en.low
      | inr e ↦ rw (pde-entered_ne k (ground arith)) (u.pde_low k h)
    ];
    pte_low = λ k j hk hj pr.
        cases (λ k e. read32 entered.pmm.mem (e / 4096 * 4096 + 4 * j) < 2 ^ 31)
          (rw (elsewhere (v / 4096) j en.not_dir hj) (en.contents j hj))
          (λ k h ne pr'.
            rw (elsewhere (table_of s k) j (u.table_not_dir k h pr') hj) (u.pte_low k j h hj pr'))
          k hk pr;
  }

-- A new entry `j` of the table that entry `i` of the directory names.
module _ (s : Vmm) (u : IsTables s) (i j v : ℕ) (hi : i < 1024) (hj : j < 1024)
    (pr : pde s i % 2 ≡ 1) (low : v < 2 ^ 31) where
  abbrev pub put : Vmm
  put = with_mem s (write32 s.pmm.mem (table_of s i * 4096 + 4 * j) v)

  put-same : SameBut s.pmm.mem put.pmm.mem (table_of s i)
  put-same a h = write32_outside s.pmm.mem (table_of s i * 4096 + 4 * j) v a (omega arith)

  put-keeps : IsValid put.pmm × ((c : ℕ) → c < frames s.pmm → used put.pmm c ≡ used s.pmm c)
  put-keeps =
      with_mem-IsValid s.pmm put.pmm.mem (table_of s i) u.valid (u.table_page i hi pr)
        (write32-IsBytes s.pmm.mem (table_of s i * 4096 + 4 * j) v u.valid.bytes) put-same

  pub pde-put : (k : ℕ) → k < 1024 → pde put k ≡ pde s k
  pde-put k h =
      same-pde s put refl k
        (λ a l r. put-same a (let ne = u.table_not_dir i hi pr in omega (arith, u.at_dir)))

  pub pte-put_self : pte put i j ≡ v
  pte-put_self =
      rw (pde-put i hi)
        (read32-write32_self s.pmm.mem (table_of s i * 4096 + 4 * j) v (omega (arith, low)))

  pub pte-put_ne :
      (k l : ℕ)
      → k < 1024
      → l < 1024
      → pde s k % 2 ≡ 1
      → (k ≢ i) ⊎ (l ≢ j)
      → pte put k l ≡ pte s k l
  pte-put_ne k l hk hl pk ne = rw (pde-put k hk) (
      read32-write32_ne s.pmm.mem (table_of s i * 4096 + 4 * j) v (table_of s k * 4096 + 4 * l)
        (elim (Bool-cases (k == i)) [
          | inl e ↦
              let q : k ≡ i = ground arith in
              let d : l ≢ j = elim ne [ inl x ↦ absurd (x q) | inr x ↦ x ] in rw q (omega arith)
          | inr e ↦ let d = u.distinct k i hk hi pk pr (ground arith) in omega arith
        ]))

  pub put-IsTables : IsTables put
  put-IsTables =
      same-IsTables s put refl u put-keeps.0 refl refl (λ c h e. put-keeps.1 c h ∙ e) pde-put
        (λ k l hk hl pk. elim (Bool-cases ((k == i) && (l == j))) [
          | inl e ↦
              let a : k ≡ i = ground arith in
              let b : l ≡ j = ground arith in rw (a, b, pte-put_self) low
          | inr e ↦ rw (pte-put_ne k l hk hl pk (ground arith)) (u.pte_low k l hk hl pk)
        ])
