-- ===== src/Vmm/Tables/Map/Entry.antt =====
-- A page table that is ready, the entry put in it, and what the processor finds then.
use toy_kernel.Common.{
  ℕ, ◌+◌, ◌*◌, ◌/◌, ◌%◌, ◌^◌, ◌<◌, ◌≡◌, refl, ◌∙◌, ◌≢◌, ◌⊎◌, inl, inr, none, some, arith, ◌==◌,
  if◌then◌else◌, Bool-cases,
}
use toy_kernel.Vmm.Entry.{pd_index}
use toy_kernel.Vmm.Entry.Laws.{pt_index_lem, page_phys_address_lem}
use toy_kernel.Vmm.Entry.Flags.{test_present}
use toy_kernel.Vmm.Tables.{Vmm, directory_entry, get_page, is_present}
use toy_kernel.Vmm.Tables.Walk.{pde, pte, pd_of, pt_of, walk}
use toy_kernel.Vmm.Tables.Layout.{IsTables, table_of}
use toy_kernel.Vmm.Tables.Change.Entry.{put, put-IsTables, pde-put, pte-put_self, pte-put_ne}
use toy_kernel.Vmm.Tables.Map.Table.{Brought}

-- `t` has the entries of `s`, and a present table at entry `i`.
pub record Ready (s : Vmm) (i : ℕ) (t : Vmm) : Type 0 where
  pub tables : IsTables t
  pub present : pde t i % 2 ≡ 1
  pub others : (k : ℕ) → k < 1024 → k ≢ i → pde t k ≡ pde s k
  pub keeps : (k j : ℕ) → k < 1024 → j < 1024 → pde s k % 2 ≡ 1 → pte t k j ≡ pte s k j
  pub empty : (j : ℕ) → j < 1024 → pde s i % 2 ≡ 0 → pte t i j ≡ 0

pub Ready-Brought :
    {s t : Vmm} {i e : ℕ} → Brought s i e t → e % 2 ≡ 1 → pde s i % 2 ≡ 0 → Ready s i t
Ready-Brought {s} {t} {i} {e} b odd absent = record {
  tables = b.tables;
  present = omega (arith, b.flags, odd);
  others = b.others;
  keeps = λ k j hk hj pr. elim (Bool-cases (k == i)) [
    | inl q ↦
        let same : k ≡ i = ground arith in
        absurd (let clash = rw same at pr in omega (arith, absent, clash))
    | inr q ↦ b.keeps k j hk hj (ground arith) pr
  ];
  empty = λ j h _. b.empty j h;
}

pub Ready-refl : {s : Vmm} {i : ℕ} → IsTables s → pde s i % 2 ≡ 1 → Ready s i s
Ready-refl {s} {i} u pr = record {
  tables = u;
  present = pr;
  others = λ k h ne. refl;
  keeps = λ k j hk hj p. refl;
  empty = λ j h absent. absurd (omega (arith, absent, pr));
}

-- `t` differs from `s` only in entry `j` of table `i`, which is now `e`; the table may be new.
pub record Put (s : Vmm) (i j e : ℕ) (t : Vmm) : Type 0 where
  pub tables : IsTables t
  pub present : pde t i % 2 ≡ 1
  pub here : pte t i j ≡ e
  pub others : (k : ℕ) → k < 1024 → k ≢ i → pde t k ≡ pde s k
  pub keeps :
      (k l : ℕ) → k < 1024 → l < 1024 → pde s k % 2 ≡ 1 → (k ≢ i) ⊎ (l ≢ j) → pte t k l ≡ pte s k l
  pub empty : (l : ℕ) → l < 1024 → l ≢ j → pde s i % 2 ≡ 0 → pte t i l ≡ 0

module _ (s t : Vmm) (i j e : ℕ) (hi : i < 1024) (hj : j < 1024) (r : Ready s i t)
    (low : e < 2 ^ 31) where
  abbrev pub filled : Vmm
  filled = put t r.tables i j e hi hj r.present low

  pub filled-Put : Put s i j e filled
  filled-Put = record {
    tables = put-IsTables t r.tables i j e hi hj r.present low;
    present = rw (pde-put t r.tables i j e hi hj r.present low i hi) r.present;
    here = pte-put_self t r.tables i j e hi hj r.present low;
    others = λ k h ne. pde-put t r.tables i j e hi hj r.present low k h ∙ r.others k h ne;
    keeps = λ k l hk hl pr ne.
        pte-put_ne t r.tables i j e hi hj r.present low k l hk hl (still k hk pr) ne
        ∙ r.keeps k l hk hl pr;
    empty = λ l h ne absent.
        pte-put_ne t r.tables i j e hi hj r.present low i l hi h r.present (inr ne)
        ∙ r.empty l h absent;
  }
    where
      still : (k : ℕ) → k < 1024 → pde s k % 2 ≡ 1 → pde t k % 2 ≡ 1
      still k h pr = elim (Bool-cases (k == i)) [
        | inl q ↦ let same : k ≡ i = ground arith in rw same r.present
        | inr q ↦ rw (r.others k h (ground arith)) pr
      ]

-- After the entry for the page of `v` is put, an address of that page goes where the entry says,
-- and every other address goes where it went before.
pub walk-Put :
    (s t : Vmm) (v e w : ℕ)
    → v < 2 ^ 32
    → w < 2 ^ 32
    → Put s (pd_of v) (pt_of v) e t
    → walk t w ≡ (
        if w / 4096 == v / 4096
        then if e % 2 == 1 then some (e / 4096 * 4096 + w % 4096) else none
        else walk s w)
unfolding walk
walk-Put s t v e w hv hw p = elim (Bool-cases (w / 4096 == v / 4096)) [
  | inl same ↦
      let page : w / 4096 ≡ v / 4096 = ground arith in
      let a : pd_of w ≡ pd_of v = omega arith in
      let b : pt_of w ≡ pt_of v = omega arith in rw (a, b, p.here, p.present, same)
  | inr other ↦ elim (Bool-cases (pd_of w == pd_of v)) [
    | inl table ↦
        let a : pd_of w ≡ pd_of v = ground arith in
        let b : pt_of w ≢ pt_of v = ground arith in
        elim (Bool-cases (pde s (pd_of v) % 2 == 1)) [
          | inl there ↦
              let k =
                p.keeps (pd_of v) (pt_of w) (omega arith) (omega arith) (ground arith) (inr b) in
              rw (a, p.present, k, there, other)
          | inr absent ↦
              let k = p.empty (pt_of w) (omega arith) b (ground arith) in
              rw (a, p.present, k, absent, other)
        ]
    | inr far ↦
        let a : pd_of w ≢ pd_of v = ground arith in
        let d = p.others (pd_of w) (omega arith) a in
        elim (Bool-cases (pde s (pd_of w) % 2 == 1)) [
          | inl there ↦
              let k =
                p.keeps (pd_of w) (pt_of w) (omega arith) (omega arith) (ground arith) (inl a) in
              rw (k, d, other)
          | inr absent ↦ rw (d, absent, other)
        ]
  ]
]

-- What the code reads is the entry of the tables.
pub is_present_lem : (s : Vmm) (v : ℕ) → is_present s v ≡ (pde s (pd_of v) % 2 == 1)
unfolding is_present directory_entry pd_index
is_present_lem s v = rw (test_present (pde s (pd_of v)))

pub get_page_lem :
    (s : Vmm) (v : ℕ)
    → pde s (pd_of v) < 2 ^ 32
    → get_page s v ≡ table_of s (pd_of v) * 4096 + 4 * pt_of v
unfolding get_page directory_entry pd_index
get_page_lem s v h = rw (page_phys_address_lem (pde s (pd_of v)) h, pt_index_lem v)
