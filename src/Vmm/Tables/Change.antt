-- ===== src/Vmm/Tables/Change.antt =====
-- What one change of memory does to the tables: an allocation, a write in a page that is not a
-- table, a new entry of the directory, and a new entry of a table.
pub mod Page
pub mod Entry
use toy_kernel.Common.{
  ℕ, zero, suc, ◌+◌, ◌-◌, ◌*◌, ◌/◌, ◌%◌, ◌^◌, ◌≤◌, ◌<◌, min, max, bit_and, bit_or, ◌≡◌, refl, sym,
  ap, ◌∙◌, ◌≢◌, ◌↔◌, ◌⊎◌, inl, inr, Bool, true, false, not, ◌&&◌, ◌||◌, Option, none, some, List,
  [], ◌∷◌, ◌++◌, map, arith, ltb, leb, ◌==◌, ◌!=◌, if◌then◌else◌, ltb→lt, leb→le, ==_iff,
  Bool-cases, Option-cases, u8, u16, u32, sub32, ◌<<<◌, ◌>>>◌, length, get_elem?, get_or, set, drop,
  take, replicate, length-append, length-set, get_elem?-set_self, get_elem?-set_ne,
}
use toy_kernel.Memory.{Mem, IsBytes, read32, write32}
use toy_kernel.Memory.Words.{
  read32-write32_self, write32_outside, read32-write32_ne, read32_congr, write32-IsBytes,
}
use toy_kernel.Pmm.State.{Pmm, used}
use toy_kernel.Pmm.Alloc.Valid.{IsValid, frames, used_congr}
use toy_kernel.Pmm.Alloc.Block.{Allocated}
use toy_kernel.Vmm.Tables.{Vmm, with_mem}
use toy_kernel.Vmm.Tables.Walk.{pde, pte}
use toy_kernel.Vmm.Tables.Layout.{IsPage, IsTables, table_of}

-- Memory that is written only in the page `n`.
abbrev pub SameBut : Mem → Mem → ℕ → Type 0
SameBut m m' n = (a : ℕ) → (a < n * 4096) ⊎ (n * 4096 + 4096 ≤ a) → m' a ≡ m a

pub with_mem-IsValid :
    (p : Pmm) (m : Mem) (n : ℕ)
    → IsValid p
    → IsPage p n
    → IsBytes m
    → SameBut p.mem m n
    → IsValid (record p { mem = m })
      × ((c : ℕ) → c < frames p → used (record p { mem = m }) c ≡ used p c)
with_mem-IsValid p m n v page bytes same =
    let keeps : (c : ℕ) → c < frames p → used (record p { mem = m }) c ≡ used p c = λ c h.
      used_congr p (record p { mem = m }) c refl h (λ a l r. same a (omega (arith, page.apart))) in
    (
      record {
        bytes = bytes;
        small = v.small;
        nonempty = v.nonempty;
        in_space = v.in_space;
        owned = λ a l h f. keeps (a / 4096) f ∙ v.owned a l h f;
      },
      keeps,
    )

-- A page stays a page where the bitmap keeps its marks.
pub keep-IsPage :
    (p q : Pmm) (n : ℕ)
    → q.bit_map ≡ p.bit_map
    → q.total_block ≡ p.total_block
    → (used p n ≡ true → used q n ≡ true)
    → IsPage p n
    → IsPage q n
keep-IsPage p q n eb et keeps page = record {
  in_frames = omega (arith, page.in_frames, et);
  in_use = keeps page.in_use;
  apart = rw (eb, et) page.apart;
}

-- Entries of the directory and of a table, where the pages that hold them are unchanged.
module _ (s t : Vmm) (sd : t.current_page_directory ≡ s.current_page_directory) where
  pub same-pde :
      (i : ℕ)
      → ((a : ℕ)
          → s.current_page_directory + 4 * i ≤ a
          → a < s.current_page_directory + 4 * i + 4
          → t.pmm.mem a ≡ s.pmm.mem a)
      → pde t i ≡ pde s i
  same-pde i h = rw sd (read32_congr t.pmm.mem s.pmm.mem (s.current_page_directory + 4 * i) h)

  pub same-pte :
      (i j : ℕ)
      → pde t i ≡ pde s i
      → ((a : ℕ)
          → table_of s i * 4096 + 4 * j ≤ a
          → a < table_of s i * 4096 + 4 * j + 4
          → t.pmm.mem a ≡ s.pmm.mem a)
      → pte t i j ≡ pte s i j
  same-pte i j e h = rw e (read32_congr t.pmm.mem s.pmm.mem (table_of s i * 4096 + 4 * j) h)

  -- With the directory unchanged the tables keep their layout.
  pub same-IsTables :
      (u : IsTables s)
      → IsValid t.pmm
      → t.pmm.bit_map ≡ s.pmm.bit_map
      → t.pmm.total_block ≡ s.pmm.total_block
      → ((c : ℕ) → c < frames s.pmm → used s.pmm c ≡ true → used t.pmm c ≡ true)
      → ((i : ℕ) → i < 1024 → pde t i ≡ pde s i)
      → ((i j : ℕ) → i < 1024 → j < 1024 → pde s i % 2 ≡ 1 → pte t i j < 2 ^ 31)
      → IsTables t
  same-IsTables u v eb et keeps dirs ptes = record {
    valid = v;
    low = omega (arith, u.low, et);
    null_used = keeps 0 (omega (arith, u.valid.nonempty)) u.null_used;
    dir = u.dir;
    at_dir = sd ∙ u.at_dir;
    dir_page = keep-IsPage s.pmm t.pmm u.dir eb et (keeps u.dir u.dir_page.in_frames) u.dir_page;
    table_page = λ i h pr.
        let page = u.table_page i h (rw (dirs i h) at pr) in
        rw (dirs i h)
          (keep-IsPage s.pmm t.pmm (table_of s i) eb et (keeps (table_of s i) page.in_frames) page);
    table_not_dir = λ i h pr. rw (dirs i h) (u.table_not_dir i h (rw (dirs i h) at pr));
    distinct = λ i j hi hj pi pj ne.
        rw (dirs i hi, dirs j hj)
          (u.distinct i j hi hj (rw (dirs i hi) at pi) (rw (dirs j hj) at pj) ne);
    pde_low = λ i h. rw (dirs i h) (u.pde_low i h);
    pte_low = λ i j hi hj pr. ptes i j hi hj (rw (dirs i hi) at pr);
  }
