-- ===== src/Vmm/Setup/Fill.antt =====
-- The contents of a page table after the loop that fills it.
use toy_kernel.Common.{
  ℕ, zero, suc, ◌+◌, ◌*◌, ◌/◌, ◌%◌, ◌^◌, ◌≤◌, ◌<◌, ◌≡◌, refl, sym, ap, ◌∙◌, ◌⊎◌, inl, inr, ◌&&◌,
  arith, ltb, leb, ◌==◌, if◌then◌else◌, Bool-cases, u32,
}
use mathlib.Core.Path.{ap₂, subst}
use toy_kernel.Memory.{Mem, IsBytes, read32, write32}
use toy_kernel.Memory.Words.{
  read32-write32_self, write32_nil, write32_outside, read32-write32_ne, write32-IsBytes,
}
use toy_kernel.Vmm.Entry.{set_frame, set_attribute}
use toy_kernel.Vmm.Entry.Laws.{pt_index_lem, set_frame_lem}
use toy_kernel.Vmm.Entry.Flags.{kernel_flags}
use toy_kernel.Vmm.Setup.{table_loop, clear_loop}

page_lem :
    (frame : ℕ) → frame < 2 ^ 31 → frame % 4096 ≡ 0 → set_frame (kernel_flags 0) frame ≡ frame + 3
unfolding set_attribute
page_lem frame h aligned = set_frame_lem 3 frame (omega arith) h aligned

-- A table that is filled for the addresses from `base` on with the frames from `first` on.
module _ (table first base : ℕ) (aligned : first % 4096 ≡ 0) (start : base % 2 ^ 22 ≡ 0)
    (first_low : first + 2 ^ 22 < 2 ^ 31) (base_low : base + 2 ^ 22 < 2 ^ 32) where
  abbrev fill : Mem → (left j : ℕ) → Mem
  fill m left j = table_loop m table left (first + j * 4096) (base + j * 4096)

  abbrev pub entry : ℕ → ℕ
  entry j = first + j * 4096 + 3

  step :
      (m : Mem) (left j : ℕ)
      → j < 1024
      → fill m (suc left) j ≡ fill (write32 m (table + 4 * j) (entry j)) left (j + 1)
  unfolding table_loop
  step m left j h =
      let index : (base + j * 4096) / 4096 % 1024 ≡ j = omega (arith, start) in
      let f : u32 (first + j * 4096 + 4096) ≡ first + (j + 1) * 4096 = omega arith in
      let v : u32 (base + j * 4096 + 4096) ≡ base + (j + 1) * 4096 = omega arith in
      rw (
        pt_index_lem (base + j * 4096),
        index,
        page_lem (first + j * 4096) (omega arith) (omega arith),
        f,
        v,
      )

  read-fill :
      (left j : ℕ) (m : Mem) (k : ℕ)
      → j + left ≤ 1024
      → read32 (fill m left j) (table + 4 * k)
        ≡ (if leb j k && ltb k (j + left) then entry k else read32 m (table + 4 * k))
  unfolding table_loop
  read-fill zero j m k h = ground arith
  read-fill (suc left) j m k h =
      let m' = write32 m (table + 4 * j) (entry j) in
      let rest = read-fill left (j + 1) m' k (omega arith) in
      rw (step m left j (omega arith)) (
        rest ∙ elim (Bool-cases (k == j)) [
          | inl e ↦
              let q : k ≡ j = ground arith in
              let self = read32-write32_self m (table + 4 * j) (entry j) (omega arith) in
              rw (q, self) (ground arith)
          | inr e ↦
              let other =
                read32-write32_ne m (table + 4 * j) (entry j) (table + 4 * k) (ground arith) in
              rw other (ground arith)
        ])

  fill_outside :
      (left j : ℕ) (m : Mem) (a : ℕ)
      → j + left ≤ 1024
      → (a < table) ⊎ (table + 4096 ≤ a)
      → fill m left j a ≡ m a
  unfolding table_loop
  fill_outside zero j m a h o = refl
  fill_outside (suc left) j m a h o =
      ap (λ n. n a) (step m left j (omega arith))
      ∙ fill_outside left (j + 1) (write32 m (table + 4 * j) (entry j)) a (omega arith) o
      ∙ write32_outside m (table + 4 * j) (entry j) a (omega arith)

  fill-IsBytes : (left j : ℕ) (m : Mem) → j + left ≤ 1024 → IsBytes m → IsBytes (fill m left j)
  unfolding table_loop
  fill-IsBytes zero j m h b = b
  fill-IsBytes (suc left) j m h b = rw (step m left j (omega arith)) (
      fill-IsBytes left (j + 1) (write32 m (table + 4 * j) (entry j)) (omega arith)
        (write32-IsBytes m (table + 4 * j) (entry j) b))

  -- The whole loop, from the first entry on.
  fill-first : (m : Mem) → fill m 1024 0 ≡ table_loop m table 1024 first base
  fill-first m =
      ap₂ (λ f v. table_loop m table 1024 f v) (let e : first + 0 * 4096 ≡ first = omega arith in e)
        (let e : base + 0 * 4096 ≡ base = omega arith in e)

  pub read-table_loop :
      (m : Mem) (k : ℕ)
      → k < 1024
      → read32 (table_loop m table 1024 first base) (table + 4 * k) ≡ entry k
  read-table_loop m k h =
      ap (λ n. read32 n (table + 4 * k)) (sym (fill-first m))
      ∙ read-fill 1024 0 m k (omega arith)
      ∙ ground arith

  pub table_loop_outside :
      (m : Mem) (a : ℕ)
      → (a < table) ⊎ (table + 4096 ≤ a)
      → table_loop m table 1024 first base a ≡ m a
  table_loop_outside m a o =
      ap (λ n. n a) (sym (fill-first m)) ∙ fill_outside 1024 0 m a (omega arith) o

  pub table_loop-IsBytes : (m : Mem) → IsBytes m → IsBytes (table_loop m table 1024 first base)
  table_loop-IsBytes m h = subst IsBytes (fill-first m) (fill-IsBytes 1024 0 m (omega arith) h)

-- Writing zeros over a page that is zero changes nothing.
pub clear_loop_lem :
    (left i : ℕ) (m : Mem) (directory : ℕ)
    → i + left ≤ 1024
    → ((a : ℕ) → directory ≤ a → a < directory + 4096 → m a ≡ 0)
    → (a : ℕ) → clear_loop m directory left i a ≡ m a
unfolding clear_loop
clear_loop_lem zero i m directory h z a = refl
clear_loop_lem (suc left) i m directory h z a =
    clear_loop_lem left (i + 1) (write32 m (directory + 4 * i) 0) directory (omega arith)
      (λ b l r. same b ∙ z b l r) a
    ∙ same a
  where
    same : (b : ℕ) → write32 m (directory + 4 * i) 0 b ≡ m b
    same b = elim (Bool-cases (leb (directory + 4 * i) b && ltb b (directory + 4 * i + 4))) [
      | inl e ↦
          write32_nil m (directory + 4 * i) b (ground arith) (ground arith)
          ∙ sym (z b (ground arith) (ground arith))
      | inr e ↦ write32_outside m (directory + 4 * i) 0 b (ground arith)
    ]
