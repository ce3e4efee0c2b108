-- ===== src/Pmm/Init/Grow.antt =====
-- Reservations only ever mark frames used.
use toy_kernel.Common.{
  ℕ, zero, suc, ◌+◌, ◌/◌, ◌^◌, ◌≤◌, ◌<◌, ◌≡◌, refl, ◌∙◌, inl, inr, true, false, List, [], ◌∷◌,
  arith, leb, if◌then◌else◌, Bool-cases, u32,
}
use toy_kernel.Memory.{IsBytes}
use toy_kernel.Boot.{BootModule}
use toy_kernel.Pmm.State.{Pmm, used, set_bit}
use toy_kernel.Pmm.Alloc.{pages_of, take_frame, reserve_loop, reserve_memory_block}
use toy_kernel.Pmm.Alloc.Mark.{Marked, within, reserve_loop-Marked}
use toy_kernel.Pmm.Init.{reserve_modules}

-- `t` has every mark of `s`, and the bitmap of `t` is where that of `s` is.
pub record Grown (s t : Pmm) : Type 0 where
  pub bytes : IsBytes t.mem
  pub same_map : t.bit_map ≡ s.bit_map
  pub same_blocks : t.total_block ≡ s.total_block
  pub keeps : (g : ℕ) → used s g ≡ true → used t g ≡ true

pub Grown-refl : (s : Pmm) → IsBytes s.mem → Grown s s
Grown-refl s h = record { bytes = h; same_map = refl; same_blocks = refl; keeps = λ g u. u }

pub Grown-trans : {s t u : Pmm} → Grown s t → Grown t u → Grown s u
Grown-trans a b = record {
  bytes = b.bytes;
  same_map = b.same_map ∙ a.same_map;
  same_blocks = b.same_blocks ∙ a.same_blocks;
  keeps = λ g u. b.keeps g (a.keeps g u);
}

Grown-of-Marked : {s t : Pmm} {f n : ℕ} → Marked true s f n t → Grown s t
Grown-of-Marked m = record {
  bytes = m.bytes;
  same_map = m.same_map;
  same_blocks = m.same_blocks;
  keeps = λ g u. ground (arith, m.marks g);
}

-- With the guard open, `reserve_memory_block` marks every page from that of `base` on.
pub reserve_memory_block-Marked :
    (s : Pmm) (base size : ℕ)
    → IsBytes s.mem
    → base < 2 ^ 32
    → s.total_used_blocks < s.total_block
    → Marked true s (base / 4096) (pages_of size) (reserve_memory_block s base size)
unfolding reserve_memory_block
reserve_memory_block-Marked s base size h small room =
    let open_guard : leb s.total_block s.total_used_blocks ≡ false = ground arith in
    rw open_guard (
      reserve_loop-Marked (pages_of size) 0 s (base / 4096) (base / 4096) h (omega arith)
        (omega arith))

pub reserve_memory_block-Grown :
    (s : Pmm) (base size : ℕ)
    → IsBytes s.mem
    → base < 2 ^ 32
    → Grown s (reserve_memory_block s base size)
reserve_memory_block-Grown s base size h small =
    elim (Bool-cases (leb s.total_block s.total_used_blocks)) [
      | inl closed ↦ unfold reserve_memory_block in rw closed (Grown-refl s h)
      | inr room ↦ Grown-of-Marked (reserve_memory_block-Marked s base size h small (ground arith))
    ]

used-reserve_memory_block :
    (s : Pmm) (base size c : ℕ)
    → IsBytes s.mem
    → base < 2 ^ 32
    → within (base / 4096) (pages_of size) c ≡ false
    → used (reserve_memory_block s base size) c ≡ used s c
used-reserve_memory_block s base size c h small apart =
    elim (Bool-cases (leb s.total_block s.total_used_blocks)) [
      | inl closed ↦ unfold reserve_memory_block in rw closed refl
      | inr room ↦
          let marked = reserve_memory_block-Marked s base size h small (ground arith) in
          marked.marks c ∙ rw apart refl
    ]

abbrev pub All {ℓ} : {A : Type ℓ} → (A → Type 0) → List A → Type 0
All P [] = Unit
All P (x ∷ xs) = P x × All P xs

pub reserve_modules-Grown :
    (s : Pmm) (ms : List BootModule)
    → IsBytes s.mem
    → All (λ m. m.base < 2 ^ 32) ms
    → Grown s (reserve_modules s ms)
unfolding reserve_modules
reserve_modules-Grown s [] h small = Grown-refl s h
reserve_modules-Grown s (m ∷ ms) h small =
    let first = reserve_memory_block-Grown s m.base m.size h small.0 in
    Grown-trans first
      (reserve_modules-Grown (reserve_memory_block s m.base m.size) ms first.bytes small.1)

-- A frame outside the modules keeps its mark.
pub used-reserve_modules :
    (s : Pmm) (ms : List BootModule) (c : ℕ)
    → IsBytes s.mem
    → All (λ m. m.base < 2 ^ 32) ms
    → All (λ m. within (m.base / 4096) (pages_of m.size) c ≡ false) ms
    → used (reserve_modules s ms) c ≡ used s c
unfolding reserve_modules
used-reserve_modules s [] c h small apart = refl
used-reserve_modules s (m ∷ ms) c h small apart =
    let first = reserve_memory_block-Grown s m.base m.size h small.0 in
    used-reserve_modules (reserve_memory_block s m.base m.size) ms c first.bytes small.1 apart.1
    ∙ used-reserve_memory_block s m.base m.size c h small.0 apart.0

count-reserve_loop :
    (left i : ℕ) (s : Pmm) (f : ℕ)
    → s.total_used_blocks + left < 2 ^ 32
    → (reserve_loop s f left i).total_used_blocks ≤ s.total_used_blocks + left
unfolding reserve_loop
count-reserve_loop zero i s f h = omega arith
count-reserve_loop (suc left) i s f h =
    let page = u32 (f + i) in
    let next = if used s page then s else take_frame s page in
    let step : next.total_used_blocks ≤ s.total_used_blocks + 1 =
      unfold take_frame in ground arith in
    omega (arith, step, count-reserve_loop left (i + 1) next f (omega arith))

-- A reservation raises the counter by at most the number of its pages.
pub count-reserve_memory_block :
    (s : Pmm) (base size : ℕ)
    → s.total_used_blocks + pages_of size < 2 ^ 32
    → (reserve_memory_block s base size).total_used_blocks ≤ s.total_used_blocks + pages_of size
unfolding reserve_memory_block
count-reserve_memory_block s base size h =
    ground (arith, count-reserve_loop (pages_of size) 0 s (base / 4096) h)

-- What a reservation leaves alone.
pub record SameSizes (s t : Pmm) : Type 0 where
  pub same_start : t.kernel_start_addr ≡ s.kernel_start_addr
  pub same_end : t.kernel_end_addr ≡ s.kernel_end_addr
  pub same_size : t.bitmap_sizeb ≡ s.bitmap_sizeb

SameSizes-reserve_loop : (left i : ℕ) (s : Pmm) (f : ℕ) → SameSizes s (reserve_loop s f left i)
unfolding reserve_loop
SameSizes-reserve_loop zero i s f = record { same_start = refl; same_end = refl; same_size = refl }
SameSizes-reserve_loop (suc left) i s f =
    let page = u32 (f + i) in
    let next = if used s page then s else take_frame s page in
    let rest = SameSizes-reserve_loop left (i + 1) next f in
    record {
      same_start = rest.same_start ∙ (unfold take_frame set_bit in ground arith);
      same_end = rest.same_end ∙ (unfold take_frame set_bit in ground arith);
      same_size = rest.same_size ∙ (unfold take_frame set_bit in ground arith);
    }

pub SameSizes-reserve_memory_block :
    (s : Pmm) (base size : ℕ) → SameSizes s (reserve_memory_block s base size)
unfolding reserve_memory_block
SameSizes-reserve_memory_block s base size =
    let loop = SameSizes-reserve_loop (pages_of size) 0 s (base / 4096) in
    record {
      same_start = ground (arith, loop.same_start);
      same_end = ground (arith, loop.same_end);
      same_size = ground (arith, loop.same_size);
    }
