-- ===== src/Pmm/Alloc/Block.antt =====
-- `allocate_block`: what it hands out, what it leaves alone, and when it fails.
use toy_kernel.Common.{
  ℕ, ◌+◌, ◌*◌, ◌/◌, ◌^◌, ◌≤◌, ◌<◌, max, ◌≡◌, refl, ◌∙◌, ◌⊎◌, inl, inr, true, false, none, some,
  arith, ltb, leb, ◌==◌, if◌then◌else◌, Bool-cases, u32,
}
use toy_kernel.Memory.Fill.{memset_inside, memset_outside}
use toy_kernel.Pmm.State.{Pmm, invalid_frame, used}
use toy_kernel.Pmm.Search.{get_free_frame_by_size}
use toy_kernel.Pmm.Search.Free.{IsFirst, found, none_before-of-missing}
use toy_kernel.Pmm.Search.FirstFit.{fits, free-of-fits, get_free_frame_by_size-IsFirst}
use toy_kernel.Pmm.Alloc.{clear_memory, mark_loop, allocate_block}
use toy_kernel.Pmm.Alloc.Mark.{Marked, within, mark_loop-Marked, count-mark_loop}
use toy_kernel.Pmm.Alloc.Valid.{
  IsValid, frames, Marked-IsValid, used-clear_memory, clear_memory-IsValid,
}

-- `t` comes from `s` by handing out the `size` frames at address `addr`.
pub record Allocated (s : Pmm) (size addr : ℕ) (t : Pmm) : Type 0 where
  pub frame : ℕ
  pub addr_of_frame : addr ≡ frame * 4096
  pub fit : frame + size ≤ frames s
  pub was_free : (c : ℕ) → frame ≤ c → c < frame + size → used s c ≡ false
  pub marks : (c : ℕ) → c < frames s → used t c ≡ (if within frame size c then true else used s c)
  pub count : t.total_used_blocks ≡ s.total_used_blocks + size
  pub zeroed : (a : ℕ) → addr ≤ a → a < addr + size * 4096 → t.mem a ≡ 0
  pub elsewhere :
      (a : ℕ)
      → (a < s.bit_map) ⊎ (s.bit_map + 4 * s.total_block ≤ a)
      → (a < addr) ⊎ (addr + size * 4096 ≤ a)
      → t.mem a ≡ s.mem a
  pub same_map : t.bit_map ≡ s.bit_map
  pub same_blocks : t.total_block ≡ s.total_block
  pub valid : IsValid t

-- A run of free frames does not meet the bitmap.
pub run_apart :
    (s : Pmm) (f n : ℕ)
    → IsValid s
    → 0 < n
    → f + n ≤ frames s
    → ((c : ℕ) → f ≤ c → c < f + n → used s c ≡ false)
    → (f * 4096 + n * 4096 ≤ s.bit_map) ⊎ (s.bit_map + 4 * s.total_block ≤ f * 4096)
run_apart s f n v pos fit run = elim (Bool-cases (leb (f * 4096 + n * 4096) s.bit_map)) [
  | inl above ↦ inl (ground arith)
  | inr meets ↦ elim (Bool-cases (leb (s.bit_map + 4 * s.total_block) (f * 4096))) [
    | inl below ↦ inr (ground arith)
    | inr meets' ↦
        let common = max s.bit_map (f * 4096) in ground (arith, v.owned common, run (common / 4096))
  ]
]

-- The run of a valid state is shorter than the memory, so its length in bytes does not wrap.
run_bytes :
    (s : Pmm) (f n : ℕ)
    → IsValid s
    → ((c : ℕ) → f ≤ c → c < f + n → used s c ≡ false)
    → f + n ≤ frames s
    → n * 4096 < 2 ^ 32
run_bytes s f n v run fit = elim (Bool-cases (ltb (n * 4096) (2 ^ 32))) [
  | inl short ↦ ground arith
  | inr long ↦
      ground (arith, v.owned s.bit_map, run (s.bit_map / 4096), v.small, v.in_space, v.nonempty)
]

module _ (s : Pmm) (f n : ℕ) (v : IsValid s) (pos : 0 < n) (fit : f + n ≤ frames s)
    (room : s.total_used_blocks < s.total_block)
    (run : (c : ℕ) → f ≤ c → c < f + n → used s c ≡ false) where
  abbrev marked : Pmm
  marked = mark_loop s f n 0

  marked-Marked : Marked true s f n marked
  marked-Marked = mark_loop-Marked n 0 s f f v.bytes (omega arith) (omega (arith, v.small))

  apart : (f * 4096 + n * 4096 ≤ s.bit_map) ⊎ (s.bit_map + 4 * s.total_block ≤ f * 4096)
  apart = run_apart s f n v pos fit run

  apart-marked :
      (f * 4096 + n * 4096 ≤ marked.bit_map) ⊎ (marked.bit_map + 4 * marked.total_block ≤ f * 4096)
  apart-marked = rw (marked-Marked.same_map, marked-Marked.same_blocks) apart

  marked-IsValid : IsValid marked
  marked-IsValid = Marked-IsValid marked-Marked v

  pub cleared-Allocated : Allocated s n (f * 4096) (clear_memory marked (f * 4096) (n * 4096))
  cleared-Allocated = record {
    frame = f;
    addr_of_frame = refl;
    fit = fit;
    was_free = run;
    marks = λ c h.
        used-clear_memory marked (f * 4096) (n * 4096) marked-IsValid apart-marked c
          (omega (arith, marked-Marked.same_blocks))
        ∙ marked-Marked.marks c;
    count = count-mark_loop n 0 s f (omega (arith, v.small)) ∙ omega (arith, v.small);
    zeroed = λ a l h. memset_inside marked.mem (f * 4096) 0 (n * 4096) a l h;
    elsewhere = λ a o o'.
        memset_outside marked.mem (f * 4096) 0 (n * 4096) a o'
        ∙ marked-Marked.outside a (omega arith);
    same_map = marked-Marked.same_map;
    same_blocks = marked-Marked.same_blocks;
    valid = clear_memory-IsValid marked (f * 4096) (n * 4096) marked-IsValid apart-marked;
  }

-- What a call of `allocate_block` for `size` pages may return.
pub data Outcome (s : Pmm) (size : ℕ) : ℕ × Pmm → Type 0 where
  failed :
      (s.total_block ≤ s.total_used_blocks) ⊎ ((b : ℕ) → b < frames s → fits s size b ≡ false)
      → Outcome s size (0, s)
  allocated : {addr : ℕ} {t : Pmm} → Allocated s size addr t → Outcome s size (addr, t)

pub closed_guard :
    (s : Pmm) (size : ℕ) → s.total_block ≤ s.total_used_blocks → allocate_block s size ≡ (0, s)
unfolding allocate_block get_free_frame_by_size
closed_guard s size h = ground arith

by_search :
    (s : Pmm) (size f : ℕ)
    → get_free_frame_by_size s size ≡ f
    → (f == invalid_frame) ≡ false
    → f * 4096 < 2 ^ 32
    → size * 4096 < 2 ^ 32
    → allocate_block s size
      ≡ (f * 4096, clear_memory (mark_loop s f size 0) (f * 4096) (size * 4096))
unfolding allocate_block
by_search s size f e real addr_fits size_fits =
    let addr : u32 (f * 4096) ≡ f * 4096 = omega arith in
    let bytes : u32 (size * 4096) ≡ size * 4096 = omega arith in rw (e, real, addr, bytes)

not_found :
    (s : Pmm) (size : ℕ)
    → get_free_frame_by_size s size ≡ invalid_frame
    → allocate_block s size ≡ (0, s)
unfolding allocate_block
not_found s size e = rw e

-- With a valid state, where every run of `size` free frames that starts in the bitmap also ends in
-- it, `allocate_block` either hands out such a run, cleared, with all else unchanged and the state
-- valid again, or returns 0 and changes nothing, because the guard on the counter is closed or the
-- bitmap has no such run.
pub allocate_block-Outcome :
    (s : Pmm) (size : ℕ)
    → IsValid s
    → 0 < size
    → frames s + size ≤ 2 ^ 32
    → ((b : ℕ) → b < frames s → fits s size b ≡ true → b + size ≤ frames s)
    → Outcome s size (allocate_block s size)
allocate_block-Outcome s size v pos small ends =
    elim (Bool-cases (leb s.total_block s.total_used_blocks)) [
      | inl closed ↦ rw (closed_guard s size (ground arith)) (failed (inl (ground arith)))
      | inr room ↦ elim (Bool-cases (get_free_frame_by_size s size == invalid_frame)) [
        | inl absent ↦ rw (not_found s size (ground arith)) (
            failed (
              inr (λ b h.
                none_before-of-missing (rw absent at (search_lem (ground arith))) b (omega arith)
                  h)))
        | inr real ↦ by_found real (ground arith) (rw real at (search_lem (ground arith)))
      ]
    ]
  where
    search_lem :
        s.total_used_blocks < s.total_block
        → let r = get_free_frame_by_size s size in
          IsFirst (fits s size) 0 (frames s) (if r == invalid_frame then none else some r)
    search_lem room = get_free_frame_by_size-IsFirst s size pos room small

    by_found :
        (get_free_frame_by_size s size == invalid_frame) ≡ false
        → s.total_used_blocks < s.total_block
        → IsFirst (fits s size) 0 (frames s) (some (get_free_frame_by_size s size))
        → Outcome s size (allocate_block s size)
    by_found real room (found l h t first) =
        let f = get_free_frame_by_size s size in
        let run : (c : ℕ) → f ≤ c → c < f + size → used s c ≡ false =
          λ c a b. free-of-fits s size f c t a b in
        let fit : f + size ≤ frames s = ends f h t in
        rw (by_search s size f refl real (omega (arith, v.small)) (run_bytes s f size v run fit))
          (allocated (cleared-Allocated s f size v pos fit room run))

-- `allocate_block(1)`, which serves every page table and user page, on a valid state: a free frame
-- of the bitmap, cleared and marked, with all else unchanged; or 0 and the same state.
pub allocate_page-Outcome : (s : Pmm) → IsValid s → Outcome s 1 (allocate_block s 1)
allocate_page-Outcome s v =
    allocate_block-Outcome s 1 v (omega arith) (omega (arith, v.small)) (λ b h t. omega arith)
