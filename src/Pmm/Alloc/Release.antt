-- ===== src/Pmm/Alloc/Release.antt =====
-- Allocations do not overlap, and giving a block back undoes its allocation.
use toy_kernel.Common.{
  ℕ, ◌+◌, ◌*◌, ◌/◌, ◌≤◌, ◌<◌, max, ◌≡◌, refl, sym, ap, ◌∙◌, ◌≢◌, ◌⊎◌, inl, inr, arith, leb,
  Bool-cases,
}
use toy_kernel.Pmm.State.{Pmm, used}
use toy_kernel.Pmm.Alloc.{pages_of, allocate_block, deallocate_memory_by_size}
use toy_kernel.Pmm.Alloc.Mark.{unset_loop-Marked, count-unset_loop}
use toy_kernel.Pmm.Alloc.Valid.{IsValid, frames}
use toy_kernel.Pmm.Alloc.Block.{
  Outcome, failed, allocated, Allocated, allocate_page-Outcome, closed_guard,
}

pub Allocated-of-Outcome :
    {s : Pmm} {n : ℕ} {r : ℕ × Pmm} → Outcome s n r → r.0 ≢ 0 → Allocated s n r.0 r.1
Allocated-of-Outcome (failed why) ne = absurd (ne refl)
Allocated-of-Outcome (allocated a) ne = a

-- Blocks handed out one after the other do not overlap.
pub Allocated-apart :
    {s t u : Pmm} {n m a b : ℕ}
    → 0 < n
    → 0 < m
    → Allocated s n a t
    → Allocated t m b u
    → (a + n * 4096 ≤ b) ⊎ (b + m * 4096 ≤ a)
Allocated-apart {n} {m} pn pm x y =
    let f = x.frame in
    let g = y.frame in
    elim (Bool-cases (leb (f + n) g)) [
      | inl before ↦ inl (ground (arith, x.addr_of_frame, y.addr_of_frame))
      | inr meets ↦ elim (Bool-cases (leb (g + m) f)) [
        | inl after ↦ inr (ground (arith, x.addr_of_frame, y.addr_of_frame))
        | inr meets' ↦
            let c = max f g in ground (arith, x.addr_of_frame, x.marks c, y.was_free c, x.fit)
      ]
    ]

-- `deallocate_memory_by_size` of the bytes of a block frees its frames and no other, and takes
-- their number off the counter.
pub release :
    {s t : Pmm} {n addr : ℕ} (size : ℕ)
    → Allocated s n addr t
    → pages_of size ≡ n
    → IsValid s
    → s.total_used_blocks < s.total_block
    → let u = deallocate_memory_by_size t addr size in
      ((c : ℕ) → c < frames s → used u c ≡ used s c) × (u.total_used_blocks ≡ s.total_used_blocks)
unfolding deallocate_memory_by_size
release {s} {t} {n} {addr} size x e v room =
    let start : addr / 4096 ≡ x.frame = omega (arith, x.addr_of_frame) in
    let m =
      unset_loop-Marked n 0 t x.frame x.frame x.valid.bytes (omega arith)
        (omega (arith, x.fit, v.small)) in
    rw (e, start)
      (
        λ c h. ground (arith, m.marks c, x.marks c h, x.was_free c),
        omega (
          arith,
          count-unset_loop n 0 t x.frame (omega (arith, x.count, v.small, x.fit)),
          x.count,
          v.small,
          x.fit,
        ),
      )

room_of_Outcome :
    {s : Pmm} {n : ℕ} {r : ℕ × Pmm}
    → IsValid s
    → Outcome s n r
    → r.0 ≢ 0
    → allocate_block s n ≡ r
    → s.total_used_blocks < s.total_block
room_of_Outcome {s} {n} v o ne e = elim (Bool-cases (leb s.total_block s.total_used_blocks)) [
  | inl closed ↦ absurd (ne (ap (λ p. p.0) (sym e ∙ closed_guard s n (ground arith))))
  | inr open_guard ↦ ground arith
]

-- On a valid state, two pages from `allocate_block(1)` in a row do not overlap.
pub allocate_page_twice :
    (s : Pmm)
    → IsValid s
    → let (a, t) = allocate_block s 1 in
      let (b, u) = allocate_block t 1 in a ≢ 0 → b ≢ 0 → (a + 4096 ≤ b) ⊎ (b + 4096 ≤ a)
allocate_page_twice s v na nb =
    let first = Allocated-of-Outcome (allocate_page-Outcome s v) na in
    let second =
      Allocated-of-Outcome (allocate_page-Outcome (allocate_block s 1).1 first.valid) nb in
    Allocated-apart (omega arith) (omega arith) first second

-- On a valid state, `deallocate_memory_by_size(addr, 1)` of a page from `allocate_block(1)` brings
-- back the mark of every frame and the counter.
pub deallocate-allocate_page :
    (s : Pmm)
    → IsValid s
    → let (addr, t) = allocate_block s 1 in
      let u = deallocate_memory_by_size t addr 1 in
      addr ≢ 0
      → ((c : ℕ) → c < frames s → used u c ≡ used s c) × (u.total_used_blocks ≡ s.total_used_blocks)
deallocate-allocate_page s v ne =
    let o = allocate_page-Outcome s v in
    release 1 (Allocated-of-Outcome o ne) refl v (room_of_Outcome v o ne refl)
