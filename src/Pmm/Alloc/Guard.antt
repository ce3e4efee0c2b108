-- ===== src/Pmm/Alloc/Guard.antt =====
-- The guard `TOTAL_USED_BLOCKS >= TOTAL_BLOCK`, over a sequence of allocations. The counter counts
-- pages, and `TOTAL_BLOCK` is the number of 32-bit words of the bitmap.
use toy_kernel.Common.{
  ℕ, zero, suc, ◌+◌, ◌*◌, ◌≤◌, ◌<◌, max, inl, inr, arith, leb, ◌==◌, if◌then◌else◌, Bool-cases,
}
use toy_kernel.Pmm.State.{Pmm}
use toy_kernel.Pmm.Alloc.{allocate_block}
use toy_kernel.Pmm.Alloc.Valid.{IsValid, frames}
use toy_kernel.Pmm.Alloc.Block.{Outcome, failed, allocated, allocate_page-Outcome, closed_guard}

-- How many of `n` allocations of a page, one after the other, hand out a page.
unfoldable pub handed_out : ℕ → Pmm → ℕ
unfolding allocate_block
handed_out zero s = 0
handed_out (suc n) s =
    let (addr, t) = allocate_block s 1 in (if addr == 0 then 0 else 1) + handed_out n t

after_page :
    {s : Pmm} {r : ℕ × Pmm} (n : ℕ)
    → Outcome s 1 r
    → s.total_used_blocks < s.total_block
    → IsValid s
    → ((t : Pmm)
        → IsValid t
        → handed_out n t + t.total_used_blocks ≤ max t.total_used_blocks t.total_block)
    → (if r.0 == 0 then 0 else 1) + handed_out n r.1 + s.total_used_blocks ≤ s.total_block
after_page {s} n (failed why) room v rest = let r = rest s v in omega (arith, r)
after_page n (allocated {addr} {t} x) room v rest =
    let r = rest t x.valid in ground (arith, r, x.count, x.same_blocks)

pages-le :
    (n : ℕ) (s : Pmm)
    → IsValid s
    → handed_out n s + s.total_used_blocks ≤ max s.total_used_blocks s.total_block
unfolding handed_out
pages-le zero s v = omega arith
pages-le (suc n) s v = elim (Bool-cases (leb s.total_block s.total_used_blocks)) [
  | inl closed ↦
      let rest = pages-le n s v in rw (closed_guard s 1 (ground arith)) (omega (arith, rest))
  | inr room ↦
      let page = after_page n (allocate_page-Outcome s v) (ground arith) v (pages-le n) in
      omega (arith, page)
]

-- From a valid state, however often a page is asked for and however much of the bitmap is free, no
-- more pages are handed out than the words of the bitmap exceed the pages in use: at most one page
-- in 32 of those that the bitmap speaks of.
pub allocations_stop_early :
    (n : ℕ) (s : Pmm)
    → IsValid s
    → (handed_out n s + s.total_used_blocks ≤ max s.total_used_blocks s.total_block)
      × (handed_out n s * 32 ≤ frames s)
allocations_stop_early n s v = let le = pages-le n s v in (le, omega (arith, le))
