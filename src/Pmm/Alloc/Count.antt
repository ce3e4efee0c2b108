-- ===== src/Pmm/Alloc/Count.antt =====
-- The counter `TOTAL_USED_BLOCKS` is the number of frames that the bitmap marks used.
use toy_kernel.Common.{
  ℕ, zero, suc, ◌+◌, ◌-◌, ◌*◌, ◌≤◌, ◌<◌, min, ◌≡◌, sym, ap, ◌∙◌, Bool, true, false, arith,
  if◌then◌else◌,
}
use toy_kernel.Pmm.State.{Pmm, used}
use toy_kernel.Pmm.Alloc.{allocate_block}
use toy_kernel.Pmm.Alloc.Mark.{within}
use toy_kernel.Pmm.Alloc.Valid.{IsValid, frames}
use toy_kernel.Pmm.Alloc.Block.{Outcome, failed, allocated, allocate_page-Outcome}

-- How many numbers below `n` satisfy `p`.
unfoldable pub count_below : (ℕ → Bool) → ℕ → ℕ
count_below p zero = 0
count_below p (suc n) = (if p n then 1 else 0) + count_below p n

abbrev pub IsCounted : Pmm → Type 0
IsCounted s = s.total_used_blocks ≡ count_below (used s) (frames s)

-- Marking a free run of `k` frames adds `k`.
count_below-fill :
    (p q : ℕ → Bool) (f k n : ℕ)
    → ((c : ℕ) → c < n → q c ≡ (if within f k c then true else p c))
    → ((c : ℕ) → f ≤ c → c < f + k → p c ≡ false)
    → count_below q n ≡ count_below p n + (min n (f + k) - min n f)
unfolding count_below
count_below-fill p q f k zero marks run = omega arith
count_below-fill p q f k (suc n) marks run = ground (
  arith,
  marks n (omega arith),
  run n,
  count_below-fill p q f k n (λ c h. marks c (omega arith)) run,
)

-- `allocate_block(1)` keeps the counter equal to the number of used frames.
pub allocate_page-IsCounted : (s : Pmm) → IsValid s → IsCounted s → IsCounted (allocate_block s 1).1
allocate_page-IsCounted s v c = of_Outcome (allocate_page-Outcome s v)
  where
    of_Outcome : {r : ℕ × Pmm} → Outcome s 1 r → IsCounted r.1
    of_Outcome (failed why) = c
    of_Outcome (allocated {t} x) =
        let filled = count_below-fill (used s) (used t) x.frame 1 (frames s) x.marks x.was_free in
        let total : t.total_used_blocks ≡ count_below (used t) (frames s) =
          omega (arith, filled, x.fit, x.count) in
        total ∙ ap (λ k. count_below (used t) (k * 32)) (sym x.same_blocks)
