-- ===== src/Fat/Table.antt =====
-- The file allocation table: two entries of 12 bits in three bytes.
use toy_kernel.Common.{ℕ, ◌+◌, ◌*◌, ◌/◌, ◌%◌, ◌^◌, ◌<◌, ◌≡◌, true, false, arith, ◌==◌, u32}
use toy_kernel.Memory.{Mem}
use toy_kernel.Fat.{Fat, fat_next_cluster}

-- The three bytes of the entries of the clusters `2 * k` and `2 * k + 1` hold `even` and `odd`.
pub record Pair (table : Mem) (k even odd : ℕ) : Type 0 where
  pub even_low : even < 2 ^ 12
  pub odd_low : odd < 2 ^ 12
  pub first : table (3 * k) ≡ even % 2 ^ 8
  pub second : table (3 * k + 1) ≡ even / 2 ^ 8 + odd % 2 ^ 4 * 2 ^ 4
  pub third : table (3 * k + 2) ≡ odd / 2 ^ 4

-- `FAT_NextCluster` gives back both of the 12-bit entries that were packed into three bytes.
pub fat_next_cluster_lem :
    (fat : Fat) (k even odd : ℕ)
    → k < 2 ^ 28
    → Pair fat.table k even odd
    → (fat_next_cluster fat (2 * k) ≡ even) × (fat_next_cluster fat (2 * k + 1) ≡ odd)
unfolding fat_next_cluster
fat_next_cluster_lem fat k even odd low p =
    let place : u32 (2 * k * 3) / 2 ≡ 3 * k = omega arith in
    let place' : u32 ((2 * k + 1) * 3) / 2 ≡ 3 * k + 1 = omega arith in
    let next : 3 * k + 1 + 1 ≡ 3 * k + 2 = omega arith in
    let at_even : (2 * k % 2 == 0) ≡ true = ground arith in
    let at_odd : ((2 * k + 1) % 2 == 0) ≡ false = ground arith in
    (
      rw (at_even, place, p.first, p.second) (omega (arith, p.even_low, p.odd_low)),
      rw (at_odd, place', next, p.second, p.third) (omega (arith, p.even_low, p.odd_low)),
    )
