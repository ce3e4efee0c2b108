-- ===== src/Heap/Tiling.antt =====
-- The blocks of a heap lie side by side: each header begins where the payload before it ends.
use toy_kernel.Common.{
  ℕ, ◌+◌, ◌-◌, ◌^◌, ◌≤◌, ◌<◌, ◌≡◌, refl, ap, inl, inr, List, [], ◌∷◌, ◌++◌, arith, if◌then◌else◌,
  Bool-cases, sub32,
}
use toy_kernel.Heap.{MallocBlock, header_size, malloc_split}

-- The blocks fill the addresses from `a` to `e`.
unfoldable pub Tiles : ℕ → List MallocBlock → ℕ → Type 0
Tiles a [] e = a ≡ e
Tiles a (b ∷ bs) e = (b.address ≡ a) × Tiles (a + header_size + b.size) bs e

-- The blocks that are not free.
unfoldable pub in_use : List MallocBlock → List MallocBlock
in_use [] = []
in_use (b ∷ bs) = if b.free then in_use bs else b ∷ in_use bs

pub Tiles-le : (bs : List MallocBlock) (a e : ℕ) → Tiles a bs e → a ≤ e
unfolding Tiles
Tiles-le [] a e t = omega (arith, t)
Tiles-le (b ∷ bs) a e t = omega (arith, Tiles-le bs (a + header_size + b.size) e t.1)

-- What holds of the blocks behind one that is replaced.
pub Tiles-after :
    (before : List MallocBlock) (cur : MallocBlock) (after : List MallocBlock) (a e : ℕ)
    → Tiles a (before ++ cur ∷ after) e
    → Tiles cur.address (cur ∷ after) e
unfolding Tiles
Tiles-after [] cur after a e t = rw t.0 (refl, t.1)
Tiles-after (b ∷ bs) cur after a e t = Tiles-after bs cur after (a + header_size + b.size) e t.1

-- A block may be replaced by blocks that fill the same addresses.
pub Tiles-replace :
    (before : List MallocBlock) (cur : MallocBlock) (after new : List MallocBlock) (a e : ℕ)
    → Tiles a (before ++ cur ∷ after) e
    → Tiles cur.address new e
    → Tiles a (before ++ new) e
unfolding Tiles
Tiles-replace [] cur after new a e t n = rw (← t.0) n
Tiles-replace (b ∷ bs) cur after new a e t n =
    (t.0, Tiles-replace bs cur after new (a + header_size + b.size) e t.1 n)

-- Splitting a block that is large enough keeps the tiling.
pub malloc_split-Tiles :
    (cur : MallocBlock) (size : ℕ) (after : List MallocBlock) (a e : ℕ)
    → e < 2 ^ 32
    → size + header_size ≤ cur.size
    → Tiles a (cur ∷ after) e
    → Tiles a (malloc_split cur size after) e
unfolding Tiles malloc_split
malloc_split-Tiles cur size after a e small fits t =
    let whole = Tiles-le after (a + header_size + cur.size) e t.1 in
    let left : sub32 (sub32 cur.size size) header_size ≡ cur.size - size - header_size =
      omega arith in
    let ends : a + header_size + size + header_size + (cur.size - size - header_size)
        ≡ a + header_size + cur.size =
      omega arith in
    (t.0, (omega (arith, t.0), rw (left, ends) t.1))

pub in_use-append : (xs ys : List MallocBlock) → in_use (xs ++ ys) ≡ in_use xs ++ in_use ys
unfolding in_use
in_use-append [] ys = refl
in_use-append (b ∷ bs) ys = elim (Bool-cases (b.free)) [
  | inl e ↦ simp e (in_use-append bs ys)
  | inr e ↦ simp e (ap (λ l. b ∷ l) (in_use-append bs ys))
]
