-- ===== src/Heap/Merge.antt =====
-- `merge_free_blocks` and `malloc_free`.
use toy_kernel.Common.{
  ℕ, ◌+◌, ◌^◌, ◌<◌, ◌≡◌, refl, inl, inr, true, ◌&&◌, List, [], ◌∷◌, arith, Bool-cases, u32,
}
use toy_kernel.Heap.{MallocBlock, header_size, merge_from, merge_blocks}
use toy_kernel.Heap.Tiling.{Tiles, Tiles-le, in_use}

merge_from-Tiles :
    (cur : MallocBlock) (bs : List MallocBlock) (a e : ℕ)
    → e < 2 ^ 32
    → Tiles a (cur ∷ bs) e
    → Tiles a (merge_from cur bs) e
unfolding merge_from Tiles
merge_from-Tiles cur [] a e small t = t
merge_from-Tiles cur (next ∷ []) a e small t = elim (Bool-cases (cur.free && next.free)) [
  | inl both ↦
      let size : u32 (cur.size + next.size + header_size) ≡ cur.size + next.size + header_size =
        omega (arith, t) in
      rw (both, size) (t.0, omega (arith, t.1.1))
  | inr one ↦ rw one t
]
merge_from-Tiles cur (next ∷ after ∷ rest) a e small t = elim (Bool-cases (cur.free && next.free)) [
  | inl both ↦
      let bound =
        Tiles-le (after ∷ rest) (a + header_size + cur.size + header_size + next.size) e t.1.1 in
      let size : u32 (cur.size + next.size + header_size) ≡ cur.size + next.size + header_size =
        omega arith in
      let ends : a + header_size + cur.size + header_size + next.size
          ≡ a + header_size + (cur.size + next.size + header_size) =
        omega arith in
      rw (both, size)
        (
          t.0,
          rw ends at (
              merge_from-Tiles after rest (a + header_size + cur.size + header_size + next.size) e
                small t.1.1),
        )
  | inr one ↦
      rw one (t.0, merge_from-Tiles next (after ∷ rest) (a + header_size + cur.size) e small t.1)
]

merge_from-in_use :
    (cur : MallocBlock) (bs : List MallocBlock) → in_use (merge_from cur bs) ≡ in_use (cur ∷ bs)
unfolding merge_from in_use
merge_from-in_use cur [] = refl
merge_from-in_use cur (next ∷ []) = elim (Bool-cases (cur.free && next.free)) [
  | inl both ↦
      let c : cur.free ≡ true = ground arith in let n : next.free ≡ true = ground arith in rw (c, n)
  | inr one ↦ rw one
]
merge_from-in_use cur (next ∷ after ∷ rest) = elim (Bool-cases (cur.free && next.free)) [
  | inl both ↦
      let c : cur.free ≡ true = ground arith in
      let n : next.free ≡ true = ground arith in rw (c, n) (merge_from-in_use after rest)
  | inr one ↦ let k = merge_from-in_use next (after ∷ rest) in rw (one, k)
]

-- Merging keeps the heap tiled and the blocks in use as they are, where the heap ends below 2 ^ 32.
pub merge_blocks-Tiles :
    (bs : List MallocBlock) (a e : ℕ)
    → e < 2 ^ 32
    → Tiles a bs e
    → Tiles a (merge_blocks bs) e × (in_use (merge_blocks bs) ≡ in_use bs)
unfolding merge_blocks
merge_blocks-Tiles [] a e small t = (t, refl)
merge_blocks-Tiles (b ∷ bs) a e small t =
    (merge_from-Tiles b bs a e small t, merge_from-in_use b bs)
