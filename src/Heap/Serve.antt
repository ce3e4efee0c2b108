-- ===== src/Heap/Serve.antt =====
-- `malloc_next_block` where the list has room.
use toy_kernel.Common.{
  ℕ, ◌+◌, ◌^◌, ◌<◌, ◌≡◌, refl, sym, ap, ◌∙◌, ◌⊎◌, inl, inr, true, false, not, ◌||◌, some, List, [],
  ◌∷◌, ◌++◌, arith, ltb, ◌==◌, Bool-cases, u32,
}
use toy_kernel.Heap.{
  Heap, MallocBlock, header_size, malloc_split, find_block, serve_block, search_and_serve,
  with_heap, malloc_next_block,
}
use toy_kernel.Heap.Tiling.{
  Tiles, Tiles-le, Tiles-after, Tiles-replace, in_use, in_use-append, malloc_split-Tiles,
}

-- The search takes the list apart without changing it.
find_block-append :
    (head : MallocBlock) (rest : List MallocBlock) (size : ℕ)
    → let (before, cur, after) = find_block head rest size in before ++ cur ∷ after ≡ head ∷ rest
unfolding find_block
find_block-append cur [] size = refl
find_block-append cur (next ∷ rest) size = elim (Bool-cases (ltb cur.size size || not cur.free)) [
  | inl e ↦ simp e (ap (λ l. cur ∷ l) (find_block-append next rest size))
  | inr e ↦ simp e refl
]

-- A call for `size` bytes that a free block serves: `cur`, between `before` and `after`.
pub record Served (h : Heap) (a e size : ℕ) (before : List MallocBlock) (cur : MallocBlock)
    (after : List MallocBlock) (ptr : ℕ) (t : Heap) : Type 0 where
  pub answer : ptr ≡ cur.address + header_size
  pub tiles : Tiles a t.malloc_list e
  pub now_used :
      in_use t.malloc_list
      ≡ in_use before ++ record cur { size = size; free = false } ∷ in_use after
  pub same_vmm : t.vmm ≡ h.vmm
  pub same_pages : t.total_malloc_pages ≡ h.total_malloc_pages

module _ (h : Heap) (a e size : ℕ) (small : e < 2 ^ 32) where
  Served-exact :
      (before : List MallocBlock) (cur : MallocBlock) (after : List MallocBlock)
      → Tiles a (before ++ cur ∷ after) e
      → size ≡ cur.size
      → (ptr : ℕ) × (t : Heap) × (serve_block h before cur after size ≡ some (ptr, t))
        × Served h a e size before cur after ptr t
  unfolding serve_block Tiles in_use
  Served-exact before cur after t exact =
      let behind = Tiles-after before cur after a e t in
      let bound = Tiles-le after (cur.address + header_size + cur.size) e behind.1 in
      let same : (size == cur.size) ≡ true = ground arith in
      let answer : u32 (cur.address + header_size) ≡ cur.address + header_size = omega arith in
      (
        cur.address + header_size,
        record h { malloc_list = before ++ record cur { free = false } ∷ after },
        rw (same, answer) refl,
        record {
          answer = refl;
          tiles = Tiles-replace before cur after (record cur { free = false } ∷ after) a e t behind;
          now_used = in_use-append before (record cur { free = false } ∷ after) ∙ rw exact refl;
          same_vmm = refl;
          same_pages = refl;
        },
      )

  Served-split :
      (before : List MallocBlock) (cur : MallocBlock) (after : List MallocBlock)
      → Tiles a (before ++ cur ∷ after) e
      → size + header_size < cur.size
      → (ptr : ℕ) × (t : Heap) × (serve_block h before cur after size ≡ some (ptr, t))
        × Served h a e size before cur after ptr t
  unfolding serve_block malloc_split in_use Tiles
  Served-split before cur after t fits =
      let behind = Tiles-after before cur after a e t in
      let bound = Tiles-le after (cur.address + header_size + cur.size) e behind.1 in
      let other : (size == cur.size) ≡ false = ground arith in
      let room : ltb (u32 (size + header_size)) cur.size ≡ true = ground arith in
      let answer : u32 (cur.address + header_size) ≡ cur.address + header_size = omega arith in
      (
        cur.address + header_size,
        record h { malloc_list = before ++ malloc_split cur size after },
        rw (other, room, answer) refl,
        record {
          answer = refl;
          tiles =
              Tiles-replace before cur after (malloc_split cur size after) a e t
                (malloc_split-Tiles cur size after cur.address e small (omega arith) behind);
          now_used = in_use-append before (malloc_split cur size after);
          same_vmm = refl;
          same_pages = refl;
        },
      )

found_lem :
    (h : Heap) (head : MallocBlock) (rest : List MallocBlock) (size : ℕ)
    → let (before, cur, after) = find_block head rest size in
      search_and_serve h (head ∷ rest) size ≡ serve_block h before cur after size
unfolding search_and_serve
found_lem h head rest size = refl

ready_lem :
    (h : Heap) (head : MallocBlock) (rest : List MallocBlock) (size : ℕ)
    → h.malloc_list ≡ head ∷ rest
    → 0 < size
    → 0 < head.size
    → malloc_next_block h size ≡ search_and_serve h (head ∷ rest) size
unfolding malloc_next_block with_heap
ready_lem h head rest size at pos sized =
    let some_size : (size == 0) ≡ false = ground arith in
    let some_head : (head.size == 0) ≡ false = ground arith in
    simp (some_size, with_heap, at, some_head)

-- A heap whose first block has a size, tiled below 2 ^ 32, where the search ends at a free block of
-- exactly `size` bytes or of more than `size` and a header: `malloc_next_block` answers with the
-- payload of that block, keeps the tiling, and adds that one block of `size` bytes to those in use.
pub malloc_next_block-Served :
    (h : Heap) (head : MallocBlock) (rest : List MallocBlock) (a e size : ℕ)
    → h.malloc_list ≡ head ∷ rest
    → 0 < size
    → 0 < head.size
    → e < 2 ^ 32
    → Tiles a (head ∷ rest) e
    → let (before, cur, after) = find_block head rest size in
      cur.free ≡ true
      → (size ≡ cur.size) ⊎ (size + header_size < cur.size)
      → (ptr : ℕ) × (t : Heap) × (malloc_next_block h size ≡ some (ptr, t))
        × Served h a e size before cur after ptr t
malloc_next_block-Served h head rest a e size at pos sized small t free room =
    let (before, cur, after) = find_block head rest size in
    let tiles : Tiles a (before ++ cur ∷ after) e = rw (find_block-append head rest size) t in
    let run : malloc_next_block h size ≡ serve_block h before cur after size =
      ready_lem h head rest size at pos sized ∙ found_lem h head rest size in
    rw run (elim room [
      | inl exact ↦ Served-exact h a e size small before cur after tiles exact
      | inr fits ↦ Served-split h a e size small before cur after tiles fits
    ])

-- The search of `malloc_next_block` also ends at a last block that is in use: a heap of one block
-- in use, of exactly the size that is asked for, hands that block out again.
pub malloc_next_block-in_use :
    (h : Heap) (b : MallocBlock)
    → h.malloc_list ≡ record b { free = false } ∷ []
    → 0 < b.size
    → malloc_next_block h b.size ≡ some (u32 (b.address + header_size), h)
unfolding search_and_serve serve_block find_block
malloc_next_block-in_use h b at pos =
    let exact : (b.size == b.size) ≡ true = ground arith in
    ready_lem h (record b { free = false }) [] b.size at pos pos
    ∙ rw exact
        (ap (λ l. some (u32 (b.address + header_size), record h { malloc_list = l })) (sym at))
