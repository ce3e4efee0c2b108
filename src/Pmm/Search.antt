-- ===== src/Pmm/Search.antt =====
-- The two searches of src/kernel/mm/pmm/pmm.c. A `for` loop recurs on the rounds left, and
-- `none` means that it ended without a `return`.
pub mod Free
pub mod FirstFit
use toy_kernel.Common.{
  ℕ, zero, suc, ◌+◌, ◌-◌, ◌*◌, ◌/◌, ◌%◌, ◌^◌, ◌≤◌, ◌<◌, min, max, bit_and, bit_or, ◌≡◌, refl, sym,
  ap, ◌∙◌, ◌≢◌, ◌↔◌, ◌⊎◌, inl, inr, Bool, true, false, not, ◌&&◌, ◌||◌, Option, none, some, List,
  [], ◌∷◌, ◌++◌, map, arith, ltb, leb, ◌==◌, ◌!=◌, if◌then◌else◌, ltb→lt, leb→le, ==_iff,
  Bool-cases, Option-cases, u8, u16, u32, sub32, ◌<<<◌, ◌>>>◌, length, get_elem?, get_or, set, drop,
  take, replicate, length-append, length-set, get_elem?-set_self, get_elem?-set_ne,
}
use toy_kernel.Pmm.State.{Pmm, invalid_frame, bit_map_word, test_bit, used}

-- The value of a search that falls through to `return INVALID_FRAME`.
abbrev pub returned : Option ℕ → ℕ
returned (some b) = b
returned none = invalid_frame

-- `for (j = 0; j < 32; j++)` of `get_free_memory_block`, at `j`.
free_in_word : Pmm → (i left j : ℕ) → Option ℕ
free_in_word s i zero j = none
free_in_word s i (suc left) j =
    let rest = free_in_word s i left (j + 1) in
    if used s (u32 (i * 32 + j)) then rest else some (u32 (i * 32 + j))

-- `for (i = 0; i < TOTAL_BLOCK; i++)` of `get_free_memory_block`, at `i`.
free_in_map : Pmm → (left i : ℕ) → Option ℕ
free_in_map s zero i = none
free_in_map s (suc left) i =
    let rest = free_in_map s left (i + 1) in
    if bit_map_word s i != 0xffffffff
    then elim (free_in_word s i 32 0) [ some b ↦ some b | none ↦ rest ]
    else rest

unfoldable pub get_free_memory_block : Pmm → ℕ
unfolding free_in_map free_in_word
get_free_memory_block s = returned (free_in_map s s.total_block 0)

-- `for (count = 0; count <= size; count++)` of `get_free_frame_by_size`, at `count`: whether it
-- returns `bit`.
run_is_free : Pmm → (size b left count free : ℕ) → Bool
run_is_free s size b zero count free = false
run_is_free s size b (suc left) count free =
    let next = run_is_free s size b left (count + 1) (free + 1) in
    if used s (u32 (b + count)) then false else if free + 1 == size then true else next

-- `for (j = 0; j < 32; j++)` of `get_free_frame_by_size`, at `j`.
fit_in_word : Pmm → (size i left j : ℕ) → Option ℕ
fit_in_word s size i zero j = none
fit_in_word s size i (suc left) j =
    let rest = fit_in_word s size i left (j + 1) in
    let b = u32 (i * 32 + j) in
    if used s b then rest else if run_is_free s size b (size + 1) 0 0 then some b else rest

-- `for (i = 0; i < TOTAL_BLOCK; i++)` of `get_free_frame_by_size`, at `i`.
fit_in_map : Pmm → (size left i : ℕ) → Option ℕ
fit_in_map s size zero i = none
fit_in_map s size (suc left) i =
    let rest = fit_in_map s size left (i + 1) in
    if bit_map_word s i != 0xffffffff
    then elim (fit_in_word s size i 32 0) [ some b ↦ some b | none ↦ rest ]
    else rest

unfoldable pub get_free_frame_by_size : Pmm → ℕ → ℕ
unfolding fit_in_map fit_in_word run_is_free get_free_memory_block
get_free_frame_by_size s size =
    if size == 0
    then invalid_frame
    else if leb s.total_block s.total_used_blocks
    then invalid_frame
    else if size == 1
    then get_free_memory_block s
    else returned (fit_in_map s size s.total_block 0)
