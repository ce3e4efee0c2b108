-- ===== src/Fat/Names.antt =====
-- The name of a file in a directory: `strchr` of src/bootloader/stage2/string.c, `islower` and
-- `toupper` of ctype.c, and the first part of `FAT_FindFile` of fat.c. A string is the list of its
-- characters before the final 0.
use toy_kernel.Common.{
  ℕ, zero, suc, ◌+◌, ◌-◌, Bool, true, false, ◌&&◌, Option, none, some, List, [], ◌∷◌, ◌++◌, leb,
  ◌==◌, if◌then◌else◌, drop, take,
}

-- The index of the first `chr`, with `i` characters before the string.
unfoldable pub strchr : List ℕ → (chr : ℕ) → Option ℕ
strchr [] chr = none
strchr (c ∷ str) chr =
    if c == chr then some 0 else elim (strchr str chr) [ none ↦ none | some i ↦ some (i + 1) ]

unfoldable pub islower : ℕ → Bool
islower chr = leb 0x61 chr && leb chr 0x7a

unfoldable pub toupper : ℕ → ℕ
unfolding islower
toupper chr = if islower chr then chr - 0x61 + 0x41 else chr

-- The loops that fill `size` cells of `fatName` from a string, `left` of them still to fill, over
-- the blanks that `memset` put there.
unfoldable pub fill_name : (left : ℕ) → List ℕ → List ℕ
fill_name zero str = []
fill_name (suc left) [] = 0x20 ∷ fill_name left []
fill_name (suc left) (c ∷ str) = toupper c ∷ fill_name left str

-- `fatName`. The code marks a name with no dot by the place 11, so that a dot in that place is no
-- dot either.
unfoldable pub fat_name : List ℕ → List ℕ
unfolding strchr fill_name toupper
fat_name name = elim (strchr name 0x2e) [
  | none ↦ fill_name 8 name ++ fill_name 3 []
  | some dot ↦
      fill_name 8 (take dot name) ++ fill_name 3 (if dot == 11 then [] else drop (dot + 1) name)
]

-- `memcmp(fatName, entry.Name, 11) == 0`
unfoldable pub same_name : List ℕ → List ℕ → Bool
same_name [] [] = true
same_name [] (b ∷ other) = false
same_name (a ∷ name) [] = false
same_name (a ∷ name) (b ∷ other) = a == b && same_name name other
