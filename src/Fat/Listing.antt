-- ===== src/Fat/Listing.antt =====
-- `FAT_ListDirectory` of src/bootloader/stage2/fat.c.
use toy_kernel.Common.{
  ℕ, zero, suc, bit_and, ◌||◌, none, some, List, [], ◌∷◌, ◌++◌, ◌==◌, ◌!=◌, if◌then◌else◌, get_or,
  drop, take,
}
use toy_kernel.Fat.{
  fat_attribute_volume_id, fat_attribute_directory, FatDirectoryEntry, Fat, Drive, file_of,
  put_file,
}
use toy_kernel.Fat.Read.{at_position, fat_read_entry}

-- The characters of a name in front of the first blank.
unfoldable pub before_blank : List ℕ → List ℕ
before_blank [] = []
before_blank (c ∷ name) = if c == 0x20 then [] else c ∷ before_blank name

-- What `FAT_ListDirectory` prints for one entry.
unfoldable pub list_entry : FatDirectoryEntry → List ℕ
unfolding before_blank
list_entry entry =
    let is_directory = bit_and entry.attributes fat_attribute_directory != 0 in
    if get_or entry.name 0 0 == 0xe5 || bit_and entry.attributes fat_attribute_volume_id != 0
    then []
    else before_blank (take 8 entry.name)
      ++ ((if is_directory
            then 0x20 ∷ 0x3c ∷ 0x44 ∷ 0x49 ∷ 0x52 ∷ 0x3e ∷ []
            else 0x2e ∷ before_blank (take 3 (drop 8 entry.name)))
          ++ 0x0a ∷ [])

-- The loop of `FAT_ListDirectory`, with `fuel` rounds at most, and what it prints.
unfoldable pub list_loop : Drive → Fat → (fuel handle : ℕ) → List ℕ × Fat
list_loop drive fat zero handle = ([], fat)
list_loop drive fat (suc fuel) handle =
    let (read, next) = fat_read_entry drive fat handle in
    let rest = list_loop drive next fuel handle in
    elim (read) [
      | none ↦ ([], next)
      | some entry ↦
          if get_or entry.name 0 0 == 0 then ([], next) else (list_entry entry ++ rest.0, rest.1)
    ]

unfoldable pub fat_list_directory : Drive → Fat → (fuel handle : ℕ) → List ℕ × Fat
unfolding list_loop list_entry fat_read_entry put_file file_of
fat_list_directory drive fat fuel handle =
    list_loop drive (put_file fat handle (at_position (file_of fat handle) 0)) fuel handle
