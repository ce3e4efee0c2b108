-- ===== src/Fat/Open.antt =====
-- Opening and closing: `FAT_OpenEntry`, `FAT_Close`, `FAT_FindFile` and `FAT_Open` of src/bootloader/stage2/fat.c. What the code prints on an error is left out.
use toy_kernel.Common.{
  ℕ, zero, suc, ◌+◌, bit_and, Bool, true, false, not, ◌&&◌, Option, none, some, List, [], ◌∷◌, ◌==◌,
  ◌!=◌, if◌then◌else◌, u32, ◌<<<◌, length, drop, take,
}
use toy_kernel.Fat.{
  root_directory_handle, fat_attribute_directory, FatDirectoryEntry, FatFileData, Fat, Drive,
  read_sector, fat_cluster_to_lba, file_of, put_file,
}
use toy_kernel.Fat.Read.{at_position, fat_read_entry}
use toy_kernel.Fat.Names.{strchr, fat_name, same_name}

-- The first handle that is free, at the index `i`.
unfoldable pub find_handle : List FatFileData → (i : ℕ) → Option ℕ
find_handle [] i = none
find_handle (fd ∷ files) i =
    let rest = find_handle files (i + 1) in if fd.opened then rest else some i

-- The structure that an entry is opened with; its buffer is the one that was there.
unfoldable pub opened_as : FatFileData → (handle : ℕ) → FatDirectoryEntry → FatFileData
opened_as fd handle entry =
    let cluster = u32 (entry.first_cluster_low + entry.first_cluster_high <<< 16) in
    record fd {
      file = record {
        handle = handle;
        is_directory = bit_and entry.attributes fat_attribute_directory != 0;
        position = 0;
        size = entry.size;
      };
      first_cluster = cluster;
      current_cluster = cluster;
      current_sector_in_cluster = 0;
    }

-- `none` for no free handle, or a read that failed.
unfoldable pub fat_open_entry : Drive → Fat → FatDirectoryEntry → Option ℕ × Fat
unfolding find_handle opened_as put_file file_of
fat_open_entry drive fat entry = elim (find_handle fat.opened_files 0) [
  | none ↦ (none, fat)
  | some handle ↦
      let fd = opened_as (file_of fat handle) handle entry in
      let (good, bytes, next) =
        read_sector drive fat.call (fat_cluster_to_lba fat fd.current_cluster) fd.buffer in
      let read = record fd { buffer = bytes } in
      if good
      then (
        some handle,
        record (put_file fat handle (record read { opened = true })) { call = next },
      )
      else (none, record (put_file fat handle read) { call = next })
]

unfoldable pub fat_close : Fat → (handle : ℕ) → Fat
unfolding put_file file_of
fat_close fat handle =
    let fd = file_of fat handle in
    if handle == root_directory_handle
    then put_file fat handle (record (at_position fd 0) { current_cluster = fd.first_cluster })
    else put_file fat handle (record fd { opened = false })

-- A search over a directory: its result, or the end of the rounds given to it. A directory of no
-- known size whose clusters form a ring is searched for ever.
pub data Found {ℓ} (A : Type ℓ) : Type ℓ where
  found : A → Found A
  missing : Found A
  unfinished : Found A

-- The loop of `FAT_FindFile`, with `fuel` rounds at most.
unfoldable pub find_loop :
    Drive → Fat → (fuel handle : ℕ) → (name : List ℕ) → Found FatDirectoryEntry × Fat
find_loop drive fat zero handle name = (unfinished, fat)
find_loop drive fat (suc fuel) handle name =
    let (read, next) = fat_read_entry drive fat handle in
    let rest = find_loop drive next fuel handle name in
    elim (read) [
      | none ↦ (missing, next)
      | some entry ↦ if same_name name entry.name then (found entry, next) else rest
    ]

unfoldable pub fat_find_file :
    Drive → Fat → (fuel handle : ℕ) → (name : List ℕ) → Found FatDirectoryEntry × Fat
unfolding find_loop fat_name same_name fat_read_entry
fat_find_file drive fat fuel handle name = find_loop drive fat fuel handle (fat_name name)

-- The name in front of the first slash, what is left of the path, and whether the name is the last.
unfoldable pub next_name : List ℕ → List ℕ × List ℕ × Bool
unfolding strchr
next_name path = elim (strchr path 0x2f) [
  | none ↦ (path, [], true)
  | some slash ↦ (take slash path, drop (slash + 1) path, false)
]

-- `!isLast && entry.Attributes & FAT_ATTRIBUTE_DIRECTORY == 0`. In C `==` binds tighter than `&`.
unfoldable pub is_no_directory : (is_last : Bool) → FatDirectoryEntry → Bool
is_no_directory is_last entry =
    not is_last && bit_and entry.attributes (if fat_attribute_directory == 0 then 1 else 0) != 0

-- The result of `FAT_Open`: a handle, the null pointer, a read through the null pointer that
-- `FAT_OpenEntry` has returned in the middle of a path, or the end of the rounds of a search.
pub data Opened : Type 0 where
  opened_file : ℕ → Opened
  null : Opened
  null_read : Opened
  endless : Opened

-- The loop over the names of a path, with `left` rounds at most; a round takes a character or more.
unfoldable pub open_loop :
    Drive → (fuel left : ℕ) → Fat → (current : Option ℕ) → (path : List ℕ) → Opened × Fat
open_loop drive fuel zero fat current path = (null, fat)
open_loop drive fuel (suc left) fat none [] = (null, fat)
open_loop drive fuel (suc left) fat (some h) [] = (opened_file h, fat)
open_loop drive fuel (suc left) fat none (c ∷ path) = (null_read, fat)
open_loop drive fuel (suc left) fat (some h) (c ∷ path) =
    let (name, later, is_last) = next_name (c ∷ path) in
    let (result, searched) = fat_find_file drive fat fuel h name in
    let closed = fat_close searched h in
    elim (result) [
      | unfinished ↦ (endless, searched)
      | missing ↦ (null, closed)
      | found entry ↦
          let (current, opened) = fat_open_entry drive closed entry in
          let rest = open_loop drive fuel left opened current later in
          if is_no_directory is_last entry then (null, closed) else rest
    ]

-- A path without its leading slash.
unfoldable pub without_slash : List ℕ → List ℕ
without_slash [] = []
without_slash (c ∷ path) = if c == 0x2f then path else c ∷ path

-- `fuel` bounds each search of a directory.
unfoldable pub fat_open : Drive → Fat → (fuel : ℕ) → (path : List ℕ) → Opened × Fat
unfolding open_loop next_name fat_find_file fat_close fat_open_entry is_no_directory without_slash
fat_open drive fat fuel path =
    let relative = without_slash path in
    open_loop drive fuel (length relative + 1) fat (some root_directory_handle) relative
