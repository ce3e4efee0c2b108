-- ===== src/Fat/Read.antt =====
-- Reading a file: `FAT_Read` and `FAT_ReadEntry` of src/bootloader/stage2/fat.c. What is read is the
-- list of the bytes that are put behind `dataOut`.
use toy_kernel.Common.{
  ℕ, zero, suc, ◌+◌, ◌-◌, ◌*◌, ◌%◌, ◌^◌, min, Bool, true, false, not, ◌||◌, Option, none, some,
  List, [], ◌∷◌, ◌++◌, leb, ◌==◌, ◌!=◌, if◌then◌else◌, u32, sub32, length, get_or, take,
}
use toy_kernel.Memory.{Mem}
use toy_kernel.Fat.{
  sector_size, root_directory_handle, FatDirectoryEntry, FatFile, FatFileData, Fat, Drive,
  read_sector, fat_cluster_to_lba, fat_next_cluster, file_of, put_file,
}

-- The `size` bytes from `from` on.
unfoldable pub slice : Mem → (from size : ℕ) → List ℕ
slice m from zero = []
slice m from (suc size) = m from ∷ slice m (from + 1) size

abbrev pub at_position : FatFileData → ℕ → FatFileData
at_position fd position = record fd { file = record (fd.file) { position = position } }

-- The part of the loop that goes on to the next sector of the root directory, with whether the loop
-- goes on.
unfoldable pub next_root_sector : Drive → FatFileData → (call : ℕ) → Bool × FatFileData × ℕ
next_root_sector drive fd call =
    let cluster = u32 (fd.current_cluster + 1) in
    let (good, bytes, next) = read_sector drive call cluster fd.buffer in
    (good, record fd { current_cluster = cluster; buffer = bytes }, next)

-- The step to the next sector of a file's cluster, or to the first of its next cluster.
unfoldable pub step_sector : Fat → FatFileData → FatFileData
step_sector fat fd =
    let sector = u32 (fd.current_sector_in_cluster + 1) in
    if leb fat.boot_sector.sectors_per_cluster sector
    then record fd {
      current_sector_in_cluster = 0;
      current_cluster = fat_next_cluster fat fd.current_cluster;
    }
    else record fd { current_sector_in_cluster = sector }

-- The same for a file. At the end of its clusters the size becomes the position.
unfoldable pub next_file_sector : Drive → Fat → FatFileData → (call : ℕ) → Bool × FatFileData × ℕ
next_file_sector drive fat fd call =
    let moved = step_sector fat fd in
    let (good, bytes, next) =
      read_sector drive call
        (u32 (fat_cluster_to_lba fat moved.current_cluster + moved.current_sector_in_cluster))
        moved.buffer in
    if leb 0xff8 moved.current_cluster
    then (false, record moved { file = record (moved.file) { size = moved.file.position } }, call)
    else (good, record moved { buffer = bytes }, next)

unfoldable pub next_sector : Drive → Fat → FatFileData → (call : ℕ) → Bool × FatFileData × ℕ
unfolding next_root_sector next_file_sector step_sector
next_sector drive fat fd call =
    if fd.file.handle == root_directory_handle
    then next_root_sector drive fd call
    else next_file_sector drive fat fd call

-- The loop, `byte_count` being at most the fuel: a round takes at least one byte.
unfoldable pub read_loop :
    Drive → Fat → (fuel : ℕ) → FatFileData → (call byte_count : ℕ) → List ℕ × FatFileData × ℕ
read_loop drive fat zero fd call byte_count = ([], fd, call)
read_loop drive fat (suc fuel) fd call byte_count =
    let offset = fd.file.position % sector_size in
    let left_in_buffer = sector_size - offset in
    let size = min byte_count left_in_buffer in
    let bytes = slice fd.buffer offset size in
    let moved = at_position fd (u32 (fd.file.position + size)) in
    let (goes_on, refilled, next) =
      if left_in_buffer == size then next_sector drive fat moved call else (true, moved, call) in
    let rest = read_loop drive fat fuel refilled next (byte_count - size) in
    if byte_count == 0
    then ([], fd, call)
    else if goes_on
    then (bytes ++ rest.0, rest.1, rest.2)
    else (bytes, refilled, next)

-- `byteCount`, once it is cut to what is left of the file. A directory of size 0 has no known end.
unfoldable pub bytes_to_read : FatFile → ℕ → ℕ
bytes_to_read file byte_count =
    if not file.is_directory || file.size != 0
    then min byte_count (sub32 file.size file.position)
    else byte_count

unfoldable pub fat_read : Drive → Fat → (handle byte_count : ℕ) → List ℕ × Fat
unfolding read_loop next_sector bytes_to_read file_of put_file
fat_read drive fat handle byte_count =
    let fd = file_of fat handle in
    let size = bytes_to_read fd.file byte_count in
    let (out, end, next) = read_loop drive fat size fd fat.call size in
    (out, record (put_file fat handle end) { call = next })

-- `sizeof(FAT_DirectoryEntry)`
abbrev pub entry_size : ℕ
entry_size = 32

abbrev pub byte_of : List ℕ → ℕ → ℕ
byte_of bytes i = get_or bytes i 0

-- The structure that 32 bytes are read as.
unfoldable pub entry_of : List ℕ → FatDirectoryEntry
entry_of bytes = record {
  name = take 11 bytes;
  attributes = byte_of bytes 11;
  first_cluster_high = byte_of bytes 20 + 2 ^ 8 * byte_of bytes 21;
  first_cluster_low = byte_of bytes 26 + 2 ^ 8 * byte_of bytes 27;
  size =
      byte_of bytes 28
      + 2 ^ 8 * byte_of bytes 29
      + 2 ^ 16 * byte_of bytes 30
      + 2 ^ 24 * byte_of bytes 31;
}

-- `none` for fewer than 32 bytes.
unfoldable pub fat_read_entry : Drive → Fat → (handle : ℕ) → Option FatDirectoryEntry × Fat
unfolding fat_read entry_of
fat_read_entry drive fat handle =
    let (out, next) = fat_read drive fat handle entry_size in
    (if length out == entry_size then some (entry_of out) else none, next)
