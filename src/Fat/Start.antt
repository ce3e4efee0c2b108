-- ===== src/Fat/Start.antt =====
-- `FAT_Initialize` of src/bootloader/stage2/fat.c. Each step may end it with `false`.
use toy_kernel.Common.{ℕ, ◌+◌, ◌-◌, ◌*◌, ◌/◌, Bool, true, false, not, map, leb, if◌then◌else◌, u32}
use toy_kernel.Disk.{disk_read_sectors}
use toy_kernel.Fat.{root_directory_handle, FatFileData, Fat, Drive, read_sector, boot_sector_of}

abbrev pub memory_fat_size : ℕ
memory_fat_size = 0x10000

-- `sizeof(FAT_Data)`: 512 bytes, and 11 files of 544.
abbrev pub fat_data_size : ℕ
fat_data_size = 6496

-- The bytes that were in the boot sector's place before do not matter.
unfoldable pub fat_read_boot_sector : Drive → Fat → Bool × Fat
unfolding boot_sector_of
fat_read_boot_sector drive fat =
    let (good, bytes, next) = read_sector drive fat.call 0 (λ _. 0) in
    (good, record fat { boot_sector = boot_sector_of bytes; call = next })

-- `SectorsPerFat` has 16 bits and the parameter of `DISK_ReadSectors` has 8.
unfoldable pub fat_read_fat : Drive → Fat → Bool × Fat
fat_read_fat drive fat =
    let (good, bytes, next) =
      disk_read_sectors drive.bios drive.disk fat.call fat.boot_sector.reserved_sectors
        fat.boot_sector.sectors_per_fat fat.table in
    (good, record fat { table = bytes; call = next })

abbrev pub root_dir_lba : Fat → ℕ
root_dir_lba fat =
    u32 (
      fat.boot_sector.reserved_sectors
      + fat.boot_sector.sectors_per_fat * fat.boot_sector.fat_count)

abbrev pub root_dir_size : Fat → ℕ
root_dir_size fat = 32 * fat.boot_sector.dir_entry_count

-- The root directory as it is set up, with the buffer that was there.
unfoldable pub root_opened : Fat → FatFileData
root_opened fat = record (fat.root_directory) {
  file = record {
    handle = root_directory_handle;
    is_directory = true;
    position = 0;
    size = root_dir_size fat;
  };
  opened = true;
  first_cluster = root_dir_lba fat;
  current_cluster = root_dir_lba fat;
  current_sector_in_cluster = 0;
}

abbrev pub not_opened : FatFileData → FatFileData
not_opened fd = record fd { opened = false }

-- The last part: the root directory, the place of the data, and the handles.
unfoldable pub fat_read_root : Drive → Fat → Bool × Fat
unfolding root_opened
fat_read_root drive fat =
    let root = root_opened fat in
    let (good, bytes, next) = read_sector drive fat.call (root_dir_lba fat) root.buffer in
    let read = record fat { root_directory = record root { buffer = bytes }; call = next } in
    let per_sector = fat.boot_sector.bytes_per_sector in
    let sectors = (root_dir_size fat + per_sector - 1) / per_sector in
    if good
    then (
      true,
      record read {
        data_section_lba = u32 (root_dir_lba fat + sectors);
        opened_files = map not_opened fat.opened_files;
      },
    )
    else (false, read)

unfoldable pub fat_initialize : Drive → Fat → Bool × Fat
unfolding fat_read_boot_sector fat_read_fat fat_read_root
fat_initialize drive fat =
    let (booted, with_boot) = fat_read_boot_sector drive fat in
    let fat_size =
      u32 (with_boot.boot_sector.bytes_per_sector * with_boot.boot_sector.sectors_per_fat) in
    let (tabled, with_table) = fat_read_fat drive with_boot in
    let with_root = fat_read_root drive with_table in
    if not booted
    then (false, with_boot)
    else if leb memory_fat_size (u32 (fat_data_size + fat_size))
    then (false, with_boot)
    else if not tabled
    then (false, with_table)
    else with_root
