-- ===== src/Fat.antt =====
-- The FAT12 file system of the boot loader, src/bootloader/stage2/fat.h and fat.c: its structures,
-- the file allocation table, and the sectors that it reads. A `FAT_File *` is the handle that the
-- structure holds; a null pointer is `none`.
pub mod Read
pub mod Stream
pub mod Chain
pub mod Root
pub mod Search
pub mod Files
pub mod Table
pub mod Names
pub mod Open
pub mod Start
pub mod Opening
pub mod Closing
pub mod Listing
pub mod Printed
pub mod Sample
mod Examples
use toy_kernel.Common.{
  ℕ, zero, suc, ◌+◌, ◌-◌, ◌*◌, ◌/◌, ◌%◌, ◌^◌, ◌≤◌, ◌<◌, min, max, bit_and, bit_or, ◌≡◌, refl, sym,
  ap, ◌∙◌, ◌≢◌, ◌↔◌, ◌⊎◌, inl, inr, Bool, true, false, not, ◌&&◌, ◌||◌, Option, none, some, List,
  [], ◌∷◌, ◌++◌, map, arith, ltb, leb, ◌==◌, ◌!=◌, if◌then◌else◌, ltb→lt, leb→le, ==_iff,
  Bool-cases, Option-cases, u8, u16, u32, sub32, ◌<<<◌, ◌>>>◌, length, get_elem?, get_or, set, drop,
  take, replicate, length-append, length-set, get_elem?-set_self, get_elem?-set_ne,
}
use toy_kernel.Memory.{Mem}
use toy_kernel.Disk.{Bios, Disk, disk_read_sectors}

abbrev pub sector_size : ℕ
sector_size = 512

abbrev pub max_file_handles : ℕ
max_file_handles = 10

-- -1, as the 32 bits of an `int`.
abbrev pub root_directory_handle : ℕ
root_directory_handle = 0xffffffff

abbrev pub fat_attribute_volume_id : ℕ
fat_attribute_volume_id = 0x08

abbrev pub fat_attribute_directory : ℕ
fat_attribute_directory = 0x10

-- The fields of the boot sector that the code uses.
pub record FatBootSector : Type 0 where
  pub bytes_per_sector : ℕ
  pub sectors_per_cluster : ℕ
  pub reserved_sectors : ℕ
  pub fat_count : ℕ
  pub dir_entry_count : ℕ
  pub sectors_per_fat : ℕ

-- The fields of a directory entry that the code uses.
pub record FatDirectoryEntry : Type 0 where
  pub name : List ℕ
  pub attributes : ℕ
  pub first_cluster_high : ℕ
  pub first_cluster_low : ℕ
  pub size : ℕ

pub record FatFile : Type 0 where
  pub handle : ℕ
  pub is_directory : Bool
  pub position : ℕ
  pub size : ℕ

pub record FatFileData : Type 0 where
  pub buffer : Mem
  pub file : FatFile
  pub opened : Bool
  pub first_cluster : ℕ
  pub current_cluster : ℕ
  pub current_sector_in_cluster : ℕ

-- `FAT_Data`, the other statics, and the number of the next call of the BIOS. `table` is `g_Fat`.
pub record Fat : Type 0 where
  pub boot_sector : FatBootSector
  pub root_directory : FatFileData
  pub opened_files : List FatFileData
  pub table : Mem
  pub data_section_lba : ℕ
  pub call : ℕ

-- A `DISK *`, and the BIOS that answers for it.
pub record Drive : Type 0 where
  pub bios : Bios
  pub disk : Disk

-- `DISK_ReadSectors(disk, lba, 1, buffer)`
unfoldable pub read_sector : Drive → (call lba : ℕ) → Mem → Bool × Mem × ℕ
read_sector drive call lba buffer = disk_read_sectors drive.bios drive.disk call lba 1 buffer

-- `*(uint16_t *)(m + a)` and `*(uint32_t *)(m + a)`, lowest byte first.
abbrev pub word16 : Mem → ℕ → ℕ
word16 m a = m a + 2 ^ 8 * m (a + 1)

-- The structure that the bytes of the first sector are read as.
unfoldable pub boot_sector_of : Mem → FatBootSector
boot_sector_of m = record {
  bytes_per_sector = word16 m 11;
  sectors_per_cluster = m 13;
  reserved_sectors = word16 m 14;
  fat_count = m 16;
  dir_entry_count = word16 m 17;
  sectors_per_fat = word16 m 22;
}

unfoldable pub fat_cluster_to_lba : Fat → ℕ → ℕ
fat_cluster_to_lba fat cluster =
    u32 (fat.data_section_lba + sub32 cluster 2 * fat.boot_sector.sectors_per_cluster)

unfoldable pub fat_next_cluster : Fat → ℕ → ℕ
fat_next_cluster fat current_cluster =
    let fat_index = u32 (current_cluster * 3) / 2 in
    if current_cluster % 2 == 0
    then word16 fat.table fat_index % 2 ^ 12
    else word16 fat.table fat_index >>> 4

-- `&g_Data->OpenedFiles[handle]`, or the root directory. A handle is below `max_file_handles`.
unfoldable pub file_of : Fat → (handle : ℕ) → FatFileData
file_of fat handle =
    if handle == root_directory_handle
    then fat.root_directory
    else get_or fat.opened_files handle fat.root_directory

unfoldable pub put_file : Fat → (handle : ℕ) → FatFileData → Fat
put_file fat handle fd =
    if handle == root_directory_handle
    then record fat { root_directory = fd }
    else record fat { opened_files = set fat.opened_files handle fd }
