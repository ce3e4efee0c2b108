-- ===== src/Fat/Sample.antt =====
-- A floppy disk with two sectors to a cluster, and a file of 2000 bytes in the clusters 2 and 3.
use toy_kernel.Common.{
  ◌+◌, ◌*◌, ◌/◌, ◌%◌, refl, true, false, none, [], ◌∷◌, arith, leb, ◌==◌, if◌then◌else◌,
}
use toy_kernel.Memory.{Mem}
use toy_kernel.Disk.{Disk, disk_read_sectors}
use toy_kernel.Disk.Geometry.{chs2lba}
use toy_kernel.Fat.Chain.{Serves}
use toy_kernel.Fat.Files.{IsOpen}
use toy_kernel.Fat.Search.{NeverFails}
use toy_kernel.Fat.{
  read_sector, file_of, fat_cluster_to_lba, root_directory_handle, FatBootSector, FatDirectoryEntry,
  FatFileData, Fat, Drive,
}

abbrev pub floppy : Disk
floppy = record { id = 0; cylinders = 80; sectors = 18; heads = 2 }

abbrev pub image : Mem
image a = a / 512 % 256

abbrev pub drive : Drive
drive = record {
  bios = record {
    disk_read = λ call id cylinder sector head count.
        (leb 1 call, λ i. image (chs2lba floppy (cylinder, sector, head) * 512 + i));
    drive_params = λ call id. none;
  };
  disk = floppy;
}

abbrev pub boot_sector : FatBootSector
boot_sector = record {
  bytes_per_sector = 512;
  sectors_per_cluster = 2;
  reserved_sectors = 1;
  fat_count = 2;
  dir_entry_count = 224;
  sectors_per_fat = 9;
}

abbrev pub table : Mem
table a = if a == 3 then 3 else if a == 4 then 0xf0 else if a == 5 then 0xff else 0

abbrev pub file : FatFileData
file = record {
  buffer = λ i. image (33 * 512 + i);
  file = record { handle = 0; is_directory = false; position = 0; size = 2000 };
  opened = true;
  first_cluster = 2;
  current_cluster = 2;
  current_sector_in_cluster = 0;
}

abbrev pub free : FatFileData
free = record {
  buffer = λ _. 0;
  file = record { handle = 1; is_directory = false; position = 0; size = 0 };
  opened = false;
  first_cluster = 0;
  current_cluster = 0;
  current_sector_in_cluster = 0;
}

-- The root directory stands in its second sector.
abbrev pub root : FatFileData
root = record {
  buffer = λ i. image (20 * 512 + i);
  file = record {
    handle = root_directory_handle;
    is_directory = true;
    position = 512;
    size = 7168;
  };
  opened = true;
  first_cluster = 19;
  current_cluster = 20;
  current_sector_in_cluster = 0;
}

abbrev pub fat : Fat
fat = record {
  boot_sector = boot_sector;
  root_directory = root;
  opened_files = file ∷ free ∷ [];
  table = table;
  data_section_lba = 33;
  call = 1;
}

abbrev pub entry : FatDirectoryEntry
entry = record {
  name = 0x4b ∷ 0x20 ∷ 0x20 ∷ 0x20 ∷ 0x20 ∷ 0x20 ∷ 0x20 ∷ 0x20 ∷ 0x42 ∷ 0x20 ∷ 0x20 ∷ [];
  attributes = 0x20;
  first_cluster_high = 0;
  first_cluster_low = 2;
  size = 2000;
}

-- A drive whose first attempts succeed.
abbrev pub steady : Drive
steady = record {
  bios = record {
    disk_read = λ call id cylinder sector head count.
        (true, λ i. image (chs2lba floppy (cylinder, sector, head) * 512 + i));
    drive_params = λ call id. none;
  };
  disk = floppy;
}

pub steady-NeverFails : NeverFails steady
unfolding read_sector disk_read_sectors
steady-NeverFails call lba buffer = refl

pub steady-Serves : Serves steady image
steady-Serves = record { is_drive = omega arith; holds = λ call c s h n i good l. refl }

pub file-IsOpen : IsOpen fat image 2 0
unfolding file_of fat_cluster_to_lba
file-IsOpen = record {
  handle_low = omega arith;
  clusters = omega arith;
  clusters_low = omega arith;
  placed = record { no_root = λ e. omega (arith, e); length = refl; cluster = refl; sector = refl };
  buffered = λ i h. refl;
}
