-- ===== src/Disk/Examples.antt =====
-- A floppy drive whose first read fails, and the theorems about the disk at it.
use toy_kernel.Common.{
  ℕ, ◌+◌, ◌*◌, ◌/◌, ◌%◌, ◌≤◌, ◌<◌, ◌≡◌, refl, true, false, ◌||◌, none, some, arith, leb, ◌==◌,
  if◌then◌else◌,
}
use toy_kernel.Memory.{Mem}
use toy_kernel.Disk.{Bios, Disk, disk_initialize, disk_lba2chs, disk_read_sectors}
use toy_kernel.Disk.Geometry.{IsDrive, chs2lba, disk_lba2chs_lem}
use toy_kernel.Disk.Reads.{Holds, attempt, disk_read_sectors_lem}

abbrev floppy : Disk
floppy = record { id = 0; cylinders = 80; sectors = 18; heads = 2 }

abbrev image : Mem
image a = a / 512 % 256

abbrev bios : Bios
bios = record {
  disk_read = λ call id cylinder sector head count.
      (leb 1 call, λ i. image (chs2lba floppy (cylinder, sector, head) * 512 + i));
  drive_params = λ call id.
      if id == 0 then some (record { cylinders = 80; sectors = 18; heads = 2 }) else none;
}

floppy-IsDrive : IsDrive floppy
floppy-IsDrive = omega arith

bios-Holds : Holds bios floppy image
bios-Holds call cylinder sector head count i good h = refl

disk_lba2chs_40 : disk_lba2chs floppy 40 ≡ (1, 5, 0)
unfolding disk_lba2chs
disk_lba2chs_40 = refl

-- The second attempt succeeds, and the next call is the fourth.
disk_read_sectors_40 : (disk_read_sectors bios floppy 0 40 1 image).2 ≡ 3
unfolding disk_read_sectors
disk_read_sectors_40 = refl

disk_initialize_other : (disk_initialize bios (record floppy { id = 9 }) 0 0).0 ≡ false
unfolding disk_initialize
disk_initialize_other = refl

disk_lba2chs_run :
    let place = disk_lba2chs floppy 40 in
    (chs2lba floppy place ≡ 40) × (1 ≤ place.1) × (place.1 ≤ 18) × (place.2 < 2)
disk_lba2chs_run = disk_lba2chs_lem floppy 40 floppy-IsDrive (omega arith)

disk_read_sectors_example :
    let r = disk_read_sectors bios floppy 0 40 1 image in
    (r.0 ≡ (
      attempt bios floppy 0 40 1
      || attempt bios floppy (0 + 2) 40 1
      || attempt bios floppy (0 + 4) 40 1))
    × (r.0 ≡ true → (i : ℕ) → i < 1 * 512 → r.1 i ≡ image (40 * 512 + i))
disk_read_sectors_example =
    disk_read_sectors_lem bios floppy image 0 40 1 image floppy-IsDrive bios-Holds (omega arith)
      (omega arith) (omega arith)
