-- ===== src/Disk/Geometry.antt =====
-- `DISK_LBA2CHS` is the numbering of the sectors by cylinder, head and sector.
use toy_kernel.Common.{ℕ, ◌+◌, ◌-◌, ◌*◌, ◌/◌, ◌%◌, ◌^◌, ◌≤◌, ◌<◌, ◌≡◌, arith, u16}
use native.Mathlib.Nat.{div-add-mod', mod-lt}
use toy_kernel.Disk.{Disk, disk_lba2chs}

-- A drive with at least one head and one sector to a track, as 16-bit counts.
pub record IsDrive (disk : Disk) : Type 0 where
  pub some_sectors : 0 < disk.sectors
  pub some_heads : 0 < disk.heads
  pub sectors_low : disk.sectors < 2 ^ 16
  pub heads_low : disk.heads < 2 ^ 16

-- The number of the sector that lies at a cylinder, a sector of the track and a head.
abbrev pub chs2lba : Disk → ℕ × ℕ × ℕ → ℕ
chs2lba disk (cylinder, sector, head) = (cylinder * disk.heads + head) * disk.sectors + (sector - 1)

-- On a drive, `DISK_LBA2CHS` of a sector whose cylinder fits in 16 bits gives a sector of the track
-- from 1 to the number of sectors, a head below the number of heads, and the place that stands for
-- the same sector.
pub disk_lba2chs_lem :
    (disk : Disk) (lba : ℕ)
    → IsDrive disk
    → lba / disk.sectors / disk.heads < 2 ^ 16
    → let place = disk_lba2chs disk lba in
      (chs2lba disk place ≡ lba) × (1 ≤ place.1) × (place.1 ≤ disk.sectors) × (place.2 < disk.heads)
unfolding disk_lba2chs
disk_lba2chs_lem disk lba d fits =
    let track = mod-lt lba d.some_sectors in
    let side = mod-lt (lba / disk.sectors) d.some_heads in
    let cylinder : u16 (lba / disk.sectors / disk.heads) ≡ lba / disk.sectors / disk.heads =
      omega arith in
    let sector : u16 (lba % disk.sectors + 1) ≡ lba % disk.sectors + 1 = omega (arith, track) in
    let head : u16 (lba / disk.sectors % disk.heads) ≡ lba / disk.sectors % disk.heads =
      omega (arith, side) in
    rw (cylinder, sector, head, div-add-mod' (lba / disk.sectors) disk.heads)
      (omega (arith, div-add-mod' lba disk.sectors), omega arith, omega arith, side)
