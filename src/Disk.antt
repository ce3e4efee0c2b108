-- ===== src/Disk.antt =====
-- The boot loader's disk, src/bootloader/stage2/disk.c, on the calls of the BIOS that
-- src/bootloader/stage2/x86.asm makes. A BIOS is what each of its calls would answer, the calls
-- numbered in their order, so that a call that failed may succeed when it is made again.
pub mod Geometry
pub mod Reads
mod Examples
use toy_kernel.Common.{
  ℕ, zero, suc, ◌+◌, ◌-◌, ◌*◌, ◌/◌, ◌%◌, ◌^◌, ◌≤◌, ◌<◌, min, max, bit_and, bit_or, ◌≡◌, refl, sym,
  ap, ◌∙◌, ◌≢◌, ◌↔◌, ◌⊎◌, inl, inr, Bool, true, false, not, ◌&&◌, ◌||◌, Option, none, some, List,
  [], ◌∷◌, ◌++◌, map, arith, ltb, leb, ◌==◌, ◌!=◌, if◌then◌else◌, ltb→lt, leb→le, ==_iff,
  Bool-cases, Option-cases, u8, u16, u32, sub32, ◌<<<◌, ◌>>>◌, length, get_elem?, get_or, set, drop,
  take, replicate, length-append, length-set, get_elem?-set_self, get_elem?-set_ne,
}
use toy_kernel.Memory.{Mem}

-- What `x86_Disk_GetDriveParams` fills in.
pub record DriveParams : Type 0 where
  pub cylinders : ℕ
  pub sectors : ℕ
  pub heads : ℕ

-- `disk_read` gives the returned Boolean and the bytes left from `dataOut` on, which are of no
-- meaning where the Boolean is false.
pub record Bios : Type 0 where
  pub disk_read : (call id cylinder sector head count : ℕ) → Bool × Mem
  pub drive_params : (call id : ℕ) → Option DriveParams

pub record Disk : Type 0 where
  pub id : ℕ
  pub cylinders : ℕ
  pub sectors : ℕ
  pub heads : ℕ

-- The drive that is asked is the one that the caller's structure named before.
unfoldable pub disk_initialize : Bios → Disk → (call drive_number : ℕ) → Bool × Disk × ℕ
disk_initialize bios disk call drive_number = elim (bios.drive_params call disk.id) [
  | none ↦ (false, disk, call + 1)
  | some p ↦ (
    true,
    record {
      id = u8 drive_number;
      cylinders = u16 p.cylinders;
      sectors = u16 p.sectors;
      heads = u16 p.heads;
    },
    call + 1,
  )
]

-- Cylinder, sector and head.
unfoldable pub disk_lba2chs : Disk → (lba : ℕ) → ℕ × ℕ × ℕ
disk_lba2chs disk lba = (
  u16 (lba / disk.sectors / disk.heads),
  u16 (lba % disk.sectors + 1),
  u16 (lba / disk.sectors % disk.heads),
)

-- The loop over the attempts, with `left` to go. A failed attempt is followed by a reset, which is
-- a call too. The result is that of the last attempt, and the number of the next call.
unfoldable pub read_attempts :
    Bios → (id cylinder sector head count left call : ℕ) → Mem → Bool × Mem × ℕ
read_attempts bios id cylinder sector head count zero call buffer = (false, buffer, call)
read_attempts bios id cylinder sector head count (suc left) call buffer =
    let (good, bytes) = bios.disk_read call id cylinder sector head count in
    let again = read_attempts bios id cylinder sector head count left (call + 2) bytes in
    if good then (true, bytes, call + 1) else again

-- `sectors` is a `uint8_t`: a larger count is cut off at the call.
unfoldable pub disk_read_sectors : Bios → Disk → (call lba sectors : ℕ) → Mem → Bool × Mem × ℕ
unfolding disk_lba2chs read_attempts
disk_read_sectors bios disk call lba sectors buffer =
    let (cylinder, sector, head) = disk_lba2chs disk (u32 lba) in
    read_attempts bios disk.id cylinder sector head (u8 sectors) 3 call buffer
