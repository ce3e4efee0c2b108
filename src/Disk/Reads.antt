-- ===== src/Disk/Reads.antt =====
-- What `DISK_ReadSectors` returns on a disk with known contents.
use toy_kernel.Common.{
  ℕ, zero, suc, ◌+◌, ◌*◌, ◌/◌, ◌^◌, ◌<◌, ◌≡◌, refl, ap, ◌∙◌, inl, inr, Bool, true, false, ◌||◌,
  arith, Bool-cases, u8, u32,
}
use toy_kernel.Memory.{Mem}
use toy_kernel.Disk.{Bios, Disk, disk_lba2chs, read_attempts, disk_read_sectors}
use toy_kernel.Disk.Geometry.{IsDrive, chs2lba, disk_lba2chs_lem}

-- A call that the BIOS reports as good has transferred the sectors that it was asked for, from a
-- disk whose bytes are `image`.
abbrev pub Holds : Bios → Disk → Mem → Type 0
Holds bios disk image =
    (call cylinder sector head count i : ℕ)
    → (bios.disk_read call disk.id cylinder sector head count).0 ≡ true
    → i < count * 512
    → (bios.disk_read call disk.id cylinder sector head count).1 i
      ≡ image (chs2lba disk (cylinder, sector, head) * 512 + i)

-- Whether one of the `left` attempts from the call `call` on is good.
abbrev pub attempts : Bios → Disk → (cylinder sector head count left call : ℕ) → Bool
attempts bios disk cylinder sector head count zero call = false
attempts bios disk cylinder sector head count (suc left) call =
    (bios.disk_read call disk.id cylinder sector head count).0
    || attempts bios disk cylinder sector head count left (call + 2)

or_three : (a b c : Bool) → (a || (b || (c || false))) ≡ (a || b || c)
or_three true b c = refl
or_three false true c = refl
or_three false false true = refl
or_three false false false = refl

module _ (bios : Bios) (disk : Disk) (cylinder sector head count : ℕ) where
  read_attempts_flag :
      (left call : ℕ) (buffer : Mem)
      → (read_attempts bios disk.id cylinder sector head count left call buffer).0
        ≡ attempts bios disk cylinder sector head count left call
  unfolding read_attempts
  read_attempts_flag zero call buffer = refl
  read_attempts_flag (suc left) call buffer =
      let r = bios.disk_read call disk.id cylinder sector head count in
      elim (Bool-cases (r.0)) [
        | inl good ↦ rw good
        | inr bad ↦ rw bad (read_attempts_flag left (call + 2) (r.1))
      ]

  read_attempts_bytes :
      (image : Mem)
      → Holds bios disk image
      → (left call : ℕ) (buffer : Mem) (i : ℕ)
      → (read_attempts bios disk.id cylinder sector head count left call buffer).0 ≡ true
      → i < count * 512
      → (read_attempts bios disk.id cylinder sector head count left call buffer).1 i
        ≡ image (chs2lba disk (cylinder, sector, head) * 512 + i)
  unfolding read_attempts
  read_attempts_bytes image holds zero call buffer i e h = cc
  read_attempts_bytes image holds (suc left) call buffer i e h =
      let r = bios.disk_read call disk.id cylinder sector head count in
      elim (Bool-cases (r.0)) [
        | inl good ↦ rw good (holds call cylinder sector head count i good h)
        | inr bad ↦
            let e' = rw bad at e in
            rw bad (read_attempts_bytes image holds left (call + 2) (r.1) i e' h)
      ]

-- The drive's BIOS call for the sectors from `lba` on, the call being number `call`.
abbrev pub attempt : Bios → Disk → (call lba sectors : ℕ) → Bool
attempt bios disk call lba sectors =
    let (cylinder, sector, head) = disk_lba2chs disk lba in
    (bios.disk_read call disk.id cylinder sector head sectors).0

-- The attempts to read, where nothing is cut off at the call.
disk_read_sectors_attempts :
    (bios : Bios) (disk : Disk) (call lba sectors : ℕ) (buffer : Mem)
    → lba < 2 ^ 32
    → sectors < 2 ^ 8
    → let place = disk_lba2chs disk lba in
      disk_read_sectors bios disk call lba sectors buffer
      ≡ read_attempts bios disk.id place.0 place.1 place.2 sectors 3 call buffer
unfolding disk_read_sectors
disk_read_sectors_attempts bios disk call lba sectors buffer low few =
    let all : u32 lba ≡ lba = omega arith in
    let count : u8 sectors ≡ sectors = omega arith in rw (all, count) refl

-- On a drive with known contents, `DISK_ReadSectors` of fewer than 256 sectors from a sector within
-- the drive's reach succeeds exactly when one of three attempts does, and then has put the bytes of
-- those sectors into the buffer.
pub disk_read_sectors_lem :
    (bios : Bios) (disk : Disk) (image : Mem) (call lba sectors : ℕ) (buffer : Mem)
    → IsDrive disk
    → Holds bios disk image
    → lba < 2 ^ 32
    → lba / disk.sectors / disk.heads < 2 ^ 16
    → sectors < 2 ^ 8
    → let r = disk_read_sectors bios disk call lba sectors buffer in
      (r.0 ≡ (
        attempt bios disk call lba sectors
        || attempt bios disk (call + 2) lba sectors
        || attempt bios disk (call + 4) lba sectors))
      × (r.0 ≡ true → (i : ℕ) → i < sectors * 512 → r.1 i ≡ image (lba * 512 + i))
disk_read_sectors_lem bios disk image call lba sectors buffer d holds low fits few =
    let (cylinder, sector, head) = disk_lba2chs disk lba in
    rw (disk_read_sectors_attempts bios disk call lba sectors buffer low few) (
      read_attempts_flag bios disk cylinder sector head sectors 3 call buffer
          ∙ (let four : call + 2 + 2 ≡ call + 4 = omega arith in
              rw four (
                or_three (attempt bios disk call lba sectors)
                  (attempt bios disk (call + 2) lba sectors)
                  (attempt bios disk (call + 4) lba sectors))),
      λ good i h.
          read_attempts_bytes bios disk cylinder sector head sectors image holds 3 call buffer i
            good h
          ∙ ap (λ n. image (n * 512 + i)) (disk_lba2chs_lem disk lba d fits).0,
    )
