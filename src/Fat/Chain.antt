-- ===== src/Fat/Chain.antt =====
-- The sectors of a file, along its chain of clusters, and `FAT_Read` of a file.
use toy_kernel.Common.{
  ℕ, zero, suc, ◌+◌, ◌*◌, ◌/◌, ◌%◌, ◌^◌, ◌≤◌, ◌<◌, ◌≡◌, refl, sym, ap, ◌∙◌, ◌≢◌, inl, inr, Bool,
  true, false, arith, leb, ◌==◌, leb→le, Bool-cases, u32,
}
use native.Mathlib.Nat.{mod-lt}
use toy_kernel.Common.Division.{div_mod_inside, div_mod_edge}
use toy_kernel.Memory.{Mem}
use toy_kernel.Disk.{Disk}
use toy_kernel.Disk.Geometry.{IsDrive}
use toy_kernel.Disk.Reads.{Holds, disk_read_sectors_lem}
use toy_kernel.Fat.{
  root_directory_handle, FatFileData, Fat, Drive, read_sector, fat_cluster_to_lba, fat_next_cluster,
}
use toy_kernel.Fat.Read.{step_sector, next_file_sector, next_sector, read_loop}
use toy_kernel.Fat.Stream.{Next, onward, stopped, Buffered, ReadOut}
use toy_kernel.Fat.Stream.Loop.{read_loop-ReadOut}

-- A sector that a BIOS call can name.
abbrev pub InReach : Disk → ℕ → Type 0
InReach disk lba = (lba < 2 ^ 32) × (lba / disk.sectors / disk.heads < 2 ^ 16)

-- A drive whose bytes are `image`.
pub record Serves (drive : Drive) (image : Mem) : Type 0 where
  pub is_drive : IsDrive drive.disk
  pub holds : Holds drive.bios drive.disk image

pub read_sector_lem :
    (drive : Drive) (image : Mem) (call lba : ℕ) (buffer : Mem) (i : ℕ)
    → Serves drive image
    → InReach drive.disk lba
    → (read_sector drive call lba buffer).0 ≡ true
    → i < 512
    → (read_sector drive call lba buffer).1 i ≡ image (lba * 512 + i)
unfolding read_sector
read_sector_lem drive image call lba buffer i s reach good h =
    (disk_read_sectors_lem drive.bios drive.disk image call lba 1 buffer s.is_drive s.holds reach.0
        reach.1 (omega arith)).1
      good i (omega arith)

-- The cluster that comes `k` steps behind the first.
abbrev pub chain : Fat → (first k : ℕ) → ℕ
chain fat first zero = first
chain fat first (suc k) = fat_next_cluster fat (chain fat first k)

chain_next :
    (fat : Fat) (first k : ℕ) → chain fat first (k + 1) ≡ fat_next_cluster fat (chain fat first k)
chain_next fat first k = let e : k + 1 ≡ suc k = omega arith in rw e refl

-- The sector of the disk that is the sector `k` of the file.
abbrev pub file_lba : Fat → (first k : ℕ) → ℕ
file_lba fat first k =
    let spc = fat.boot_sector.sectors_per_cluster in
    u32 (fat_cluster_to_lba fat (chain fat first (k / spc)) + k % spc)

-- The bytes of the sector `k` of the file.
abbrev pub file_sector : Fat → Mem → (first k : ℕ) → Mem
file_sector fat image first k i = image (file_lba fat first k * 512 + i)

-- An open file of `size` bytes stands in its sector `k`.
pub record InSector (fat : Fat) (first size : ℕ) (fd : FatFileData) (k : ℕ) : Type 0 where
  pub no_root : fd.file.handle ≢ root_directory_handle
  pub length : fd.file.size ≡ size
  pub cluster : fd.current_cluster ≡ chain fat first (k / fat.boot_sector.sectors_per_cluster)
  pub sector : fd.current_sector_in_cluster ≡ k % fat.boot_sector.sectors_per_cluster

-- Why reading stops in the sector `k`: the chain has ended, or the disk has failed.
pub data Stopped (drive : Drive) (fat : Fat) (first : ℕ) (fd : FatFileData) (k : ℕ) : Type 0 where
  end_of_chain :
      0xff8 ≤ chain fat first (k / fat.boot_sector.sectors_per_cluster)
      → fd.file.size ≡ fd.file.position
      → Stopped drive fat first fd k
  read_error :
      (call : ℕ) (buffer : Mem)
      → (read_sector drive call (file_lba fat first k) buffer).0 ≡ false
      → Stopped drive fat first fd k

module _ (drive : Drive) (fat : Fat) (first size : ℕ)
    (clusters : 0 < fat.boot_sector.sectors_per_cluster)
    (bytes : fat.boot_sector.sectors_per_cluster < 2 ^ 8) where
  abbrev spc : ℕ
  spc = fat.boot_sector.sectors_per_cluster

  step_sector-InSector :
      (fd : FatFileData) (k : ℕ)
      → InSector fat first size fd k
      → InSector fat first size (step_sector fat fd) (k + 1)
  unfolding step_sector
  step_sector-InSector fd k at =
      let below = mod-lt k clusters in
      let cs = at.sector in
      let sector : u32 (fd.current_sector_in_cluster + 1) ≡ k % spc + 1 =
        omega (arith, below, cs) in
      elim (Bool-cases (leb spc (u32 (fd.current_sector_in_cluster + 1)))) [
        | inl edge ↦
            let e = div_mod_edge k spc (ground (arith, sector)) in
            rw edge (record {
              no_root = at.no_root;
              length = at.length;
              cluster =
                  rw e.0
                    (ap (fat_next_cluster fat) at.cluster ∙ sym (chain_next fat first (k / spc)));
              sector = rw e.1 refl;
            })
        | inr inside ↦
            let e = div_mod_inside k spc (ground (arith, sector)) in
            rw inside (record {
              no_root = at.no_root;
              length = at.length;
              cluster = rw e.0 at.cluster;
              sector = rw e.1 sector;
            })
      ]

  step_sector_file : (fd : FatFileData) → (step_sector fat fd).file ≡ fd.file
  unfolding step_sector
  step_sector_file fd = elim (Bool-cases (leb spc (u32 (fd.current_sector_in_cluster + 1)))) [
    | inl edge ↦ rw edge refl
    | inr inside ↦ rw inside refl
  ]

  next_sector_file :
      (fd : FatFileData) (call : ℕ)
      → fd.file.handle ≢ root_directory_handle
      → next_sector drive fat fd call ≡ next_file_sector drive fat fd call
  unfolding next_sector
  next_sector_file fd call ne =
      let other : (fd.file.handle == root_directory_handle) ≡ false = ground arith in rw other refl

  module _ (image : Mem) (serves : Serves drive image) (k : ℕ)
      (reach : InReach drive.disk (file_lba fat first k)) where
    -- A good read of the sector where the file has been moved to, or a failed one.
    read_moved :
        (moved : FatFileData) (position call : ℕ) (r : Bool × Mem × ℕ)
        → InSector fat first size moved k
        → moved.file.position ≡ position
        → read_sector drive call (file_lba fat first k) moved.buffer ≡ r
        → Next
            (file_sector fat image first)
            (InSector fat first size)
            (Stopped drive fat first)
            k
            position
            (r.0, record moved { buffer = r.1 }, r.2)
    read_moved moved position call (true, bytes, next) at here e =
        onward
          (record {
            no_root = at.no_root;
            length = at.length;
            cluster = at.cluster;
            sector = at.sector;
          })
          (λ i h.
            ap (λ r. r.1 i) (sym e)
            ∙ read_sector_lem drive image call (file_lba fat first k) moved.buffer i serves reach
                (ap (λ r. r.0) e) h)
          here
    read_moved moved position call (false, bytes, next) at here e =
        stopped (read_error call moved.buffer (ap (λ r. r.0) e)) here

    -- The step to the next sector of a file.
    next_file_sector-Next :
        (fd : FatFileData) (call : ℕ)
        → InSector fat first size (step_sector fat fd) k
        → Next
            (file_sector fat image first)
            (InSector fat first size)
            (Stopped drive fat first)
            k
            fd.file.position
            (next_file_sector drive fat fd call)
    unfolding next_file_sector
    next_file_sector-Next fd call at =
        let moved = step_sector fat fd in
        let here : moved.file.position ≡ fd.file.position =
          ap (λ f. f.position) (step_sector_file fd) in
        let place : u32
              (fat_cluster_to_lba fat moved.current_cluster + moved.current_sector_in_cluster)
            ≡ file_lba fat first k =
          rw (at.cluster, at.sector) refl in
        elim (Bool-cases (leb 0xff8 moved.current_cluster)) [
          | inl ended ↦ rw ended (
              stopped
                (end_of_chain (omega (arith, leb→le 0xff8 moved.current_cluster ended, at.cluster))
                  refl)
                here)
          | inr going ↦ rw (going, place) (read_moved moved fd.file.position call _ at here refl)
        ]

  -- The loop of `FAT_Read` on a file, up to its sector `last`.
  pub file-ReadOut :
      (image : Mem) (last : ℕ) (fuel : ℕ) (fd : FatFileData) (call want : ℕ)
      → Serves drive image
      → ((k : ℕ) → k ≤ last → InReach drive.disk (file_lba fat first k))
      → want ≤ fuel
      → fd.file.position + want < 2 ^ 32
      → (fd.file.position + want) / 512 ≤ last
      → InSector fat first size fd (fd.file.position / 512)
      → Buffered (file_sector fat image first) fd (fd.file.position / 512)
      → ReadOut
          (file_sector fat image first)
          (InSector fat first size)
          (Stopped drive fat first)
          fd.file.position
          want
          (read_loop drive fat fuel fd call want)
  file-ReadOut image last fuel fd call want serves reach enough low within at buffered =
      read_loop-ReadOut drive fat (file_sector fat image first) (InSector fat first size)
        (Stopped drive fat first) last
        (λ fd k p at. record {
          no_root = at.no_root;
          length = at.length;
          cluster = at.cluster;
          sector = at.sector;
        })
        (λ fd k call at below. rw (next_sector_file fd call at.no_root) (
          next_file_sector-Next image serves (k + 1) (reach (k + 1) (omega arith)) fd call
            (step_sector-InSector fd k at)))
        fuel fd call want enough low within at buffered
