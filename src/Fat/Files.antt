-- ===== src/Fat/Files.antt =====
-- `FAT_Read` as a whole.
use toy_kernel.Common.{
  ℕ, zero, suc, ◌+◌, ◌/◌, ◌^◌, ◌≤◌, ◌<◌, ◌≡◌, refl, ap, ◌≢◌, false, List, [], ◌∷◌, arith, ◌==◌,
  length, get_or, set,
}
use toy_kernel.Memory.{Mem}
use toy_kernel.Fat.{root_directory_handle, FatFileData, Fat, Drive, file_of, put_file}
use toy_kernel.Fat.Read.{bytes_to_read, read_loop, fat_read}
use toy_kernel.Fat.Stream.{Buffered, ReadOut}
use toy_kernel.Fat.Chain.{InReach, Serves, InSector, Stopped, file_lba, file_sector, file-ReadOut}

pub get_or-set_self :
    (xs : List FatFileData) (i : ℕ) (x d : FatFileData)
    → i < length xs
    → get_or (set xs i x) i d ≡ x
get_or-set_self [] i x d h = absurd (omega arith)
get_or-set_self (y ∷ xs) zero x d h = refl
get_or-set_self (y ∷ xs) (suc i) x d h = get_or-set_self xs i x d (omega arith)

pub get_or-set_ne :
    (xs : List FatFileData) (i j : ℕ) (x d : FatFileData)
    → j ≢ i
    → get_or (set xs i x) j d ≡ get_or xs j d
get_or-set_ne [] i j x d ne = refl
get_or-set_ne (y ∷ xs) zero zero x d ne = absurd (ne refl)
get_or-set_ne (y ∷ xs) zero (suc j) x d ne = refl
get_or-set_ne (y ∷ xs) (suc i) zero x d ne = refl
get_or-set_ne (y ∷ xs) (suc i) (suc j) x d ne = get_or-set_ne xs i j x d (λ e. ne (ap suc e))

pub file_of-put_file :
    (fat : Fat) (handle : ℕ) (fd : FatFileData)
    → handle < length fat.opened_files
    → handle ≢ root_directory_handle
    → file_of (put_file fat handle fd) handle ≡ fd
unfolding file_of put_file
file_of-put_file fat handle fd h ne =
    let other : (handle == root_directory_handle) ≡ false = ground arith in
    rw other (get_or-set_self fat.opened_files handle fd _ h)

file_of-call :
    (fat : Fat) (handle call : ℕ) → file_of (record fat { call = call }) handle ≡ file_of fat handle
unfolding file_of
file_of-call fat handle call = refl

pub fat_read_loop :
    (drive : Drive) (fat : Fat) (handle byte_count : ℕ)
    → let fd = file_of fat handle in
      let size = bytes_to_read fd.file byte_count in
      let r = read_loop drive fat size fd fat.call size in
      fat_read drive fat handle byte_count ≡ (r.0, record (put_file fat handle r.1) { call = r.2 })
unfolding fat_read
fat_read_loop drive fat handle byte_count = refl

-- An open file of a drive stands where its position says, on a chain that starts at `first`.
pub record IsOpen (fat : Fat) (image : Mem) (first handle : ℕ) : Type 0 where
  pub handle_low : handle < length (fat.opened_files)
  pub clusters : 0 < fat.boot_sector.sectors_per_cluster
  pub clusters_low : fat.boot_sector.sectors_per_cluster < 2 ^ 8
  pub placed :
      InSector fat first
        (file_of fat handle).file.size
        (file_of fat handle)
        ((file_of fat handle).file.position / 512)
  pub buffered :
      Buffered
        (file_sector fat image first)
        (file_of fat handle)
        ((file_of fat handle).file.position / 512)

-- `FAT_Read` of an open file, on a drive that reads what it holds, where the BIOS can name the
-- sectors in question: what is read are the bytes of the file along its chain of clusters, from the
-- file's position on, which moves behind them. They are all that was asked for, cut to the size of
-- the file, and the file is still in step; or the chain has ended there, or the disk has failed.
pub fat_read-ReadOut :
    (drive : Drive) (fat : Fat) (image : Mem) (first handle byte_count : ℕ)
    → let file = (file_of fat handle).file in
      let want = bytes_to_read file byte_count in
      Serves drive image
      → IsOpen fat image first handle
      → handle ≢ root_directory_handle
      → file.position + want < 2 ^ 32
      → ((k : ℕ) → k ≤ (file.position + want) / 512 → InReach drive.disk (file_lba fat first k))
      → let r = fat_read drive fat handle byte_count in
        ReadOut
          (file_sector fat image first)
          (InSector fat first file.size)
          (Stopped drive fat first)
          file.position
          want
          (r.0, file_of r.1 handle, r.1.call)
fat_read-ReadOut drive fat image first handle byte_count serves open_file ne low reach =
    let fd = file_of fat handle in
    let want = bytes_to_read fd.file byte_count in
    let r = read_loop drive fat want fd fat.call want in
    rw
      (
        fat_read_loop drive fat handle byte_count,
        file_of-call (put_file fat handle r.1) handle r.2,
        file_of-put_file fat handle r.1 open_file.handle_low ne,
      )
      (file-ReadOut drive fat first fd.file.size open_file.clusters open_file.clusters_low image
        ((fd.file.position + want) / 512) want fd fat.call want serves reach (omega arith) low
        (omega arith) open_file.placed open_file.buffered)
