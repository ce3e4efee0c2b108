-- ===== src/Fat/Closing.antt =====
-- What closing the root directory leaves for the next search of it.
use toy_kernel.Common.{ℕ, zero, suc, ◌+◌, ◌%◌, ◌^◌, ◌≤◌, ◌<◌, ◌≡◌, refl, ap, ◌∙◌, arith}
use toy_kernel.Memory.{Mem}
use toy_kernel.Fat.{root_directory_handle, FatFile, FatFileData, Fat, Drive, file_of}
use toy_kernel.Fat.Read.{slice, bytes_to_read, read_loop, fat_read}
use toy_kernel.Fat.Stream.{Buffered, slice_congr}
use toy_kernel.Fat.Stream.Loop.{read_loop_part}
use toy_kernel.Fat.Root.{root_sector}
use toy_kernel.Fat.Files.{fat_read_loop}
use toy_kernel.Fat.Open.{fat_close}

-- The root directory once it has been closed.
closed_root :
    (fat : Fat)
    → let root = fat.root_directory in
      file_of (fat_close fat root_directory_handle) root_directory_handle ≡ record root {
        file = record (root.file) { position = 0 };
        current_cluster = root.first_cluster;
      }
unfolding fat_close
closed_root fat = refl

bytes_to_read-all :
    (file : FatFile) (n : ℕ)
    → file.position ≡ 0
    → n ≤ file.size
    → 0 < n
    → file.size < 2 ^ 32
    → bytes_to_read file n ≡ n
unfolding bytes_to_read
bytes_to_read-all file n at le more low = ground arith

-- A read from the first byte that does not empty the buffer.
loop_start :
    (drive : Drive) (fat : Fat) (fd : FatFileData) (call n : ℕ)
    → fd.file.position ≡ 0
    → 0 < n
    → n < 512
    → (read_loop drive fat n fd call n).0 ≡ slice fd.buffer 0 n
loop_start drive fat fd call zero at more less = absurd (omega arith)
loop_start drive fat fd call (suc n) at more less =
    ap (λ r. r.0) (read_loop_part drive fat n fd call (suc n) (omega arith) more (omega arith))
    ∙ ap (λ p. slice fd.buffer (p % 512) (suc n)) at

-- `FAT_Close` sets the root directory back to its first byte and leaves its buffer as it is. Where
-- that held the sector `k` of the directory, the next bytes that are read, fewer than a sector, are
-- those at the start of the sector `k`.
pub fat_read-fat_close :
    (drive : Drive) (fat : Fat) (image : Mem) (first k n : ℕ)
    → Buffered (root_sector image first) fat.root_directory k
    → 0 < n
    → n < 512
    → n ≤ fat.root_directory.file.size
    → fat.root_directory.file.size < 2 ^ 32
    → (fat_read drive (fat_close fat root_directory_handle) root_directory_handle n).0
      ≡ slice (root_sector image first k) 0 n
fat_read-fat_close drive fat image first k n buffered more less le low =
    let t = fat_close fat root_directory_handle in
    let root = fat.root_directory in
    let at_start = record root {
      file = record (root.file) { position = 0 };
      current_cluster = root.first_cluster;
    } in
    let all = bytes_to_read-all at_start.file n refl le more low in
    ap (λ x. x.0) (fat_read_loop drive t root_directory_handle n)
    ∙ rw (closed_root fat, all)
        (loop_start drive t at_start t.call n refl more less
          ∙ slice_congr root.buffer (root_sector image first k) 0 0 n
              (λ j h. buffered (0 + j) (omega arith)))
