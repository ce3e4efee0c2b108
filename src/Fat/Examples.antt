-- ===== src/Fat/Examples.antt =====
-- Runs of the file system at a small disk, and the theorems at it.
use toy_kernel.Common.{
  ℕ, zero, suc, ◌+◌, ◌-◌, ◌*◌, ◌≤◌, ◌≡◌, refl, [], ◌∷◌, ◌++◌, map, arith, length,
}
use toy_kernel.Disk.{disk_read_sectors}
use toy_kernel.Fat.{
  read_sector, root_directory_handle, Fat, file_of, fat_cluster_to_lba, fat_next_cluster,
}
use toy_kernel.Fat.Read.{slice, bytes_to_read, fat_read}
use toy_kernel.Fat.Stream.{ReadOut}
use toy_kernel.Fat.Chain.{InReach, Serves, InSector, Stopped, file_lba, file_sector}
use toy_kernel.Fat.Root.{root_sector}
use toy_kernel.Fat.Search.{RootAt, first_named, entries_from, fat_find_file-first_named}
use toy_kernel.Fat.Files.{fat_read-ReadOut}
use toy_kernel.Fat.Table.{fat_next_cluster_lem}
use toy_kernel.Fat.Names.{toupper, fat_name}
use toy_kernel.Fat.Open.{fat_open_entry, fat_close, fat_find_file}
use toy_kernel.Fat.Listing.{list_entry}
use toy_kernel.Fat.Opening.{OpenedAs, fat_open_entry-OpenedAs}
use toy_kernel.Fat.Closing.{fat_read-fat_close}
use toy_kernel.Fat.Printed.{list_entry-fat_name}
use toy_kernel.Fat.Sample.{
  steady, steady-NeverFails, steady-Serves, file-IsOpen, floppy, image, drive, file, fat, entry,
}

drive-Serves : Serves drive image
drive-Serves = record { is_drive = omega arith; holds = λ call c s h n i good l. refl }

reach_file : (k : ℕ) → k ≤ 2 → InReach floppy (file_lba fat 2 k)
unfolding fat_cluster_to_lba fat_next_cluster
reach_file zero h = omega arith
reach_file (suc zero) h = omega arith
reach_file (suc (suc zero)) h = omega arith
reach_file (suc (suc (suc k))) h = absurd (omega arith)

abbrev near_edge : Fat
near_edge = record fat {
  opened_files =
      record file { file = record (file.file) { position = 1000 }; current_sector_in_cluster = 1 }
      ∷ [];
}

-- Sixty bytes over the edge of a cluster.
fat_read_edge : length (fat_read drive near_edge 0 60).0 ≡ 60
unfolding fat_read fat_cluster_to_lba fat_next_cluster read_sector disk_read_sectors slice
fat_read_edge = refl

fat_next_cluster_example :
    (fat_next_cluster fat (2 * 1) ≡ 3) × (fat_next_cluster fat (2 * 1 + 1) ≡ 0xfff)
fat_next_cluster_example = fat_next_cluster_lem fat 1 3 0xfff (omega arith) (record {
  even_low = omega arith;
  odd_low = omega arith;
  first = refl;
  second = refl;
  third = refl;
})

fat_read-ReadOut_example :
    let r = fat_read drive fat 0 1500 in
    ReadOut
      (file_sector fat image 2)
      (InSector fat 2 (file_of fat 0).file.size)
      (Stopped drive fat 2)
      (file_of fat 0).file.position
      (bytes_to_read (file_of fat 0).file 1500)
      (r.0, file_of r.1 0, r.1.call)
unfolding file_of bytes_to_read
fat_read-ReadOut_example =
    fat_read-ReadOut drive fat image 2 0 1500 drive-Serves file-IsOpen (λ e. omega (arith, e))
      (omega arith) reach_file

fat_open_entry-OpenedAs_example : OpenedAs fat image entry 1 (fat_open_entry drive fat entry).1
unfolding fat_open_entry fat_cluster_to_lba read_sector disk_read_sectors
fat_open_entry-OpenedAs_example =
    fat_open_entry-OpenedAs drive fat image entry 1 drive-Serves (omega arith) (omega arith)
      (omega arith) (omega arith) refl

fat_read-fat_close_example :
    (fat_read drive (fat_close fat root_directory_handle) root_directory_handle 32).0
    ≡ slice (root_sector image 19 1) 0 32
fat_read-fat_close_example =
    fat_read-fat_close drive fat image 19 1 32 (λ i h. refl) (omega arith) (omega arith)
      (omega arith) (omega arith)

-- "k.b"
list_entry-fat_name_run : list_entry entry ≡ map toupper (0x6b ∷ 0x2e ∷ 0x62 ∷ []) ++ 0x0a ∷ []
unfolding fat_name toupper
list_entry-fat_name_run =
    list_entry-fat_name (0x6b ∷ []) (0x62 ∷ []) entry (omega arith) (omega arith) (omega arith)
      (omega arith) (omega arith) refl (λ e. omega (arith, e)) refl refl

root-RootAt : RootAt image 19 224 16 fat
root-RootAt = record {
  placed = record { root = refl; directory = refl; length = refl; cluster = refl };
  buffered = λ i h. refl;
  position = refl;
}

-- "k.b" among the 208 entries from the second sector on.
fat_find_file-first_named_example :
    (fat_find_file steady fat 209 root_directory_handle (0x6b ∷ 0x2e ∷ 0x62 ∷ [])).0
    ≡ first_named (fat_name (0x6b ∷ 0x2e ∷ 0x62 ∷ [])) (entries_from image 19 (224 - 16) 16)
fat_find_file-first_named_example =
    fat_find_file-first_named steady image 19 224 steady-Serves steady-NeverFails (omega arith)
      (omega arith) (λ k h. (omega (arith, h), omega (arith, h))) 209 16 fat
      (0x6b ∷ 0x2e ∷ 0x62 ∷ []) (omega arith) (omega arith) root-RootAt
