-- ===== src/Fat/Opening.antt =====
-- What opening a directory entry leaves.
use toy_kernel.Common.{
  ℕ, suc, ◌+◌, ◌-◌, ◌/◌, ◌%◌, ◌^◌, ◌≤◌, ◌<◌, ◌≡◌, refl, ap, ◌∙◌, ◌≢◌, inl, inr, Bool, true, false,
  none, some, List, [], ◌∷◌, arith, ◌==◌, if◌then◌else◌, Bool-cases, Option-cases, u32, ◌<<<◌,
  length, get_or, set, length-set,
}
use native.Mathlib.Nat.{zero-div, mod-eq_of_lt}
use toy_kernel.Memory.{Mem}
use toy_kernel.Fat.{
  root_directory_handle, FatDirectoryEntry, FatFileData, Fat, Drive, read_sector,
  fat_cluster_to_lba, file_of,
}
use toy_kernel.Fat.Chain.{InReach, Serves, InSector, file_lba, read_sector_lem}
use toy_kernel.Fat.Files.{IsOpen, get_or-set_self, get_or-set_ne}
use toy_kernel.Fat.Open.{find_handle, opened_as, fat_open_entry}

abbrev pub first_cluster_of : FatDirectoryEntry → ℕ
first_cluster_of entry = u32 (entry.first_cluster_low + entry.first_cluster_high <<< 16)

find_handle-lt :
    (files : List FatFileData) (i h : ℕ)
    → find_handle files i ≡ some h
    → (i ≤ h) × (h < i + length files)
unfolding find_handle
find_handle-lt [] i h e = cc
find_handle-lt (fd ∷ files) i h e = ground (arith, find_handle-lt files (i + 1) h)

find_handle-free :
    (files : List FatFileData) (i h : ℕ) (d : FatFileData)
    → find_handle files i ≡ some h
    → (get_or files (h - i) d).opened ≡ false
unfolding find_handle
find_handle-free [] i h d e = cc
find_handle-free (fd ∷ files) i h d e = elim (Bool-cases (fd.opened)) [
  | inl used ↦
      let e' = rw used at e in
      let at_least = find_handle-lt files (i + 1) h e' in
      let step : h - i ≡ suc (h - (i + 1)) = omega arith in
      rw step (find_handle-free files (i + 1) h d e')
  | inr free ↦ let e' = rw free at e in let here : h - i ≡ 0 = ground arith in rw here free
]

file_of-free :
    (fat : Fat) (h : ℕ)
    → find_handle fat.opened_files 0 ≡ some h
    → h ≢ root_directory_handle
    → (file_of fat h).opened ≡ false
unfolding file_of
file_of-free fat h e ne =
    let other : (h == root_directory_handle) ≡ false = ground arith in
    let whole : h - 0 ≡ h = omega arith in
    rw other (rw whole at (find_handle-free fat.opened_files 0 h fat.root_directory e))

-- What `FAT_OpenEntry` leaves, where it has found the handle `h`.
abbrev with_file : Fat → (h : ℕ) → FatFileData → (call : ℕ) → Fat
with_file fat h fd call = record fat { opened_files = set fat.opened_files h fd; call = call }

fat_open_entry_cases :
    (drive : Drive) (fat : Fat) (entry : FatDirectoryEntry) (h : ℕ)
    → find_handle fat.opened_files 0 ≡ some h
    → h ≢ root_directory_handle
    → let fd = opened_as (file_of fat h) h entry in
      let r = read_sector drive fat.call (fat_cluster_to_lba fat fd.current_cluster) fd.buffer in
      fat_open_entry drive fat entry ≡ (
        if r.0
        then (some h, with_file fat h (record fd { buffer = r.1; opened = true }) r.2)
        else (none, with_file fat h (record fd { buffer = r.1 }) r.2))
unfolding fat_open_entry
fat_open_entry_cases drive fat entry h e ne =
    let other : (h == root_directory_handle) ≡ false = ground arith in
    rw (e, fat_open_entry) (rw other refl)

-- With no handle free, nothing is changed.
pub fat_open_entry-full :
    (drive : Drive) (fat : Fat) (entry : FatDirectoryEntry)
    → find_handle fat.opened_files 0 ≡ none
    → fat_open_entry drive fat entry ≡ (none, fat)
unfolding fat_open_entry
fat_open_entry-full drive fat entry e = rw (e, fat_open_entry) refl

file_of-with_file :
    (fat : Fat) (h : ℕ) (fd : FatFileData) (call : ℕ)
    → h < length fat.opened_files
    → h ≢ root_directory_handle
    → file_of (with_file fat h fd call) h ≡ fd
unfolding file_of
file_of-with_file fat h fd call low ne =
    let other : (h == root_directory_handle) ≡ false = ground arith in
    rw other (get_or-set_self fat.opened_files h fd _ low)

file_of-with_file_ne :
    (fat : Fat) (h g : ℕ) (fd : FatFileData) (call : ℕ)
    → g ≢ h
    → file_of (with_file fat h fd call) g ≡ file_of fat g
unfolding file_of
file_of-with_file_ne fat h g fd call ne = elim (Bool-cases (g == root_directory_handle)) [
  | inl root ↦ rw root refl
  | inr other ↦ rw other (get_or-set_ne fat.opened_files h g fd fat.root_directory ne)
]

cluster_to_lba-with_file :
    (fat : Fat) (h : ℕ) (fd : FatFileData) (call cluster : ℕ)
    → fat_cluster_to_lba (with_file fat h fd call) cluster ≡ fat_cluster_to_lba fat cluster
unfolding fat_cluster_to_lba
cluster_to_lba-with_file fat h fd call cluster = refl

-- A file just opened stands in its first sector.
at_start :
    (fat : Fat) (first : ℕ) (fd : FatFileData)
    → fd.file.handle ≢ root_directory_handle
    → fd.current_cluster ≡ first
    → fd.current_sector_in_cluster ≡ 0
    → 0 < fat.boot_sector.sectors_per_cluster
    → InSector fat first fd.file.size fd 0
at_start fat first fd ne cluster sector h =
    let none_behind : 0 / fat.boot_sector.sectors_per_cluster ≡ 0 = zero-div _ in
    let none_past : 0 % fat.boot_sector.sectors_per_cluster ≡ 0 = mod-eq_of_lt h in
    record {
      no_root = ne;
      length = refl;
      cluster = rw none_behind cluster;
      sector = rw none_past sector;
    }

first_lba :
    (fat : Fat) (first : ℕ)
    → 0 < fat.boot_sector.sectors_per_cluster
    → file_lba fat first 0 ≡ fat_cluster_to_lba fat first
unfolding fat_cluster_to_lba
first_lba fat first h =
    let none_behind : 0 / fat.boot_sector.sectors_per_cluster ≡ 0 = zero-div _ in
    let none_past : 0 % fat.boot_sector.sectors_per_cluster ≡ 0 = mod-eq_of_lt h in
    rw (none_behind, none_past) (omega arith)

-- What opening an entry with the handle `h` promises: the handle was free, the file stands at its
-- first byte on its chain of clusters with the entry's size, and no other file is changed.
pub record OpenedAs (fat : Fat) (image : Mem) (entry : FatDirectoryEntry) (h : ℕ) (t : Fat)
    : Type 0 where
  pub was_free : (file_of fat h).opened ≡ false
  pub is_opened : (file_of t h).opened ≡ true
  pub at_first_byte : (file_of t h).file.position ≡ 0
  pub size : (file_of t h).file.size ≡ entry.size
  pub in_step : IsOpen t image (first_cluster_of entry) h
  pub others : (g : ℕ) → g ≢ h → file_of t g ≡ file_of fat g

module _ (drive : Drive) (fat : Fat) (image : Mem) (entry : FatDirectoryEntry) (h : ℕ)
    (serves : Serves drive image) (clusters : 0 < fat.boot_sector.sectors_per_cluster)
    (bytes : fat.boot_sector.sectors_per_cluster < 2 ^ 8)
    (reach : InReach drive.disk (fat_cluster_to_lba fat (first_cluster_of entry))) where
  abbrev fd : FatFileData
  fd = opened_as (file_of fat h) h entry

  abbrev r : Bool × Mem × ℕ
  r = read_sector drive fat.call (fat_cluster_to_lba fat fd.current_cluster) fd.buffer

  abbrev opened_fd : FatFileData
  opened_fd = record fd { buffer = r.1; opened = true }

  abbrev opened_fat : Fat
  opened_fat = with_file fat h opened_fd r.2

  -- The handle `h` after a good read of the first sector.
  opened_good :
      h < length fat.opened_files
      → h ≢ root_directory_handle
      → (file_of fat h).opened ≡ false
      → r.0 ≡ true
      → OpenedAs fat image entry h opened_fat
  unfolding opened_as
  opened_good low ne free good =
      let here = file_of-with_file fat h opened_fd r.2 low ne in
      let first = first_cluster_of entry in
      let lba =
        first_lba opened_fat first clusters ∙ cluster_to_lba-with_file fat h opened_fd r.2 first in
      record {
        was_free = free;
        is_opened = rw here refl;
        at_first_byte = rw here refl;
        size = rw here refl;
        in_step = record {
          handle_low = omega (arith, length-set fat.opened_files h opened_fd, low);
          clusters = clusters;
          clusters_low = bytes;
          placed = rw here (at_start opened_fat first opened_fd ne refl refl clusters);
          buffered =
              rw (here, lba)
                (λ i l. read_sector_lem drive image fat.call _ fd.buffer i serves reach good l);
        };
        others = λ g other. file_of-with_file_ne fat h g opened_fd r.2 other;
      }

-- `FAT_OpenEntry` that returns a handle has opened the entry with it, on a drive that reads what it
-- holds and whose sectors the BIOS can name.
pub fat_open_entry-OpenedAs :
    (drive : Drive) (fat : Fat) (image : Mem) (entry : FatDirectoryEntry) (h : ℕ)
    → Serves drive image
    → length fat.opened_files ≤ 10
    → 0 < fat.boot_sector.sectors_per_cluster
    → fat.boot_sector.sectors_per_cluster < 2 ^ 8
    → InReach drive.disk (fat_cluster_to_lba fat (first_cluster_of entry))
    → (fat_open_entry drive fat entry).0 ≡ some h
    → OpenedAs fat image entry h (fat_open_entry drive fat entry).1
fat_open_entry-OpenedAs drive fat image entry h serves ten clusters bytes reach e =
    elim (Option-cases (find_handle fat.opened_files 0)) [
      | inl full ↦ let eq = ap (λ x. x.0) (fat_open_entry-full drive fat entry full) in cc
      | inr (n, found) ↦
          let low = find_handle-lt fat.opened_files 0 n found in
          let ne : n ≢ root_directory_handle = λ q. omega arith in
          let cases = fat_open_entry_cases drive fat entry n found ne in
          elim (Bool-cases (r drive fat image entry n serves clusters bytes reach).0) [
            | inl good ↦
                let eq = rw good at cases in
                let name = ap (λ x. x.0) eq in
                let same : n ≡ h = cc in
                rw (← same) (
                  rw eq (
                    opened_good drive fat image entry n serves clusters bytes reach (omega arith) ne
                      (file_of-free fat n found ne) good))
            | inr bad ↦ let eq = rw bad at cases in let name = ap (λ x. x.0) eq in cc
          ]
    ]
