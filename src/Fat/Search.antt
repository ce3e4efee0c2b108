-- ===== src/Fat/Search.antt =====
-- The search of the root directory by `FAT_FindFile`.
use toy_kernel.Common.{
  ℕ, zero, suc, ◌+◌, ◌-◌, ◌*◌, ◌/◌, ◌^◌, ◌≤◌, ◌<◌, ◌≡◌, refl, sym, ap, ◌∙◌, inl, inr, true, false,
  not, ◌||◌, none, some, List, [], ◌∷◌, arith, ltb, ◌==◌, ◌!=◌, if◌then◌else◌, Bool-cases, length,
}
use mathlib.Core.Path.{subst}
use toy_kernel.Memory.{Mem}
use toy_kernel.Fat.{
  root_directory_handle, FatDirectoryEntry, FatFile, Fat, Drive, read_sector, file_of, put_file,
}
use toy_kernel.Fat.Read.{slice, read_loop, bytes_to_read, fat_read, entry_of, fat_read_entry}
use toy_kernel.Fat.Stream.{content, Buffered, ReadOut}
use toy_kernel.Fat.Chain.{InReach, Serves}
use toy_kernel.Fat.Root.{root_sector, InRoot, RootStopped, root-ReadOut}
use toy_kernel.Fat.Names.{fat_name, same_name}
use toy_kernel.Fat.Open.{Found, found, missing, find_loop, fat_find_file}

-- The entry number `k` of the root directory whose first sector is `first`.
abbrev pub entry_at : Mem → (first k : ℕ) → FatDirectoryEntry
entry_at image first k = entry_of (slice (content (root_sector image first)) (32 * k) 32)

-- `left` entries from the entry `k` on.
abbrev pub entries_from : Mem → (first left k : ℕ) → List FatDirectoryEntry
entries_from image first zero k = []
entries_from image first (suc left) k =
    entry_at image first k ∷ entries_from image first left (k + 1)

-- The first of the entries with a name.
abbrev pub first_named : (name : List ℕ) → List FatDirectoryEntry → Found FatDirectoryEntry
first_named name [] = missing
first_named name (e ∷ entries) = if same_name name e.name then found e else first_named name entries

-- The root directory, of `count` entries, stands at its entry `p`.
pub record RootAt (image : Mem) (first count p : ℕ) (fat : Fat) : Type 0 where
  pub placed : InRoot first (32 * count) (fat.root_directory) (32 * p / 512)
  pub buffered : Buffered (root_sector image first) (fat.root_directory) (32 * p / 512)
  pub position : fat.root_directory.file.position ≡ 32 * p

-- A disk that never fails.
abbrev pub NeverFails : Drive → Type 0
NeverFails drive = (call lba : ℕ) (buffer : Mem) → (read_sector drive call lba buffer).0 ≡ true

fat_read-root :
    (drive : Drive) (fat : Fat) (n : ℕ)
    → let size = bytes_to_read fat.root_directory.file n in
      let r = read_loop drive fat size fat.root_directory fat.call size in
      fat_read drive fat root_directory_handle n
      ≡ (r.0, record fat { root_directory = r.1; call = r.2 })
unfolding fat_read file_of put_file
fat_read-root drive fat n = refl

entry_bytes :
    (file : FatFile) (count p : ℕ)
    → 0 < count
    → 32 * count < 2 ^ 32
    → p ≤ count
    → file.size ≡ 32 * count
    → file.position ≡ 32 * p
    → bytes_to_read file 32 ≡ (if ltb p count then 32 else 0)
unfolding bytes_to_read
entry_bytes file count p some_entries low le size position =
    let known : (not file.is_directory || file.size != 0) ≡ true = ground arith in
    rw (known, size, position)
      (elim (Bool-cases (ltb p count)) [
        | inl more ↦ rw more (ground arith)
        | inr none_left ↦ rw none_left (ground arith)
      ])

fat_read_entry_lem :
    (drive : Drive) (fat : Fat) (handle : ℕ)
    → let r = fat_read drive fat handle 32 in
      fat_read_entry drive fat handle
      ≡ (if length (r.0) == 32 then some (entry_of (r.0)) else none, r.1)
unfolding fat_read_entry
fat_read_entry_lem drive fat handle = refl

fat_read_entry-root :
    (drive : Drive) (fat : Fat) (n : ℕ)
    → bytes_to_read fat.root_directory.file 32 ≡ n
    → let r = read_loop drive fat n fat.root_directory fat.call n in
      fat_read_entry drive fat root_directory_handle ≡ (
        if length r.0 == 32 then some (entry_of r.0) else none,
        record fat { root_directory = r.1; call = r.2 },
      )
fat_read_entry-root drive fat n e =
    fat_read_entry_lem drive fat root_directory_handle
    ∙ ap (λ x. (if length (x.0) == 32 then some (entry_of (x.0)) else none, x.1))
        (fat_read-root drive fat 32)
    ∙ ap
        (λ m.
          let r = read_loop drive fat m fat.root_directory fat.call m in
          (
            if length (r.0) == 32 then some (entry_of (r.0)) else none,
            record fat { root_directory = r.1; call = r.2 },
          ))
        e

module _ (drive : Drive) (image : Mem) (first count : ℕ) (serves : Serves drive image)
    (never : NeverFails drive) (some_entries : 0 < count) (low : 32 * count < 2 ^ 32)
    (reach : (k : ℕ) → k ≤ 32 * count / 512 → InReach drive.disk (first + k)) where
  -- `FAT_ReadEntry` gives the entry where the directory stands, and goes on to the next.
  one_entry :
      (fat : Fat) (p : ℕ)
      → RootAt image first count p fat
      → p < count
      → (next : Fat) × (fat_read_entry drive fat root_directory_handle
          ≡ (some (entry_at image first p), next))
        × RootAt image first count (p + 1) next
  one_entry fat p at lt =
      let all =
        entry_bytes fat.root_directory.file count p some_entries low (omega arith) at.placed.length
          at.position in
      let below : ltb p count ≡ true = ground arith in
      let r = read_loop drive fat 32 fat.root_directory fat.call 32 in
      let here = at.position in
      let whole : ReadOut (root_sector image first) (InRoot first (32 * count))
          (RootStopped drive first) (32 * p) 32 r =
        subst
          (λ q.
            ReadOut (root_sector image first) (InRoot first (32 * count)) (RootStopped drive first)
              q 32 r)
          here
          (root-ReadOut drive fat image first (32 * count) (32 * count / 512) 32 fat.root_directory
            fat.call 32 serves reach (omega arith) (omega (arith, here)) (omega (arith, here))
            (subst (λ q. InRoot first (32 * count) fat.root_directory (q / 512)) (sym here)
              at.placed)
            (subst (λ q. Buffered (root_sector image first) fat.root_directory (q / 512)) (sym here)
              at.buffered)) in
      elim (whole.ending) [
        | inl (full, placed, buffered) ↦
            let bytes = whole.bytes in
            let next_place : 32 * p + length (r.0) ≡ 32 * (p + 1) = omega (arith, full) in
            let same = bytes ∙ ap (slice (content (root_sector image first)) (32 * p)) full in
            let some_left : (length r.0 == 32) ≡ true = ground arith in
            (
              record fat { root_directory = r.1; call = r.2 },
              fat_read_entry-root drive fat 32 (all ∙ rw below refl)
                  ∙ rw (some_left) (
                      ap (λ l. (some (entry_of l), record fat { root_directory = r.1; call = r.2 }))
                        same),
              record {
                placed = subst (λ q. InRoot first (32 * count) r.1 (q / 512)) next_place placed;
                buffered =
                    subst (λ q. Buffered (root_sector image first) r.1 (q / 512)) next_place
                      buffered;
                position = whole.moved ∙ next_place;
              },
            )
        | inr stop ↦
            let works = never stop.call (first + (32 * p + length (r.0)) / 512) stop.buffer in
            let fails = stop.failed in cc
      ]

  -- Behind the last entry there is none.
  no_entry :
      (fat : Fat)
      → RootAt image first count count fat
      → (fat_read_entry drive fat root_directory_handle).0 ≡ none
  unfolding read_loop
  no_entry fat at =
      let all =
        entry_bytes fat.root_directory.file count count some_entries low (omega arith)
          at.placed.length at.position in
      let none_left : ltb count count ≡ false = ground arith in
      ap (λ x. x.0) (fat_read_entry-root drive fat 0 (all ∙ rw none_left refl))

  search-first_named :
      (left fuel p : ℕ) (fat : Fat) (name : List ℕ)
      → p + left ≡ count
      → left < fuel
      → RootAt image first count p fat
      → (find_loop drive fat fuel root_directory_handle name).0
        ≡ first_named name (entries_from image first left p)
  unfolding find_loop
  search-first_named left zero p fat name e enough at = absurd (omega arith)
  search-first_named zero (suc fuel) p fat name e enough at =
      let here : p ≡ count = omega (arith, e) in
      let nothing = no_entry fat (subst (λ q. RootAt image first count q fat) here at) in
      rw (find_loop, nothing) refl
  search-first_named (suc left) (suc fuel) p fat name e enough at =
      let (next, read, after) = one_entry fat p at (omega arith) in
      let moved : RootAt image first count (p + 1)
          (fat_read_entry drive fat root_directory_handle).1 =
        subst (RootAt image first count (p + 1)) (sym (ap (λ x. x.1) read)) after in
      let rest =
        search-first_named left fuel (p + 1) (fat_read_entry drive fat root_directory_handle).1 name
          (omega arith) (omega arith) moved in
      rw (find_loop, read)
        (elim (Bool-cases (same_name name (entry_at image first p).name)) [
          | inl same ↦ rw same refl
          | inr other ↦ rw other rest
        ])

  -- `FAT_FindFile` of a name in the root directory, which stands at its entry `p`, on a disk that does
  -- not fail: with one round more than there are entries left the search ends, and finds the first
  -- of those entries that has the name in its form of eleven characters, or none if none has it.
  pub fat_find_file-first_named :
      (fuel p : ℕ) (fat : Fat) (name : List ℕ)
      → p ≤ count
      → count - p < fuel
      → RootAt image first count p fat
      → (fat_find_file drive fat fuel root_directory_handle name).0
        ≡ first_named (fat_name name) (entries_from image first (count - p) p)
  unfolding fat_find_file
  fat_find_file-first_named fuel p fat name le enough at =
      search-first_named (count - p) fuel p fat (fat_name name) (omega arith) enough at
