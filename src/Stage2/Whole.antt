-- ===== src/Stage2/Whole.antt =====
-- The loading of a whole file.
use toy_kernel.Common.{
  ℕ, zero, suc, ◌+◌, ◌-◌, ◌*◌, ◌/◌, ◌^◌, ◌≤◌, ◌<◌, ◌≡◌, refl, ap, ◌∙◌, ◌≢◌, inl, inr, true, false,
  not, ◌&&◌, ◌||◌, some, List, [], arith, ltb, leb, ◌==◌, ◌!=◌, if◌then◌else◌, ltb→lt, Bool-cases,
  u16, u32, length, get_or,
}
use mathlib.Core.Path.{subst}
use toy_kernel.Memory.{Mem}
use toy_kernel.Fat.{root_directory_handle, FatFileData, Fat, Drive, file_of}
use toy_kernel.Fat.Read.{slice, bytes_to_read, read_loop, fat_read}
use toy_kernel.Fat.Stream.{content, ReadOut}
use toy_kernel.Fat.Chain.{
  InReach, Serves, InSector, Stopped, end_of_chain, read_error, chain, file_lba, file_sector,
}
use toy_kernel.Fat.Files.{IsOpen, fat_read_loop, fat_read-ReadOut}
use toy_kernel.Fat.Search.{NeverFails}
use toy_kernel.Stage2.Load.{memory_load_kernel, memory_load_size, load_chunk, load_loop}
use toy_kernel.Stage2.Chunks.{load_chunk_lem}

get_or-slice : (m : Mem) (a n i : ℕ) → i < n → get_or (slice m a n) i 0 ≡ m (a + i)
unfolding slice
get_or-slice m a zero i h = absurd (omega arith)
get_or-slice m a (suc n) zero h = let e : a + 0 ≡ a = omega arith in rw e refl
get_or-slice m a (suc n) (suc i) h =
    let e : a + suc i ≡ a + 1 + i = omega arith in rw e (get_or-slice m (a + 1) n i (omega arith))

zero_add : (i : ℕ) → 0 + i ≡ i
zero_add i = omega arith

-- Nothing is left of a file that stands at its end.
read_at_end :
    (drive : Drive) (fat : Fat) (h n : ℕ)
    → let file = (file_of fat h).file in
      file.size ≡ file.position
      → 0 < file.size
      → file.size < 2 ^ 32
      → (fat_read drive fat h n).0 ≡ []
unfolding bytes_to_read read_loop
read_at_end drive fat h n end some_bytes low =
    let file = (file_of fat h).file in
    let known : (not file.is_directory || file.size != 0) ≡ true = ground arith in
    let nothing : bytes_to_read file n ≡ 0 = rw known (omega (arith, end, low)) in
    ap (λ x. x.0) (fat_read_loop drive fat h n) ∙ rw nothing refl

load_loop_lem :
    (drive : Drive) (fuel : ℕ) (m : Mem) (fat : Fat) (h dest total : ℕ)
    → let r = fat_read drive fat h memory_load_size in
      load_loop drive (suc fuel) m fat h dest total ≡ (
        if length (r.0) == 0
        then some (m, r.1, total)
        else load_loop drive fuel
            (load_chunk m (u32 (dest + total)) (r.0))
            (r.1)
            h
            dest
            (u32 (total + length (r.0))))
unfolding load_loop
load_loop_lem drive fuel m fat h dest total = refl

-- A file of `size` bytes that stands at its first byte, and whose clusters are all there.
pub record Whole (drive : Drive) (fat : Fat) (image : Mem) (first h size : ℕ) : Type 0 where
  pub open_file : IsOpen fat image first h
  pub no_root : h ≢ root_directory_handle
  pub at_first : (file_of fat h).file.position ≡ 0
  pub all : (file_of fat h).file.size ≡ size
  pub some_bytes : 0 < size
  pub reach : (k : ℕ) → k ≤ size / 512 → InReach drive.disk (file_lba fat first k)
  pub clusters :
      (k : ℕ) → 512 * k < size → chain fat first (k / fat.boot_sector.sectors_per_cluster) < 0xff8

module _ (drive : Drive) (fat : Fat) (image : Mem) (first h size : ℕ) (serves : Serves drive image)
    (never : NeverFails drive) (small : size < 0x10000)
    (w : Whole drive fat image first h size) where
  asked : bytes_to_read (file_of fat h).file memory_load_size ≡ size
  unfolding bytes_to_read
  asked =
      let file = (file_of fat h).file in
      let known : (not file.is_directory || file.size != 0) ≡ true =
        ground (arith, w.all, w.some_bytes) in
      rw (known, w.all, w.at_first) (omega (arith, small))

  abbrev r : List ℕ × Fat
  r = fat_read drive fat h memory_load_size

  read_out :
      ReadOut
        (file_sector fat image first)
        (InSector fat first size)
        (Stopped drive fat first)
        0
        size
        (r.0, file_of r.1 h, r.1.call)
  read_out =
      let file = (file_of fat h).file in
      let want = bytes_to_read file memory_load_size in
      let total : file.position + want ≡ size = omega (arith, asked, w.at_first) in
      let S = file_sector fat image first in
      let E = Stopped drive fat first in
      let out : List ℕ × FatFileData × ℕ = (r.0, file_of r.1 h, r.1.call) in
      let base =
        fat_read-ReadOut drive fat image first h memory_load_size serves w.open_file w.no_root
          (omega (arith, total, small)) (λ k le. w.reach k (omega (arith, total, le))) in
      subst (λ q. ReadOut S (InSector fat first size) E 0 q out) asked
        (subst (λ q. ReadOut S (InSector fat first size) E q want out) w.at_first
          (subst (λ q. ReadOut S (InSector fat first q) E file.position want out) w.all base))

  -- Where reading has stopped, it has read all.
  Stopped-length :
      Stopped drive fat first (file_of r.1 h) ((0 + length (r.0)) / 512) → length (r.0) ≡ size
  Stopped-length (end_of_chain end e) =
      elim (Bool-cases (ltb (512 * ((0 + length (r.0)) / 512)) size)) [
        | inl more ↦ absurd (
            omega (
              arith,
              end,
              w.clusters ((0 + length (r.0)) / 512)
                  (ltb→lt (512 * ((0 + length (r.0)) / 512)) size more),
            ))
        | inr over ↦
            let all_read : size ≤ 512 * ((0 + length (r.0)) / 512) = ground (arith, over) in
            omega (arith, all_read, read_out.at_most)
      ]
  Stopped-length (read_error call buffer fail) =
      let works = never call (file_lba fat first ((0 + length (r.0)) / 512)) buffer in cc

  whole_length : length (r.0) ≡ size
  whole_length = elim (read_out.ending) [
    | inl (full, placed, buffered) ↦ full
    | inr stop ↦ Stopped-length stop
  ]

  Stopped-end :
      {k : ℕ}
      → Stopped drive fat first (file_of r.1 h) k
      → (file_of r.1 h).file.size ≡ (file_of r.1 h).file.position
  Stopped-end (end_of_chain end e) = e
  Stopped-end {k} (read_error call buffer fail) =
      let works = never call (file_lba fat first k) buffer in cc

  at_its_end : (file_of r.1 h).file.size ≡ (file_of r.1 h).file.position
  at_its_end = elim (read_out.ending) [
    | inl (full, placed, buffered) ↦ omega (arith, placed.length, full, read_out.moved)
    | inr stop ↦ Stopped-end stop
  ]

  byte : (i : ℕ) → i < size → get_or (r.0) i 0 ≡ content (file_sector fat image first) i
  byte i less =
      ap (λ l. get_or l i 0) read_out.bytes
      ∙ get_or-slice (content (file_sector fat image first)) 0 (length (r.0)) i
          (omega (arith, whole_length, less))
      ∙ ap (content (file_sector fat image first)) (zero_add i)

  -- The loop of `start` on a file of fewer than 65536 bytes, on a disk that does not fail, ends in its
  -- second round, with every byte of the file in its place.
  pub load_loop-Whole :
      (fuel : ℕ) (m : Mem) (dest : ℕ)
      → memory_load_kernel + 0x10000 ≤ dest
      → dest + size < 2 ^ 32
      → (n : Mem) × (t : Fat) × (load_loop drive (suc (suc fuel)) m fat h dest 0
          ≡ some (n, t, size))
        × ((i : ℕ) → i < size → n (dest + i) ≡ content (file_sector fat image first) i)
  load_loop-Whole fuel m dest above low =
      let n = load_chunk m (u32 (dest + 0)) (r.0) in
      let rest = fat_read drive r.1 h memory_load_size in
      let place : u32 (dest + 0) ≡ dest = omega arith in
      let total : u32 (0 + length (r.0)) ≡ size = omega (arith, whole_length, small) in
      let some_read : (length (r.0) == 0) ≡ false = ground (arith, whole_length, w.some_bytes) in
      let length_now : (file_of r.1 h).file.size ≡ size =
        omega (arith, at_its_end, read_out.moved, whole_length) in
      let none_left : rest.0 ≡ [] =
        read_at_end drive r.1 h memory_load_size at_its_end
          (omega (arith, length_now, w.some_bytes)) (omega (arith, length_now, small)) in
      (
        n,
        rest.1,
        load_loop_lem drive (suc fuel) m fat h dest 0
            ∙ rw (some_read, total)
                (load_loop_lem drive fuel n r.1 h dest size ∙ rw none_left refl),
        λ i less.
            let inside : (leb dest (dest + i) && ltb (dest + i) (dest + u16 (length (r.0))))
                ≡ true =
              ground (arith, whole_length, small, less) in
            let index : dest + i - dest ≡ i = omega arith in
            rw place (
              load_chunk_lem m dest (r.0) (dest + i) above (omega arith)
                (omega (arith, whole_length, small))
              ∙ rw (inside, index) (byte i less)),
      )
