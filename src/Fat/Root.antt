-- ===== src/Fat/Root.antt =====
-- The sectors of the root directory, which follow one another, and `FAT_Read` of it.
use toy_kernel.Common.{
  ℕ, ◌+◌, ◌*◌, ◌/◌, ◌^◌, ◌≤◌, ◌<◌, ◌≡◌, refl, sym, ap, ◌∙◌, Bool, true, false, arith, ◌==◌, u32,
}
use toy_kernel.Memory.{Mem}
use toy_kernel.Fat.{root_directory_handle, FatFileData, Fat, Drive, read_sector}
use toy_kernel.Fat.Read.{next_root_sector, next_sector, read_loop}
use toy_kernel.Fat.Stream.{Next, onward, stopped, Buffered, ReadOut}
use toy_kernel.Fat.Stream.Loop.{read_loop-ReadOut}
use toy_kernel.Fat.Chain.{InReach, Serves, read_sector_lem}

-- The bytes of the sector `k` of the root directory, whose first sector is `first`.
abbrev pub root_sector : Mem → (first k : ℕ) → Mem
root_sector image first k i = image ((first + k) * 512 + i)

-- The root directory, of `size` bytes, stands in its sector `k`.
pub record InRoot (first size : ℕ) (fd : FatFileData) (k : ℕ) : Type 0 where
  pub root : fd.file.handle ≡ root_directory_handle
  pub directory : fd.file.is_directory ≡ true
  pub length : fd.file.size ≡ size
  pub cluster : fd.current_cluster ≡ first + k

-- The disk has failed at the sector `k`.
pub record RootStopped (drive : Drive) (first : ℕ) (fd : FatFileData) (k : ℕ) : Type 0 where
  pub call : ℕ
  pub buffer : Mem
  pub failed : (read_sector drive call (first + k) buffer).0 ≡ false

next_sector_root :
    (drive : Drive) (fat : Fat) (fd : FatFileData) (call : ℕ)
    → fd.file.handle ≡ root_directory_handle
    → next_sector drive fat fd call ≡ next_root_sector drive fd call
unfolding next_sector
next_sector_root drive fat fd call e =
    let same : (fd.file.handle == root_directory_handle) ≡ true = ground arith in rw same refl

module _ (drive : Drive) (image : Mem) (serves : Serves drive image) (first size k : ℕ)
    (reach : InReach drive.disk (first + k)) where
  read_root :
      (moved : FatFileData) (position call : ℕ) (r : Bool × Mem × ℕ)
      → InRoot first size moved k
      → moved.file.position ≡ position
      → read_sector drive call (first + k) moved.buffer ≡ r
      → Next
          (root_sector image first)
          (InRoot first size)
          (RootStopped drive first)
          k
          position
          (r.0, record moved { buffer = r.1 }, r.2)
  read_root moved position call (true, bytes, next) at here e =
      onward
        (record {
          root = at.root;
          directory = at.directory;
          length = at.length;
          cluster = at.cluster;
        })
        (λ i h.
          ap (λ r. r.1 i) (sym e)
          ∙ read_sector_lem drive image call (first + k) moved.buffer i serves reach
              (ap (λ r. r.0) e) h)
        here
  read_root moved position call (false, bytes, next) at here e =
      stopped (record { call = call; buffer = moved.buffer; failed = ap (λ r. r.0) e }) here

  next_root_sector-Next :
      (fd : FatFileData) (call j : ℕ)
      → k ≡ j + 1
      → InRoot first size fd j
      → Next
          (root_sector image first)
          (InRoot first size)
          (RootStopped drive first)
          k
          fd.file.position
          (next_root_sector drive fd call)
  unfolding next_root_sector
  next_root_sector-Next fd call j e at =
      let c = at.cluster in
      let l = reach.0 in
      let cluster : u32 (fd.current_cluster + 1) ≡ first + k = omega (arith, c, l) in
      rw cluster (
        read_root (record fd { current_cluster = first + k }) fd.file.position call _
          (record { root = at.root; directory = at.directory; length = at.length; cluster = refl })
          refl refl)

-- The loop of `FAT_Read` on the root directory, up to its sector `last`.
pub root-ReadOut :
    (drive : Drive) (fat : Fat) (image : Mem) (first size last fuel : ℕ) (fd : FatFileData)
    (call want : ℕ)
    → Serves drive image
    → ((k : ℕ) → k ≤ last → InReach drive.disk (first + k))
    → want ≤ fuel
    → fd.file.position + want < 2 ^ 32
    → (fd.file.position + want) / 512 ≤ last
    → InRoot first size fd (fd.file.position / 512)
    → Buffered (root_sector image first) fd (fd.file.position / 512)
    → ReadOut
        (root_sector image first)
        (InRoot first size)
        (RootStopped drive first)
        fd.file.position
        want
        (read_loop drive fat fuel fd call want)
root-ReadOut drive fat image first size last fuel fd call want serves reach enough low within at
      buffered =
    read_loop-ReadOut drive fat (root_sector image first) (InRoot first size)
      (RootStopped drive first) last
      (λ fd k p at. record {
        root = at.root;
        directory = at.directory;
        length = at.length;
        cluster = at.cluster;
      })
      (λ fd k call at below. rw (next_sector_root drive fat fd call at.root) (
        next_root_sector-Next drive image serves first size (k + 1) (reach (k + 1) (omega arith)) fd
          call k refl at))
      fuel fd call want enough low within at buffered
