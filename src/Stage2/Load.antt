-- ===== src/Stage2/Load.antt =====
-- The loop of src/bootloader/stage2/main.c that reads a file through a buffer into its place.
use toy_kernel.Common.{
  ℕ, zero, suc, ◌+◌, Option, none, some, List, [], ◌∷◌, ◌==◌, if◌then◌else◌, u32, length,
}
use toy_kernel.Memory.{Mem, write8, memcpy}
use toy_kernel.Fat.{Fat, Drive}
use toy_kernel.Fat.Read.{fat_read}

abbrev pub memory_load_kernel : ℕ
memory_load_kernel = 0x30000

abbrev pub memory_load_size : ℕ
memory_load_size = 0x10000

-- The bytes that `FAT_Read` puts behind a pointer.
unfoldable pub write_bytes : Mem → ℕ → List ℕ → Mem
write_bytes m a [] = m
write_bytes m a (b ∷ bytes) = write_bytes (write8 m a b) (a + 1) bytes

-- One round: the buffer is filled and copied to its place. The count of `memcpy` is a `uint16_t`.
unfoldable pub load_chunk : Mem → (dest : ℕ) → (bytes : List ℕ) → Mem
unfolding write_bytes
load_chunk m dest bytes =
    memcpy (write_bytes m memory_load_kernel bytes) dest memory_load_kernel (length bytes)

-- The loop, with `fuel` rounds at most; `total` is what has been read.
unfoldable pub load_loop :
    Drive → (fuel : ℕ) → Mem → Fat → (handle dest total : ℕ) → Option (Mem × Fat × ℕ)
load_loop drive zero m fat handle dest total = none
load_loop drive (suc fuel) m fat handle dest total =
    let (out, next) = fat_read drive fat handle memory_load_size in
    let rest =
      load_loop drive fuel (load_chunk m (u32 (dest + total)) out) next handle dest
        (u32 (total + length out)) in
    if length out == 0 then some (m, next, total) else rest
