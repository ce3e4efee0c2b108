-- ===== src/Pmm/State.antt =====
-- The statics of src/kernel/mm/pmm/pmm.c, and the three functions on one bit of the bitmap. The
-- bitmap lies in the same memory as everything else. An address is the one that the program uses: a
-- frame is reached at its own address, under the identity mapping, and the bitmap of the kernel in
-- the higher half, where the linker puts the kernel. That some low frames are the ones behind the
-- higher half, a second view of the same bytes, is left out. A bit number stays below 2 ^ 31, so its
-- passage through `int` changes nothing.
use toy_kernel.Common.{ℕ, ◌-◌, ◌+◌, ◌*◌, ◌/◌, ◌%◌, ◌^◌, bit_and, bit_or, Bool, ◌!=◌}
use toy_kernel.Common.Bits.{bit_off}
use toy_kernel.Memory.{Mem, read32, write32}
use toy_kernel.Boot.{MemoryInfo}

pub record Pmm : Type 0 where
  pub mem : Mem
  pub total_memory : ℕ
  pub total_pages : ℕ
  pub total_block : ℕ
  pub total_used_blocks : ℕ
  pub bit_map : ℕ
  pub bitmap_sizeb : ℕ
  pub bit_map_end : ℕ
  pub memory_map : MemoryInfo
  pub kernel_start_addr : ℕ
  pub kernel_end_addr : ℕ

abbrev pub per_block_size : ℕ
per_block_size = 4096

-- `INVALID_FRAME`, -1, as the `uint32_t` that it becomes.
abbrev pub invalid_frame : ℕ
invalid_frame = 2 ^ 32 - 1

-- `BIT_MAP[i]`
unfoldable pub bit_map_word : Pmm → ℕ → ℕ
bit_map_word s i = read32 s.mem (s.bit_map + 4 * i)

-- `1 << k` is `2 ^ k`.
unfoldable pub set_bit : Pmm → ℕ → Pmm
unfolding bit_map_word
set_bit s b = record s {
  mem = write32 s.mem (s.bit_map + 4 * (b / 32)) (bit_or (bit_map_word s (b / 32)) (2 ^ (b % 32)));
}

-- `~(1 << k)` is `bit_off 32 k`.
unfoldable pub unset_bit : Pmm → ℕ → Pmm
unfolding bit_map_word
unset_bit s b = record s {
  mem =
      write32 s.mem (s.bit_map + 4 * (b / 32))
        (bit_and (bit_map_word s (b / 32)) (bit_off 32 (b % 32)));
}

unfoldable pub test_bit : Pmm → ℕ → ℕ
unfolding bit_map_word
test_bit s b = bit_and (bit_map_word s (b / 32)) (2 ^ (b % 32))

-- What `if (test_bit(b))` asks.
unfoldable pub used : Pmm → ℕ → Bool
used s b = test_bit s b != 0
