-- ===== src/Elf/Examples.antt =====
-- The second page of a segment of 5000 bytes that lies at 0x300000.
use toy_kernel.Common.{ℕ, ◌+◌, ◌≤◌, ◌<◌, ◌≡◌, ◌⊎◌, inl, arith, ltb, leb, ◌&&◌, if◌then◌else◌}
use toy_kernel.Memory.{Mem}
use toy_kernel.Elf.{fill_page}
use toy_kernel.Elf.Page.{segment_byte, fill_page_lem}

abbrev image_mem : Mem
image_mem a = if leb 0x300000 a && ltb a 0x302000 then 0x90 else 0

fill_page_example :
    ((j : ℕ)
      → j < 4096
      → fill_page image_mem 0x8000 0x300000 5000 4096 (0x8000 + j)
        ≡ segment_byte image_mem 0x300000 5000 (4096 + j))
    × ((a : ℕ)
        → (a < 0x8000) ⊎ (0x8000 + 4096 ≤ a)
        → fill_page image_mem 0x8000 0x300000 5000 4096 a ≡ image_mem a)
fill_page_example =
    fill_page_lem image_mem 0x8000 0x300000 5000 4096 (omega arith) (inl (omega arith))
      (λ j h. ground (arith, h))
