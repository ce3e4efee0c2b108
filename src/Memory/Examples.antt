-- ===== src/Memory/Examples.antt =====
-- The functions of the string library on a small memory.
use toy_kernel.Common.{
  ℕ, ◌+◌, ◌-◌, ◌%◌, ◌<◌, ◌≡◌, ◌↔◌, inr, ◌&&◌, arith, ltb, leb, if◌then◌else◌, u8,
}
use toy_kernel.Memory.{Mem, memset, memcpy, memcmp}
use toy_kernel.Memory.Fill.{memset_lem}
use toy_kernel.Memory.Copy.{memcpy_lem, memcmp_iff}

abbrev counting : Mem
counting a = a % 256

memset_run :
    memset counting 10 0x141 4 12 ≡ (if leb 10 12 && ltb 12 14 then u8 0x141 else counting 12)
memset_run = memset_lem counting 10 0x141 4 12

memcpy_run :
    memcpy counting 100 10 4 102
    ≡ (if leb 100 102 && ltb 102 104 then counting (10 + (102 - 100)) else counting 102)
memcpy_run = memcpy_lem counting 100 10 4 102 (omega arith) (inr (omega arith))

memcmp_run :
    (memcmp counting 0 256 3 ≡ 0) ↔ ((k : ℕ) → k < 3 → counting (0 + k) ≡ counting (256 + k))
memcmp_run = memcmp_iff counting 0 256 3 (omega arith)
