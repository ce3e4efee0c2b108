-- ===== src/Memory.antt =====
-- Physical memory as bytes, the 32-bit words in it, and src/kernel/lib/string.c: `memcpy`,
-- `memset` and `memcmp`. A pointer is the number of the byte that it points at.
pub mod Words
pub mod Fill
pub mod Copy
mod Examples
use toy_kernel.Common.{
  ℕ, zero, suc, ◌+◌, ◌*◌, ◌/◌, ◌%◌, ◌<◌, ◌^◌, Bool, ◌==◌, ◌!=◌, if◌then◌else◌, u8, u16,
}

abbrev pub Mem : Type 0
Mem = ℕ → ℕ

abbrev pub IsBytes : Mem → Type 0
IsBytes m = (a : ℕ) → m a < 256

-- `*(uint8_t *)a = v`
unfoldable pub write8 : Mem → ℕ → ℕ → Mem
write8 m a v b = if b == a then v else m b

-- `*(uint32_t *)a`, lowest byte first.
unfoldable pub read32 : Mem → ℕ → ℕ
read32 m a = m a + m (a + 1) * 2 ^ 8 + m (a + 2) * 2 ^ 16 + m (a + 3) * 2 ^ 24

-- `*(uint32_t *)a = v`
unfoldable pub write32 : Mem → ℕ → ℕ → Mem
unfolding write8
write32 m a v =
    write8
      (write8 (write8 (write8 m a (v % 2 ^ 8)) (a + 1) (v / 2 ^ 8 % 2 ^ 8)) (a + 2)
        (v / 2 ^ 16 % 2 ^ 8))
      (a + 3) (v / 2 ^ 24 % 2 ^ 8)

-- The loop of `memset` at index `i`, with `left` rounds to go.
memset_loop : (left i : ℕ) → Mem → ℕ → ℕ → Mem
memset_loop zero i m p value = m
memset_loop (suc left) i m p value = memset_loop left (i + 1) (write8 m (p + i) (u8 value)) p value

unfoldable pub memset : Mem → ℕ → ℕ → ℕ → Mem
unfolding memset_loop write8
memset m p value size = memset_loop size 0 m p value

-- The loop of `memcpy` at index `i`, with `left` rounds to go.
memcpy_loop : (left i : ℕ) → Mem → ℕ → ℕ → Mem
memcpy_loop zero i m dst src = m
memcpy_loop (suc left) i m dst src =
    memcpy_loop left (i + 1) (write8 m (dst + i) (m (src + i))) dst src

-- `num` is a `uint16_t`: a larger count is cut off at the call.
unfoldable pub memcpy : Mem → ℕ → ℕ → ℕ → Mem
unfolding memcpy_loop write8
memcpy m dst src num = memcpy_loop (u16 num) 0 m dst src

memcmp_loop : (left i : ℕ) → Mem → ℕ → ℕ → ℕ
memcmp_loop zero i m p q = 0
memcmp_loop (suc left) i m p q =
    let rest = memcmp_loop left (i + 1) m p q in if m (p + i) != m (q + i) then 1 else rest

unfoldable pub memcmp : Mem → ℕ → ℕ → ℕ → ℕ
unfolding memcmp_loop
memcmp m p q num = memcmp_loop (u16 num) 0 m p q
