-- ===== src/Memory/Fill.antt =====
-- What `memset` does to every byte.
use toy_kernel.Common.{
  ℕ, zero, suc, ◌+◌, ◌≤◌, ◌<◌, ◌≡◌, ◌⊎◌, arith, leb, ltb, ◌&&◌, if◌then◌else◌, u8,
}
use toy_kernel.Memory.{Mem, IsBytes, write8, memset_loop, memset}

loop_lem :
    (left i : ℕ) (m : Mem) (p value b : ℕ)
    → memset_loop left i m p value b
      ≡ (if leb (p + i) b && ltb b (p + i + left) then u8 value else m b)
unfolding memset_loop write8
loop_lem zero i m p value b = ground arith
loop_lem (suc left) i m p value b =
    ground (arith, loop_lem left (i + 1) (write8 m (p + i) (u8 value)) p value b)

-- `memset` sets each of the `size` bytes from `p` on to the low byte of `value`, and no other.
pub memset_lem :
    (m : Mem) (p value size b : ℕ)
    → memset m p value size b ≡ (if leb p b && ltb b (p + size) then u8 value else m b)
unfolding memset
memset_lem m p value size b = ground (arith, loop_lem size 0 m p value b)

pub memset_outside :
    (m : Mem) (p value size b : ℕ) → (b < p) ⊎ (p + size ≤ b) → memset m p value size b ≡ m b
memset_outside m p value size b h = ground (arith, memset_lem m p value size b)

pub memset_inside :
    (m : Mem) (p value size b : ℕ) → p ≤ b → b < p + size → memset m p value size b ≡ u8 value
memset_inside m p value size b h k = ground (arith, memset_lem m p value size b)

pub memset-IsBytes : (m : Mem) (p value size : ℕ) → IsBytes m → IsBytes (memset m p value size)
memset-IsBytes m p value size h b = ground (arith, memset_lem m p value size b, h b)
