-- ===== src/Memory/Copy.antt =====
-- What `memcpy` and `memcmp` do.
use toy_kernel.Common.{
  ℕ, zero, suc, ◌+◌, ◌-◌, ◌≤◌, ◌<◌, ◌^◌, ◌≡◌, refl, ◌⊎◌, ◌↔◌, arith, ◌==◌, leb, ltb, ◌&&◌,
  if◌then◌else◌, u16, Bool-cases, inl, inr,
}
use toy_kernel.Memory.{Mem, IsBytes, write8, memcpy_loop, memcpy, memcmp_loop, memcmp}

loop_lem :
    (left i : ℕ) (m : Mem) (dst src b : ℕ)
    → (dst + i + left ≤ src + i) ⊎ (src + i + left ≤ dst + i)
    → memcpy_loop left i m dst src b
      ≡ (if leb (dst + i) b && ltb b (dst + i + left) then m (src + (b - dst)) else m b)
unfolding memcpy_loop write8
loop_lem zero i m dst src b apart = ground arith
loop_lem (suc left) i m dst src b apart =
    ground (arith, loop_lem left (i + 1) (write8 m (dst + i) (m (src + i))) dst src b)

-- `memcpy` of `num` bytes between ranges that do not overlap copies them, for `num` below 2 ^ 16.
pub memcpy_lem :
    (m : Mem) (dst src num b : ℕ)
    → num < 2 ^ 16
    → (dst + num ≤ src) ⊎ (src + num ≤ dst)
    → memcpy m dst src num b ≡ (if leb dst b && ltb b (dst + num) then m (src + (b - dst)) else m b)
unfolding memcpy
memcpy_lem m dst src num b small apart = ground (arith, loop_lem num 0 m dst src b)

-- The same for any count, which is cut to 16 bits.
pub memcpy-u16 :
    (m : Mem) (dst src num b : ℕ)
    → (dst + u16 num ≤ src) ⊎ (src + u16 num ≤ dst)
    → memcpy m dst src num b
      ≡ (if leb dst b && ltb b (dst + u16 num) then m (src + (b - dst)) else m b)
unfolding memcpy
memcpy-u16 m dst src num b apart = ground (arith, loop_lem (u16 num) 0 m dst src b)

pub memcpy-IsBytes : (m : Mem) (dst src num : ℕ) → IsBytes m → IsBytes (memcpy m dst src num)
unfolding memcpy
memcpy-IsBytes m dst src num h = go (u16 num) 0 m h
  where
    go : (left i : ℕ) (m : Mem) → IsBytes m → IsBytes (memcpy_loop left i m dst src)
    go zero i m h = h
    go (suc left) i m h =
        go left (i + 1) (write8 m (dst + i) (m (src + i))) (λ b. ground (arith, h b, h (src + i)))

-- A byte outside the destination keeps its value, also where the ranges overlap.
pub memcpy_outside :
    (m : Mem) (dst src num b : ℕ) → (b < dst) ⊎ (dst + u16 num ≤ b) → memcpy m dst src num b ≡ m b
unfolding memcpy
memcpy_outside m dst src num b h = go (u16 num) 0 m (omega arith)
  where
    go :
        (left i : ℕ) (m : Mem)
        → (b < dst) ⊎ (dst + i + left ≤ b)
        → memcpy_loop left i m dst src b ≡ m b
    go zero i m h = refl
    go (suc left) i m h =
        ground (arith, go left (i + 1) (write8 m (dst + i) (m (src + i))) (omega arith))

loop_equal :
    (left i : ℕ) (m : Mem) (p q : ℕ)
    → memcmp_loop left i m p q ≡ 0
    → (k : ℕ) → i ≤ k
    → k < i + left
    → m (p + k) ≡ m (q + k)
unfolding memcmp_loop
loop_equal zero i m p q e k h l = absurd (omega arith)
loop_equal (suc left) i m p q e k h l = elim (Bool-cases (k == i)) [
  | inl first ↦ ground arith
  | inr later ↦ loop_equal left (i + 1) m p q (ground arith) k (ground arith) (omega arith)
]

equal_loop :
    (left i : ℕ) (m : Mem) (p q : ℕ)
    → ((k : ℕ) → i ≤ k → k < i + left → m (p + k) ≡ m (q + k))
    → memcmp_loop left i m p q ≡ 0
unfolding memcmp_loop
equal_loop zero i m p q h = refl
equal_loop (suc left) i m p q h = ground (
  arith,
  h i (omega arith) (omega arith),
  equal_loop left (i + 1) m p q (λ k a b. h k (omega arith) (omega arith)),
)

-- `memcmp` of fewer than 2 ^ 16 bytes returns 0 exactly when the two ranges hold the same bytes.
pub memcmp_iff :
    (m : Mem) (p q num : ℕ)
    → num < 2 ^ 16
    → (memcmp m p q num ≡ 0) ↔ ((k : ℕ) → k < num → m (p + k) ≡ m (q + k))
unfolding memcmp
memcmp_iff m p q num small =
    let cut : u16 num ≡ num = omega arith in
    rw cut (
      λ e k l. loop_equal num 0 m p q e k (omega arith) (omega arith),
      λ h. equal_loop num 0 m p q (λ k a b. h k (omega arith)),
    )
