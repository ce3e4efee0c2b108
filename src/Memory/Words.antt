-- ===== src/Memory/Words.antt =====
-- Reading back the words that were written.
use toy_kernel.Common.{ℕ, ◌+◌, ◌^◌, ◌≤◌, ◌<◌, ◌≡◌, ◌⊎◌, arith}
use toy_kernel.Memory.{Mem, IsBytes, read32, write32}

pub read32-lt : (m : Mem) (a : ℕ) → IsBytes m → read32 m a < 2 ^ 32
unfolding read32
read32-lt m a h = omega (arith, h a, h (a + 1), h (a + 2), h (a + 3))

pub write32-IsBytes : (m : Mem) (a v : ℕ) → IsBytes m → IsBytes (write32 m a v)
unfolding write32
write32-IsBytes m a v h b = ground (arith, h b)

pub read32-write32_self : (m : Mem) (a v : ℕ) → v < 2 ^ 32 → read32 (write32 m a v) a ≡ v
unfolding read32 write32
read32-write32_self m a v h = ground arith

-- A byte outside the word keeps its value.
pub write32_outside : (m : Mem) (a v b : ℕ) → (b < a) ⊎ (a + 4 ≤ b) → write32 m a v b ≡ m b
unfolding write32
write32_outside m a v b h = ground arith

pub read32-write32_ne :
    (m : Mem) (a v b : ℕ) → (b + 4 ≤ a) ⊎ (a + 4 ≤ b) → read32 (write32 m a v) b ≡ read32 m b
unfolding read32
read32-write32_ne m a v b h = omega (
  arith,
  write32_outside m a v b (omega arith),
  write32_outside m a v (b + 1) (omega arith),
  write32_outside m a v (b + 2) (omega arith),
  write32_outside m a v (b + 3) (omega arith),
)

-- A word whose four bytes agree in two memories is the same in both.
pub read32_congr :
    (m n : Mem) (a : ℕ) → ((b : ℕ) → a ≤ b → b < a + 4 → m b ≡ n b) → read32 m a ≡ read32 n a
unfolding read32
read32_congr m n a h = omega (
  arith,
  h a (omega arith) (omega arith),
  h (a + 1) (omega arith) (omega arith),
  h (a + 2) (omega arith) (omega arith),
  h (a + 3) (omega arith) (omega arith),
)

pub write32_nil : (m : Mem) (a b : ℕ) → a ≤ b → b < a + 4 → write32 m a 0 b ≡ 0
unfolding write32
write32_nil m a b l h = ground arith

pub read32_nil : (m : Mem) (a : ℕ) → ((b : ℕ) → a ≤ b → b < a + 4 → m b ≡ 0) → read32 m a ≡ 0
unfolding read32
read32_nil m a h = omega (
  arith,
  h a (omega arith) (omega arith),
  h (a + 1) (omega arith) (omega arith),
  h (a + 2) (omega arith) (omega arith),
  h (a + 3) (omega arith) (omega arith),
)
