-- ===== src/Pmm/Bitmap.antt =====
-- What `set_bit` and `unset_bit` do to the answers of `test_bit`, and to the other memory.
use toy_kernel.Common.{
  ℕ, ◌+◌, ◌*◌, ◌/◌, ◌%◌, ◌^◌, ◌≤◌, ◌<◌, bit_and, bit_or, ◌≡◌, ◌≢◌, ◌⊎◌, inl, inr, true, false,
  arith, ◌==◌, if◌then◌else◌, Bool-cases,
}
use toy_kernel.Common.Bits.{
  bit, bit_off, bit-lt, bit-or, bit-and, bit-two_pow, bit-bit_off, and-two_pow, bit_or-lt,
  bit_and-lt, pow-lt, pow-pos,
}
use toy_kernel.Memory.{IsBytes}
use toy_kernel.Memory.Words.{
  read32-lt, write32-IsBytes, read32-write32_self, read32-write32_ne, write32_outside,
}
use toy_kernel.Pmm.State.{Pmm, bit_map_word, set_bit, unset_bit, test_bit, used}

-- A frame is used if its digit in the bitmap is 1.
pub used-bit : (s : Pmm) (f : ℕ) → used s f ≡ (bit (bit_map_word s (f / 32)) (f % 32) == 1)
unfolding used test_bit
used-bit s f = ground (
  arith,
  and-two_pow (bit_map_word s (f / 32)) (f % 32),
  bit-lt (bit_map_word s (f / 32)) (f % 32),
  pow-pos (f % 32),
)

word-set_bit_self :
    (s : Pmm) (f : ℕ)
    → IsBytes s.mem
    → bit_map_word (set_bit s f) (f / 32) ≡ bit_or (bit_map_word s (f / 32)) (2 ^ (f % 32))
unfolding set_bit bit_map_word
word-set_bit_self s f h = read32-write32_self s.mem (s.bit_map + 4 * (f / 32)) _ (
    bit_or-lt 32 (bit_map_word s (f / 32)) (2 ^ (f % 32)) (read32-lt _ _ h)
      (pow-lt (f % 32) 32 (omega arith)))

word-unset_bit_self :
    (s : Pmm) (f : ℕ)
    → IsBytes s.mem
    → bit_map_word (unset_bit s f) (f / 32)
      ≡ bit_and (bit_map_word s (f / 32)) (bit_off 32 (f % 32))
unfolding unset_bit bit_map_word
word-unset_bit_self s f h =
    read32-write32_self s.mem (s.bit_map + 4 * (f / 32)) _
      (bit_and-lt 32 (bit_map_word s (f / 32)) (bit_off 32 (f % 32)) (read32-lt _ _ h))

word-set_bit_ne : (s : Pmm) (f i : ℕ) → f / 32 ≢ i → bit_map_word (set_bit s f) i ≡ bit_map_word s i
unfolding set_bit bit_map_word
word-set_bit_ne s f i ne = read32-write32_ne s.mem _ _ _ (omega arith)

word-unset_bit_ne :
    (s : Pmm) (f i : ℕ) → f / 32 ≢ i → bit_map_word (unset_bit s f) i ≡ bit_map_word s i
unfolding unset_bit bit_map_word
word-unset_bit_ne s f i ne = read32-write32_ne s.mem _ _ _ (omega arith)

-- `set_bit` marks its own frame used, and changes the answer for no other.
pub used-set_bit :
    (s : Pmm) (f g : ℕ) → IsBytes s.mem → used (set_bit s f) g ≡ (if f == g then true else used s g)
used-set_bit s f g h = elim (Bool-cases (f / 32 == g / 32)) [
  | inl same ↦
      let e : f / 32 ≡ g / 32 = ground arith in
      ground (
        arith,
        used-bit (set_bit s f) g,
        used-bit s g,
        word-set_bit_self s f h,
        bit-or (bit_map_word s (f / 32)) (2 ^ (f % 32)) (g % 32),
        bit-two_pow (f % 32) (g % 32),
        bit-lt (bit_map_word s (g / 32)) (g % 32),
      )
  | inr apart ↦
      ground
        (arith, used-bit (set_bit s f) g, used-bit s g, word-set_bit_ne s f (g / 32) (ground arith))
]

-- `unset_bit` marks its own frame free, and changes the answer for no other.
pub used-unset_bit :
    (s : Pmm) (f g : ℕ)
    → IsBytes s.mem
    → used (unset_bit s f) g ≡ (if f == g then false else used s g)
used-unset_bit s f g h = elim (Bool-cases (f / 32 == g / 32)) [
  | inl same ↦
      let e : f / 32 ≡ g / 32 = ground arith in
      ground (
        arith,
        used-bit (unset_bit s f) g,
        used-bit s g,
        word-unset_bit_self s f h,
        bit-and (bit_map_word s (f / 32)) (bit_off 32 (f % 32)) (g % 32),
        bit-bit_off 32 (f % 32) (g % 32),
        bit-lt (bit_map_word s (g / 32)) (g % 32),
      )
  | inr apart ↦ ground (
    arith,
    used-bit (unset_bit s f) g,
    used-bit s g,
    word-unset_bit_ne s f (g / 32) (ground arith),
  )
]

pub set_bit-IsBytes : (s : Pmm) (f : ℕ) → IsBytes s.mem → IsBytes (set_bit s f).mem
unfolding set_bit
set_bit-IsBytes s f h = write32-IsBytes _ _ _ h

pub unset_bit-IsBytes : (s : Pmm) (f : ℕ) → IsBytes s.mem → IsBytes (unset_bit s f).mem
unfolding unset_bit
unset_bit-IsBytes s f h = write32-IsBytes _ _ _ h

-- Both write only the word of the bitmap that holds the frame's bit.
pub set_bit_outside :
    (s : Pmm) (f a : ℕ)
    → (a < s.bit_map + 4 * (f / 32)) ⊎ (s.bit_map + 4 * (f / 32) + 4 ≤ a)
    → (set_bit s f).mem a ≡ s.mem a
unfolding set_bit
set_bit_outside s f a h = write32_outside _ _ _ _ h

pub unset_bit_outside :
    (s : Pmm) (f a : ℕ)
    → (a < s.bit_map + 4 * (f / 32)) ⊎ (s.bit_map + 4 * (f / 32) + 4 ≤ a)
    → (unset_bit s f).mem a ≡ s.mem a
unfolding unset_bit
unset_bit_outside s f a h = write32_outside _ _ _ _ h
