-- ===== src/Stage2/Chunks.antt =====
-- What a round of the loading loop copies.
use toy_kernel.Common.{
  ℕ, suc, ◌+◌, ◌-◌, ◌≤◌, ◌≡◌, refl, ◌∙◌, inl, inr, true, false, ◌&&◌, List, [], ◌∷◌, arith, ltb,
  leb, ◌==◌, if◌then◌else◌, Bool-cases, u16, length, get_or,
}
use toy_kernel.Memory.{Mem, write8}
use toy_kernel.Memory.Copy.{memcpy-u16}
use toy_kernel.Stage2.Load.{memory_load_kernel, write_bytes, load_chunk}

write_bytes_lem :
    (m : Mem) (a : ℕ) (bytes : List ℕ) (b : ℕ)
    → write_bytes m a bytes b
      ≡ (if leb a b && ltb b (a + length bytes) then get_or bytes (b - a) 0 else m b)
unfolding write_bytes write8
write_bytes_lem m a [] b = ground arith
write_bytes_lem m a (v ∷ bytes) b =
    write_bytes_lem (write8 m a v) (a + 1) bytes b ∙ elim (Bool-cases (leb (a + 1) b)) [
      | inl behind ↦ let step : b - a ≡ suc (b - (a + 1)) = ground arith in rw step (ground arith)
      | inr before ↦ elim (Bool-cases (b == a)) [
        | inl here ↦ let first : b - a ≡ 0 = ground arith in rw first (ground arith)
        | inr lower ↦ ground arith
      ]
    ]

-- A round on at most 65536 bytes, which is what each call of `FAT_Read` asks for, copies them to
-- their place behind the buffer and changes nothing else behind it, but for exactly 65536 bytes,
-- whose count is cut to 0: none of them is copied.
pub load_chunk_lem :
    (m : Mem) (dest : ℕ) (bytes : List ℕ) (a : ℕ)
    → memory_load_kernel + 0x10000 ≤ dest
    → memory_load_kernel + 0x10000 ≤ a
    → length bytes ≤ 0x10000
    → load_chunk m dest bytes a
      ≡ (if leb dest a && ltb a (dest + u16 (length bytes)) then get_or bytes (a - dest) 0 else m a)
unfolding load_chunk
load_chunk_lem m dest bytes a above behind most =
    let written = write_bytes m memory_load_kernel bytes in
    let copied = memcpy-u16 written dest memory_load_kernel (length bytes) a (inr (omega arith)) in
    copied ∙ elim (Bool-cases (leb dest a && ltb a (dest + u16 (length bytes)))) [
      | inl inside ↦
          let place : memory_load_kernel + (a - dest) - memory_load_kernel ≡ a - dest =
            omega arith in
          let in_buffer : (leb memory_load_kernel (memory_load_kernel + (a - dest))
                && ltb (memory_load_kernel + (a - dest)) (memory_load_kernel + length bytes))
              ≡ true =
            ground arith in
          rw inside (
            write_bytes_lem m memory_load_kernel bytes (memory_load_kernel + (a - dest))
            ∙ rw (in_buffer, place) refl)
      | inr outside ↦
          let past : (leb memory_load_kernel a && ltb a (memory_load_kernel + length bytes))
              ≡ false =
            ground arith in
          rw outside (write_bytes_lem m memory_load_kernel bytes a ∙ rw past refl)
    ]
