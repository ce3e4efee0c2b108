-- ===== src/Pmm/Alloc/Valid.antt =====
-- The invariant of the physical memory manager: where the bitmap lies at the address of a frame, the
-- frame is itself marked used, so that no allocation hands it out and clears it. The bitmap of the
-- kernel lies in the higher half, above the addresses of all frames.
use toy_kernel.Common.{ℕ, ◌+◌, ◌*◌, ◌/◌, ◌^◌, ◌≤◌, ◌<◌, ◌≡◌, refl, ◌∙◌, ◌⊎◌, true, arith}
use toy_kernel.Memory.{IsBytes}
use toy_kernel.Memory.Words.{read32_congr}
use toy_kernel.Memory.Fill.{memset_outside, memset-IsBytes}
use toy_kernel.Pmm.State.{Pmm, used, test_bit, bit_map_word}
use toy_kernel.Pmm.Alloc.{clear_memory}
use toy_kernel.Pmm.Alloc.Mark.{Marked}

-- The number of frames that the bitmap speaks of.
abbrev pub frames : Pmm → ℕ
frames s = s.total_block * 32

pub record IsValid (s : Pmm) : Type 0 where
  pub bytes : IsBytes s.mem
  pub small : s.total_block ≤ 2 ^ 15
  pub nonempty : 0 < s.total_block
  pub in_space : s.bit_map + 4 * s.total_block ≤ 2 ^ 32
  pub owned :
      (a : ℕ)
      → s.bit_map ≤ a
      → a < s.bit_map + 4 * s.total_block
      → a / 4096 < frames s
      → used s (a / 4096) ≡ true

-- Two states whose bitmaps hold the same bytes agree on every frame of the bitmap.
pub used_congr :
    (s t : Pmm) (c : ℕ)
    → t.bit_map ≡ s.bit_map
    → c < frames s
    → ((a : ℕ) → s.bit_map ≤ a → a < s.bit_map + 4 * s.total_block → t.mem a ≡ s.mem a)
    → used t c ≡ used s c
unfolding used test_bit bit_map_word
used_congr s t c e h same =
    let word =
      read32_congr t.mem s.mem (s.bit_map + 4 * (c / 32))
        (λ b l m. same b (omega arith) (omega arith)) in
    rw (e, word)

-- Marking frames used keeps the invariant.
pub Marked-IsValid : {s t : Pmm} {f n : ℕ} → Marked true s f n t → IsValid s → IsValid t
Marked-IsValid {s} {t} {f} {n} m v = record {
  bytes = m.bytes;
  small = rw m.same_blocks v.small;
  nonempty = rw m.same_blocks v.nonempty;
  in_space = rw (m.same_blocks, m.same_map) v.in_space;
  owned = λ a l h f. ground (arith, m.marks (a / 4096), v.owned a, m.same_map, m.same_blocks);
}

-- Clearing memory outside the bitmap keeps the invariant and every mark of the bitmap.
module _ (s : Pmm) (addr n : ℕ) (v : IsValid s)
    (apart : (addr + n ≤ s.bit_map) ⊎ (s.bit_map + 4 * s.total_block ≤ addr)) where
  pub used-clear_memory : (c : ℕ) → c < frames s → used (clear_memory s addr n) c ≡ used s c
  used-clear_memory c h =
      used_congr s (clear_memory s addr n) c refl h
        (λ a l m. memset_outside s.mem addr 0 n a (omega arith))

  pub clear_memory-IsValid : IsValid (clear_memory s addr n)
  clear_memory-IsValid = record {
    bytes = memset-IsBytes s.mem addr 0 n v.bytes;
    small = v.small;
    nonempty = v.nonempty;
    in_space = v.in_space;
    owned = λ a l h f. used-clear_memory (a / 4096) f ∙ v.owned a l h f;
  }
