-- ===== src/Gates/Segments.antt =====
-- Segment descriptors, src/kernel/arch/i686/gdt.h and gdt.c, and the task state segment, tss.c.
use toy_kernel.Common.{
  ℕ, ◌+◌, ◌-◌, ◌*◌, ◌/◌, ◌%◌, ◌^◌, ◌<◌, bit_and, bit_or, ◌≡◌, ap, ◌∙◌, List, [], ◌∷◌, arith, set,
}
use mathlib.Core.Path.{ap₂}
use toy_kernel.Common.Bits.{bit_and-nil, bit_or-nil, or_zero}
use toy_kernel.Common.Bits.Split.{bit_and-ones, bit_and-parts, bit_or-parts}

-- `GDTEntry`
pub record GdtEntry : Type 0 where
  pub limit_low : ℕ
  pub base_low : ℕ
  pub base_middle : ℕ
  pub access : ℕ
  pub flags_limit_hi : ℕ
  pub base_high : ℕ

-- The helper macros.
unfoldable pub gdt_limit_low : ℕ → ℕ
gdt_limit_low limit = bit_and limit 0xffff

unfoldable pub gdt_base_low : ℕ → ℕ
gdt_base_low base = bit_and base 0xffff

unfoldable pub gdt_base_middle : ℕ → ℕ
gdt_base_middle base = bit_and (base / 2 ^ 16) 0xff

unfoldable pub gdt_flags_limit_hi : (limit flags : ℕ) → ℕ
gdt_flags_limit_hi limit flags = bit_or (bit_and (limit / 2 ^ 16) 0xf) (bit_and flags 0xf0)

unfoldable pub gdt_base_high : ℕ → ℕ
gdt_base_high base = bit_and (base / 2 ^ 24) 0xff

-- `GDT_ENTRY`
unfoldable pub gdt_entry : (base limit access flags : ℕ) → GdtEntry
unfolding gdt_limit_low gdt_base_low gdt_base_middle gdt_flags_limit_hi gdt_base_high
gdt_entry base limit access flags = record {
  limit_low = gdt_limit_low limit;
  base_low = gdt_base_low base;
  base_middle = gdt_base_middle base;
  access = access;
  flags_limit_hi = gdt_flags_limit_hi limit flags;
  base_high = gdt_base_high base;
}

-- `g_GDT`. The access bytes are PRESENT, with RING3 for user segments, and CODE_SEGMENT with
-- CODE_READABLE or DATA_SEGMENT with DATA_WRITEABLE; the flags are 32BIT and GRANULARITY_4K.
unfoldable pub g_gdt : List GdtEntry
unfolding gdt_entry
g_gdt =
    gdt_entry 0 0 0 0
    ∷ gdt_entry 0 0xfffff 0x9a 0xc0
    ∷ gdt_entry 0 0xfffff 0x92 0xc0
    ∷ gdt_entry 0 0xfffff 0xfa 0xc0
    ∷ gdt_entry 0 0xfffff 0xf2 0xc0
    ∷ gdt_entry 0 0 0 0
    ∷ []

-- The fields of `TSS` that are ever set to other than 0.
pub record Tss : Type 0 where
  pub esp0 : ℕ
  pub ss0 : ℕ
  pub iomap_base : ℕ

-- `sizeof(TSS)`
abbrev pub tss_size : ℕ
tss_size = 104

-- `base` is the address of `g_TSS`; the result is the segment, and the table with its descriptor.
unfoldable pub tss_init : List GdtEntry → (base : ℕ) → Tss × List GdtEntry
unfolding gdt_entry
tss_init gdt base = (
  record { esp0 = 0; ss0 = 0x10; iomap_base = tss_size },
  set gdt 5 (gdt_entry base (tss_size - 1) 0x89 0),
)

unfoldable pub tss_set_kernel_stack : Tss → ℕ → Tss
tss_set_kernel_stack s esp0 = record s { esp0 = esp0 }

-- The base and the limit that the processor reads from a descriptor.
abbrev pub base_of : GdtEntry → ℕ
base_of e = e.base_low + e.base_middle * 2 ^ 16 + e.base_high * 2 ^ 24

abbrev pub limit_of : GdtEntry → ℕ
limit_of e = e.limit_low + e.flags_limit_hi % 16 * 2 ^ 16

-- A descriptor gives the processor back the base and the limit that it was made from, for a base of
-- 32 bits, a limit of 20 and flags in the upper half of their byte, which it also keeps.
pub gdt_entry_lem :
    (base limit access flags : ℕ)
    → base < 2 ^ 32
    → limit < 2 ^ 20
    → flags < 16
    → let e = gdt_entry base limit access (flags * 16) in
      (base_of e ≡ base) × (limit_of e ≡ limit) × (e.flags_limit_hi / 16 ≡ flags)
unfolding gdt_entry gdt_limit_low gdt_base_low gdt_base_middle gdt_flags_limit_hi gdt_base_high
gdt_entry_lem base limit access flags hb hl hf =
    let low = bit_and-ones 16 base in
    let middle = bit_and-ones 8 (base / 2 ^ 16) in
    let high = bit_and-ones 8 (base / 2 ^ 24) in
    let limit_low = bit_and-ones 16 limit in
    let small : bit_and (limit / 2 ^ 16) 0xf ≡ 0 * 16 + limit / 2 ^ 16 =
      omega (arith, bit_and-ones 4 (limit / 2 ^ 16)) in
    let zero_high : bit_and (flags * 16) 0xf0 ≡ bit_and (flags * 16 + 0) (15 * 16 + 0) =
      ap (λ t. bit_and t 0xf0) (omega arith) in
    let shifted : bit_and (flags * 16) 0xf0 ≡ flags * 16 + 0 =
      zero_high
      ∙ bit_and-parts 4 flags 15 0 0 (omega arith) (omega arith)
      ∙ omega (arith, bit_and-ones 4 flags, bit_and-nil 0) in
    let top : bit_or (bit_and (limit / 2 ^ 16) 0xf) (bit_and (flags * 16) 0xf0)
        ≡ flags * 16 + limit / 2 ^ 16 =
      ap₂ bit_or small shifted
      ∙ bit_or-parts 4 0 flags (limit / 2 ^ 16) 0 (omega arith) (omega arith)
      ∙ omega (arith, or_zero flags, bit_or-nil (limit / 2 ^ 16)) in
    (omega (arith, low, middle, high), omega (arith, limit_low, top), omega (arith, top))
