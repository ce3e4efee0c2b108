-- ===== src/Vmm/Entry/Laws.antt =====
-- The macros as arithmetic: an entry is a frame address and twelve flags.
use toy_kernel.Common.{ℕ, ◌+◌, ◌*◌, ◌/◌, ◌%◌, ◌^◌, ◌<◌, bit_and, bit_or, ◌≡◌, ap, ◌∙◌, arith}
use toy_kernel.Common.Bits.{and-two_pow, bit_or-lt, or_zero, bit_or-nil, bit-small}
use mathlib.Core.Path.{ap₂}
use toy_kernel.Common.Bits.Split.{bit_and-parts, bit_or-parts, bit_and-ones, page_mask}
use toy_kernel.Vmm.Entry.{pt_index, page_phys_address, set_attribute, set_frame}

pub pt_index_lem : (a : ℕ) → pt_index a ≡ a / 4096 % 1024
unfolding pt_index
pt_index_lem a = bit_and-ones 10 (a / 4096)

pub page_phys_address_lem : (e : ℕ) → e < 2 ^ 32 → page_phys_address e ≡ e / 4096 * 4096
unfolding page_phys_address
page_phys_address_lem e h = page_mask e h

-- Setting flags leaves the frame alone.
pub set_attribute_lem :
    (e attr : ℕ) → attr < 4096 → set_attribute e attr ≡ e / 4096 * 4096 + bit_or (e % 4096) attr
unfolding set_attribute
set_attribute_lem e attr h =
    let page : e ≡ e / 4096 * 4096 + e % 4096 = omega arith in
    let flags : attr ≡ 0 * 4096 + attr = omega arith in
    ap₂ bit_or page flags
    ∙ bit_or-parts 12 (e / 4096) 0 (e % 4096) attr (omega arith) h
    ∙ omega (arith, bit_or-nil (e / 4096))

pub set_attribute_frame : (e attr : ℕ) → attr < 4096 → set_attribute e attr / 4096 ≡ e / 4096
set_attribute_frame e attr h =
    omega (arith, set_attribute_lem e attr h, bit_or-lt 12 (e % 4096) attr (omega arith) h)

-- `SET_FRAME` of a page address keeps the flags, if neither address has its top bit set.
pub set_frame_lem :
    (e p : ℕ) → e < 2 ^ 31 → p < 2 ^ 31 → p % 4096 ≡ 0 → set_frame e p ≡ p + e % 4096
unfolding set_frame
set_frame_lem e p he hp aligned =
    let flags : bit_and e 0x80000fff ≡ 0 * 4096 + e % 4096 =
      ap (λ t. bit_and t 0x80000fff) (omega arith)
      ∙ bit_and-parts 12 (e / 4096) (2 ^ 19) (e % 4096) 0xfff (omega arith) (omega arith)
      ∙ omega (
        arith,
        and-two_pow (e / 4096) 19,
        bit-small 19 (e / 4096) (omega arith),
        bit_and-ones 12 (e % 4096),
      ) in
    let page : p ≡ p / 4096 * 4096 + 0 = omega (arith, aligned) in
    ap₂ bit_or flags page
    ∙ bit_or-parts 12 0 (p / 4096) (e % 4096) 0 (omega arith) (omega arith)
    ∙ omega (arith, or_zero (p / 4096), bit_or-nil (e % 4096))
