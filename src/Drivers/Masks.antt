-- ===== src/Drivers/Masks.antt =====
-- The masks of the interrupt lines.
use toy_kernel.Common.{
  ℕ, ◌^◌, ◌<◌, bit_and, bit_or, ◌≡◌, inl, inr, false, arith, ◌==◌, if◌then◌else◌, Bool-cases, u8,
}
use toy_kernel.Common.Bits.{
  bit, bit-or, bit-and, bit-two_pow, bit-bit_off, bit_off, bit-lt, bit_or-lt, bit_and-lt, pow-lt,
}
use toy_kernel.Drivers.Ports.{Ports, outb, inb}
use toy_kernel.Drivers.Pic.{data_port, line_of, set_irq_mask, clear_irq_mask}

-- Whether the line `irq` of 16 is masked.
abbrev pub masked : Ports → ℕ → ℕ
masked s irq = bit (s.value (data_port irq)) (line_of irq)

line-lt : (irq : ℕ) → irq < 16 → line_of irq < 8
unfolding line_of
line-lt irq h = ground arith

same_line : (i j : ℕ) → i < 16 → j < 16 → data_port i ≡ data_port j → line_of i ≡ line_of j → i ≡ j
unfolding data_port line_of
same_line i j hi hj p l = ground (arith, p, l)

-- Masking a line masks it and no other.
pub set_irq_mask_lem :
    (s : Ports) (irq j : ℕ)
    → irq < 16
    → j < 16
    → s.value (data_port irq) < 2 ^ 8
    → masked (set_irq_mask s irq) j ≡ (if j == irq then 1 else masked s j)
unfolding set_irq_mask outb inb
set_irq_mask_lem s irq j hi hj byte =
    let old = s.value (data_port irq) in
    let l = line_of irq in
    let whole : u8 (bit_or old (2 ^ l)) ≡ bit_or old (2 ^ l) =
      let small = bit_or-lt 8 old (2 ^ l) byte (pow-lt l 8 (line-lt irq hi)) in omega arith in
    elim (Bool-cases (data_port j == data_port irq)) [
      | inl here ↦
          let q : data_port j ≡ data_port irq = ground arith in
          let digits = bit-or old (2 ^ l) (line_of j) in
          let added = bit-two_pow l (line_of j) in
          let range = bit-lt old (line_of j) in
          let only = same_line j irq hj hi q in
          rw (here, whole, q) (ground (arith, digits, added, range, only))
      | inr there ↦ let other : (j == irq) ≡ false = ground arith in rw (there, other)
    ]

-- Unmasking a line unmasks it and no other.
pub clear_irq_mask_lem :
    (s : Ports) (irq j : ℕ)
    → irq < 16
    → j < 16
    → s.value (data_port irq) < 2 ^ 8
    → masked (clear_irq_mask s irq) j ≡ (if j == irq then 0 else masked s j)
unfolding clear_irq_mask outb inb
clear_irq_mask_lem s irq j hi hj byte =
    let old = s.value (data_port irq) in
    let l = line_of irq in
    let whole : u8 (bit_and old (bit_off 32 l)) ≡ bit_and old (bit_off 32 l) =
      let small = bit_and-lt 8 old (bit_off 32 l) byte in omega arith in
    elim (Bool-cases (data_port j == data_port irq)) [
      | inl here ↦
          let q : data_port j ≡ data_port irq = ground arith in
          let lj = line-lt j hj in
          let li = line-lt irq hi in
          let digits = bit-and old (bit_off 32 l) (line_of j) in
          let removed = bit-bit_off 32 l (line_of j) (omega arith) (omega arith) in
          let range = bit-lt old (line_of j) in
          let only = same_line j irq hj hi q in
          rw (here, whole, q) (ground (arith, digits, removed, range, only))
      | inr there ↦ let other : (j == irq) ≡ false = ground arith in rw (there, other)
    ]
