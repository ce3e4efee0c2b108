-- ===== src/Common/Bits/Split.antt =====
-- `&` and `|` of numbers written as a high and a low part.
use toy_kernel.Common.{
  ℕ, zero, suc, ◌+◌, ◌-◌, ◌*◌, ◌/◌, ◌%◌, ◌^◌, ◌<◌, min, max, bit_and, bit_or, ◌≡◌, sym, ap, ◌∙◌,
  arith,
}
use mathlib.Core.Path.{ap₂}
use native.Mathlib.Nat.{pow-suc, mod-lt, mod-eq_of_lt, mul-add-mod_self_right, div-add-mod'}
use toy_kernel.Common.Bits.{bit_or-low, bit_and-low, pow-pos, bit_and-nil, and_zero, or_zero}

-- Halving a number given by its parts.
halve :
    (k q r : ℕ) → ((q * 2 ^ suc k + r) / 2 ≡ q * 2 ^ k + r / 2) × ((q * 2 ^ suc k + r) % 2 ≡ r % 2)
halve k q r =
    let twice : q * 2 ^ suc k ≡ 2 * (q * 2 ^ k) =
      omega (arith, ap (λ (t : ℕ). q * t) (pow-suc 2 k)) in
    (omega arith, omega arith)

parts_zero : (q r : ℕ) → r < 2 ^ 0 → q * 2 ^ 0 + r ≡ q
parts_zero q r h = omega arith

module _ (op : ℕ → ℕ → ℕ) (digit : ℕ → ℕ → ℕ)
    (low : (a b : ℕ) → op a b ≡ op (a / 2) (b / 2) * 2 + digit (a % 2) (b % 2))
    (nil : op 0 0 ≡ 0) where
  -- An operation on digits works on the high and the low parts by themselves.
  op_parts :
      (k p q a b : ℕ)
      → a < 2 ^ k
      → b < 2 ^ k
      → op (p * 2 ^ k + a) (q * 2 ^ k + b) ≡ op p q * 2 ^ k + op a b
  op_parts zero p q a b ha hb =
      let za : a ≡ 0 = omega arith in
      let zb : b ≡ 0 = omega arith in
      ap₂ op (parts_zero p a ha) (parts_zero q b hb) ∙ omega (arith, ap₂ op za zb, nil)
  op_parts (suc k) p q a b ha hb =
      let (ea, ra) = halve k p a in
      let (eb, rb) = halve k q b in
      let rest =
        op_parts k p q (a / 2) (b / 2) (omega (arith, pow-suc 2 k)) (omega (arith, pow-suc 2 k)) in
      low (p * 2 ^ suc k + a) (q * 2 ^ suc k + b)
      ∙ ap₂ (λ s t. s * 2 + t) (ap₂ op ea eb ∙ rest) (ap₂ digit ra rb)
      ∙ omega (arith, low a b, ap (λ (t : ℕ). op p q * t) (pow-suc 2 k))

pub bit_and-parts :
    (k p q a b : ℕ)
    → a < 2 ^ k
    → b < 2 ^ k
    → bit_and (p * 2 ^ k + a) (q * 2 ^ k + b) ≡ bit_and p q * 2 ^ k + bit_and a b
bit_and-parts = op_parts bit_and min bit_and-low (and_zero 0)

pub bit_or-parts :
    (k p q a b : ℕ)
    → a < 2 ^ k
    → b < 2 ^ k
    → bit_or (p * 2 ^ k + a) (q * 2 ^ k + b) ≡ bit_or p q * 2 ^ k + bit_or a b
bit_or-parts = op_parts bit_or max bit_or-low (or_zero 0)

mod-two_pow : (n a : ℕ) → a % 2 ^ suc n ≡ a / 2 % 2 ^ n * 2 + a % 2
mod-two_pow n a =
    let q = a / 2 / 2 ^ n in
    let r = a / 2 % 2 ^ n * 2 + a % 2 in
    let whole : q * 2 ^ suc n + r ≡ a =
      omega (arith, div-add-mod' (a / 2) (2 ^ n), ap (λ (t : ℕ). q * t) (pow-suc 2 n)) in
    let small : r < 2 ^ suc n = omega (arith, pow-suc 2 n, mod-lt (a / 2) (pow-pos n)) in
    ap (λ t. t % 2 ^ suc n) (sym whole)
    ∙ mul-add-mod_self_right q (2 ^ suc n) r
    ∙ mod-eq_of_lt small

-- `&` with `n` ones is the remainder by `2 ^ n`.
pub bit_and-ones : (n a : ℕ) → bit_and a (2 ^ n - 1) ≡ a % 2 ^ n
bit_and-ones zero a = omega (arith, bit_and-nil a)
bit_and-ones (suc n) a =
    let half : (2 ^ suc n - 1) / 2 ≡ 2 ^ n - 1 = omega (arith, pow-suc 2 n, pow-pos n) in
    bit_and-low a (2 ^ suc n - 1)
    ∙ ap (λ t. bit_and (a / 2) t * 2 + min (a % 2) ((2 ^ suc n - 1) % 2)) half
    ∙ omega (arith, bit_and-ones n (a / 2), mod-two_pow n a, pow-suc 2 n, pow-pos n)

-- `a & ~0xFFF` on `uint32_t`.
pub page_mask : (a : ℕ) → a < 2 ^ 32 → bit_and a 0xfffff000 ≡ a / 4096 * 4096
page_mask a h =
    let high : a / 4096 < 2 ^ 20 = omega arith in
    ap (λ t. bit_and t 0xfffff000) (omega arith)
    ∙ bit_and-parts 12 (a / 4096) 0xfffff (a % 4096) 0 (omega arith) (omega arith)
    ∙ omega (arith, bit_and-ones 20 (a / 4096), bit_and-nil (a % 4096))
