-- ===== src/Text/Digits.antt =====
-- The digits that `printf_unsigned` prints.
use toy_kernel.Common.{
  ℕ, zero, suc, ◌+◌, ◌*◌, ◌/◌, ◌%◌, ◌^◌, ◌<◌, ◌≡◌, ap, ◌∙◌, inl, inr, List, [], ◌∷◌, arith, ltb,
  Bool-cases, u32, sub32,
}
use native.Mathlib.Nat.{pow-suc}
use toy_kernel.Text.{hex_char, fill_digits, reverse_onto, printf_unsigned, str_loop, str_to_int}

digit_step :
    (result d : ℕ)
    → result * 10 + d < 2 ^ 31
    → d < 10
    → u32 (result * 10 + sub32 (hex_char d) 0x30) ≡ result * 10 + d
unfolding hex_char
digit_step result d h k = ground arith

-- Reading back the digits of `number` leaves `number`, whatever comes after them.
read_digits :
    (left number : ℕ) (out : List ℕ)
    → number < 2 ^ left
    → number < 2 ^ 31
    → str_loop (reverse_onto (fill_digits left number 10) out) 0 ≡ str_loop out number
unfolding fill_digits reverse_onto str_loop
read_digits zero number out h small = ap (λ n. str_loop out n) (omega (arith, h))
read_digits (suc left) number out h small = elim (Bool-cases (ltb 0 (number / 10))) [
  | inl more ↦
      let rest =
        read_digits left (number / 10) (hex_char (number % 10) ∷ out)
          (omega (arith, pow-suc 2 left)) (omega arith) in
      rw more (
        rest
        ∙ ap (λ n. str_loop out n)
            (digit_step (number / 10) (number % 10) (omega arith) (omega arith) ∙ omega arith))
  | inr last ↦ rw last (
      ap (λ n. str_loop out n)
        (digit_step 0 (number % 10) (omega arith) (omega arith) ∙ ground arith))
]

-- `str_to_int` reads what `printf_unsigned` prints in decimal, for numbers that fit an `int`.
pub str_to_int-printf_unsigned :
    (number : ℕ) → number < 2 ^ 31 → str_to_int (printf_unsigned number 10) ≡ number
unfolding str_to_int printf_unsigned
str_to_int-printf_unsigned number h = read_digits 64 number [] (omega arith) h
