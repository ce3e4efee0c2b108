-- ===== src/Text/Examples.antt =====
-- Printing numbers and reading them.
use toy_kernel.Common.{ℕ, List, ◌-◌, ◌^◌, ◌≡◌, refl, none, some, [], ◌∷◌, arith}
use toy_kernel.Text.Formatter.{null_text, vprintf, stage2_printf}
use toy_kernel.Text.Same.{vprintf-printf}
use toy_kernel.Text.{Arg, number, text, null, printf, printf_unsigned, str_to_int}
use toy_kernel.Text.Digits.{str_to_int-printf_unsigned}

str_to_int-printf_unsigned_example : str_to_int (printf_unsigned 40096 10) ≡ 40096
str_to_int-printf_unsigned_example = str_to_int-printf_unsigned 40096 (omega arith)

-- `printf("%d %x%%", -5, 0xbe)`
printf_run :
    printf []
      (0x25 ∷ 0x64 ∷ 0x20 ∷ 0x25 ∷ 0x78 ∷ 0x25 ∷ 0x25 ∷ [])
      (number (2 ^ 32 - 5) ∷ number 0xbe ∷ [])
    ≡ some (0x2d ∷ 0x35 ∷ 0x20 ∷ 0x62 ∷ 0x65 ∷ 0x25 ∷ [])
unfolding printf
printf_run = refl

-- `vprintf("%u%s")` and the boot loader's `printf`, which prints one more number behind the string.
abbrev number_and_text : List ℕ
number_and_text = 0x25 ∷ 0x75 ∷ 0x25 ∷ 0x73 ∷ []

abbrev its_args : List Arg
its_args = number 7 ∷ text (0x61 ∷ []) ∷ number 9 ∷ []

vprintf-printf_example :
    (vprintf none its_args ≡ some [])
    × ((fmt : List ℕ) → vprintf (some fmt) its_args ≡ printf null_text fmt its_args)
vprintf-printf_example = vprintf-printf its_args

vprintf_run : vprintf (some number_and_text) its_args ≡ some (0x37 ∷ 0x61 ∷ [])
unfolding vprintf
vprintf_run = refl

stage2_printf_run : stage2_printf [] number_and_text its_args ≡ some (0x37 ∷ 0x61 ∷ 0x39 ∷ [])
unfolding stage2_printf
stage2_printf_run = refl

-- A null string between brackets.
vprintf_null_run :
    vprintf (some (0x5b ∷ 0x25 ∷ 0x73 ∷ 0x5d ∷ [])) (null ∷ [])
    ≡ some (0x5b ∷ 0x28 ∷ 0x6e ∷ 0x75 ∷ 0x6c ∷ 0x6c ∷ 0x29 ∷ 0x5d ∷ [])
unfolding vprintf
vprintf_null_run = refl
