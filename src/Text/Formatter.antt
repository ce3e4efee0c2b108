-- ===== src/Text/Formatter.antt =====
-- `vprintf` of src/userland/lib/stdio.h and `printf` of src/bootloader/stage2/stdio.c, with all of
-- their locals. They have the same states and the same conversions; the boot loader's does not set
-- `number` back. What `print`
-- writes for a null pointer is a parameter, `at_null`, of what both have in common.
-- `printf_unsigned` and `printf_signed` are those of the kernel.
use toy_kernel.Common.{
  ℕ, Bool, true, false, ◌&&◌, ◌||◌, Option, none, some, List, [], ◌∷◌, ◌++◌, ◌==◌, if◌then◌else◌,
  u8,
}
use toy_kernel.Text.{
  Arg, PrintfState, state_normal, state_length, state_length_short, state_length_long, state_spec,
  PrintfLength, length_default, length_short_short, length_short, length_long, length_long_long,
  next_number, next_text, extend, truncate, printf_signed, printf_unsigned,
}

pub record Formatter : Type 0 where
  pub state : PrintfState
  pub length : PrintfLength
  pub number : Bool
  pub sign : Bool
  pub radix : ℕ
  pub args : List Arg
  pub out : List ℕ

-- A conversion of a number, which is printed after the `switch`.
unfoldable pub set_number : Formatter → (sign : Bool) → (radix : ℕ) → Formatter
set_number s sign radix = record s { number = true; sign = sign; radix = radix }

-- The `switch` behind the label `PRINTF_STATE_SPEC_`. `none` is an argument that does not fit.
unfoldable pub conversion : (at_null : List ℕ) → Formatter → ℕ → Option Formatter
unfolding set_number next_number next_text
conversion at_null s c =
    if c == 0x63
    then elim (next_number s.args) [
      | none ↦ none
      | some (n, args) ↦ some (record s { args = args; out = s.out ++ u8 n ∷ [] })
    ]
    else if c == 0x73
    then elim (next_text at_null s.args) [
      | none ↦ none
      | some (t, args) ↦ some (record s { args = args; out = s.out ++ t })
    ]
    else if c == 0x25
    then some (record s { out = s.out ++ 0x25 ∷ [] })
    else if c == 0x64 || c == 0x69
    then some (set_number s true 10)
    else if c == 0x75
    then some (set_number s false 10)
    else if c == 0x58 || c == 0x78 || c == 0x70
    then some (set_number s false 16)
    else if c == 0x6f
    then some (set_number s false 8)
    else some s

-- `if (number)`
unfoldable pub print_if_number : Formatter → Option Formatter
unfolding next_number extend truncate printf_signed printf_unsigned
print_if_number s =
    if s.number
    then elim (next_number s.args) [
      | none ↦ none
      | some (n, args) ↦ some (record s {
        args = args;
        out =
            s.out
            ++ (if s.sign
                then printf_signed (extend s.length n) s.radix
                else printf_unsigned (truncate s.length n) s.radix);
      })
    ]
    else some s

-- The end of a conversion, for a `printf` that keeps `number` or one that does not.
unfoldable pub format_reset : (keeps : Bool) → Formatter → Formatter
format_reset keeps s = record s {
  state = state_normal;
  length = length_default;
  radix = 10;
  sign = false;
  number = keeps && s.number;
}

-- The code behind the label `PRINTF_STATE_SPEC_`.
unfoldable pub format_spec : (at_null : List ℕ) → (keeps : Bool) → Formatter → ℕ → Option Formatter
unfolding conversion print_if_number format_reset
format_spec at_null keeps s c = elim (conversion at_null s c) [
  | none ↦ none
  | some t ↦ elim (print_if_number t) [ none ↦ none | some u ↦ some (format_reset keeps u) ]
]

-- One round of the loop over the format.
unfoldable pub format_step : (at_null : List ℕ) → (keeps : Bool) → Formatter → ℕ → Option Formatter
unfolding format_spec
format_step at_null keeps s c = elim (s.state) [
  | state_normal ↦
      some (
        if c == 0x25 then record s { state = state_length } else record s { out = s.out ++ c ∷ [] })
  | state_length ↦
      if c == 0x68
      then some (record s { state = state_length_short; length = length_short })
      else if c == 0x6c
      then some (record s { state = state_length_long; length = length_long })
      else format_spec at_null keeps s c
  | state_length_short ↦
      if c == 0x68
      then some (record s { state = state_spec; length = length_short_short })
      else format_spec at_null keeps s c
  | state_length_long ↦
      if c == 0x6c
      then some (record s { state = state_spec; length = length_long_long })
      else format_spec at_null keeps s c
  | state_spec ↦ format_spec at_null keeps s c
]

unfoldable pub format_loop :
    (at_null : List ℕ) → (keeps : Bool) → Formatter → List ℕ → Option Formatter
format_loop at_null keeps s [] = some s
format_loop at_null keeps s (c ∷ fmt) = elim (format_step at_null keeps s c) [
  | none ↦ none
  | some t ↦ format_loop at_null keeps t fmt
]

-- The locals at the start.
abbrev pub started : List Arg → Formatter
started args = record {
  state = state_normal;
  length = length_default;
  number = false;
  sign = false;
  radix = 10;
  args = args;
  out = [];
}

unfoldable pub format : (at_null : List ℕ) → (keeps : Bool) → List ℕ → List Arg → Option (List ℕ)
unfolding format_loop format_step
format at_null keeps fmt args = elim (format_loop at_null keeps (started args) fmt) [
  | none ↦ none
  | some s ↦ some (s.out)
]

-- "(null)", which the user library's `print` writes for a null pointer.
abbrev pub null_text : List ℕ
null_text = 0x28 ∷ 0x6e ∷ 0x75 ∷ 0x6c ∷ 0x6c ∷ 0x29 ∷ []

-- What the user library's `vprintf` writes, for a format or the null pointer; `none` where the
-- arguments do not fit the format.
unfoldable pub vprintf : Option (List ℕ) → List Arg → Option (List ℕ)
unfolding format
vprintf none args = some []
vprintf (some fmt) args = format null_text false fmt args

-- What the boot loader's `printf` writes, which reads through a null pointer.
unfoldable pub stage2_printf : (at_null : List ℕ) → List ℕ → List Arg → Option (List ℕ)
unfolding format
stage2_printf at_null fmt args = format at_null true fmt args
