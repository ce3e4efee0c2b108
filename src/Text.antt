-- ===== src/Text.antt =====
-- Formatted output and the reading of numbers: src/kernel/lib/stdio.c and stdlib.c. A string is
-- the list of its characters before the final 0, and output is the list of characters written.
pub mod Digits
pub mod Formatter
pub mod Same
mod Examples
use toy_kernel.Common.{
  ℕ, zero, suc, ◌+◌, ◌-◌, ◌*◌, ◌/◌, ◌%◌, ◌^◌, ◌≤◌, ◌<◌, min, max, bit_and, bit_or, ◌≡◌, refl, sym,
  ap, ◌∙◌, ◌≢◌, ◌↔◌, ◌⊎◌, inl, inr, Bool, true, false, not, ◌&&◌, ◌||◌, Option, none, some, List,
  [], ◌∷◌, ◌++◌, map, arith, ltb, leb, ◌==◌, ◌!=◌, if◌then◌else◌, ltb→lt, leb→le, ==_iff,
  Bool-cases, Option-cases, u8, u16, u32, sub32, ◌<<<◌, ◌>>>◌, length, get_elem?, get_or, set, drop,
  take, replicate, length-append, length-set, get_elem?-set_self, get_elem?-set_ne,
}

-- `g_HexChars[i]`
unfoldable pub hex_char : ℕ → ℕ
hex_char i = if ltb i 10 then 0x30 + i else 0x61 + (i - 10)

-- The buffer that the first loop of `printf_unsigned` fills, the lowest digit first. A `number`
-- below 2 ^ 64 needs no more than 64 rounds.
unfoldable pub fill_digits : (left number radix : ℕ) → List ℕ
fill_digits zero number radix = []
fill_digits (suc left) number radix =
    let rest = fill_digits left (number / radix) radix in
    hex_char (number % radix) ∷ (if ltb 0 (number / radix) then rest else [])

-- The second loop, which prints a buffer from its end, in front of what comes after.
unfoldable pub reverse_onto : List ℕ → List ℕ → List ℕ
reverse_onto [] out = out
reverse_onto (c ∷ buffer) out = reverse_onto buffer (c ∷ out)

unfoldable pub printf_unsigned : (number radix : ℕ) → List ℕ
unfolding fill_digits reverse_onto hex_char
printf_unsigned number radix = reverse_onto (fill_digits 64 number radix) []

-- A `long long` is given by its 64 bits.
unfoldable pub printf_signed : (number radix : ℕ) → List ℕ
unfolding printf_unsigned
printf_signed number radix =
    if leb (2 ^ 63) number
    then 0x2d ∷ printf_unsigned (2 ^ 64 - number) radix
    else printf_unsigned number radix

-- An argument of `printf`: the bits of a number, a string, or the null pointer for one.
pub data Arg : Type 0 where
  number : ℕ → Arg
  text : List ℕ → Arg
  null : Arg

pub data PrintfState : Type 0 where
  state_normal : PrintfState
  state_length : PrintfState
  state_length_short : PrintfState
  state_length_long : PrintfState
  state_spec : PrintfState

pub data PrintfLength : Type 0 where
  length_default : PrintfLength
  length_short_short : PrintfLength
  length_short : PrintfLength
  length_long : PrintfLength
  length_long_long : PrintfLength

-- The locals of `printf`, and what it has written. The three of a number are set and used within
-- one round.
pub record Printf : Type 0 where
  pub state : PrintfState
  pub length : PrintfLength
  pub args : List Arg
  pub out : List ℕ

-- `va_arg` for a number; `none` where the next argument is none, which C leaves undefined.
unfoldable pub next_number : List Arg → Option (ℕ × List Arg)
next_number [] = none
next_number (number n ∷ args) = some (n, args)
next_number (text t ∷ args) = none
next_number (null ∷ args) = some (0, args)

-- `va_arg` for a string. `at_null` is what the string functions read through the null pointer.
unfoldable pub next_text : (at_null : List ℕ) → List Arg → Option (List ℕ × List Arg)
next_text at_null [] = none
next_text at_null (number n ∷ args) = none
next_text at_null (text t ∷ args) = some (t, args)
next_text at_null (null ∷ args) = some (at_null, args)

-- The sign extension of an `int` or a `long`, both of 32 bits.
unfoldable pub extend : PrintfLength → ℕ → ℕ
extend length_long_long n = n % 2 ^ 64
extend _ n = if leb (2 ^ 31) (u32 n) then 2 ^ 64 - 2 ^ 32 + u32 n else u32 n

unfoldable pub truncate : PrintfLength → ℕ → ℕ
truncate length_long_long n = n % 2 ^ 64
truncate _ n = u32 n

-- What a round leaves behind after the label `PRINTF_STATE_SPEC_`.
unfoldable pub reset : Printf → List Arg → List ℕ → Printf
reset s args out = record {
  state = state_normal;
  length = length_default;
  args = args;
  out = s.out ++ out;
}

unfoldable pub print_number : Printf → (sign : Bool) → (radix : ℕ) → Option Printf
unfolding next_number extend truncate printf_signed printf_unsigned reset
print_number s sign radix = elim (next_number s.args) [
  | none ↦ none
  | some (n, args) ↦ some (
      reset s args (
        if sign
        then printf_signed (extend s.length n) radix
        else printf_unsigned (truncate s.length n) radix))
]

-- The code behind the label `PRINTF_STATE_SPEC_`, on one character of the format.
unfoldable pub printf_spec : (at_null : List ℕ) → Printf → ℕ → Option Printf
unfolding print_number next_text next_number reset
printf_spec at_null s c =
    if c == 0x63
    then elim (next_number s.args) [
      | none ↦ none
      | some (n, args) ↦ some (reset s args (u8 n ∷ []))
    ]
    else if c == 0x73
    then elim (next_text at_null s.args) [ none ↦ none | some (t, args) ↦ some (reset s args t) ]
    else if c == 0x25
    then some (reset s s.args (0x25 ∷ []))
    else if c == 0x64 || c == 0x69
    then print_number s true 10
    else if c == 0x75
    then print_number s false 10
    else if c == 0x58 || c == 0x78 || c == 0x70
    then print_number s false 16
    else if c == 0x6f
    then print_number s false 8
    else some (reset s s.args [])

-- One round of the loop over the format.
unfoldable pub printf_step : (at_null : List ℕ) → Printf → ℕ → Option Printf
unfolding printf_spec
printf_step at_null s c = elim (s.state) [
  | state_normal ↦
      some (
        if c == 0x25 then record s { state = state_length } else record s { out = s.out ++ c ∷ [] })
  | state_length ↦
      if c == 0x68
      then some (record s { state = state_length_short; length = length_short })
      else if c == 0x6c
      then some (record s { state = state_length_long; length = length_long })
      else printf_spec at_null s c
  | state_length_short ↦
      if c == 0x68
      then some (record s { state = state_spec; length = length_short_short })
      else printf_spec at_null s c
  | state_length_long ↦
      if c == 0x6c
      then some (record s { state = state_spec; length = length_long_long })
      else printf_spec at_null s c
  | state_spec ↦ printf_spec at_null s c
]

unfoldable pub printf_loop : (at_null : List ℕ) → Printf → List ℕ → Option Printf
unfolding printf_step
printf_loop at_null s [] = some s
printf_loop at_null s (c ∷ fmt) = elim (printf_step at_null s c) [
  | none ↦ none
  | some t ↦ printf_loop at_null t fmt
]

-- What `printf` writes; `none` where the arguments do not fit the format. The characters from
-- address 0 to the first 0 are `at_null`: a null pointer is not tested.
unfoldable pub printf : (at_null : List ℕ) → List ℕ → List Arg → Option (List ℕ)
unfolding printf_loop
printf at_null fmt args =
    elim (printf_loop at_null
      (record { state = state_normal; length = length_default; args = args; out = [] }) fmt) [
        | none ↦ none
        | some s ↦ some (s.out)
      ]

-- The loop of `print_buffer`: two hexadecimal digits for each byte.
unfoldable pub print_bytes : List ℕ → List ℕ
unfolding hex_char
print_bytes [] = []
print_bytes (b ∷ buffer) = hex_char (b / 16) ∷ hex_char (b % 16) ∷ print_bytes buffer

unfoldable pub print_buffer : (msg buffer : List ℕ) → List ℕ
unfolding print_bytes
print_buffer msg buffer = msg ++ print_bytes buffer ++ 0x0a ∷ []

-- The loop of `str_to_int`, on the 32 bits of its `int`.
unfoldable pub str_loop : List ℕ → (result : ℕ) → ℕ
str_loop [] result = result
str_loop (c ∷ str) result = str_loop str (u32 (result * 10 + sub32 c 0x30))

unfoldable pub str_to_int : List ℕ → ℕ
unfolding str_loop
str_to_int str = str_loop str 0
