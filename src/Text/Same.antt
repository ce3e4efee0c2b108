-- ===== src/Text/Same.antt =====
-- The user library's `vprintf` against the kernel's `printf`, and the boot loader's.
use toy_kernel.Common.{
  ℕ, ◌≡◌, refl, sym, ap, ◌∙◌, Bool, true, false, ◌||◌, Option, none, some, List, [], ◌∷◌, ◌++◌,
  ◌==◌, if◌then◌else◌, u8,
}
use mathlib.Core.List.{append-nil}
use toy_kernel.Text.{
  Arg, Printf, PrintfState, state_normal, state_length, state_length_short, state_length_long,
  state_spec, PrintfLength, length_default, next_number, next_text, reset, print_number,
  printf_spec, printf_step, printf_loop, printf,
}
use toy_kernel.Text.Formatter.{
  Formatter, set_number, conversion, print_if_number, format_reset, format_spec, format_step,
  format_loop, format, null_text, vprintf,
}

-- The locals of the user library between two characters, as the kernel's.
abbrev idle : Printf → Formatter
idle p = record {
  state = p.state;
  length = p.length;
  number = false;
  sign = false;
  radix = 10;
  args = p.args;
  out = p.out;
}

unfoldable idle? : Option Printf → Option Formatter
idle? none = none
idle? (some p) = some (idle p)

-- The end of a conversion.
unfoldable finish : Option Formatter → Option Formatter
unfolding print_if_number format_reset
finish none = none
finish (some t) = elim (print_if_number t) [ none ↦ none | some u ↦ some (format_reset false u) ]

if-finish :
    (b : Bool) (f g : Option Formatter) (p q : Option Printf)
    → finish f ≡ idle? p
    → finish g ≡ idle? q
    → finish (if b then f else g) ≡ idle? (if b then p else q)
if-finish true f g p q left right = left
if-finish false f g p q left right = right

elim-finish :
    {A : Type 0} (o : Option A) (f : A → Formatter) (p : A → Printf)
    → ((x : A) → finish (some (f x)) ≡ some (idle (p x)))
    → finish (elim o as (λ _. Option Formatter) [ none ↦ none | some x ↦ some (f x) ])
      ≡ idle? (elim o as (λ _. Option Printf) [ none ↦ none | some x ↦ some (p x) ])
unfolding idle? finish
elim-finish none f p h = refl
elim-finish (some x) f p h = h x

number-finish :
    {A : Type 0} (o : Option A) (f : A → Formatter) (p : A → Printf)
    → ((x : A) → format_reset false (f x) ≡ idle (p x))
    → (elim (elim o as (λ _. Option Formatter) [ none ↦ none | some x ↦ some (f x) ])
        as (λ _. Option Formatter) [ none ↦ none | some u ↦ some (format_reset false u) ])
      ≡ idle? (elim o as (λ _. Option Printf) [ none ↦ none | some x ↦ some (p x) ])
unfolding idle?
number-finish none f p h = refl
number-finish (some x) f p h = ap some (h x)

set_number-finish :
    (p : Printf) (sign : Bool) (radix : ℕ)
    → finish (some (set_number (idle p) sign radix)) ≡ idle? (print_number p sign radix)
unfolding finish print_if_number set_number format_reset print_number reset
set_number-finish p sign radix = number-finish (next_number p.args) _ _ (λ x. refl)

idle-finish :
    (p : Printf) (args : List Arg) (out : List ℕ)
    → finish (some (record (idle p) { args = args; out = p.out ++ out }))
      ≡ some (idle (reset p args out))
unfolding finish print_if_number format_reset reset
idle-finish p args out = refl

none-finish : (p : Printf) → finish (some (idle p)) ≡ some (idle (reset p p.args []))
unfolding finish print_if_number format_reset reset
none-finish p =
    ap (λ o. some (idle (record p { state = state_normal; length = length_default; out = o })))
      (sym (append-nil p.out))

conversion-finish :
    (z : List ℕ) (p : Printf) (c : ℕ) → finish (conversion z (idle p) c) ≡ idle? (printf_spec z p c)
unfolding conversion printf_spec idle?
conversion-finish z p c =
    if-finish (c == 0x63) _ _ _ _
      (elim-finish (next_number p.args) _ _ (λ x. idle-finish p x.1 (u8 x.0 ∷ [])))
      (if-finish (c == 0x73) _ _ _ _
        (elim-finish (next_text z p.args) _ _ (λ x. idle-finish p x.1 x.0))
        (if-finish (c == 0x25) _ _ _ _ (idle-finish p p.args (0x25 ∷ [])) (
          if-finish (c == 0x64 || c == 0x69) _ _ _ _ (set_number-finish p true 10) (
            if-finish (c == 0x75) _ _ _ _ (set_number-finish p false 10) (
              if-finish (c == 0x58 || c == 0x78 || c == 0x70) _ _ _ _ (set_number-finish p false 16)
                (if-finish (c == 0x6f) _ _ _ _ (set_number-finish p false 8) (none-finish p)))))))

finish_elim :
    (o : Option Formatter)
    → elim o as (λ _. Option Formatter) [
      | none ↦ none
      | some t ↦ elim (print_if_number t) as (λ _. Option Formatter) [
        | none ↦ none
        | some u ↦ some (format_reset false u)
      ]
    ]
      ≡ finish o
unfolding finish
finish_elim none = refl
finish_elim (some t) = refl

format_spec_lem :
    (z : List ℕ) (p : Printf) (c : ℕ) → format_spec z false (idle p) c ≡ idle? (printf_spec z p c)
unfolding format_spec
format_spec_lem z p c = finish_elim (conversion z (idle p) c) ∙ conversion-finish z p c

if-idle? :
    (b : Bool) (f g : Option Formatter) (p q : Option Printf)
    → f ≡ idle? p
    → g ≡ idle? q
    → (if b then f else g) ≡ idle? (if b then p else q)
if-idle? true f g p q left right = left
if-idle? false f g p q left right = right

-- The locals of the kernel's `printf`, by their parts.
abbrev locals : PrintfState → PrintfLength → List Arg → List ℕ → Printf
locals s l args out = record { state = s; length = l; args = args; out = out }

some_if-idle? :
    (b : Bool) (p q : Printf)
    → some (if b then idle p else idle q) ≡ idle? (some (if b then p else q))
unfolding idle?
some_if-idle? true p q = refl
some_if-idle? false p q = refl

state-idle? :
    (z : List ℕ) (s : PrintfState) (l : PrintfLength) (args : List Arg) (out : List ℕ) (c : ℕ)
    → format_step z false (idle (locals s l args out)) c
      ≡ idle? (printf_step z (locals s l args out) c)
unfolding format_step printf_step idle?
state-idle? z state_normal l args out c =
    some_if-idle? (c == 0x25) (locals state_length l args out)
      (locals state_normal l args (out ++ c ∷ []))
state-idle? z state_length l args out c =
    if-idle? (c == 0x68) _ _ _ _ refl
      (if-idle? (c == 0x6c) _ _ _ _ refl (format_spec_lem z (locals state_length l args out) c))
state-idle? z state_length_short l args out c =
    if-idle? (c == 0x68) _ _ _ _ refl (format_spec_lem z (locals state_length_short l args out) c)
state-idle? z state_length_long l args out c =
    if-idle? (c == 0x6c) _ _ _ _ refl (format_spec_lem z (locals state_length_long l args out) c)
state-idle? z state_spec l args out c = format_spec_lem z (locals state_spec l args out) c

some-idle? : (p : Printf) → some (idle p) ≡ idle? (some p)
unfolding idle?
some-idle? p = refl

rest-idle? :
    (z : List ℕ) (f : Option Formatter) (o : Option Printf) (fmt : List ℕ)
    → f ≡ idle? o
    → ((p : Printf) → format_loop z false (idle p) fmt ≡ idle? (printf_loop z p fmt))
    → elim f as (λ _. Option Formatter) [ none ↦ none | some t ↦ format_loop z false t fmt ]
      ≡ idle? (elim o as (λ _. Option Printf) [ none ↦ none | some t ↦ printf_loop z t fmt ])
unfolding idle?
rest-idle? z f none fmt e h = rw e refl
rest-idle? z f (some t) fmt e h = rw e (h t)

format_loop_lem :
    (z fmt : List ℕ) (p : Printf) → format_loop z false (idle p) fmt ≡ idle? (printf_loop z p fmt)
unfolding format_loop printf_loop
format_loop_lem z [] p = some-idle? p
format_loop_lem z (c ∷ fmt) p =
    rest-idle? z (format_step z false (idle p) c) (printf_step z p c) fmt
      (state-idle? z p.state p.length p.args p.out c) (format_loop_lem z fmt)

out-idle? :
    (o : Option Printf)
    → elim (idle? o) as (λ _. Option (List ℕ)) [ none ↦ none | some t ↦ some (t.out) ]
      ≡ elim o as (λ _. Option (List ℕ)) [ none ↦ none | some t ↦ some (t.out) ]
unfolding idle?
out-idle? none = refl
out-idle? (some t) = refl

-- On a null format the user library's `vprintf` writes nothing. On every other format and all
-- arguments it writes what the kernel's `printf` would write if "(null)" lay at the address 0.
pub vprintf-printf :
    (args : List Arg)
    → (vprintf none args ≡ some [])
      × ((fmt : List ℕ) → vprintf (some fmt) args ≡ printf null_text fmt args)
unfolding vprintf format printf
vprintf-printf args =
    let start = locals state_normal length_default args [] in
    (
      refl,
      λ fmt.
          rw (vprintf, printf, format, format_loop_lem null_text fmt start)
            (out-idle? (printf_loop null_text start fmt)),
    )
