-- ===== src/User/Line.antt =====
-- `readline` of src/userland/lib/stdio.h, on the keys that come.
use toy_kernel.Common.{
  ℕ, ◌+◌, ◌-◌, Bool, ◌||◌, Option, none, some, List, [], ◌∷◌, ◌++◌, ltb, leb, ◌==◌, if◌then◌else◌,
  sub32,
}
use toy_kernel.Memory.{Mem, write8}

-- The locals between two keys, with the buffer and what has been shown.
pub record Reading : Type 0 where
  pub buf : Mem
  pub i : ℕ
  pub shown : List ℕ

unfoldable pub is_enter : ℕ → Bool
is_enter c = c == 0x0d || c == 0x0a

unfoldable pub is_erase : ℕ → Bool
is_erase c = c == 0x08 || c == 127

-- `c < 0x20`, where a `char` is signed.
unfoldable pub is_control : ℕ → Bool
is_control c = ltb c 0x20 || leb 0x80 c

-- A round of the loop, on a key that does not end the line.
unfoldable pub readline_key : (len : ℕ) → Reading → ℕ → Reading
unfolding is_erase is_control
readline_key len r c =
    if is_erase c
    then (if ltb 0 r.i
        then record r { i = r.i - 1; shown = r.shown ++ 0x08 ∷ 0x20 ∷ 0x08 ∷ [] }
        else r)
    else if is_control c
    then r
    else if ltb r.i (sub32 len 1)
    then record { buf = write8 r.buf r.i c; i = r.i + 1; shown = r.shown ++ c ∷ [] }
    else r

-- The loop, and the keys that are left. `none` is a wait for a key that does not come.
unfoldable pub readline_loop : (len : ℕ) → Reading → List ℕ → Option (Reading × List ℕ)
unfolding readline_key is_enter
readline_loop len r [] = none
readline_loop len r (c ∷ keys) =
    let rest = readline_loop len (readline_key len r c) keys in
    if is_enter c then some (record r { shown = r.shown ++ 0x0a ∷ [] }, keys) else rest

unfoldable pub readline : Mem → (len : ℕ) → List ℕ → Option (Reading × List ℕ)
unfolding readline_loop
readline buf len keys = elim (readline_loop len (record { buf = buf; i = 0; shown = [] }) keys) [
  | none ↦ none
  | some (r, rest) ↦ some (record r { buf = write8 r.buf r.i 0 }, rest)
]
