-- ===== src/Drivers/Line.antt =====
-- Reading keys, src/kernel/keyboard/keyboard.c. `get_key` waits with interrupts on until the
-- keyboard's handler has set a key, so what it returns is given by the keys that come.
use toy_kernel.Common.{
  ℕ, zero, suc, ◌+◌, ◌-◌, ◌≤◌, ◌<◌, ◌≡◌, refl, sym, ap, ◌∙◌, inl, inr, true, false, Option, none,
  some, List, [], ◌∷◌, arith, ltb, ◌==◌, if◌then◌else◌, Bool-cases, length, drop,
}
use mathlib.Core.Path.{ap₂}
use toy_kernel.Drivers.Keyboard.{KeyInfo, scan}

abbrev pub input_size : ℕ
input_size = 128

-- The wait of `get_key` over the scan codes that arrive; `none` is still waiting when they are over.
-- The result is the key, the state, and the scan codes not yet seen.
unfoldable pub wait_key : (beyond : ℕ → ℕ) → KeyInfo → List ℕ → Option (ℕ × KeyInfo × List ℕ)
unfolding scan
wait_key beyond info [] = none
wait_key beyond info (code ∷ codes) =
    let pressed = scan beyond info code in
    let rest = wait_key beyond pressed codes in
    if pressed.key == 0 then rest else some (pressed.key, record pressed { key = 0 }, codes)

unfoldable pub get_key : (beyond : ℕ → ℕ) → KeyInfo → List ℕ → Option (ℕ × KeyInfo × List ℕ)
unfolding wait_key
get_key beyond info codes = wait_key beyond (record info { key = 0 }) codes

-- The static buffer of `get`, and its index.
pub record LineBuffer : Type 0 where
  pub buffer : ℕ → ℕ
  pub index : ℕ

unfoldable pub put_buffer : LineBuffer → ℕ → (ℕ → ℕ)
put_buffer s c = λ i. if i == s.index then c else s.buffer i

-- A round of `get` on a key that is not Enter.
unfoldable pub edit : LineBuffer → ℕ → LineBuffer
unfolding put_buffer
edit s key =
    if key == 0x08
    then record s { index = s.index - 1 }
    else if ltb s.index (input_size - 1)
    then record { buffer = put_buffer s key; index = s.index + 1 }
    else s

-- The loop of `get` over the keys that `get_key` returns; `none` is no Enter among them.
unfoldable pub get_loop : LineBuffer → List ℕ → Option LineBuffer
unfolding edit put_buffer
get_loop s [] = none
get_loop s (key ∷ keys) =
    let rest = get_loop (edit s key) keys in
    if key == 0x0d then some (record s { buffer = put_buffer s 0 }) else rest

unfoldable pub get : (buffer : ℕ → ℕ) → List ℕ → Option LineBuffer
unfolding get_loop
get buffer keys = get_loop (record { buffer = buffer; index = 0 }) keys

-- The first `n` characters of a buffer, the last one first.
unfoldable pub held : (ℕ → ℕ) → ℕ → List ℕ
held b zero = []
held b (suc n) = b n ∷ held b n

-- What a key does to a line, as a list with the last character first.
unfoldable pub edit_list : List ℕ → ℕ → List ℕ
edit_list line key =
    if key == 0x08
    then drop 1 line
    else if ltb (length line) (input_size - 1)
    then key ∷ line
    else line

held_congr : (b c : ℕ → ℕ) (n : ℕ) → ((i : ℕ) → i < n → b i ≡ c i) → held b n ≡ held c n
unfolding held
held_congr b c zero h = refl
held_congr b c (suc n) h =
    ap₂ (λ x l. x ∷ l) (h n (omega arith)) (held_congr b c n (λ i l. h i (omega arith)))

length-held : (b : ℕ → ℕ) (n : ℕ) → length (held b n) ≡ n
unfolding held
length-held b zero = refl
length-held b (suc n) = ap suc (length-held b n)

drop-held : (b : ℕ → ℕ) (n : ℕ) → drop 1 (held b n) ≡ held b (n - 1)
unfolding held
drop-held b zero = refl
drop-held b (suc n) = let e : n ≡ suc n - 1 = omega arith in ap (held b) e

held-put_buffer :
    (s : LineBuffer) (key : ℕ) → held (put_buffer s key) (s.index + 1) ≡ key ∷ held s.buffer s.index
unfolding put_buffer held
held-put_buffer s key =
    let e : s.index + 1 ≡ suc s.index = omega arith in
    let here : (s.index == s.index) ≡ true = ground arith in
    rw e (
      ap₂ (λ x l. x ∷ l) (rw here)
        (held_congr (put_buffer s key) s.buffer s.index
          (λ i l. let other : (i == s.index) ≡ false = ground arith in rw other)))

-- A key edits the buffer as it edits the list that the buffer holds.
edit-held :
    (s : LineBuffer) (key : ℕ)
    → held (edit s key).buffer (edit s key).index ≡ edit_list (held s.buffer s.index) key
unfolding edit edit_list put_buffer
edit-held s key = elim (Bool-cases (key == 0x08)) [
  | inl back ↦ rw back (sym (drop-held s.buffer s.index))
  | inr other ↦ elim (Bool-cases (ltb s.index 127)) [
    | inl room ↦
        let room' : ltb (length (held s.buffer s.index)) 127 ≡ true =
          rw (length-held s.buffer s.index) room in
        rw (other, room, room') (held-put_buffer s key)
    | inr full ↦
        let full' : ltb (length (held s.buffer s.index)) 127 ≡ false =
          rw (length-held s.buffer s.index) full in
        rw (other, full, full')
  ]
]

-- The line that a list of keys makes, the last character first; `none` without Enter.
unfoldable pub line_of_keys : List ℕ → List ℕ → Option (List ℕ)
line_of_keys line [] = none
line_of_keys line (key ∷ keys) =
    let rest = line_of_keys (edit_list line key) keys in if key == 0x0d then some line else rest

-- What the loop leaves, begun with the bytes `b`: the line of the keys, ended by a 0, at an index
-- inside the buffer, and the bytes behind the buffer as they were.
pub data Got (b : ℕ → ℕ) : Option LineBuffer → Option (List ℕ) → Type 0 where
  waiting : Got b none none
  entered :
      {t : LineBuffer}
      → t.index < input_size
      → t.buffer (t.index) ≡ 0
      → ((i : ℕ) → input_size ≤ i → t.buffer i ≡ b i)
      → Got b (some t) (some (held (t.buffer) (t.index)))

put_buffer_outside : (s : LineBuffer) (c i : ℕ) → s.index < i → put_buffer s c i ≡ s.buffer i
unfolding put_buffer
put_buffer_outside s c i h = ground arith

edit_outside :
    (s : LineBuffer) (key i : ℕ)
    → s.index < input_size
    → input_size ≤ i
    → (edit s key).buffer i ≡ s.buffer i
unfolding edit
edit_outside s key i h far = elim (Bool-cases (key == 0x08)) [
  | inl back ↦ rw back
  | inr other ↦ elim (Bool-cases (ltb s.index 127)) [
    | inl room ↦ rw (other, room) (put_buffer_outside s key i (omega arith))
    | inr full ↦ rw (other, full)
  ]
]

edit-index : (s : LineBuffer) (key : ℕ) → s.index < input_size → (edit s key).index < input_size
unfolding edit
edit-index s key h = elim (Bool-cases (key == 0x08)) [
  | inl back ↦ rw back (omega arith)
  | inr other ↦ elim (Bool-cases (ltb s.index 127)) [
    | inl room ↦ rw (other, room) (ground arith)
    | inr full ↦ rw (other, full) h
  ]
]

get_loop-Got :
    (b : ℕ → ℕ) (keys : List ℕ) (s : LineBuffer)
    → s.index < input_size
    → ((i : ℕ) → input_size ≤ i → s.buffer i ≡ b i)
    → Got b (get_loop s keys) (line_of_keys (held s.buffer s.index) keys)
unfolding get_loop line_of_keys put_buffer
get_loop-Got b [] s h behind = waiting
get_loop-Got b (key ∷ keys) s h behind = elim (Bool-cases (key == 0x0d)) [
  | inl enter ↦
      let here : (s.index == s.index) ≡ true = ground arith in
      let same : held s.buffer s.index ≡ held (put_buffer s 0) s.index =
        held_congr s.buffer (put_buffer s 0) s.index
          (λ i l. let other : (i == s.index) ≡ false = ground arith in rw other) in
      rw (enter, same)
        (entered {t = record s { buffer = put_buffer s 0 }} h (rw here)
          (λ i l. put_buffer_outside s 0 i (omega arith) ∙ behind i l))
  | inr other ↦
      let rest =
        get_loop-Got b keys (edit s key) (edit-index s key h)
          (λ i l. edit_outside s key i h l ∙ behind i l) in
      rw other (rw (edit-held s key) at rest)
]

-- `get` returns the line that its keys make under the two rules of editing, a backspace and a limit
-- of 127 characters, ended by a 0, and the bytes from the end of its buffer of 128 on are as
-- before. Without an Enter among the keys it is still waiting.
pub get-Got : (buffer : ℕ → ℕ) (keys : List ℕ) → Got buffer (get buffer keys) (line_of_keys [] keys)
unfolding get held
get-Got buffer keys =
    get_loop-Got buffer keys (record { buffer = buffer; index = 0 }) (omega arith) (λ i l. refl)
