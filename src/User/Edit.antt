-- ===== src/User/Edit.antt =====
-- A line editor on lists, and `readline` as its implementation.
use toy_kernel.Common.{
  ℕ, zero, suc, ◌+◌, ◌-◌, ◌^◌, ◌≤◌, ◌<◌, ◌≡◌, refl, sym, ◌∙◌, inl, inr, true, false, Option, some,
  List, [], ◌∷◌, ◌++◌, arith, ltb, ◌==◌, if◌then◌else◌, ltb→lt, Bool-cases, sub32, length, get_or,
  length-append,
}
use toy_kernel.Memory.{Mem, write8}
use toy_kernel.User.Line.{
  Reading, is_enter, is_erase, is_control, readline_key, readline_loop, readline,
}

-- All but the last character.
abbrev pub erase_last : List ℕ → List ℕ
erase_last [] = []
erase_last (c ∷ []) = []
erase_last (c ∷ d ∷ line) = c ∷ erase_last (d ∷ line)

-- The line after one more key, where there is room for `room` characters.
abbrev pub edit_key : (room : ℕ) → List ℕ → ℕ → List ℕ
edit_key room line c =
    if is_erase c
    then erase_last line
    else if is_control c
    then line
    else if ltb (length line) room
    then line ++ c ∷ []
    else line

abbrev pub edited : (room : ℕ) → List ℕ → List ℕ → List ℕ
edited room line [] = line
edited room line (c ∷ keys) = edited room (edit_key room line c) keys

-- The buffer of `len` bytes holds the line, and nothing behind it has been written.
pub record HoldsLine (len : ℕ) (old : Mem) (line : List ℕ) (r : Reading) : Type 0 where
  pub count : r.i ≡ length line
  pub room : length line < len
  pub bytes : (j : ℕ) → j < length line → r.buf j ≡ get_or line j 0
  pub outside : (j : ℕ) → len ≤ j → r.buf j ≡ old j

length-erase_last : (line : List ℕ) → length (erase_last line) ≡ length line - 1
length-erase_last [] = refl
length-erase_last (c ∷ []) = refl
length-erase_last (c ∷ d ∷ line) =
    let rest : length (erase_last (d ∷ line)) ≡ suc (length line) - 1 =
      length-erase_last (d ∷ line) in
    omega (arith, rest)

get-erase_last :
    (line : List ℕ) (j : ℕ) → j < length line - 1 → get_or (erase_last line) j 0 ≡ get_or line j 0
get-erase_last [] j h = refl
get-erase_last (c ∷ []) j h = absurd (omega (arith, h))
get-erase_last (c ∷ d ∷ line) zero h = refl
get-erase_last (c ∷ d ∷ line) (suc j) h =
    let left : suc j < suc (suc (length line)) - 1 = h in
    let less : j < suc (length line) - 1 = omega (arith, left) in get-erase_last (d ∷ line) j less

get-last :
    (line : List ℕ) (c j : ℕ)
    → get_or (line ++ c ∷ []) j 0 ≡ (if j == length line then c else get_or line j 0)
get-last [] c zero = refl
get-last [] c (suc j) = ground arith
get-last (d ∷ line) c zero = ground arith
get-last (d ∷ line) c (suc j) =
    let same : (suc j == suc (length line)) ≡ (j == length line) = ground arith in
    rw same (get-last line c j)

erased-HoldsLine :
    (len : ℕ) (old : Mem) (line : List ℕ) (r : Reading)
    → HoldsLine len old line r
    → HoldsLine len old (erase_last line) (
        if ltb 0 r.i
        then record r { i = r.i - 1; shown = r.shown ++ 0x08 ∷ 0x20 ∷ 0x08 ∷ [] }
        else r)
erased-HoldsLine len old line r h =
    let shorter = length-erase_last line in
    let kept = λ (j : ℕ). λ (less : j < length (erase_last line)).
      h.bytes j (omega arith) ∙ sym (get-erase_last line j (omega arith)) in
    elim (Bool-cases (ltb 0 r.i)) [
      | inl e ↦ rw e (record {
        count = omega (arith, shorter, h.count);
        room = omega (arith, shorter, h.room);
        bytes = kept;
        outside = h.outside;
      })
      | inr e ↦
          let empty : r.i ≡ 0 = ground arith in
          rw e (record {
            count = omega (arith, shorter, h.count);
            room = omega (arith, shorter, h.room);
            bytes = kept;
            outside = h.outside;
          })
    ]

added-HoldsLine :
    (len : ℕ) (old : Mem) (line : List ℕ) (r : Reading) (c : ℕ)
    → HoldsLine len old line r
    → length line < len - 1
    → HoldsLine len old
        (line ++ c ∷ [])
        (record { buf = write8 r.buf r.i c; i = r.i + 1; shown = r.shown ++ c ∷ [] })
unfolding write8
added-HoldsLine len old line r c h more =
    let last_byte : (j : ℕ)
        → j < length line + 1
        → write8 r.buf r.i c j ≡ (if j == length line then c else get_or line j 0) =
      λ j less. elim (Bool-cases (j == length line)) [
        | inl here ↦ rw (write8, h.count, here) refl
        | inr other ↦ rw (write8, h.count, other) (h.bytes j (ground (arith, less, other)))
      ] in
    let longer : length (line ++ c ∷ []) ≡ length line + 1 = length-append line (c ∷ []) in
    record {
      count = omega (arith, longer, h.count);
      room = omega (arith, longer, more);
      bytes = λ j less. last_byte j (omega (arith, longer, less)) ∙ sym (get-last line c j);
      outside = λ j out.
          let other : (j == r.i) ≡ false = ground (arith, h.count, h.room) in
          rw (write8, other) (h.outside j out);
    }

readline_key-HoldsLine :
    (len : ℕ) (old : Mem) (line : List ℕ) (r : Reading) (c : ℕ)
    → len < 2 ^ 32
    → HoldsLine len old line r
    → HoldsLine len old (edit_key (len - 1) line c) (readline_key len r c)
unfolding readline_key
readline_key-HoldsLine len old line r c small h = elim (Bool-cases (is_erase c)) [
  | inl e ↦ rw (readline_key, e) (erased-HoldsLine len old line r h)
  | inr e ↦ elim (Bool-cases (is_control c)) [
    | inl d ↦ rw (readline_key, e, d) h
    | inr d ↦
        let fits : ltb r.i (sub32 len 1) ≡ ltb (length line) (len - 1) =
          let a = h.count in let b = h.room in ground arith in
        elim (Bool-cases (ltb (length line) (len - 1))) [
          | inl more ↦
              rw (readline_key, e, d, fits, more)
                (added-HoldsLine len old line r c h (ltb→lt (length line) (len - 1) more))
          | inr full ↦ rw (readline_key, e, d, fits, full) h
        ]
  ]
]

-- Keys that do not end a line.
abbrev pub NoEnter : List ℕ → Type 0
NoEnter [] = Unit
NoEnter (c ∷ keys) = (is_enter c ≡ false) × NoEnter keys

-- The result of `readline` for a line.
abbrev pub ReadsLine : (len : ℕ) → Mem → List ℕ → List ℕ → Option (Reading × List ℕ) → Type 0
ReadsLine len old line later result =
    (r : Reading) × (result ≡ some (r, later))
    × HoldsLine len old line r
    × (r.buf (length line) ≡ 0)

loop-ReadsLine :
    (len : ℕ) (old : Mem) (line : List ℕ) (r : Reading) (typed later : List ℕ) (enter : ℕ)
    → len < 2 ^ 32
    → HoldsLine len old line r
    → NoEnter typed
    → is_enter enter ≡ true
    → (s : Reading) × (readline_loop len r (typed ++ enter ∷ later) ≡ some (s, later))
      × HoldsLine len old (edited (len - 1) line typed) s
unfolding readline_loop
loop-ReadsLine len old line r [] later enter small h none_ends ends =
    rw (readline_loop, ends)
      (
        record r { shown = r.shown ++ 0x0a ∷ [] },
        refl,
        record { count = h.count; room = h.room; bytes = h.bytes; outside = h.outside },
      )
loop-ReadsLine len old line r (c ∷ typed) later enter small h none_ends ends =
    rw (readline_loop, none_ends.0)
      (loop-ReadsLine len old (edit_key (len - 1) line c) (readline_key len r c) typed later enter
        small (readline_key-HoldsLine len old line r c small h) none_ends.1 ends)

-- `readline` on a buffer of at least one byte returns as soon as a line is ended. The buffer then
-- holds the line that the keys edit, cut where it is full, and a 0 behind it; the count is the
-- length of the line, which is below that of the buffer; nothing behind the buffer is written; and
-- the keys behind the end of the line are left.
pub readline-ReadsLine :
    (len : ℕ) (old : Mem) (typed later : List ℕ) (enter : ℕ)
    → 0 < len
    → len < 2 ^ 32
    → NoEnter typed
    → is_enter enter ≡ true
    → ReadsLine len old
        (edited (len - 1) [] typed)
        later
        (readline old len (typed ++ enter ∷ later))
unfolding readline write8
readline-ReadsLine len old typed later enter some_room small none_ends ends =
    let start : Reading = record { buf = old; i = 0; shown = [] } in
    let empty : HoldsLine len old [] start = record {
      count = refl;
      room = some_room;
      bytes = λ j less. absurd (omega (arith, less));
      outside = λ j out. refl;
    } in
    let (r, found, h) =
      loop-ReadsLine len old [] start typed later enter small empty none_ends ends in
    let line = edited (len - 1) [] typed in
    rw (readline, found)
      (
        record r { buf = write8 r.buf r.i 0 },
        refl,
        record {
          count = h.count;
          room = h.room;
          bytes = λ j less.
              let other : (j == r.i) ≡ false = ground (arith, h.count, less) in
              rw (write8, other) (h.bytes j less);
          outside = λ j out.
              let other : (j == r.i) ≡ false = ground (arith, h.count, h.room) in
              rw (write8, other) (h.outside j out);
        },
        let here : (length line == r.i) ≡ true = ground (arith, h.count) in rw (write8, here) refl,
      )
