-- ===== src/Pmm/Alloc/Mark.antt =====
-- The loops that mark frames: which frames are used afterwards, and which memory they write.
use toy_kernel.Common.{
  ℕ, zero, suc, ◌+◌, ◌*◌, ◌/◌, ◌^◌, ◌≤◌, ◌<◌, ◌≡◌, refl, ◌∙◌, ◌⊎◌, inl, inr, Bool, true, false,
  ◌&&◌, arith, ltb, leb, ◌==◌, if◌then◌else◌, Bool-cases, u32,
}
use toy_kernel.Memory.{IsBytes}
use toy_kernel.Pmm.State.{Pmm, set_bit, unset_bit, used, test_bit}
use toy_kernel.Pmm.Bitmap.{
  used-set_bit, used-unset_bit, set_bit-IsBytes, unset_bit-IsBytes, set_bit_outside,
  unset_bit_outside,
}
use toy_kernel.Pmm.Alloc.{take_frame, give_frame, reserve_loop, mark_loop, unset_loop}

-- Whether frame `g` is one of the `n` frames from `f` on.
abbrev pub within : ℕ → ℕ → ℕ → Bool
within f n g = leb f g && ltb g (f + n)

-- `t` comes from `s` by giving the frames `f`, …, `f + n - 1` the mark `v`.
pub record Marked (v : Bool) (s : Pmm) (f n : ℕ) (t : Pmm) : Type 0 where
  pub bytes : IsBytes t.mem
  pub same_map : t.bit_map ≡ s.bit_map
  pub same_blocks : t.total_block ≡ s.total_block
  pub marks : (g : ℕ) → used t g ≡ (if within f n g then v else used s g)
  pub outside :
      (a : ℕ) → (a < s.bit_map) ⊎ (s.bit_map + 4 * ((f + n + 31) / 32) ≤ a) → t.mem a ≡ s.mem a

pub Marked-none : (v : Bool) (s : Pmm) (f : ℕ) → IsBytes s.mem → Marked v s f 0 s
Marked-none v s f h = record {
  bytes = h;
  same_map = refl;
  same_blocks = refl;
  marks = λ g. ground arith;
  outside = λ a o. refl;
}

take_frame-Marked : (s : Pmm) (f : ℕ) → IsBytes s.mem → Marked true s f 1 (take_frame s f)
unfolding take_frame
take_frame-Marked s f h = record {
  bytes = set_bit-IsBytes s f h;
  same_map = unfold set_bit in refl;
  same_blocks = unfold set_bit in refl;
  marks = λ g. unfold used test_bit in (used-set_bit s f g h ∙ ground arith);
  outside = λ a o. set_bit_outside s f a (omega arith);
}

give_frame-Marked : (s : Pmm) (f : ℕ) → IsBytes s.mem → Marked false s f 1 (give_frame s f)
unfolding give_frame
give_frame-Marked s f h = record {
  bytes = unset_bit-IsBytes s f h;
  same_map = unfold unset_bit in refl;
  same_blocks = unfold unset_bit in refl;
  marks = λ g. unfold used test_bit in (used-unset_bit s f g h ∙ ground arith);
  outside = λ a o. unset_bit_outside s f a (omega arith);
}

-- A frame that is used already is as if it were marked.
used-Marked : (s : Pmm) (f : ℕ) → IsBytes s.mem → used s f ≡ true → Marked true s f 1 s
used-Marked s f h taken = record {
  bytes = h;
  same_map = refl;
  same_blocks = refl;
  marks = λ g. elim (Bool-cases (f == g)) [
    | inl same ↦ let e : f ≡ g = ground arith in rw (← e) (taken ∙ ground arith)
    | inr apart ↦ ground arith
  ];
  outside = λ a o. refl;
}

pub Marked-join :
    {v : Bool} {s t u : Pmm} {f n m g k : ℕ}
    → Marked v s f n t
    → Marked v t g m u
    → g ≡ f + n
    → k ≡ n + m
    → Marked v s f k u
Marked-join a b e e' = record {
  bytes = b.bytes;
  same_map = b.same_map ∙ a.same_map;
  same_blocks = b.same_blocks ∙ a.same_blocks;
  marks = λ c. ground (arith, a.marks c, b.marks c);
  outside = λ c o. b.outside c (omega arith) ∙ a.outside c (omega arith);
}

pub mark_loop-Marked :
    (left i : ℕ) (s : Pmm) (f g : ℕ)
    → IsBytes s.mem
    → g ≡ f + i
    → g + left ≤ 2 ^ 32
    → Marked true s g left (mark_loop s f left i)
unfolding mark_loop
mark_loop-Marked zero i s f g h e fit = Marked-none true s g h
mark_loop-Marked (suc left) i s f g h e fit =
    let cut : u32 (f + i) ≡ g = omega arith in
    let first = take_frame-Marked s g h in
    rw cut (
      Marked-join first
        (mark_loop-Marked left (i + 1) (take_frame s g) f (g + 1) first.bytes (omega arith)
          (omega arith))
        refl (omega arith))

pub unset_loop-Marked :
    (left i : ℕ) (s : Pmm) (f g : ℕ)
    → IsBytes s.mem
    → g ≡ f + i
    → g + left ≤ 2 ^ 32
    → Marked false s g left (unset_loop s f left i)
unfolding unset_loop
unset_loop-Marked zero i s f g h e fit = Marked-none false s g h
unset_loop-Marked (suc left) i s f g h e fit =
    let cut : u32 (f + i) ≡ g = omega arith in
    let first = give_frame-Marked s g h in
    rw cut (
      Marked-join first
        (unset_loop-Marked left (i + 1) (give_frame s g) f (g + 1) first.bytes (omega arith)
          (omega arith))
        refl (omega arith))

reserve_one-Marked :
    (s : Pmm) (f : ℕ) → IsBytes s.mem → Marked true s f 1 (if used s f then s else take_frame s f)
reserve_one-Marked s f h = elim (Bool-cases (used s f)) [
  | inl taken ↦ rw taken (used-Marked s f h taken)
  | inr untaken ↦ rw untaken (take_frame-Marked s f h)
]

pub reserve_loop-Marked :
    (left i : ℕ) (s : Pmm) (f g : ℕ)
    → IsBytes s.mem
    → g ≡ f + i
    → g + left ≤ 2 ^ 32
    → Marked true s g left (reserve_loop s f left i)
unfolding reserve_loop
reserve_loop-Marked zero i s f g h e fit = Marked-none true s g h
reserve_loop-Marked (suc left) i s f g h e fit =
    let cut : u32 (f + i) ≡ g = omega arith in
    let first = reserve_one-Marked s g h in
    rw cut (
      Marked-join first
        (reserve_loop-Marked left (i + 1) _ f (g + 1) first.bytes (omega arith) (omega arith)) refl
        (omega arith))

-- The counter of used blocks after the loops.
pub count-mark_loop :
    (left i : ℕ) (s : Pmm) (f : ℕ)
    → s.total_used_blocks < 2 ^ 32
    → (mark_loop s f left i).total_used_blocks ≡ u32 (s.total_used_blocks + left)
unfolding mark_loop
count-mark_loop zero i s f h = omega arith
count-mark_loop (suc left) i s f h =
    count-mark_loop left (i + 1) (take_frame s (u32 (f + i))) f (unfold take_frame in omega arith)
    ∙ (unfold take_frame in omega arith)

pub count-unset_loop :
    (left i : ℕ) (s : Pmm) (f : ℕ)
    → s.total_used_blocks < 2 ^ 32
    → let n = (unset_loop s f left i).total_used_blocks in
      (n < 2 ^ 32) × (u32 (n + left) ≡ s.total_used_blocks)
unfolding unset_loop
count-unset_loop zero i s f h = (h, omega arith)
count-unset_loop (suc left) i s f h =
    let next = give_frame s (u32 (f + i)) in
    let (small, rest) = count-unset_loop left (i + 1) next f (unfold give_frame in omega arith) in
    let step : u32 (next.total_used_blocks + 1) ≡ s.total_used_blocks =
      unfold give_frame in omega arith in
    (small, omega (arith, rest, step))
