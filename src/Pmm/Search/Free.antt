-- ===== src/Pmm/Search/Free.antt =====
-- `get_free_memory_block` against its specification: the lowest free frame.
use toy_kernel.Common.{
  ℕ, zero, suc, ◌+◌, ◌*◌, ◌/◌, ◌%◌, ◌^◌, ◌≤◌, ◌<◌, ◌≡◌, refl, sym, ◌∙◌, inl, inr, Bool, true, false,
  not, Option, none, some, arith, ltb, ◌==◌, ◌!=◌, if◌then◌else◌, Bool-cases, u32,
}
use native.Mathlib.Nat.{add-zero}
use toy_kernel.Common.Bits.{bit, bit-ones}
use toy_kernel.Pmm.State.{Pmm, invalid_frame, bit_map_word, used}
use toy_kernel.Pmm.Bitmap.{used-bit}
use toy_kernel.Pmm.Search.{free_in_word, free_in_map, returned, get_free_memory_block}

-- The outcome of looking for the first frame of `[lo, hi)` at which `p` holds.
pub data IsFirst (p : ℕ → Bool) (lo hi : ℕ) : Option ℕ → Type 0 where
  found :
      {b : ℕ}
      → lo ≤ b
      → b < hi
      → p b ≡ true
      → ((c : ℕ) → lo ≤ c → c < b → p c ≡ false)
      → IsFirst p lo hi (some b)
  missing : ((c : ℕ) → lo ≤ c → c < hi → p c ≡ false) → IsFirst p lo hi none

module _ {p : ℕ → Bool} where
  pub IsFirst-skip :
      {lo mid hi : ℕ} {r : Option ℕ}
      → lo ≤ mid
      → ((c : ℕ) → lo ≤ c → c < mid → p c ≡ false)
      → IsFirst p mid hi r
      → IsFirst p lo hi r
  IsFirst-skip {mid} le none_before (found l h t first) = found (omega arith) h t λ c a b.
      elim (Bool-cases (ltb c mid)) [
        | inl before ↦ none_before c a (ground arith)
        | inr after ↦ first c (ground arith) b
      ]
  IsFirst-skip {mid} le none_before (missing none_after) = missing λ c a b.
      elim (Bool-cases (ltb c mid)) [
        | inl before ↦ none_before c a (ground arith)
        | inr after ↦ none_after c (ground arith) b
      ]

  -- One round of a loop: the search ends here, or goes on behind.
  pub IsFirst-here : {lo hi : ℕ} → lo < hi → p lo ≡ true → IsFirst p lo hi (some lo)
  IsFirst-here h t = found (omega arith) h t λ c a b. absurd (omega arith)

  pub IsFirst-next :
      {lo mid hi : ℕ} {r : Option ℕ}
      → mid ≡ lo + 1
      → p lo ≡ false
      → IsFirst p mid hi r
      → IsFirst p lo hi r
  IsFirst-next {lo} e f rest =
      IsFirst-skip (omega arith) (λ c a b. let here : c ≡ lo = omega arith in rw here f) rest

  pub IsFirst-widen :
      {lo mid hi b : ℕ} → mid ≤ hi → IsFirst p lo mid (some b) → IsFirst p lo hi (some b)
  IsFirst-widen le (found l h t first) = found l (omega arith) t first

  pub none_before-of-missing :
      {lo hi : ℕ} → IsFirst p lo hi none → (c : ℕ) → lo ≤ c → c < hi → p c ≡ false
  none_before-of-missing (missing none_there) = none_there

  -- The search of a word, then of the words behind it.
  pub IsFirst-orelse :
      {lo mid hi : ℕ} (r rest : Option ℕ)
      → lo ≤ mid
      → mid ≤ hi
      → IsFirst p lo mid r
      → IsFirst p mid hi rest
      → IsFirst p lo hi (elim r [ some b ↦ some b | none ↦ rest ])
  IsFirst-orelse none rest a b first second = IsFirst-skip a (none_before-of-missing first) second
  IsFirst-orelse (some b) rest a c first second = IsFirst-widen c first

module _ {p q : ℕ → Bool} (same : (c : ℕ) → p c ≡ q c) {lo hi : ℕ} where
  pub IsFirst-congr : {r : Option ℕ} → IsFirst p lo hi r → IsFirst q lo hi r
  IsFirst-congr (found {b} l h t first) =
      found l h (sym (same b) ∙ t) (λ c a e. sym (same c) ∙ first c a e)
  IsFirst-congr (missing none_there) = missing (λ c a e. sym (same c) ∙ none_there c a e)

abbrev pub free : Pmm → ℕ → Bool
free s b = not (used s b)

free_in_word-IsFirst :
    (s : Pmm) (i left j : ℕ)
    → j + left ≡ 32
    → i * 32 + 32 ≤ 2 ^ 32
    → IsFirst (free s) (i * 32 + j) (i * 32 + 32) (free_in_word s i left j)
unfolding free_in_word
free_in_word-IsFirst s i zero j e h = missing λ c a b. absurd (omega arith)
free_in_word-IsFirst s i (suc left) j e h =
    let cut : u32 (i * 32 + j) ≡ i * 32 + j = omega arith in
    rw cut (elim (Bool-cases (used s (i * 32 + j))) [
      | inl taken ↦ rw taken (
          IsFirst-next (omega arith) (rw taken)
            (free_in_word-IsFirst s i left (j + 1) (omega arith) h))
      | inr untaken ↦ rw untaken (IsFirst-here (omega arith) (rw untaken))
    ])

-- The test `BIT_MAP[i] != 0xffffffff` skips only words without a free frame.
pub full-used :
    (s : Pmm) (i : ℕ)
    → (bit_map_word s i != 0xffffffff) ≡ false
    → (c : ℕ) → i * 32 ≤ c
    → c < i * 32 + 32
    → free s c ≡ false
full-used s i full c a b =
    let same : c / 32 ≡ i = omega arith in
    let ones : bit_map_word s i ≡ 0xffffffff = ground arith in
    let one : bit 0xffffffff (c % 32) ≡ 1 = bit-ones 32 (c % 32) (omega arith) in
    let taken : used s c ≡ true = used-bit s c ∙ rw (same, ones, one) refl in rw taken

free_in_map-IsFirst :
    (s : Pmm) (left i n lo : ℕ)
    → i + left ≡ n
    → lo ≡ i * 32
    → n * 32 ≤ 2 ^ 32
    → IsFirst (free s) lo (n * 32) (free_in_map s left i)
unfolding free_in_map
free_in_map-IsFirst s zero i n lo e el h = missing λ c a b. absurd (omega arith)
free_in_map-IsFirst s (suc left) i n lo e el h =
    let rest : IsFirst (free s) (i * 32 + 32) (n * 32) (free_in_map s left (i + 1)) =
      free_in_map-IsFirst s left (i + 1) n (i * 32 + 32) (omega arith) (omega arith) h in
    let word : IsFirst (free s) (i * 32) (i * 32 + 32) (free_in_word s i 32 0) =
      simp add-zero at (free_in_word-IsFirst s i 32 0 refl (omega arith)) in
    rw el (elim (Bool-cases (bit_map_word s i != 0xffffffff)) [
      | inl some_free ↦ rw some_free (IsFirst-orelse _ _ (omega arith) (omega arith) word rest)
      | inr full ↦ rw full (IsFirst-skip (omega arith) (full-used s i full) rest)
    ])

pub IsFirst-result :
    {p : ℕ → Bool} {hi : ℕ} (r : Option ℕ)
    → hi < 2 ^ 32
    → IsFirst p 0 hi r
    → let n = returned r in IsFirst p 0 hi (if n == invalid_frame then none else some n)
IsFirst-result none small first = first
IsFirst-result {p} {hi} (some b) small (found l h t first) =
    let real : (b == invalid_frame) ≡ false = ground arith in rw real (found l h t first)

-- `get_free_memory_block` returns the lowest free frame of the bitmap, and -1 exactly when the
-- bitmap has none.
pub get_free_memory_block-IsFirst :
    (s : Pmm)
    → s.total_block * 32 < 2 ^ 32
    → let r = get_free_memory_block s in
      IsFirst (free s) 0 (s.total_block * 32) (if r == invalid_frame then none else some r)
unfolding get_free_memory_block
get_free_memory_block-IsFirst s h =
    IsFirst-result _ h
      (free_in_map-IsFirst s s.total_block 0 s.total_block 0 (omega arith) refl (omega arith))
