-- ===== src/Pmm/Search/FirstFit.antt =====
-- `get_free_frame_by_size` against its specification: the first run of free frames.
use toy_kernel.Common.{
  ℕ, zero, suc, ◌+◌, ◌*◌, ◌^◌, ◌≤◌, ◌<◌, ◌≡◌, refl, sym, ap, ◌∙◌, inl, inr, Bool, true, false, ◌&&◌,
  none, some, arith, leb, ◌==◌, ◌!=◌, if◌then◌else◌, Bool-cases, u32,
}
use native.Mathlib.Nat.{add-zero}
use toy_kernel.Pmm.State.{Pmm, invalid_frame, bit_map_word, used}
use toy_kernel.Pmm.Search.{returned, run_is_free, fit_in_word, fit_in_map, get_free_frame_by_size}
use toy_kernel.Pmm.Search.Free.{
  IsFirst, missing, IsFirst-skip, IsFirst-here, IsFirst-next, IsFirst-orelse, IsFirst-result,
  IsFirst-congr, free, full-used, get_free_memory_block-IsFirst,
}

-- Whether the `n` frames from `b` on are all free.
unfoldable pub fits : Pmm → ℕ → ℕ → Bool
fits s zero b = true
fits s (suc n) b = free s b && fits s n (b + 1)

pub free-of-fits : (s : Pmm) (n b c : ℕ) → fits s n b ≡ true → b ≤ c → c < b + n → used s c ≡ false
unfolding fits
free-of-fits s zero b c h l m = absurd (omega arith)
free-of-fits s (suc n) b c h l m = elim (Bool-cases (b == c)) [
  | inl first ↦ let e : b ≡ c = ground arith in ground arith
  | inr later ↦ free-of-fits s n (b + 1) c (ground arith) (ground arith) (omega arith)
]

pub fits-of-free :
    (s : Pmm) (n b : ℕ) → ((c : ℕ) → b ≤ c → c < b + n → used s c ≡ false) → fits s n b ≡ true
unfolding fits
fits-of-free s zero b h = refl
fits-of-free s (suc n) b h = ground (
  arith,
  h b (omega arith) (omega arith),
  fits-of-free s n (b + 1) (λ c l m. h c (omega arith) (omega arith)),
)

not-fits : (s : Pmm) (n b : ℕ) → free s b ≡ false → fits s (suc n) b ≡ false
unfolding fits
not-fits s n b h = rw h

-- The counters `count` and `free` of the loop agree, so it compares the run with `size`.
run_is_free-fits :
    (s : Pmm) (size b k left count : ℕ)
    → count + suc k ≡ size
    → suc k ≤ left
    → b + size ≤ 2 ^ 32
    → run_is_free s size b left count count ≡ fits s (suc k) (b + count)
unfolding run_is_free fits
run_is_free-fits s size b k zero count e l h = absurd (omega arith)
run_is_free-fits s size b zero (suc left) count e l h =
    let cut : u32 (b + count) ≡ b + count = omega arith in ground arith
run_is_free-fits s size b (suc k) (suc left) count e l h =
    let cut : u32 (b + count) ≡ b + count = omega arith in
    let more : (count + 1 == size) ≡ false = ground arith in
    let next : run_is_free s size b left (count + 1) (count + 1)
        ≡ fits s (suc k) (b + (count + 1)) =
      run_is_free-fits s size b k left (count + 1) (omega arith) (omega arith) h in
    let shift : b + (count + 1) ≡ b + count + 1 = omega arith in
    ground (arith, ap (λ t. fits s (suc k) t) shift)

fit_in_word-IsFirst :
    (s : Pmm) (k i left j : ℕ)
    → j + left ≡ 32
    → i * 32 + 32 + suc k ≤ 2 ^ 32
    → IsFirst (fits s (suc k)) (i * 32 + j) (i * 32 + 32) (fit_in_word s (suc k) i left j)
unfolding fit_in_word
fit_in_word-IsFirst s k i zero j e h = missing λ c a b. absurd (omega arith)
fit_in_word-IsFirst s k i (suc left) j e h =
    let cut : u32 (i * 32 + j) ≡ i * 32 + j = omega arith in
    let run : run_is_free s (suc k) (i * 32 + j) (suc k + 1) 0 0 ≡ fits s (suc k) (i * 32 + j + 0) =
      run_is_free-fits s (suc k) (i * 32 + j) k (suc k + 1) 0 (omega arith) (omega arith)
        (omega arith) in
    let rest : IsFirst (fits s (suc k)) (i * 32 + (j + 1)) (i * 32 + 32)
        (fit_in_word s (suc k) i left (j + 1)) =
      fit_in_word-IsFirst s k i left (j + 1) (omega arith) h in
    rw cut (elim (Bool-cases (used s (i * 32 + j))) [
      | inl taken ↦ rw taken (IsFirst-next (omega arith) (unfold fits in rw taken) rest)
      | inr untaken ↦
          rw untaken (elim (Bool-cases (run_is_free s (suc k) (i * 32 + j) (suc k + 1) 0 0)) [
            | inl fit ↦ rw fit (IsFirst-here (omega arith) (sym (simp add-zero at run) ∙ fit))
            | inr tight ↦
                rw tight (IsFirst-next (omega arith) (sym (simp add-zero at run) ∙ tight) rest)
          ])
    ])

fit_in_map-IsFirst :
    (s : Pmm) (k left i n lo : ℕ)
    → i + left ≡ n
    → lo ≡ i * 32
    → n * 32 + suc k ≤ 2 ^ 32
    → IsFirst (fits s (suc k)) lo (n * 32) (fit_in_map s (suc k) left i)
unfolding fit_in_map
fit_in_map-IsFirst s k zero i n lo e el h = missing λ c a b. absurd (omega arith)
fit_in_map-IsFirst s k (suc left) i n lo e el h =
    let rest : IsFirst (fits s (suc k)) (i * 32 + 32) (n * 32) (fit_in_map s (suc k) left (i + 1)) =
      fit_in_map-IsFirst s k left (i + 1) n (i * 32 + 32) (omega arith) (omega arith) h in
    let word : IsFirst (fits s (suc k)) (i * 32) (i * 32 + 32) (fit_in_word s (suc k) i 32 0) =
      simp add-zero at (fit_in_word-IsFirst s k i 32 0 refl (omega arith)) in
    rw el (elim (Bool-cases (bit_map_word s i != 0xffffffff)) [
      | inl some_free ↦ rw some_free (IsFirst-orelse _ _ (omega arith) (omega arith) word rest)
      | inr full ↦
          rw full
            (IsFirst-skip (omega arith) (λ c a b. not-fits s k c (full-used s i full c a b)) rest)
    ])

fits-one : (s : Pmm) (b : ℕ) → free s b ≡ fits s 1 b
unfolding fits
fits-one s b = ground arith

by_map :
    (s : Pmm) (k : ℕ)
    → s.total_used_blocks < s.total_block
    → get_free_frame_by_size s (suc (suc k)) ≡ returned (fit_in_map s (suc (suc k)) s.total_block 0)
unfolding get_free_frame_by_size
by_map s k room = ground arith

-- While fewer pages are in use than the bitmap has words, `get_free_frame_by_size` returns the
-- first frame that starts a run of `size` free frames, and -1 exactly when the bitmap has no such
-- frame. The run itself may go on behind the end of the bitmap.
pub get_free_frame_by_size-IsFirst :
    (s : Pmm) (size : ℕ)
    → 0 < size
    → s.total_used_blocks < s.total_block
    → s.total_block * 32 + size ≤ 2 ^ 32
    → let r = get_free_frame_by_size s size in
      IsFirst (fits s size) 0 (s.total_block * 32) (if r == invalid_frame then none else some r)
unfolding get_free_frame_by_size
get_free_frame_by_size-IsFirst s zero pos room h = elim pos [ ]
get_free_frame_by_size-IsFirst s (suc zero) pos room h =
    let open_guard : leb s.total_block s.total_used_blocks ≡ false = ground arith in
    rw open_guard (IsFirst-congr (fits-one s) (get_free_memory_block-IsFirst s (omega arith)))
get_free_frame_by_size-IsFirst s (suc (suc k)) pos room h = rw (by_map s k room) (
    IsFirst-result _ (omega arith)
      (fit_in_map-IsFirst s (suc k) s.total_block 0 s.total_block 0 (omega arith) refl h))
