-- ===== src/Fat/Stream.antt =====
-- Sequences of sectors, and what `FAT_Read` is to return of one, however the file finds the next of them.
pub mod Loop
use toy_kernel.Common.{
  ℕ, zero, suc, ◌+◌, ◌-◌, ◌*◌, ◌/◌, ◌%◌, ◌^◌, ◌≤◌, ◌<◌, min, ◌≡◌, refl, sym, ap, ◌∙◌, ◌⊎◌, inl, inr,
  Bool, true, false, List, [], ◌∷◌, ◌++◌, arith, ltb, ◌==◌, if◌then◌else◌, Bool-cases, u32, length,
  length-append,
}
use mathlib.Core.Path.{subst}
use mathlib.Core.List.{append-nil}
use toy_kernel.Memory.{Mem}
use toy_kernel.Fat.{FatFileData, Fat, Drive}
use toy_kernel.Fat.Read.{slice, at_position, next_sector, read_loop}

pub length-slice : (m : Mem) (from size : ℕ) → length (slice m from size) ≡ size
unfolding slice
length-slice m from zero = refl
length-slice m from (suc size) = ap suc (length-slice m (from + 1) size)

pub slice_congr :
    (m n : Mem) (a b size : ℕ)
    → ((j : ℕ) → j < size → m (a + j) ≡ n (b + j))
    → slice m a size ≡ slice n b size
unfolding slice
slice_congr m n a b zero h = refl
slice_congr m n a b (suc size) h =
    let first : m a ≡ n b = rw (zero_right a, zero_right b) at (h 0 (omega arith)) in
    let rest : slice m (a + 1) size ≡ slice n (b + 1) size =
      slice_congr m n (a + 1) (b + 1) size
        (λ j l. rw (shift a j, shift b j) (h (j + 1) (omega arith))) in
    cc
  where
    zero_right : (k : ℕ) → k + 0 ≡ k
    zero_right k = omega arith

    shift : (k j : ℕ) → k + 1 + j ≡ k + (j + 1)
    shift k j = omega arith

pub slice-append : (m : Mem) (a n k : ℕ) → slice m a n ++ slice m (a + n) k ≡ slice m a (n + k)
unfolding slice
slice-append m a zero k =
    let e : a + 0 ≡ a = omega arith in let f : 0 + k ≡ k = omega arith in rw (e, f) refl
slice-append m a (suc n) k =
    let e : a + suc n ≡ a + 1 + n = omega arith in
    let f : suc n + k ≡ suc (n + k) = omega arith in
    rw (e, f) (ap (λ l. m a ∷ l) (slice-append m (a + 1) n k))

-- The bytes of the sectors one after the other.
abbrev pub content : (ℕ → Mem) → Mem
content sector i = sector (i / 512) (i % 512)

-- The file stands in the sector `k`: `Placed` says where that is, and the buffer holds the sector.
abbrev pub Buffered : (ℕ → Mem) → FatFileData → ℕ → Type 0
Buffered sector fd k = (i : ℕ) → i < 512 → fd.buffer i ≡ sector k i

-- What `next_sector` returns: the file in the sector `k`, or a reason to stop.
pub data Next (sector : ℕ → Mem) (Placed Stopped : FatFileData → ℕ → Type 0) (k position : ℕ)
    : Bool × FatFileData × ℕ → Type 0 where
  onward :
      {fd : FatFileData} {call : ℕ}
      → Placed fd k
      → Buffered sector fd k
      → fd.file.position ≡ position
      → Next sector Placed Stopped k position (true, fd, call)
  stopped :
      {fd : FatFileData} {call : ℕ}
      → Stopped fd k
      → fd.file.position ≡ position
      → Next sector Placed Stopped k position (false, fd, call)

-- What the loop returns, for `want` bytes from the position on: the bytes of the file from there,
-- the position behind them, and either all that was wanted, or a reason to stop.
pub record ReadOut (sector : ℕ → Mem) (Placed Stopped : FatFileData → ℕ → Type 0)
    (position want : ℕ) (r : List ℕ × FatFileData × ℕ) : Type 0 where
  pub bytes : r.0 ≡ slice (content sector) position (length (r.0))
  pub at_most : length (r.0) ≤ want
  pub moved : r.1.file.position ≡ position + length (r.0)
  pub ending :
      ((length (r.0) ≡ want)
        × Placed r.1 ((position + length (r.0)) / 512)
        × Buffered sector r.1 ((position + length (r.0)) / 512))
      ⊎ Stopped r.1 ((position + length (r.0)) / 512)
