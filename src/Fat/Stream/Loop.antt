-- ===== src/Fat/Stream/Loop.antt =====
-- The loop of `FAT_Read` on a sequence of sectors.
use toy_kernel.Common.{
  ℕ, zero, suc, ◌+◌, ◌-◌, ◌*◌, ◌/◌, ◌%◌, ◌^◌, ◌≤◌, ◌<◌, min, ◌≡◌, refl, sym, ap, ◌∙◌, inl, inr,
  Bool, true, false, List, [], ◌++◌, arith, ltb, ◌==◌, if◌then◌else◌, Bool-cases, u32, length,
  length-append,
}
use mathlib.Core.Path.{subst}
use mathlib.Core.List.{append-nil}
use toy_kernel.Memory.{Mem}
use toy_kernel.Fat.{FatFileData, Fat, Drive}
use toy_kernel.Fat.Read.{slice, at_position, next_sector, read_loop}
use toy_kernel.Fat.Stream.{
  length-slice, slice_congr, slice-append, content, Buffered, Next, onward, stopped, ReadOut,
}

read_loop_nil :
    (drive : Drive) (fat : Fat) (fuel : ℕ) (fd : FatFileData) (call : ℕ)
    → read_loop drive fat fuel fd call 0 ≡ ([], fd, call)
unfolding read_loop
read_loop_nil drive fat zero fd call = refl
read_loop_nil drive fat (suc fuel) fd call = refl

module _ (drive : Drive) (fat : Fat) (fuel : ℕ) (fd : FatFileData) (call want : ℕ) where
  abbrev pub position : ℕ
  position = fd.file.position

  abbrev pub left : ℕ
  left = 512 - position % 512

  -- A round that takes all that is left in the buffer.
  read_loop_full :
      left ≤ want
      → position + want < 2 ^ 32
      → let r = next_sector drive fat (at_position fd (position + left)) call in
        let rest = read_loop drive fat fuel r.1 r.2 (want - left) in
        let bytes = slice fd.buffer (position % 512) left in
        read_loop drive fat (suc fuel) fd call want
        ≡ (if r.0 then (bytes ++ rest.0, rest.1, rest.2) else (bytes, r.1, r.2))
  unfolding read_loop
  read_loop_full le low =
      let something : (want == 0) ≡ false = ground arith in
      let size : min want left ≡ left = omega arith in
      let to : u32 (position + left) ≡ position + left = omega arith in
      let all : (left == left) ≡ true = ground arith in rw (something, size, to, all) refl

  -- The last round, where more is left in the buffer than is wanted.
  pub read_loop_part :
      want < left
      → 0 < want
      → position + want < 2 ^ 32
      → read_loop drive fat (suc fuel) fd call want
        ≡ (slice fd.buffer (position % 512) want, at_position fd (position + want), call)
  unfolding read_loop
  read_loop_part lt more low =
      let something : (want == 0) ≡ false = ground arith in
      let size : min want left ≡ want = omega arith in
      let to : u32 (position + want) ≡ position + want = omega arith in
      let some_left : (left == want) ≡ false = ground arith in
      let done : want - want ≡ 0 = omega arith in
      rw
        (
          something,
          size,
          to,
          some_left,
          done,
          read_loop_nil drive fat fuel (at_position fd (position + want)) call,
        )
        (ap (λ l. (l, at_position fd (position + want), call)) (append-nil _))

module _ (sector : ℕ → Mem) (Placed Stopped : FatFileData → ℕ → Type 0) where
  nothing_read :
      (fd : FatFileData) (call position : ℕ)
      → fd.file.position ≡ position
      → Placed fd (position / 512)
      → Buffered sector fd (position / 512)
      → ReadOut sector Placed Stopped position 0 ([], fd, call)
  unfolding slice
  nothing_read fd call position at placed buffered =
      let e : position + 0 ≡ position = omega arith in
      record {
        bytes = refl;
        at_most = omega arith;
        moved = omega arith;
        ending = rw e (inl (refl, placed, buffered));
      }

  -- The bytes of one round in front of those of the later ones.
  joined :
      (position size want : ℕ) (bytes : List ℕ) (r : List ℕ × FatFileData × ℕ)
      → size ≤ want
      → bytes ≡ slice (content sector) position size
      → ReadOut sector Placed Stopped (position + size) (want - size) r
      → ReadOut sector Placed Stopped position want (bytes ++ r.0, r.1, r.2)
  joined position size want bytes r le e later =
      let sum : length (bytes ++ r.0) ≡ size + length (r.0) = rw e (
        length-append _ (r.0)
        ∙ ap (λ n. n + length (r.0)) (length-slice (content sector) position size)) in
      let place : position + (size + length (r.0)) ≡ position + size + length (r.0) = omega arith in
      record {
        bytes = rw sum (
            ap (λ l. l ++ r.0) e
            ∙ ap (λ l. slice (content sector) position size ++ l) later.bytes
            ∙ slice-append (content sector) position size (length (r.0)));
        at_most = omega (arith, sum, later.at_most);
        moved = omega (arith, sum, later.moved);
        ending =
            rw (sum, place)
              (elim (later.ending) [
                | inl (all, placed, buffered) ↦ inl (omega arith, placed, buffered)
                | inr stop ↦ inr stop
              ]);
      }

module _ (drive : Drive) (fat : Fat) (sector : ℕ → Mem) (Placed Stopped : FatFileData → ℕ → Type 0)
    (last : ℕ) (keep : (fd : FatFileData) (k p : ℕ) → Placed fd k → Placed (at_position fd p) k)
    (next : (fd : FatFileData) (k call : ℕ)
      → Placed fd k
      → k < last
      → Next sector Placed Stopped (k + 1) fd.file.position (next_sector drive fat fd call)) where
  -- What the loop does with `fuel` rounds.
  abbrev AllRead : ℕ → Type 0
  AllRead fuel =
      (fd : FatFileData) (call want : ℕ)
      → want ≤ fuel
      → fd.file.position + want < 2 ^ 32
      → (fd.file.position + want) / 512 ≤ last
      → Placed fd (fd.file.position / 512)
      → Buffered sector fd (fd.file.position / 512)
      → ReadOut sector Placed Stopped fd.file.position want (read_loop drive fat fuel fd call want)

  -- The bytes that a round takes from the buffer.
  taken :
      (fd : FatFileData) (size : ℕ)
      → fd.file.position % 512 + size ≤ 512
      → Buffered sector fd (fd.file.position / 512)
      → slice fd.buffer (fd.file.position % 512) size ≡ slice (content sector) fd.file.position size
  taken fd size fits buffered =
      let p = fd.file.position in
      slice_congr fd.buffer (content sector) (p % 512) p size (λ j h.
        let same : (p + j) / 512 ≡ p / 512 = omega arith in
        let inside : (p + j) % 512 ≡ p % 512 + j = omega arith in
        rw (same, inside) (buffered (p % 512 + j) (omega arith)))

  -- A round that empties the buffer, after `next_sector` has returned `r`.
  emptied :
      (fuel : ℕ)
      → AllRead fuel
      → (position size want : ℕ) (bytes : List ℕ) (r : Bool × FatFileData × ℕ)
      → bytes ≡ slice (content sector) position size
      → size ≤ want
      → want ≤ size + fuel
      → position + want < 2 ^ 32
      → (position + want) / 512 ≤ last
      → (position + size) / 512 * 512 ≡ position + size
      → Next sector Placed Stopped ((position + size) / 512) (position + size) r
      → ReadOut sector Placed Stopped position want (
          if r.0
          then (
            bytes ++ (read_loop drive fat fuel r.1 r.2 (want - size)).0,
            (read_loop drive fat fuel r.1 r.2 (want - size)).1,
            (read_loop drive fat fuel r.1 r.2 (want - size)).2,
          )
          else (bytes, r.1, r.2))
  emptied fuel later position size want bytes (true, fd, call) e le enough low within edge
        (onward placed buffered at) =
      joined sector Placed Stopped position size want bytes
        (read_loop drive fat fuel fd call (want - size)) le e
        (subst
          (λ p.
            ReadOut sector Placed Stopped p (want - size)
              (read_loop drive fat fuel fd call (want - size)))
          at
          (later fd call (want - size) (omega arith) (omega arith) (omega arith)
            (subst (Placed fd) (ap (λ p. p / 512) (sym at)) placed)
            (subst (Buffered sector fd) (ap (λ p. p / 512) (sym at)) buffered)))
  emptied fuel later position size want bytes (false, fd, call) e le enough low within edge
        (stopped stop at) =
      let all : length bytes ≡ size = rw e (length-slice (content sector) position size) in
      record {
        bytes = rw all e;
        at_most = omega arith;
        moved = omega arith;
        ending = rw all (inr stop);
      }

  -- The last round.
  part_read :
      (fuel : ℕ) (fd : FatFileData) (call want : ℕ)
      → fd.file.position % 512 + want < 512
      → 0 < want
      → fd.file.position + want < 2 ^ 32
      → Placed fd (fd.file.position / 512)
      → Buffered sector fd (fd.file.position / 512)
      → ReadOut sector Placed Stopped fd.file.position want
          (read_loop drive fat (suc fuel) fd call want)
  part_read fuel fd call want lt more low placed buffered =
      let p = fd.file.position in
      let same : (p + want) / 512 ≡ p / 512 = omega arith in
      let all = length-slice fd.buffer (p % 512) want in
      rw (read_loop_part drive fat fuel fd call want (omega arith) more low) (record {
        bytes = rw all (taken fd want (omega arith) buffered);
        at_most = omega (arith, all);
        moved = omega (arith, all);
        ending = rw (all, same) (inl (refl, keep fd (p / 512) (p + want) placed, buffered));
      })

  -- A round that takes all that is left in the buffer, and the later rounds.
  full_read :
      (fuel : ℕ)
      → AllRead fuel
      → (fd : FatFileData) (call want : ℕ) → 512 ≤ fd.file.position % 512 + want
      → want ≤ suc fuel
      → fd.file.position + want < 2 ^ 32
      → (fd.file.position + want) / 512 ≤ last
      → Placed fd (fd.file.position / 512)
      → Buffered sector fd (fd.file.position / 512)
      → ReadOut sector Placed Stopped fd.file.position want
          (read_loop drive fat (suc fuel) fd call want)
  full_read fuel later fd call want all le low within placed buffered =
      let p = fd.file.position in
      let size = 512 - p % 512 in
      let onto : p / 512 + 1 ≡ (p + size) / 512 = omega arith in
      rw (read_loop_full drive fat fuel fd call want (omega arith) low) (
        emptied fuel later p size want (slice fd.buffer (p % 512) size)
          (next_sector drive fat (at_position fd (p + size)) call)
          (taken fd size (omega arith) buffered) (omega arith) (omega arith) low within
          (omega arith)
          (subst
            (λ k.
              Next sector Placed Stopped k (p + size)
                (next_sector drive fat (at_position fd (p + size)) call))
            onto
            (next (at_position fd (p + size)) (p / 512) call (keep fd (p / 512) (p + size) placed)
              (omega arith))))

  pub read_loop-ReadOut :
      (fuel : ℕ) (fd : FatFileData) (call want : ℕ)
      → want ≤ fuel
      → fd.file.position + want < 2 ^ 32
      → (fd.file.position + want) / 512 ≤ last
      → Placed fd (fd.file.position / 512)
      → Buffered sector fd (fd.file.position / 512)
      → ReadOut sector Placed Stopped fd.file.position want (read_loop drive fat fuel fd call want)
  read_loop-ReadOut zero fd call want le low within placed buffered =
      let none_left : want ≡ 0 = omega arith in
      rw (none_left, read_loop_nil drive fat 0 fd call)
        (nothing_read sector Placed Stopped fd call fd.file.position refl placed buffered)
  read_loop-ReadOut (suc fuel) fd call want le low within placed buffered =
      elim (Bool-cases (want == 0)) [
        | inl nothing ↦
            let none_left : want ≡ 0 = ground arith in
            rw (none_left, read_loop_nil drive fat (suc fuel) fd call)
              (nothing_read sector Placed Stopped fd call fd.file.position refl placed buffered)
        | inr something ↦ elim (Bool-cases (ltb want (left drive fat fuel fd call want))) [
          | inl part ↦ part_read fuel fd call want (ground arith) (ground arith) low placed buffered
          | inr full ↦
              full_read fuel (read_loop-ReadOut fuel) fd call want (ground arith) le low within
                placed buffered
        ]
      ]
