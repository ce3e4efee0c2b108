-- ===== src/Elf/Page.antt =====
-- What the loader copies into a page of a segment.
use toy_kernel.Common.{
  ℕ, ◌+◌, ◌-◌, ◌^◌, ◌≤◌, ◌<◌, ◌≡◌, refl, ◌∙◌, ◌⊎◌, inl, inr, true, false, ◌&&◌, arith, ltb, leb,
  if◌then◌else◌, Bool-cases, u16, u32,
}
use mathlib.Core.Path.{subst}
use toy_kernel.Memory.{Mem, memcpy}
use toy_kernel.Memory.Copy.{memcpy-u16}
use toy_kernel.Elf.{copy_size, fill_page}

-- The byte of a segment at the offset `k`, whose `filesz` bytes of the file lie at `src`: the
-- file's where it has one, and 0 behind.
abbrev pub segment_byte : Mem → (src filesz k : ℕ) → ℕ
segment_byte m src filesz k = if ltb k filesz then m (src + k) else 0

copy_size-le : (filesz page_off : ℕ) → copy_size filesz page_off ≤ 4096
unfolding copy_size
copy_size-le filesz page_off = ground arith

copy_size-lt :
    (filesz page_off j : ℕ)
    → j < 4096
    → ltb j (copy_size filesz page_off) ≡ ltb (page_off + j) filesz
unfolding copy_size
copy_size-lt filesz page_off j h = ground (arith, h)

page_byte :
    (m : Mem) (phys src filesz page_off j : ℕ)
    → j < 4096
    → m (phys + j) ≡ 0
    → (if leb phys (phys + j) && ltb (phys + j) (phys + copy_size filesz page_off)
        then m (src + page_off + (phys + j - phys))
        else m (phys + j))
      ≡ segment_byte m src filesz (page_off + j)
page_byte m phys src filesz page_off j h zero =
    let at : src + page_off + (phys + j - phys) ≡ src + (page_off + j) = omega arith in
    let test : (leb phys (phys + j) && ltb (phys + j) (phys + copy_size filesz page_off))
        ≡ ltb (page_off + j) filesz =
      ground (arith, copy_size-lt filesz page_off j h) in
    rw (at, test, zero) refl

fill_page_some :
    (m : Mem) (phys src filesz page_off : ℕ)
    → ltb page_off filesz ≡ true
    → fill_page m phys src filesz page_off
      ≡ memcpy m phys (u32 (src + page_off)) (copy_size filesz page_off)
unfolding fill_page copy_size
fill_page_some m phys src filesz page_off h = rw h refl

-- After the copy, on a page of zeros that does not meet the segment's bytes in the image, the page
-- at `phys` holds the 4096 bytes of the segment from `page_off` on, padded with zeros behind the
-- file's bytes, and no byte outside the page is changed.
pub fill_page_lem :
    (m : Mem) (phys src filesz page_off : ℕ)
    → src + page_off + 4096 ≤ 2 ^ 32
    → (phys + 4096 ≤ src + page_off) ⊎ (src + page_off + 4096 ≤ phys)
    → ((j : ℕ) → j < 4096 → m (phys + j) ≡ 0)
    → ((j : ℕ)
        → j < 4096
        → fill_page m phys src filesz page_off (phys + j)
          ≡ segment_byte m src filesz (page_off + j))
      × ((a : ℕ) → (a < phys) ⊎ (phys + 4096 ≤ a) → fill_page m phys src filesz page_off a ≡ m a)
fill_page_lem m phys src filesz page_off space apart zeros =
    let n = copy_size filesz page_off in
    let le = copy_size-le filesz page_off in
    let cut : u32 (src + page_off) ≡ src + page_off = omega arith in
    let small : u16 n ≡ n = omega (arith, le) in
    let copied : (b : ℕ)
        → memcpy m phys (src + page_off) n b
          ≡ (if leb phys b && ltb b (phys + n) then m (src + page_off + (b - phys)) else m b) =
      λ b.
        subst
          (λ k.
            memcpy m phys (src + page_off) n b
            ≡ (if leb phys b && ltb b (phys + k) then m (src + page_off + (b - phys)) else m b))
          small (memcpy-u16 m phys (src + page_off) n b (omega (arith, le))) in
    elim (Bool-cases (ltb page_off filesz)) [
      | inl some_bytes ↦ (
        λ j h.
            rw (fill_page_some m phys src filesz page_off some_bytes, cut)
              (copied (phys + j) ∙ page_byte m phys src filesz page_off j h (zeros j h)),
        λ a o.
            rw (fill_page_some m phys src filesz page_off some_bytes, cut)
              (copied a ∙ ground (arith, le, o)),
      )
      | inr none_left ↦ (
        λ j h.
            unfold fill_page in
            rw none_left (
              zeros j h
              ∙ (let past : ltb (page_off + j) filesz ≡ false = ground arith in rw past refl)),
        λ a o. unfold fill_page in rw none_left refl,
      )
    ]
