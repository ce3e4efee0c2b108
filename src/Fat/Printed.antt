-- ===== src/Fat/Printed.antt =====
-- Names on the disk and names on the screen.
use toy_kernel.Common.{
  ℕ, zero, suc, ◌+◌, ◌≤◌, bit_and, ◌≡◌, refl, ap, ◌∙◌, ◌≢◌, true, false, some, List, [], ◌∷◌, ◌++◌,
  map, arith, ◌==◌, ◌!=◌, length, get_or, drop, take,
}
use mathlib.Core.List.{map-append, append_assoc}
use toy_kernel.Fat.{fat_attribute_volume_id, fat_attribute_directory, FatDirectoryEntry}
use toy_kernel.Fat.Names.{strchr, toupper, fill_name, fat_name}
use toy_kernel.Fat.Listing.{before_blank, list_entry}

length-fill_name : (left : ℕ) (str : List ℕ) → length (fill_name left str) ≡ left
unfolding fill_name
length-fill_name zero str = refl
length-fill_name (suc left) [] = ap suc (length-fill_name left [])
length-fill_name (suc left) (c ∷ str) = ap suc (length-fill_name left str)

-- No character is `c`.
abbrev pub Without : ℕ → List ℕ → Type 0
Without c [] = Unit
Without c (d ∷ str) = (d ≢ c) × Without c str

strchr-append :
    (c : ℕ) (str later : List ℕ) → Without c str → strchr (str ++ c ∷ later) c ≡ some (length str)
unfolding strchr
strchr-append c [] later h = let same : (c == c) ≡ true = ground arith in rw same refl
strchr-append c (d ∷ str) later h =
    let other : (d == c) ≡ false = ground arith in
    rw (other, strchr-append c str later h.1) (ap some (omega arith))

-- A name with blanks behind it, up to the first blank.
before_blank-fill_name :
    (left : ℕ) (str : List ℕ)
    → length str ≤ left
    → Without 0x20 (map toupper str)
    → before_blank (fill_name left str) ≡ map toupper str
unfolding before_blank fill_name
before_blank-fill_name zero [] le h = refl
before_blank-fill_name zero (c ∷ str) le h = absurd (omega arith)
before_blank-fill_name (suc left) [] le h = refl
before_blank-fill_name (suc left) (c ∷ str) le h =
    let other : (toupper c == 0x20) ≡ false = ground arith in
    rw (other, before_blank-fill_name left str (omega arith) h.1) refl

take-append : (xs ys : List ℕ) → take (length xs) (xs ++ ys) ≡ xs
take-append [] ys = refl
take-append (x ∷ xs) ys = ap (λ l. x ∷ l) (take-append xs ys)

drop-append : (xs ys : List ℕ) → drop (length xs) (xs ++ ys) ≡ ys
drop-append [] ys = refl
drop-append (x ∷ xs) ys = drop-append xs ys

drop-append_suc : (xs ys : List ℕ) (c : ℕ) → drop (length xs + 1) (xs ++ c ∷ ys) ≡ ys
drop-append_suc [] ys c = refl
drop-append_suc (x ∷ xs) ys c =
    let e : length (x ∷ xs) + 1 ≡ suc (length xs + 1) = omega arith in
    rw e (drop-append_suc xs ys c)

-- A name with one dot behind at most eight characters.
fat_name-dot :
    (base ext : List ℕ)
    → length base ≤ 8
    → Without 0x2e base
    → fat_name (base ++ 0x2e ∷ ext) ≡ fill_name 8 base ++ fill_name 3 ext
unfolding fat_name
fat_name-dot base ext short plain =
    let early : (length base == 11) ≡ false = ground arith in
    rw (fat_name, strchr-append 0x2e base ext plain)
      (rw (early, take-append base (0x2e ∷ ext), drop-append_suc base ext 0x2e) refl)

-- The first `n` characters, and those behind them.
take-append_n : (n : ℕ) (xs ys : List ℕ) → length xs ≡ n → take n (xs ++ ys) ≡ xs
take-append_n n xs ys e = rw (← e) (take-append xs ys)

drop-append_n : (n : ℕ) (xs ys : List ℕ) → length xs ≡ n → drop n (xs ++ ys) ≡ ys
drop-append_n n xs ys e = rw (← e) (drop-append xs ys)

take_all : (n : ℕ) (xs : List ℕ) → length xs ≡ n → take n xs ≡ xs
take_all n xs e = rw (← e) (go xs)
  where
    go : (ys : List ℕ) → take (length ys) ys ≡ ys
    go [] = refl
    go (y ∷ ys) = ap (λ l. y ∷ l) (go ys)

toupper_dot : toupper 0x2e ≡ 0x2e
unfolding toupper
toupper_dot = refl

module _ (base ext : List ℕ) (entry : FatDirectoryEntry) (short : length base ≤ 8)
    (short_ext : length ext ≤ 3) (one_dot : Without 0x2e base)
    (no_blank : Without 0x20 (map toupper base)) (no_blank_ext : Without 0x20 (map toupper ext))
    (named : entry.name ≡ fat_name (base ++ 0x2e ∷ ext)) (alive : get_or entry.name 0 0 ≢ 0xe5)
    (no_directory : bit_and entry.attributes fat_attribute_directory ≡ 0)
    (no_label : bit_and entry.attributes fat_attribute_volume_id ≡ 0) where
  -- What is printed for a file that is searched for as a name of at most eight characters, a dot and
  -- at most three characters, without blanks and neither deleted nor a label, is that name in
  -- capitals and a newline.
  pub list_entry-fat_name : list_entry entry ≡ map toupper (base ++ 0x2e ∷ ext) ++ 0x0a ∷ []
  unfolding list_entry
  list_entry-fat_name =
      let name = named ∙ fat_name-dot base ext short one_dot in
      let here : (get_or entry.name 0 0 == 0xe5) ≡ false = ground arith in
      let file : (bit_and entry.attributes fat_attribute_directory != 0) ≡ false =
        rw no_directory refl in
      let label : (bit_and entry.attributes fat_attribute_volume_id != 0) ≡ false =
        rw no_label refl in
      let front : before_blank (take 8 entry.name) ≡ map toupper base =
        rw (name, take-append_n 8 (fill_name 8 base) (fill_name 3 ext) (length-fill_name 8 base))
          (before_blank-fill_name 8 base short no_blank) in
      let back : before_blank (take 3 (drop 8 entry.name)) ≡ map toupper ext =
        rw (name, drop-append_n 8 (fill_name 8 base) (fill_name 3 ext) (length-fill_name 8 base))
          (rw (take_all 3 (fill_name 3 ext) (length-fill_name 3 ext))
            (before_blank-fill_name 3 ext short_ext no_blank_ext)) in
      rw (here, label, file, front, back) (simp (map-append, toupper_dot, append_assoc))
