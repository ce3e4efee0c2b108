-- ===== src/Screen/Cells.antt =====
-- The loops of the screen, cell by cell.
use toy_kernel.Common.{
  ℕ, zero, suc, ◌+◌, ◌-◌, ◌*◌, ◌%◌, ◌≤◌, ◌<◌, ◌≡◌, ◌&&◌, arith, ltb, leb, ◌==◌, if◌then◌else◌,
}
use toy_kernel.Memory.{Mem, write8}
use toy_kernel.Screen.{
  screen_width, default_color, cell, getchr, putchr, getcolor, putcolor, blank_cells, blank_rows,
  move_cells, move_rows,
}

-- What blanking leaves in a byte: 0 in the first byte of a cell, the color in the second.
abbrev pub blank : ℕ → ℕ
blank a = if a % 2 == 0 then 0 else default_color

pub blank_cells_lem :
    (left x y : ℕ) (b : Mem) (a : ℕ)
    → blank_cells b left x y a
      ≡ (if leb (cell x y) a && ltb a (cell x y + 2 * left) then blank a else b a)
unfolding blank_cells putchr putcolor write8
blank_cells_lem zero x y b a = ground arith
blank_cells_lem (suc left) x y b a =
    let rest = blank_cells_lem left (x + 1) y (putcolor (putchr b x y 0) x y default_color) a in
    ground (arith, rest)

pub blank_rows_lem :
    (left y : ℕ) (b : Mem) (a : ℕ)
    → blank_rows b left y a
      ≡ (if leb (cell 0 y) a && ltb a (cell 0 (y + left)) then blank a else b a)
unfolding blank_rows
blank_rows_lem zero y b a = ground arith
blank_rows_lem (suc left) y b a = ground (
  arith,
  blank_rows_lem left (y + 1) (blank_cells b screen_width 0 y) a,
  blank_cells_lem screen_width 0 y b a,
)

-- Moving cells up by a row, for a row that is not the first.
pub move_cells_lem :
    (left x y : ℕ) (b : Mem) (a : ℕ)
    → 0 < y
    → x + left ≤ 80
    → move_cells b left x y a
      ≡ (if leb (cell x (y - 1)) a && ltb a (cell x (y - 1) + 2 * left) then b (a + 160) else b a)
unfolding move_cells putchr putcolor getchr getcolor write8
move_cells_lem zero x y b a pos h = ground arith
move_cells_lem (suc left) x y b a pos h =
    let moved = putchr b x (y - 1) (getchr b x y) in
    let both = putcolor moved x (y - 1) (getcolor moved x y) in
    let rest = move_cells_lem left (x + 1) y both a pos (omega arith) in ground (arith, rest)

-- Each of the rows from `y` on is moved up, so a cell gets what was in the cell below it.
pub move_rows_lem :
    (left y : ℕ) (b : Mem) (a : ℕ)
    → 0 < y
    → move_rows b left y a
      ≡ (if leb (cell 0 (y - 1)) a && ltb a (cell 0 (y - 1 + left)) then b (a + 160) else b a)
unfolding move_rows
move_rows_lem zero y b a pos = ground arith
move_rows_lem (suc left) y b a pos =
    let moved = move_cells b screen_width 0 y in
    let rest = move_rows_lem left (y + 1) moved a (omega arith) in
    let here = move_cells_lem screen_width 0 y b a pos (omega arith) in
    let below = move_cells_lem screen_width 0 y b (a + 160) pos (omega arith) in
    ground (arith, rest, here, below)
