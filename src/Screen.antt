-- ===== src/Screen.antt =====
-- The text screen, src/kernel/drivers/display/screen.c: 25 rows of 80 cells of two bytes, and the
-- place where the next character goes.
pub mod Cells
pub mod Scroll
pub mod Cursor
mod Examples
use toy_kernel.Common.{
  ℕ, zero, suc, ◌+◌, ◌-◌, ◌*◌, ◌/◌, ◌%◌, ◌^◌, ◌≤◌, ◌<◌, min, max, bit_and, bit_or, ◌≡◌, refl, sym,
  ap, ◌∙◌, ◌≢◌, ◌↔◌, ◌⊎◌, inl, inr, Bool, true, false, not, ◌&&◌, ◌||◌, Option, none, some, List,
  [], ◌∷◌, ◌++◌, map, arith, ltb, leb, ◌==◌, ◌!=◌, if◌then◌else◌, ltb→lt, leb→le, ==_iff,
  Bool-cases, Option-cases, u8, u16, u32, sub32, ◌<<<◌, ◌>>>◌, length, get_elem?, get_or, set, drop,
  take, replicate, length-append, length-set, get_elem?-set_self, get_elem?-set_ne,
}
use toy_kernel.Memory.{Mem, write8}

abbrev pub screen_width : ℕ
screen_width = 80

abbrev pub screen_height : ℕ
screen_height = 25

abbrev pub default_color : ℕ
default_color = 7

-- `g_ScreenBuffer`, numbered from its first byte, the two coordinates, and the position that the
-- display controller was last given.
pub record Screen : Type 0 where
  pub buffer : Mem
  pub x : ℕ
  pub y : ℕ
  pub cursor : ℕ

unfoldable pub set_axis : Screen → ℕ → ℕ → Screen
set_axis s x_axis y_axis = record s { x = u16 x_axis; y = u16 y_axis }

-- The number of the first byte of a cell.
abbrev pub cell : ℕ → ℕ → ℕ
cell x y = 2 * (y * screen_width + x)

unfoldable pub getchr : Mem → ℕ → ℕ → ℕ
getchr b x y = b (cell x y)

unfoldable pub putchr : Mem → ℕ → ℕ → ℕ → Mem
unfolding write8
putchr b x y c = write8 b (cell x y) c

unfoldable pub getcolor : Mem → ℕ → ℕ → ℕ
getcolor b x y = b (cell x y + 1)

unfoldable pub putcolor : Mem → ℕ → ℕ → ℕ → Mem
unfolding write8
putcolor b x y color = write8 b (cell x y + 1) color

unfoldable pub setcursor : Screen → ℕ → ℕ → Screen
setcursor s x y = record s { cursor = u16 (y * screen_width + x) }

-- Blanking `left` cells of the row `y` from the column `x` on.
unfoldable pub blank_cells : Mem → (left x y : ℕ) → Mem
blank_cells b zero x y = b
blank_cells b (suc left) x y =
    blank_cells (putcolor (putchr b x y 0) x y default_color) left (x + 1) y

unfoldable pub blank_rows : Mem → (left y : ℕ) → Mem
blank_rows b zero y = b
blank_rows b (suc left) y = blank_rows (blank_cells b screen_width 0 y) left (y + 1)

unfoldable pub clrscr : Screen → Screen
unfolding setcursor
clrscr s = setcursor (record s { buffer = blank_rows s.buffer screen_height 0; x = 0; y = 0 }) 0 0

-- Moving `left` cells of the row `y` up by one row, from the column `x` on.
unfoldable pub move_cells : Mem → (left x y : ℕ) → Mem
move_cells b zero x y = b
move_cells b (suc left) x y =
    let moved = putchr b x (y - 1) (getchr b x y) in
    move_cells (putcolor moved x (y - 1) (getcolor moved x y)) left (x + 1) y

unfoldable pub move_rows : Mem → (left y : ℕ) → Mem
move_rows b zero y = b
move_rows b (suc left) y = move_rows (move_cells b screen_width 0 y) left (y + 1)

-- A `g_ScreenY` of -1 is given by its 32 bits.
unfoldable pub scrollback : Screen → Screen
scrollback s = record s {
  buffer =
      blank_cells (move_rows s.buffer (screen_height - 1) 1) screen_width 0 (screen_height - 1);
  y = if s.y == 0 then 2 ^ 32 - 1 else s.y - 1;
}

-- What `put_c` does after its `switch`.
unfoldable pub wrap_and_scroll : Screen → Screen
unfolding scrollback setcursor
wrap_and_scroll s =
    let wrapped =
      if leb screen_width s.x then record s { x = s.x - screen_width; y = s.y + 1 } else s in
    let scrolled = if leb screen_height wrapped.y then scrollback wrapped else wrapped in
    setcursor scrolled scrolled.x scrolled.y

-- `put_c` of any character but the newline, the tab and the carriage return.
unfoldable pub put_plain : Screen → ℕ → Screen
unfolding wrap_and_scroll putchr
put_plain s c = wrap_and_scroll (record s { buffer = putchr s.buffer s.x s.y c; x = s.x + 1 })

-- The loop of the tab, with `left` rounds at most: its bound is computed anew in each round.
unfoldable pub tab_loop : Screen → (left i : ℕ) → Screen
tab_loop s zero i = s
tab_loop s (suc left) i =
    let rest = tab_loop (put_plain s 0x20) left (i + 1) in if ltb i (4 - s.x % 4) then rest else s

unfoldable pub put_c : Screen → ℕ → Screen
unfolding wrap_and_scroll put_plain tab_loop
put_c s c =
    if c == 0x0a
    then wrap_and_scroll (record s { x = 0; y = s.y + 1 })
    else if c == 0x09
    then wrap_and_scroll (tab_loop s 4 0)
    else if c == 0x0d
    then wrap_and_scroll (record s { x = 0 })
    else put_plain s c

unfoldable pub put_s : Screen → List ℕ → Screen
put_s s [] = s
put_s s (c ∷ str) = put_s (put_c s c) str
