-- ===== src/Screen/Scroll.antt =====
-- `clrscr` and `scrollback` as a whole.
use toy_kernel.Common.{ℕ, ◌+◌, ◌-◌, ◌^◌, ◌==◌, ◌≡◌, refl, arith, ltb, if◌then◌else◌}
use toy_kernel.Screen.{Screen, move_rows, clrscr, scrollback}
use toy_kernel.Screen.Cells.{blank, blank_cells_lem, blank_rows_lem, move_rows_lem}

-- `scrollback` moves every row up by one, blanks the last row, changes no byte behind the screen,
-- and moves the next character's place up by one row, from row 0 to row -1.
pub scrollback_lem :
    (s : Screen)
    → ((a : ℕ)
        → (scrollback s).buffer a
          ≡ (if ltb a 3840 then s.buffer (a + 160) else if ltb a 4000 then blank a else s.buffer a))
      × ((scrollback s).x ≡ s.x)
      × ((scrollback s).y ≡ (if s.y == 0 then 2 ^ 32 - 1 else s.y - 1))
unfolding scrollback
scrollback_lem s = (cells, refl, refl)
  where
    cells :
        (a : ℕ)
        → (scrollback s).buffer a
          ≡ (if ltb a 3840 then s.buffer (a + 160) else if ltb a 4000 then blank a else s.buffer a)
    cells a = ground (
      arith,
      blank_cells_lem 80 0 24 (move_rows s.buffer 24 1) a,
      move_rows_lem 24 1 s.buffer a (omega arith),
    )

-- `clrscr` blanks the 4000 bytes of the screen and no other, and puts the next character at the top
-- left.
pub clrscr_lem :
    (s : Screen)
    → ((a : ℕ) → (clrscr s).buffer a ≡ (if ltb a 4000 then blank a else s.buffer a))
      × ((clrscr s).x ≡ 0)
      × ((clrscr s).y ≡ 0)
unfolding clrscr
clrscr_lem s = (λ a. ground (arith, blank_rows_lem 25 0 s.buffer a), refl, refl)
