-- ===== src/Screen/Examples.antt =====
-- The screen with the next character in its last cell.
use toy_kernel.Common.{ℕ, ◌+◌, ◌%◌, ◌≡◌, [], ◌∷◌, arith, ltb, if◌then◌else◌}
use toy_kernel.Screen.{Screen, clrscr, scrollback, put_s}
use toy_kernel.Screen.Cells.{blank}
use toy_kernel.Screen.Scroll.{clrscr_lem, scrollback_lem}
use toy_kernel.Screen.Cursor.{OnScreen, put_s-OnScreen}

abbrev full_screen : Screen
full_screen = record { buffer = λ a. a % 256; x = 79; y = 24; cursor = 1999 }

clrscr_run :
    ((a : ℕ)
      → (clrscr full_screen).buffer a ≡ (if ltb a 4000 then blank a else full_screen.buffer a))
    × ((clrscr full_screen).x ≡ 0)
    × ((clrscr full_screen).y ≡ 0)
clrscr_run = clrscr_lem full_screen

scrollback_example :
    ((a : ℕ)
      → (scrollback full_screen).buffer a ≡ (
          if ltb a 3840
          then full_screen.buffer (a + 160)
          else if ltb a 4000
          then blank a
          else full_screen.buffer a))
    × ((scrollback full_screen).x ≡ 79)
    × ((scrollback full_screen).y ≡ 23)
scrollback_example = scrollback_lem full_screen

put_s-OnScreen_run : OnScreen (put_s full_screen (0x41 ∷ 0x09 ∷ 0x0a ∷ []))
put_s-OnScreen_run =
    put_s-OnScreen (0x41 ∷ 0x09 ∷ 0x0a ∷ []) full_screen
      (record { in_row = omega arith; in_rows = omega arith })
