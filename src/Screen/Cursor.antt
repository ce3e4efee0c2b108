-- ===== src/Screen/Cursor.antt =====
-- Printing stays on the screen.
use toy_kernel.Common.{
  ℕ, zero, suc, ◌+◌, ◌-◌, ◌%◌, ◌≤◌, ◌<◌, ◌≡◌, inl, inr, List, [], ◌∷◌, arith, ltb, leb, ◌==◌,
  Bool-cases,
}
use toy_kernel.Screen.{
  Screen, screen_width, screen_height, setcursor, putchr, scrollback, wrap_and_scroll, put_plain,
  tab_loop, put_c, put_s,
}

-- The next character has a cell of the screen.
pub record OnScreen (s : Screen) : Type 0 where
  pub in_row : s.x < screen_width
  pub in_rows : s.y < screen_height

wrap_and_scroll-OnScreen :
    (s : Screen)
    → s.x ≤ screen_width
    → s.y ≤ screen_height
    → (s.x ≡ screen_width → s.y < screen_height)
    → OnScreen (wrap_and_scroll s)
unfolding wrap_and_scroll scrollback setcursor
wrap_and_scroll-OnScreen s hx hy full = elim (Bool-cases (leb screen_width s.x)) [
  | inl wide ↦ elim (Bool-cases (leb screen_height (s.y + 1))) [
    | inl tall ↦ rw (wide, tall) (record { in_row = ground arith; in_rows = ground arith })
    | inr fits ↦ rw (wide, fits) (record { in_row = ground arith; in_rows = ground arith })
  ]
  | inr narrow ↦ elim (Bool-cases (leb screen_height s.y)) [
    | inl tall ↦ rw (narrow, tall) (record { in_row = ground arith; in_rows = ground arith })
    | inr fits ↦ rw (narrow, fits) (record { in_row = ground arith; in_rows = ground arith })
  ]
]

put_plain-OnScreen : (s : Screen) (c : ℕ) → OnScreen s → OnScreen (put_plain s c)
unfolding put_plain
put_plain-OnScreen s c on =
    wrap_and_scroll-OnScreen (record s { buffer = putchr s.buffer s.x s.y c; x = s.x + 1 })
      (omega (arith, on.in_row)) (omega (arith, on.in_rows)) (λ _. on.in_rows)

tab_loop-OnScreen : (left i : ℕ) (s : Screen) → OnScreen s → OnScreen (tab_loop s left i)
unfolding tab_loop
tab_loop-OnScreen zero i s on = on
tab_loop-OnScreen (suc left) i s on = elim (Bool-cases (ltb i (4 - s.x % 4))) [
  | inl more ↦
      rw more (tab_loop-OnScreen left (i + 1) (put_plain s 0x20) (put_plain-OnScreen s 0x20 on))
  | inr over ↦ rw over on
]

-- Printing any character leaves the next character's place on the screen.
pub put_c-OnScreen : (s : Screen) (c : ℕ) → OnScreen s → OnScreen (put_c s c)
unfolding put_c
put_c-OnScreen s c on = elim (Bool-cases (c == 0x0a)) [
  | inl newline ↦ rw newline (
      wrap_and_scroll-OnScreen (record s { x = 0; y = s.y + 1 }) (omega arith)
        (omega (arith, on.in_rows)) (λ q. absurd (omega (arith, q))))
  | inr a ↦ elim (Bool-cases (c == 0x09)) [
    | inl tab ↦
        let t = tab_loop-OnScreen 4 0 s on in
        rw (a, tab)
          (wrap_and_scroll-OnScreen (tab_loop s 4 0) (omega (arith, t.in_row))
            (omega (arith, t.in_rows)) (λ _. t.in_rows))
    | inr b ↦ elim (Bool-cases (c == 0x0d)) [
      | inl return ↦
          rw (a, b, return)
            (wrap_and_scroll-OnScreen (record s { x = 0 }) (omega arith) (omega (arith, on.in_rows))
              (λ q. absurd (omega (arith, q))))
      | inr d ↦ rw (a, b, d) (put_plain-OnScreen s c on)
    ]
  ]
]

-- So does printing a string.
pub put_s-OnScreen : (str : List ℕ) (s : Screen) → OnScreen s → OnScreen (put_s s str)
unfolding put_s
put_s-OnScreen [] s on = on
put_s-OnScreen (c ∷ str) s on = put_s-OnScreen str (put_c s c) (put_c-OnScreen s c on)
