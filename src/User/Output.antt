-- ===== src/User/Output.antt =====
-- The output of the user library, src/userland/lib/stdio.h, through the system calls of the kernel.
use toy_kernel.Common.{ℕ, ◌<◌, ◌≡◌, refl, Option, none, some, List, [], ◌∷◌, arith, u8}
use Prim.{tt}
use toy_kernel.Screen.{put_c, put_s}
use toy_kernel.Sched.Syscall.{
  System, returns, switches, halts, hangs, syscall_dispatcher, syscall_print,
}
use toy_kernel.Text.Formatter.{null_text}
use toy_kernel.User.{sys_putc, syscall1}

-- The loop of `print`: `none` where a system call does not come back at once.
unfoldable pub print_loop : (beyond : ℕ → ℕ) → List ℕ → System → Option System
unfolding sys_putc
print_loop beyond [] s = some s
print_loop beyond (c ∷ text) s = elim (sys_putc beyond c s) [
  | returns regs t ↦ print_loop beyond text t
  | switches regs t ↦ none
  | halts regs t ↦ none
  | hangs ↦ none
]

-- `none` is a null pointer.
abbrev pub text_of : Option (List ℕ) → List ℕ
text_of none = null_text
text_of (some text) = text

unfoldable pub print : (beyond : ℕ → ℕ) → Option (List ℕ) → System → Option System
unfolding print_loop
print beyond str s = print_loop beyond (text_of str) s

unfoldable pub println : (beyond : ℕ → ℕ) → Option (List ℕ) → System → Option System
unfolding print print_loop
println beyond str s = elim (print beyond str s) [
  | none ↦ none
  | some t ↦ print_loop beyond (0x0a ∷ []) t
]

abbrev pub Bytes : List ℕ → Type 0
Bytes [] = Unit
Bytes (c ∷ text) = (c < 256) × Bytes text

print_loop-put_s :
    (beyond : ℕ → ℕ) (text : List ℕ) (s : System)
    → Bytes text
    → print_loop beyond text s ≡ some (record s { screen = put_s s.screen text })
unfolding print_loop sys_putc syscall1 syscall_dispatcher syscall_print put_s
print_loop-put_s beyond [] s bytes = refl
print_loop-put_s beyond (c ∷ text) s bytes =
    let same : u8 (u8 c) ≡ c = omega (arith, bytes.0) in
    rw same (print_loop-put_s beyond text (record s { screen = put_c s.screen c }) bytes.1)

-- What a user program prints with `println` stands on the screen as the kernel's `put_s` writes it,
-- "(null)" for a null pointer, with a line feed behind it. All else is as before, and every system
-- call comes back.
pub println-put_s :
    (beyond : ℕ → ℕ) (str : Option (List ℕ)) (s : System)
    → Bytes (text_of str)
    → println beyond str s
      ≡ some (record s { screen = put_s (put_s s.screen (text_of str)) (0x0a ∷ []) })
unfolding println print
println-put_s beyond str s bytes =
    rw (println, print, print_loop-put_s beyond (text_of str) s bytes)
      (print_loop-put_s beyond (0x0a ∷ []) (record s { screen = put_s s.screen (text_of str) })
        (omega arith, tt))
