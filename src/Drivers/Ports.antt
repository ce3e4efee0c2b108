-- ===== src/Drivers/Ports.antt =====
-- Port input and output, src/kernel/interrupts/io.c. The writes are kept in order, the latest first.
-- A port gives back the byte last written to it, as the data port of an interrupt controller gives
-- back its mask while the controller is not in its initialisation; the code reads it only then. What
-- the writes of an initialisation do is said over the log of the writes.
use toy_kernel.Common.{ℕ, List, ◌∷◌, ◌==◌, if◌then◌else◌}

pub record Ports : Type 0 where
  pub value : ℕ → ℕ
  pub log : List (ℕ × ℕ)

unfoldable pub outb : Ports → ℕ → ℕ → Ports
outb s port v = record { value = λ p. if p == port then v else s.value p; log = (port, v) ∷ s.log }

unfoldable pub inb : Ports → ℕ → ℕ
inb s port = s.value port

unfoldable pub io_wait : Ports → Ports
unfolding outb
io_wait s = outb s 0x80 0
