-- ===== src/Drivers.antt =====
-- The devices of src/kernel/interrupts/pic.c and src/kernel/keyboard/keyboard.c: the interrupt
-- controllers, the timer chip, the keyboard and the clock.
pub mod Ports
pub mod Pic
pub mod Chip
pub mod Masks
pub mod Keyboard
pub mod Line
pub mod Clock
mod Examples
