-- ===== src/Sched.antt =====
-- The scheduler, src/kernel/scheduler/task.c, with the timer interrupt that drives it and the
-- system calls that go through it (src/kernel/interrupts/pic.c and syscall.c).
pub mod Task
pub mod Switch
pub mod Pick
pub mod Running
pub mod Create
pub mod Syscall
pub mod Waits
pub mod Sleep
pub mod Wakes
mod Examples
