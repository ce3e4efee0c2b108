-- ===== src/Sched/Sleep.antt =====
-- Sleeping and finished tasks, over the steps that the timer and the system calls make.
use toy_kernel.Common.{
  ℕ, ◌+◌, ◌<◌, ◌≡◌, refl, inl, inr, true, false, ◌&&◌, arith, leb, ◌==◌, Bool-cases, Option-cases,
  u32, length,
}
use mathlib.Core.Path.{subst}
use toy_kernel.Sched.Task.{
  Task, Kernel, task_completed, task_blocked, runnable, runnable_at, update_task,
}
use toy_kernel.Sched.Switch.{
  pick, pause, run, schedule, wake, tick, slice_of, timer_irq0_handler, syscall_sleep, syscall_exit,
  resume,
}
use toy_kernel.Sched.Waits.{
  reached, After, Waits, update-Waits, tick_time, timer_irq0_handler-Waits, syscall_sleep-Waits,
  syscall_exit-Waits,
}

-- One step of the kernel: an interrupt of the timer, a system call of the current task, or the end of
-- a halt. The timer also interrupts a halt.
pub data Step (k : Kernel) : Kernel → Type 0 where
  by_timer : {t : Kernel} → reached (timer_irq0_handler k) ≡ t → Step k t
  by_sleep : {t : Kernel} (ms : ℕ) → reached (syscall_sleep k ms) ≡ t → Step k t
  by_exit : {t : Kernel} → reached (syscall_exit k) ≡ t → Step k t
  by_resume : {t : Kernel} → runnable_at k.tasks k.current_task ≡ true → resume k ≡ t → Step k t

pub blocked-stuck : (x : Task) → x.state ≡ task_blocked → runnable x ≡ false
unfolding runnable
blocked-stuck x e = ground (arith, e)

completed-stuck : (x : Task) → x.state ≡ task_completed → runnable x ≡ false
unfolding runnable
completed-stuck x e = ground (arith, e)

pub wake_early : (now : ℕ) (x : Task) → now < x.wake_tick → wake now x ≡ x
unfolding wake
wake_early now x h =
    let early : (x.state == task_blocked && leb x.wake_tick now) ≡ false = ground arith in
    simp early refl

wake_completed : (now : ℕ) (x : Task) → x.state ≡ task_completed → wake now x ≡ x
unfolding wake
wake_completed now x h =
    let other : (x.state == task_blocked && leb x.wake_tick now) ≡ false = ground arith in
    simp other refl

schedule_time : (k : Kernel) → After (λ t. t.kernel_timer_ms ≡ k.kernel_timer_ms) (schedule k)
unfolding schedule
schedule_time k =
    let ts = update_task k.tasks k.current_task pause in
    elim (Option-cases (pick ts k.current_task (length ts) k.current_task)) [
      | inl e ↦ rw (schedule, e) refl
      | inr (n, e) ↦ rw (schedule, e) refl
    ]

pub timer_time :
    (k : Kernel)
    → After (λ t. t.kernel_timer_ms ≡ u32 (k.kernel_timer_ms + 10)) (timer_irq0_handler k)
unfolding timer_irq0_handler
timer_time k = elim (Bool-cases (slice_of (tick k).tasks (tick k).current_task == 0)) [
  | inl e ↦ rw e (
      schedule_time (record (tick k) {
        tasks =
            update_task (tick k).tasks (tick k).current_task
              (λ task. record task { time_slice = task.priority });
      }))
  | inr e ↦ rw e (tick_time k)
]

resume-Waits : (k : Kernel) (i : ℕ) (x : Task) → Waits k i x → Waits (resume k) i x
unfolding resume
resume-Waits k i x w =
    let kept = update-Waits k i x run w in
    record { valid = kept.valid; not_current = kept.not_current; here = kept.here }

-- A step that does not wake a waiting task leaves it waiting.
Step-Waits :
    (k t : Kernel) (i : ℕ) (x : Task)
    → Waits k i x
    → runnable x ≡ false
    → wake t.kernel_timer_ms x ≡ x
    → Step k t
    → Waits t i x
Step-Waits k t i x w stuck asleep (by_timer e) =
    let now = subst (λ t. t.kernel_timer_ms ≡ u32 (k.kernel_timer_ms + 10)) e (timer_time k) in
    subst (λ t. Waits t i x) e (timer_irq0_handler-Waits k i x w stuck (rw now at asleep))
Step-Waits k t i x w stuck asleep (by_sleep ms e) =
    subst (λ t. Waits t i x) e (syscall_sleep-Waits k i x ms w stuck)
Step-Waits k t i x w stuck asleep (by_exit e) =
    subst (λ t. Waits t i x) e (syscall_exit-Waits k i x w stuck)
Step-Waits k t i x w stuck asleep (by_resume can e) =
    subst (λ t. Waits t i x) e (resume-Waits k i x w)

-- Steps after each of which the state has the property `P`.
pub data Steps (P : Kernel → Type 0) : Kernel → Kernel → Type 0 where
  done : {k : Kernel} → Steps P k k
  more : {k t u : Kernel} → Step k t → P t → Steps P t u → Steps P k u

-- A task that sleeps is not woken, nor made current, by any steps of the timer, the system calls and
-- the ends of halts, after each of which the timer's counter is below its wake-up time.
pub sleeping-Waits :
    (i : ℕ) (x : Task) (k u : Kernel)
    → Waits k i x
    → x.state ≡ task_blocked
    → Steps (λ t. t.kernel_timer_ms < x.wake_tick) k u
    → Waits u i x
sleeping-Waits i x k u w blocked done = w
sleeping-Waits i x k u w blocked (more step before rest) =
    sleeping-Waits i x _ u
      (Step-Waits k _ i x w (blocked-stuck x blocked) (wake_early _ x before) step) blocked rest

-- A task that has exited, and is no longer current, stays as it is under any steps of the timer,
-- the system calls and the ends of halts, and never becomes current again.
pub completed-Waits :
    (i : ℕ) (x : Task) (k u : Kernel)
    → Waits k i x
    → x.state ≡ task_completed
    → Steps (λ _. Unit) k u
    → Waits u i x
completed-Waits i x k u w over done = w
completed-Waits i x k u w over (more step _ rest) =
    completed-Waits i x _ u
      (Step-Waits k _ i x w (completed-stuck x over) (wake_completed _ x over) step) over rest
