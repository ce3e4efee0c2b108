-- ===== src/Sched/Wakes.antt =====
-- A sleeping task under the interrupts of the timer: it can run again in time.
use toy_kernel.Common.{
  ℕ, zero, suc, ◌+◌, ◌*◌, ◌^◌, ◌≤◌, ◌<◌, ◌≡◌, refl, inl, inr, true, ◌&&◌, List, [], ◌∷◌, arith, leb,
  ◌==◌, leb→le, Bool-cases, Option-cases, u32, length,
}
use toy_kernel.Sched.Task.{Task, Kernel, task_blocked, runnable, runnable_at, update_task}
use toy_kernel.Sched.Switch.{pick, pause, run, schedule, wake, tick, slice_of, timer_irq0_handler}
use toy_kernel.Sched.Waits.{reached, After, Waits, tick-Waits, timer_irq0_handler-Waits}
use toy_kernel.Sched.Sleep.{blocked-stuck, wake_early, timer_time}

-- `n` interrupts of the timer, one behind the other.
abbrev pub timer_irqs : ℕ → Kernel → Kernel
timer_irqs zero k = k
timer_irqs (suc n) k = timer_irqs n (reached (timer_irq0_handler k))

update-runnable :
    (ts : List Task) (n i : ℕ) (f : Task → Task)
    → ((t : Task) → runnable t ≡ true → runnable (f t) ≡ true)
    → runnable_at ts i ≡ true
    → runnable_at (update_task ts n f) i ≡ true
unfolding runnable_at update_task
update-runnable [] n i f keeps can = can
update-runnable (t ∷ ts) zero zero f keeps can = keeps t can
update-runnable (t ∷ ts) zero (suc i) f keeps can = can
update-runnable (t ∷ ts) (suc n) zero f keeps can = can
update-runnable (t ∷ ts) (suc n) (suc i) f keeps can = update-runnable ts n i f keeps can

pause-runnable : (t : Task) → runnable t ≡ true → runnable (pause t) ≡ true
unfolding runnable pause
pause-runnable t can = ground (arith, can)

run-runnable : (t : Task) → runnable t ≡ true → runnable (run t) ≡ true
unfolding runnable run
run-runnable t can = refl

-- `schedule` keeps every task that can run able to run.
schedule-runnable :
    (k : Kernel) (i : ℕ)
    → runnable_at k.tasks i ≡ true
    → After (λ t. runnable_at t.tasks i ≡ true) (schedule k)
unfolding schedule
schedule-runnable k i can =
    let ts = update_task k.tasks k.current_task pause in
    let paused = update-runnable k.tasks k.current_task i pause pause-runnable can in
    elim (Option-cases (pick ts k.current_task (length ts) k.current_task)) [
      | inl e ↦ rw (schedule, e) paused
      | inr (n, e) ↦ rw (schedule, e) (update-runnable ts n i run run-runnable paused)
    ]

slice-runnable :
    (t : Task) → runnable t ≡ true → runnable (record t { time_slice = t.priority }) ≡ true
unfolding runnable
slice-runnable t can = can

-- The end of the timer's handler keeps it as well.
timer-runnable :
    (k : Kernel) (i : ℕ)
    → runnable_at (tick k).tasks i ≡ true
    → After (λ t. runnable_at t.tasks i ≡ true) (timer_irq0_handler k)
unfolding timer_irq0_handler
timer-runnable k i can = elim (Bool-cases (slice_of (tick k).tasks (tick k).current_task == 0)) [
  | inl e ↦ rw e (
      schedule-runnable _ i
        (update-runnable (tick k).tasks (tick k).current_task i _ slice-runnable can))
  | inr e ↦ rw e can
]

woken-runnable :
    (now : ℕ) (x : Task) → x.state ≡ task_blocked → x.wake_tick ≤ now → runnable (wake now x) ≡ true
unfolding runnable wake
woken-runnable now x blocked due =
    let now_due : (x.state == task_blocked && leb x.wake_tick now) ≡ true = ground arith in
    simp now_due refl

Waits-runnable :
    (k : Kernel) (i : ℕ) (x : Task) → Waits k i x → runnable x ≡ true → runnable_at k.tasks i ≡ true
unfolding runnable_at
Waits-runnable k i x w can = rw (runnable_at, w.here) can

-- A sleeping task whose time comes before the timer's counter wraps can run again after at most as
-- many interrupts of the timer, of 10 ms each, as its time is away.
pub timer_irqs-runnable :
    (n : ℕ) (k : Kernel) (i : ℕ) (x : Task)
    → Waits k i x
    → x.state ≡ task_blocked
    → k.kernel_timer_ms < x.wake_tick
    → x.wake_tick ≤ k.kernel_timer_ms + 10 * n
    → x.wake_tick + 10 ≤ 2 ^ 32
    → (j : ℕ) × (j ≤ n) × (runnable_at (timer_irqs j k).tasks i ≡ true)
timer_irqs-runnable zero k i x w blocked early near far = absurd (omega arith)
timer_irqs-runnable (suc n) k i x w blocked early near far =
    let now = u32 (k.kernel_timer_ms + 10) in
    let exact : now ≡ k.kernel_timer_ms + 10 = ground arith in
    elim (Bool-cases (leb x.wake_tick now)) [
      | inl due ↦ (
        1,
        omega arith,
        timer-runnable k i (
            Waits-runnable (tick k) i (wake now x) (tick-Waits k i x w)
              (woken-runnable now x blocked (leb→le x.wake_tick now due))),
      )
      | inr later ↦
          let asleep : now < x.wake_tick = ground arith in
          let next = reached (timer_irq0_handler k) in
          let time : next.kernel_timer_ms ≡ now = timer_time k in
          let (j, most, can) =
            timer_irqs-runnable n next i x
              (timer_irq0_handler-Waits k i x w (blocked-stuck x blocked) (wake_early now x asleep))
              blocked (omega arith) (omega arith) far in
          (suc j, omega arith, can)
    ]
