-- ===== src/Sched/Waits.antt =====
-- What a switch, the timer and the system calls of src/kernel/scheduler/task.c and
-- src/kernel/interrupts leave of a task that is waiting.
use toy_kernel.Common.{
  ℕ, zero, suc, ◌+◌, ◌<◌, ◌≡◌, refl, ap, ◌∙◌, ◌≢◌, inl, inr, true, false, Option, none, some, List,
  [], ◌∷◌, map, arith, ◌==◌, Bool-cases, u32, length, get_elem?,
}
use toy_kernel.Sched.Task.{
  Task, Kernel, runnable, runnable_at, update_task, length-update_task, get-update_task,
}
use toy_kernel.Sched.Switch.{
  Scheduled, switched, halted, pick, pause, run, schedule, wake, tick_slice, tick, slice_of,
  timer_irq0_handler, syscall_sleep, syscall_exit,
}
use toy_kernel.Sched.Pick.{Next, later, wrapped, pick-Next}

-- The state that a switch or a halt leaves.
abbrev pub reached : Scheduled → Kernel
reached (switched t) = t
reached (halted t) = t

abbrev pub After : (Kernel → Type 0) → Scheduled → Type 0
After P r = P (reached r)

-- The task at `i` is not current, and is `x`.
pub record Waits (k : Kernel) (i : ℕ) (x : Task) : Type 0 where
  pub valid : k.current_task < length (k.tasks)
  pub not_current : i ≢ k.current_task
  pub here : get_elem? (k.tasks) i ≡ some x

get-map :
    (f : Task → Task) (ts : List Task) (m : ℕ)
    → get_elem? (map f ts) m ≡ elim (get_elem? ts m) [ none ↦ none | some t ↦ some (f t) ]
get-map f [] m = refl
get-map f (t ∷ ts) zero = refl
get-map f (t ∷ ts) (suc m) = get-map f ts m

length-map : (f : Task → Task) (ts : List Task) → length (map f ts) ≡ length ts
length-map f [] = refl
length-map f (t ∷ ts) = ap suc (length-map f ts)

other-update_task :
    (ts : List Task) (n i : ℕ) (f : Task → Task) (x : Task)
    → i ≢ n
    → get_elem? ts i ≡ some x
    → get_elem? (update_task ts n f) i ≡ some x
other-update_task ts n i f x ne here =
    let other : (i == n) ≡ false = ground arith in get-update_task ts n i f ∙ rw (here, other)

-- An update of the current task leaves a waiting one alone.
pub update-Waits :
    (k : Kernel) (i : ℕ) (x : Task) (f : Task → Task)
    → Waits k i x
    → Waits (record k { tasks = update_task k.tasks k.current_task f }) i x
update-Waits k i x f w = record {
  valid = omega (arith, w.valid, length-update_task k.tasks k.current_task f);
  not_current = w.not_current;
  here = other-update_task k.tasks k.current_task i f x w.not_current w.here;
}

Next-runnable :
    {ts : List Task} {cur n : ℕ}
    → cur < length ts
    → Next ts cur (some n)
    → (n < length ts) × (runnable_at ts n ≡ true)
Next-runnable valid (later a b c d) = (b, c)
Next-runnable valid (wrapped a b c d) = (omega arith, b)

-- `schedule` leaves a task alone that is not current and cannot run.
pub schedule-Waits :
    (k : Kernel) (i : ℕ) (x : Task)
    → Waits k i x
    → runnable x ≡ false
    → After (λ t. Waits t i x) (schedule k)
unfolding runnable_at schedule
schedule-Waits k i x w stuck = go (pick ts cur (length ts) cur) refl (pick-Next ts cur paused.valid)
  where
    cur : ℕ
    cur = k.current_task

    ts : List Task
    ts = update_task k.tasks cur pause

    paused : Waits (record k { tasks = ts }) i x
    paused = update-Waits k i x pause w

    not_i : (n : ℕ) → runnable_at ts n ≡ true → i ≢ n
    not_i n can q =
        let found = rw (← q) at can in
        let found' = rw (runnable_at, paused.here) at found in ground arith

    go :
        (o : Option ℕ)
        → pick ts cur (length ts) cur ≡ o
        → Next ts cur o
        → After (λ t. Waits t i x) (schedule k)
    go none e next = rw (schedule, e) paused
    go (some n) e next =
        let (lt, can) = Next-runnable paused.valid next in
        rw (schedule, e)
          (record {
            valid = omega (arith, lt, length-update_task ts n run);
            not_current = not_i n can;
            here = other-update_task ts n i run x (not_i n can) paused.here;
          })

-- The current task gives up the processor, by sleeping or by exiting, while `i` waits.
pub leave-Waits :
    (k : Kernel) (i : ℕ) (x : Task) (f : Task → Task)
    → Waits k i x
    → runnable x ≡ false
    → After
        (λ t. Waits t i x)
        (schedule (record k { tasks = update_task k.tasks k.current_task f }))
leave-Waits k i x f w stuck =
    schedule-Waits (record k { tasks = update_task k.tasks k.current_task f }) i x
      (update-Waits k i x f w) stuck

pub syscall_exit-Waits :
    (k : Kernel) (i : ℕ) (x : Task)
    → Waits k i x
    → runnable x ≡ false
    → After (λ t. Waits t i x) (syscall_exit k)
unfolding syscall_exit
syscall_exit-Waits k i x w stuck = leave-Waits k i x _ w stuck

pub syscall_sleep-Waits :
    (k : Kernel) (i : ℕ) (x : Task) (ms : ℕ)
    → Waits k i x
    → runnable x ≡ false
    → After (λ t. Waits t i x) (syscall_sleep k ms)
unfolding syscall_sleep
syscall_sleep-Waits k i x ms w stuck = elim (Bool-cases (ms == 0)) [
  | inl e ↦ rw e w
  | inr e ↦ rw e (leave-Waits k i x _ w stuck)
]

pub tick-Waits :
    (k : Kernel) (i : ℕ) (x : Task)
    → Waits k i x
    → Waits (tick k) i (wake (u32 (k.kernel_timer_ms + 10)) x)
unfolding tick
tick-Waits k i x w =
    let now = u32 (k.kernel_timer_ms + 10) in
    update-Waits (record k { kernel_timer_ms = now; tasks = map (wake now) k.tasks }) i (wake now x)
      tick_slice
      (record {
        valid = omega (arith, w.valid, length-map (wake now) k.tasks);
        not_current = w.not_current;
        here = get-map (wake now) k.tasks i ∙ rw w.here;
      })

pub tick_time : (k : Kernel) → (tick k).kernel_timer_ms ≡ u32 (k.kernel_timer_ms + 10)
unfolding tick
tick_time k = refl

-- The timer, where the waiting task is not woken.
pub timer_irq0_handler-Waits :
    (k : Kernel) (i : ℕ) (x : Task)
    → Waits k i x
    → runnable x ≡ false
    → wake (u32 (k.kernel_timer_ms + 10)) x ≡ x
    → After (λ t. Waits t i x) (timer_irq0_handler k)
unfolding timer_irq0_handler
timer_irq0_handler-Waits k i x w stuck asleep =
    let ticked : Waits (tick k) i x = rw asleep at (tick-Waits k i x w) in
    elim (Bool-cases (slice_of (tick k).tasks (tick k).current_task == 0)) [
      | inl e ↦ rw e (leave-Waits (tick k) i x _ ticked stuck)
      | inr e ↦ rw e ticked
    ]
