-- ===== src/Sched/Examples.antt =====
-- Three tasks: one running, one asleep, one that has exited.
use toy_kernel.Common.{
  ℕ, ◌≤◌, zero, suc, ◌≡◌, refl, ap, true, Option, none, some, List, [], ◌∷◌, arith, get_elem?,
}
use toy_kernel.Pmm.Sample.{small_pmm}
use toy_kernel.Sched.Task.{
  runnable_at, Task, Kernel, task_running, task_blocked, task_completed, update_task,
}
use toy_kernel.Sched.Switch.{pick, pause, schedule, timer_irq0_handler, tick}
use toy_kernel.Sched.Pick.{Next, pick-Next}
use toy_kernel.Sched.Running.{Outcome, schedule-Outcome}
use toy_kernel.Sched.Waits.{Waits}
use toy_kernel.Sched.Wakes.{timer_irqs, timer_irqs-runnable}
use toy_kernel.Sched.Sleep.{Step, by_timer, done, more, sleeping-Waits, completed-Waits}

abbrev task_of : (state wake_tick : ℕ) → Task
task_of state wake_tick = record {
  address = 0xd1000000;
  pid = 0;
  state = state;
  is_user = 0;
  esp = 0;
  user_eip = 0;
  user_esp = 0;
  priority = 5;
  time_slice = 5;
  wake_tick = wake_tick;
  stack = [];
}

abbrev tasks : List Task
tasks = task_of task_running 0 ∷ task_of task_blocked 1000 ∷ task_of task_completed 0 ∷ []

abbrev kernel : Kernel
kernel = record {
  heap = record {
    vmm = record { pmm = small_pmm; current_page_directory = 0x2000; cr3 = 0x2000; paging = true };
    malloc_list = [];
    malloc_virt_address = 0xd1000000;
    malloc_phys_address = 0;
    total_malloc_pages = 0;
  };
  tasks = tasks;
  current_task = 0;
  next_task_id = 3;
  kernel_timer_ms = 100;
  esp0 = 0;
}

pick-Next_example : Next tasks 0 (pick tasks 0 3 0)
pick-Next_example = pick-Next tasks 0 (omega arith)

state_of : Option Task → ℕ
state_of none = 0
state_of (some t) = t.state

only_first : (m : ℕ) (t : Task) → get_elem? tasks m ≡ some t → t.state ≡ task_running → m ≡ 0
unfolding state_of
only_first zero t at running = refl
only_first (suc zero) t at running = absurd (omega (arith, running, ap state_of at))
only_first (suc (suc zero)) t at running = absurd (omega (arith, running, ap state_of at))
only_first (suc (suc (suc m))) t at running = absurd (omega (arith, running, ap state_of at))

schedule-Outcome_example : Outcome (update_task tasks 0 pause) 0 (schedule kernel)
schedule-Outcome_example =
    schedule-Outcome kernel (record { valid = omega arith; only = only_first })

sleeper : Waits kernel 1 (task_of task_blocked 1000)
sleeper = record { valid = omega arith; not_current = λ e. omega (arith, e); here = refl }

one_tick : Step kernel (tick kernel)
unfolding timer_irq0_handler
one_tick = by_timer refl

sleeping-Waits_example : Waits (tick kernel) 1 (task_of task_blocked 1000)
unfolding tick
sleeping-Waits_example =
    sleeping-Waits 1 (task_of task_blocked 1000) kernel (tick kernel) sleeper refl
      (more one_tick (omega arith) done)

finished : Waits kernel 2 (task_of task_completed 0)
finished = record { valid = omega arith; not_current = λ e. omega (arith, e); here = refl }

completed-Waits_example : Waits (tick kernel) 2 (task_of task_completed 0)
completed-Waits_example =
    completed-Waits 2 (task_of task_completed 0) kernel (tick kernel) finished refl
      (more one_tick tt done)

timer_irqs-runnable_example :
    (j : ℕ) × (j ≤ 90) × (runnable_at (timer_irqs j kernel).tasks 1 ≡ true)
timer_irqs-runnable_example =
    timer_irqs-runnable 90 kernel 1 (task_of task_blocked 1000) sleeper refl (omega arith)
      (omega arith) (omega arith)
