-- ===== src/Sched/Switch.antt =====
-- `schedule` of src/kernel/scheduler/task.c, and what calls it: the timer interrupt, and the system
-- calls that sleep and exit.
use toy_kernel.Common.{
  ℕ, zero, suc, ◌+◌, ◌-◌, ◌&&◌, Option, none, some, List, map, ltb, leb, ◌==◌, if◌then◌else◌, u32,
  length, get_elem?,
}
use toy_kernel.Sched.Task.{
  Task, Kernel, task_ready, task_running, task_paused, task_completed, task_blocked, task_size,
  stack_size, runnable, runnable_at, update_task,
}

-- `schedule` either switches to a task, or halts with interrupts on until its own task can run.
pub data Scheduled : Type 0 where
  switched : Kernel → Scheduled
  halted : Kernel → Scheduled

-- `current_task->next`, and the head after the last task.
unfoldable pub next_task : List Task → ℕ → ℕ
next_task ts c = if ltb (c + 1) (length ts) then c + 1 else 0

-- The walk from the task `c`, with `left` rounds to go; `none` is a full round with nobody to run.
unfoldable pub pick : List Task → (start left c : ℕ) → Option ℕ
pick ts start zero c = none
pick ts start (suc left) c =
    let n = next_task ts c in
    let rest = pick ts start left n in
    if runnable_at ts n then some n else if n == start then none else rest

-- `tss_set_kernel_stack` on the stack of a task.
unfoldable pub kernel_stack : List Task → ℕ → ℕ → ℕ
kernel_stack ts n old = elim (get_elem? ts n) [
  | none ↦ old
  | some t ↦ u32 (t.address + task_size + stack_size)
]

unfoldable pub pause : Task → Task
unfolding runnable
pause t = if runnable t then record t { state = task_paused } else t

unfoldable pub run : Task → Task
run t = record t { state = task_running }

unfoldable pub schedule : Kernel → Scheduled
unfolding pick next_task kernel_stack pause run update_task runnable_at
schedule k =
    let ts = update_task k.tasks k.current_task pause in
    elim (pick ts k.current_task (length ts) k.current_task) [
      | none ↦ halted (record k { tasks = ts })
      | some n ↦ switched (record k {
        tasks = update_task ts n run;
        current_task = n;
        esp0 = kernel_stack ts n k.esp0;
      })
    ]

-- The end of `schedule` after a halt, once its own task can run.
unfoldable pub resume : Kernel → Kernel
unfolding kernel_stack run update_task
resume k = record k {
  tasks = update_task k.tasks k.current_task run;
  esp0 = kernel_stack k.tasks k.current_task k.esp0;
}

-- A blocked task whose time has come.
unfoldable pub wake : ℕ → Task → Task
wake now t =
    if t.state == task_blocked && leb t.wake_tick now then record t { state = task_ready } else t

unfoldable pub tick_slice : Task → Task
tick_slice t = if ltb 0 t.time_slice then record t { time_slice = t.time_slice - 1 } else t

unfoldable pub slice_of : List Task → ℕ → ℕ
slice_of ts n = elim (get_elem? ts n) [ none ↦ 0 | some t ↦ t.time_slice ]

-- The part of `timer_irq0_handler` before the scheduler is called.
unfoldable pub tick : Kernel → Kernel
unfolding wake tick_slice update_task
tick k =
    let now = u32 (k.kernel_timer_ms + 10) in
    record k {
      kernel_timer_ms = now;
      tasks = update_task (map (wake now) k.tasks) k.current_task tick_slice;
    }

-- The acknowledgement of the interrupt is a port write. `switched` here also stands for going on
-- with the interrupted task.
unfoldable pub timer_irq0_handler : Kernel → Scheduled
unfolding tick slice_of schedule
timer_irq0_handler k =
    let t = tick k in
    if slice_of t.tasks t.current_task == 0
    then schedule (record t {
      tasks =
          update_task t.tasks t.current_task (λ task. record task { time_slice = task.priority });
    })
    else switched t

unfoldable pub syscall_sleep : Kernel → ℕ → Scheduled
unfolding schedule
syscall_sleep k ms =
    if ms == 0
    then switched k
    else schedule (record k {
      tasks =
          update_task k.tasks k.current_task (λ task. record task {
            wake_tick = u32 (k.kernel_timer_ms + ms);
            state = task_blocked;
          });
    })

unfoldable pub syscall_exit : Kernel → Scheduled
unfolding schedule
syscall_exit k = schedule (record k {
  tasks = update_task k.tasks k.current_task (λ task. record task { state = task_completed });
})
