-- ===== src/Sched/Running.antt =====
-- At most one task is running, and it is the current one.
use toy_kernel.Common.{
  ℕ, ◌<◌, ◌≡◌, refl, sym, ap, ◌∙◌, ◌≢◌, inl, inr, true, ◌&&◌, Option, none, some, List, arith, ◌==◌,
  ◌!=◌, Bool-cases, length, get_elem?,
}
use toy_kernel.Sched.Task.{
  Task, Kernel, task_running, task_completed, task_blocked, runnable, update_task,
  length-update_task, get-update_task, updated-cases, get-inside,
}
use toy_kernel.Sched.Switch.{Scheduled, switched, halted, pick, pause, run, schedule}
use toy_kernel.Sched.Pick.{Next, later, wrapped, pick-Next}

-- No task but the one at `n` is running.
abbrev pub OnlyRuns : List Task → ℕ → Type 0
OnlyRuns ts n = (m : ℕ) (t : Task) → get_elem? ts m ≡ some t → t.state ≡ task_running → m ≡ n

abbrev pub NobodyRuns : List Task → Type 0
NobodyRuns ts = (m : ℕ) (t : Task) → get_elem? ts m ≡ some t → t.state ≢ task_running

pub record IsScheduled (k : Kernel) : Type 0 where
  pub valid : k.current_task < length (k.tasks)
  pub only : OnlyRuns k.tasks k.current_task

-- What `schedule` may do from a state with the tasks `ts` and the current task `cur`: switch to the
-- first task that can run after `cur`, around the list, or halt when none can.
pub data Outcome (ts : List Task) (cur : ℕ) : Scheduled → Type 0 where
  runs :
      {t : Kernel}
      → IsScheduled t
      → (x : Task) → get_elem? (t.tasks) (t.current_task) ≡ some x
      → x.state ≡ task_running
      → length (t.tasks) ≡ length ts
      → Next ts cur (some (t.current_task))
      → Outcome ts cur (switched t)
  halts :
      {t : Kernel}
      → t.current_task ≡ cur
      → t.tasks ≡ ts
      → NobodyRuns ts
      → Next ts cur none
      → Outcome ts cur (halted t)

pause-not_running : (t : Task) → (pause t).state ≢ task_running
unfolding pause runnable
pause-not_running t = elim (Bool-cases (t.state != task_completed && t.state != task_blocked)) [
  | inl e ↦ simp e (λ q. omega (arith, q))
  | inr e ↦ simp e (λ q. ground arith)
]

-- After the current task is paused nobody runs.
pub paused-NobodyRuns :
    (ts : List Task) (n : ℕ) → OnlyRuns ts n → NobodyRuns (update_task ts n pause)
paused-NobodyRuns ts n only m t at running =
    let (x, here, made) = updated-cases ts n m pause t at in
    elim made [
      | inl (q, e) ↦ pause-not_running x (ap (λ (t : Task). t.state) (sym e) ∙ running)
      | inr (q, e) ↦ q (only m x here (ap (λ (t : Task). t.state) (sym e) ∙ running))
    ]

run-OnlyRuns : (ts : List Task) (n : ℕ) → NobodyRuns ts → OnlyRuns (update_task ts n run) n
run-OnlyRuns ts n none_run m t at running =
    let (x, here, made) = updated-cases ts n m run t at in
    elim made [
      | inl (q, e) ↦ q
      | inr (q, e) ↦ absurd (none_run m x here (ap (λ (t : Task). t.state) (sym e) ∙ running))
    ]

Next-lt : {ts : List Task} {cur n : ℕ} → cur < length ts → Next ts cur (some n) → n < length ts
Next-lt valid (later a b c d) = b
Next-lt valid (wrapped a b c d) = omega arith

run-state :
    (ts : List Task) (n : ℕ)
    → n < length ts
    → (x : Task) × (get_elem? (update_task ts n run) n ≡ some x) × (x.state ≡ task_running)
unfolding run
run-state ts n h =
    let (x, here) = get-inside ts n h in
    let same : (n == n) ≡ true = ground arith in
    (run x, get-update_task ts n n run ∙ rw (here, same), refl)

-- From a state where at most the current task is running, `schedule` pauses it if it can still run,
-- and then either switches to the first task around the list that can run, which becomes the only
-- running one, or halts because no task can run.
pub schedule-Outcome :
    (k : Kernel)
    → IsScheduled k
    → Outcome (update_task k.tasks k.current_task pause) k.current_task (schedule k)
unfolding schedule
schedule-Outcome k s = go (pick ts cur (length ts) cur) refl (pick-Next ts cur valid)
  where
    ts : List Task
    ts = update_task k.tasks k.current_task pause

    cur : ℕ
    cur = k.current_task

    valid : cur < length ts
    valid = omega (arith, length-update_task k.tasks cur pause, s.valid)

    go :
        (o : Option ℕ)
        → pick ts cur (length ts) cur ≡ o
        → Next ts cur o
        → Outcome ts cur (schedule k)
    go none e next = rw (schedule, e) (halts refl refl (paused-NobodyRuns k.tasks cur s.only) next)
    go (some n) e next =
        let lt = Next-lt valid next in
        let (x, here, state) = run-state ts n lt in
        rw (schedule, e)
          (runs
            (record {
              valid = omega (arith, length-update_task ts n run, lt);
              only = run-OnlyRuns ts n (paused-NobodyRuns k.tasks cur s.only);
            })
            x here state (length-update_task ts n run) next)
