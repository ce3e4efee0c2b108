-- ===== src/Start/First.antt =====
-- Which task the start of the kernel switches to.
use toy_kernel.Common.{
  ℕ, ◌+◌, ◌≡◌, refl, sym, ap, ◌∙◌, Option, none, some, List, [], ◌∷◌, ◌++◌, u16, length, get_elem?,
}
use mathlib.Core.Path.{subst}
use Prim.{tt}
use toy_kernel.Boot.{BootModule, BootParams}
use toy_kernel.Elf.{
  ElfStatus, elf_ok, elf_err_magic, elf_err_class, elf_err_type, elf_err_no_load, elf_err_oom,
  elf_load,
}
use toy_kernel.Heap.{Heap}
use toy_kernel.Screen.{Screen, put_s}
use toy_kernel.Sched.Task.{
  Task, Kernel, task_ready, task_running, task_size, stack_size, runnable_at, update_task,
}
use toy_kernel.Sched.Switch.{Scheduled, switched, schedule, pause, run}
use toy_kernel.Sched.Create.{
  Symbols, syscall_malloc, new_task, setup_stack, init_task, create_user_task_from_elf,
}
use toy_kernel.Start.{no_module, start_tasks}

abbrev pub fresh : Task → Task
fresh a = record a { state = task_ready }

-- A kernel with these tasks, the first of which is current.
abbrev pub begun : Kernel → List Task → Kernel
begun k ts = record k { tasks = ts; current_task = 0 }

-- What tells the tasks apart: whether it is a user's, where it enters the user's program, and the
-- word of its stack that holds the function that it starts in.
abbrev pub View : Type 0
View = ℕ × ℕ × Option ℕ

abbrev pub view : Task → View
view a = (a.is_user, a.user_eip, get_elem? a.stack 6)

-- There are `n` tasks, and the last of them runs and looks like `v`.
abbrev pub RunsAs : ℕ × View → Scheduled → Type 0
RunsAs (n, v) r =
    (t : Kernel) × (a : Task) × (r ≡ switched t)
    × (length t.tasks ≡ n)
    × (t.current_task + 1 ≡ n)
    × (get_elem? t.tasks t.current_task ≡ some a)
    × (a.state ≡ task_running)
    × (view a ≡ v)

one_task : (k : Kernel) (a : Task) → RunsAs (1, view a) (schedule (begun k (fresh a ∷ [])))
unfolding schedule pause run update_task runnable_at
one_task k a = (_, _, refl, refl, refl, refl, refl, refl)

two_tasks :
    (k : Kernel) (a b : Task) → RunsAs (2, view b) (schedule (begun k (fresh a ∷ fresh b ∷ [])))
unfolding schedule pause run update_task runnable_at
two_tasks k a b = (_, _, refl, refl, refl, refl, refl, refl)

-- The tasks after `init_task`, and after the user's program.
abbrev pub OneTask : View → Kernel → Type 0
OneTask v t =
    (a : Task) × (a.state ≡ task_ready) × (t.tasks ≡ a ∷ []) × (t.current_task ≡ 0) × (view a ≡ v)

abbrev pub TwoTasks : View → Kernel → Type 0
TwoTasks v t =
    (a : Task) × (b : Task) × (a.state ≡ task_ready)
    × (b.state ≡ task_ready)
    × (t.tasks ≡ a ∷ b ∷ [])
    × (t.current_task ≡ 0)
    × (view b ≡ v)

at_begun :
    (e : ℕ × View) (t : Kernel) (ts : List Task)
    → t.tasks ≡ ts
    → t.current_task ≡ 0
    → RunsAs e (schedule (begun t ts))
    → RunsAs e (schedule t)
at_begun e t ts p q r =
    subst (λ u. RunsAs e (schedule u)) (λ i. record t { tasks = sym p i; current_task = sym q i }) r

fresh_lem : (a : Task) → a.state ≡ task_ready → fresh a ≡ a
fresh_lem a e = λ i. record a { state = sym e i }

OneTask-RunsAs : (v : View) (t : Kernel) → OneTask v t → RunsAs (1, v) (schedule t)
OneTask-RunsAs v t (a, ready, tasks, current, looks) =
    at_begun (1, v) t (fresh a ∷ []) (tasks ∙ ap (λ x. x ∷ []) (sym (fresh_lem a ready))) current
      (subst (λ w. RunsAs (1, w) (schedule (begun t (fresh a ∷ [])))) looks (one_task t a))

TwoTasks-RunsAs : (v : View) (t : Kernel) → TwoTasks v t → RunsAs (2, v) (schedule t)
TwoTasks-RunsAs v t (a, b, ready_a, ready_b, tasks, current, looks) =
    at_begun (2, v) t (fresh a ∷ fresh b ∷ [])
      (tasks
        ∙ ap (λ x. x ∷ b ∷ []) (sym (fresh_lem a ready_a))
        ∙ ap (λ x. fresh a ∷ x ∷ []) (sym (fresh_lem b ready_b)))
      current
      (subst (λ w. RunsAs (2, w) (schedule (begun t (fresh a ∷ fresh b ∷ [])))) looks
        (two_tasks t a b))

-- The idle task, and the task of a program that is entered at `entry`.
abbrev pub idle_view : Symbols → View
idle_view y = (0, 0, some y.idle_task)

abbrev pub program_view : Symbols → ℕ → View
program_view y entry = (1, entry, some y.usermode_trampoline)

-- How many tasks there should be and which should run, by the result of the loader.
unfoldable pub by_load : Symbols → ElfStatus → (entry : ℕ) → ℕ × View
by_load y elf_ok entry = (2, program_view y entry)
by_load y elf_err_magic entry = (1, idle_view y)
by_load y elf_err_class entry = (1, idle_view y)
by_load y elf_err_type entry = (1, idle_view y)
by_load y elf_err_no_load entry = (1, idle_view y)
by_load y elf_err_oom entry = (1, idle_view y)

-- The same by the modules that the boot loader has loaded, of which the first is the program.
unfoldable pub first_to_run : Symbols → Kernel → List BootModule → ℕ × View
unfolding by_load
first_to_run y k [] = (1, idle_view y)
first_to_run y k (m ∷ _) =
    let (status, entry, _) = elf_load k.heap.vmm m.base 0 in by_load y status entry

unfoldable OnSome : {A : Type 0} → (A → Type 0) → Option A → Type 0
OnSome P none = Unit
OnSome P (some x) = P x

some-OnSome : {A : Type 0} (P : A → Type 0) (x : A) → P x → OnSome P (some x)
unfolding OnSome
some-OnSome P x p = p

OnSome-some : {A : Type 0} (P : A → Type 0) (x : A) → OnSome P (some x) → P x
unfolding OnSome
OnSome-some P x p = p

after_some :
    {A B : Type 0} (P : B → Type 0) (o : Option A) (f : A → B)
    → ((x : A) → P (f x))
    → OnSome P (elim o as (λ _. Option B) [ none ↦ none | some x ↦ some (f x) ])
unfolding OnSome
after_some P none f h = tt
after_some P (some x) f h = h x

init_task-OneTask : (y : Symbols) (k : Kernel) → OnSome (OneTask (idle_view y)) (init_task y k)
unfolding init_task new_task setup_stack
init_task-OneTask y k =
    after_some (OneTask (idle_view y)) (syscall_malloc k.heap (task_size + stack_size)) _
      (λ x. (_, refl, refl, refl, refl))

abbrev RunsAfter : ℕ × View → ℕ × Kernel → Type 0
RunsAfter e x = RunsAs e (schedule x.1)

by_status :
    (y : Symbols) (status : ElfStatus) (entry : ℕ) (loaded refused : Option (ℕ × Kernel))
    → OnSome (RunsAfter (2, program_view y entry)) loaded
    → OnSome (RunsAfter (1, idle_view y)) refused
    → OnSome
        (RunsAfter (by_load y status entry))
        (elim status as (λ _. Option (ℕ × Kernel)) [ elf_ok ↦ loaded | _ ↦ refused ])
unfolding by_load
by_status y elf_ok entry loaded refused a b = a
by_status y elf_err_magic entry loaded refused a b = b
by_status y elf_err_class entry loaded refused a b = b
by_status y elf_err_type entry loaded refused a b = b
by_status y elf_err_no_load entry loaded refused a b = b
by_status y elf_err_oom entry loaded refused a b = b

kept-RunsAs :
    (v : View) (k : Kernel) (heap : Heap)
    → OneTask v k
    → RunsAs (1, v) (schedule (record k { heap = heap }))
kept-RunsAs v k heap one = OneTask-RunsAs v (record k { heap = heap }) one

added-RunsAs :
    (v : View) (k : Kernel) (heap : Heap) (next : ℕ) (b : Task)
    → OneTask v k
    → b.state ≡ task_ready
    → RunsAs
        (2, view b)
        (schedule (record k { heap = heap; tasks = k.tasks ++ b ∷ []; next_task_id = next }))
added-RunsAs v k heap next b (a, ready, tasks, current, looks) made =
    TwoTasks-RunsAs (view b)
      (record k { heap = heap; tasks = k.tasks ++ b ∷ []; next_task_id = next })
      (a, b, ready, made, ap (λ ts. ts ++ b ∷ []) tasks, current, refl)

create-RunsAs :
    (y : Symbols) (k : Kernel) (image : ℕ)
    → OneTask (idle_view y) k
    → OnSome
        (RunsAfter (by_load y (elf_load k.heap.vmm image 0).0 (elf_load k.heap.vmm image 0).1))
        (create_user_task_from_elf y k image)
unfolding create_user_task_from_elf new_task setup_stack
create-RunsAs y k image one =
    let load = elf_load k.heap.vmm image 0 in
    by_status y load.0 load.1 _ _
      (after_some (RunsAfter (2, program_view y load.1)) _ _
        (λ x. added-RunsAs (idle_view y) k x.1 (u16 (k.next_task_id + 1)) _ one refl))
      (some-OnSome (RunsAfter (1, idle_view y)) _
        (kept-RunsAs (idle_view y) k (record (k.heap) { vmm = load.2 }) one))

-- Where the allocations for the user's program, if there is one, return.
abbrev pub Answers : Symbols → Kernel → List BootModule → Type 0
Answers y k [] = Unit
Answers y k (m ∷ _) = (x : ℕ × Kernel) × (create_user_task_from_elf y k m.base ≡ some x)

modules-RunsAs :
    (y : Symbols) (k : Kernel) (screen : Screen) (modules : List BootModule)
    → OneTask (idle_view y) k
    → Answers y k modules
    → (r : Scheduled) × (shown : Screen) × ((elim modules as (λ _. Option (Scheduled × Screen)) [
      | [] ↦ some (schedule k, put_s screen no_module)
      | first ∷ _ ↦
          elim (create_user_task_from_elf y k first.base) as (λ _. Option (Scheduled × Screen)) [
            | none ↦ none
            | some x ↦ some (schedule x.1, screen)
          ]
    ])
        ≡ some (r, shown))
      × RunsAs (first_to_run y k modules) r
unfolding first_to_run
modules-RunsAs y k screen [] one answers = (_, _, refl, OneTask-RunsAs (idle_view y) k one)
modules-RunsAs y k screen (m ∷ rest) one (x, made) =
    let load = elf_load k.heap.vmm m.base 0 in
    let after = RunsAfter (by_load y load.0 load.1) in
    let runs : after x =
      OnSome-some after x (subst (OnSome after) made (create-RunsAs y k m.base one)) in
    rw made (_, _, refl, runs)

-- If the allocations return, then the start of the kernel goes through and does not halt. Where the
-- boot loader has loaded a program and `elf_load` accepts it, there are then two tasks, and a user's
-- task runs that starts in `usermode_trampoline` and enters the program at the address that
-- `elf_load` gives. Otherwise there is one task, the one of the kernel that starts in `idle_task`,
-- and it runs.
pub start_tasks-RunsAs :
    (y : Symbols) (boot_params : BootParams) (kernel k : Kernel) (screen : Screen)
    → init_task y kernel ≡ some k
    → Answers y k boot_params.modules
    → (r : Scheduled) × (shown : Screen) × (start_tasks y boot_params kernel screen
        ≡ some (r, shown))
      × RunsAs (first_to_run y k boot_params.modules) r
unfolding start_tasks
start_tasks-RunsAs y boot_params kernel k screen made answers =
    let one : OneTask (idle_view y) k =
      OnSome-some (OneTask (idle_view y)) k
        (subst (OnSome (OneTask (idle_view y))) made (init_task-OneTask y kernel)) in
    rw (start_tasks, made) (modules-RunsAs y k screen boot_params.modules one answers)
