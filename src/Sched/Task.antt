-- ===== src/Sched/Task.antt =====
-- The data of src/kernel/scheduler/task.h. The tasks are a `List` in the order of their `next`
-- pointers, from the global `task` on, and `current_task` is a position in it: the code only ever
-- appends. The words that `setup_stack` pushes are kept with the task, from `esp` upward.
use toy_kernel.Common.{
  ℕ, zero, suc, ◌<◌, ◌≡◌, refl, sym, ap, ◌∙◌, ◌≢◌, ◌⊎◌, inl, inr, Bool, false, ◌&&◌, Option, none,
  some, List, [], ◌∷◌, arith, ◌==◌, ◌!=◌, if◌then◌else◌, Bool-cases, Option-cases, length,
  get_elem?,
}
use mathlib.Core.Path.{subst}
use toy_kernel.Heap.{Heap}

pub record Task : Type 0 where
  pub address : ℕ
  pub pid : ℕ
  pub state : ℕ
  pub is_user : ℕ
  pub esp : ℕ
  pub user_eip : ℕ
  pub user_esp : ℕ
  pub priority : ℕ
  pub time_slice : ℕ
  pub wake_tick : ℕ
  pub stack : List ℕ

abbrev pub task_ready : ℕ
task_ready = 1

abbrev pub task_running : ℕ
task_running = 2

abbrev pub task_paused : ℕ
task_paused = 3

abbrev pub task_completed : ℕ
task_completed = 4

abbrev pub task_blocked : ℕ
task_blocked = 6

abbrev pub low_task : ℕ
low_task = 5

abbrev pub medium_task : ℕ
medium_task = 15

abbrev pub critical_task : ℕ
critical_task = 60

-- `sizeof(Task)`
abbrev pub task_size : ℕ
task_size = 32

abbrev pub stack_size : ℕ
stack_size = 4096

-- The globals of the scheduler, beside the timer's counter and the stack field of the TSS.
pub record Kernel : Type 0 where
  pub heap : Heap
  pub tasks : List Task
  pub current_task : ℕ
  pub next_task_id : ℕ
  pub kernel_timer_ms : ℕ
  pub esp0 : ℕ

-- Neither completed nor blocked, as `schedule` tests it.
unfoldable pub runnable : Task → Bool
runnable t = t.state != task_completed && t.state != task_blocked

unfoldable pub runnable_at : List Task → ℕ → Bool
unfolding runnable
runnable_at ts n = elim (get_elem? ts n) [ none ↦ false | some t ↦ runnable t ]

-- `f` on the task at a position.
unfoldable pub update_task : List Task → ℕ → (Task → Task) → List Task
update_task [] n f = []
update_task (t ∷ ts) zero f = f t ∷ ts
update_task (t ∷ ts) (suc n) f = t ∷ update_task ts n f

pub length-update_task :
    (ts : List Task) (n : ℕ) (f : Task → Task) → length (update_task ts n f) ≡ length ts
unfolding update_task
length-update_task [] n f = refl
length-update_task (t ∷ ts) zero f = refl
length-update_task (t ∷ ts) (suc n) f = ap suc (length-update_task ts n f)

pub get-update_task :
    (ts : List Task) (n m : ℕ) (f : Task → Task)
    → get_elem? (update_task ts n f) m
      ≡ elim (get_elem? ts m) [ none ↦ none | some t ↦ some (if m == n then f t else t) ]
unfolding update_task
get-update_task [] n m f = refl
get-update_task (t ∷ ts) zero zero f = refl
get-update_task (t ∷ ts) zero (suc m) f = elim (Option-cases (get_elem? ts m)) [
  | inl e ↦ rw e
  | inr (x, e) ↦ let other : (suc m == 0) ≡ false = ground arith in rw (e, other)
]
get-update_task (t ∷ ts) (suc n) zero f =
    let other : (0 == suc n) ≡ false = ground arith in rw other
get-update_task (t ∷ ts) (suc n) (suc m) f =
    get-update_task ts n m f ∙ elim (Option-cases (get_elem? ts m)) [
      | inl e ↦ rw e
      | inr (x, e) ↦ let same : (suc m == suc n) ≡ (m == n) = ground arith in rw (e, same)
    ]

some-injective : {a b : Task} → some a ≡ some b → a ≡ b
some-injective {a} p = ap (λ (o : Option Task). elim o [ none ↦ a | some x ↦ x ]) p

-- The task at a position after an update comes from the task that was there.
pub from-update_task :
    (ts : List Task) (n m : ℕ) (f : Task → Task) (y : Task)
    → get_elem? (update_task ts n f) m ≡ some y
    → (x : Task) × (get_elem? ts m ≡ some x) × (y ≡ (if m == n then f x else x))
from-update_task ts n m f y h = go (get_elem? ts m) refl (sym (get-update_task ts n m f) ∙ h)
  where
    go :
        (o : Option Task)
        → get_elem? ts m ≡ o
        → (elim o [ none ↦ none | some t ↦ some (if m == n then f t else t) ]) ≡ some y
        → (x : Task) × (get_elem? ts m ≡ some x) × (y ≡ (if m == n then f x else x))
    go none e q = absurd (subst (λ (o : Option Task). elim o [ none ↦ Unit | some _ ↦ ⊥ ]) q tt)
    go (some x) e q = (x, e, sym (some-injective q))

pub get-inside : (ts : List Task) (n : ℕ) → n < length ts → (x : Task) × (get_elem? ts n ≡ some x)
get-inside [] n h = elim h [ ]
get-inside (t ∷ ts) zero h = (t, refl)
get-inside (t ∷ ts) (suc n) h = get-inside ts n (omega arith)

-- The same by cases: the task at the position that was updated, or one that is as before.
pub updated-cases :
    (ts : List Task) (n m : ℕ) (f : Task → Task) (y : Task)
    → get_elem? (update_task ts n f) m ≡ some y
    → (x : Task) × (get_elem? ts m ≡ some x) × (((m ≡ n) × (y ≡ f x)) ⊎ ((m ≢ n) × (y ≡ x)))
updated-cases ts n m f y h =
    let (x, here, made) = from-update_task ts n m f y h in
    (
      x,
      here,
      elim (Bool-cases (m == n)) [
        | inl e ↦ inl (ground arith, made ∙ simp e refl)
        | inr e ↦ inr (ground arith, made ∙ simp e refl)
      ],
    )
