-- ===== src/Sched/Pick.antt =====
-- `schedule` is round robin: it takes the first task after the current one, around the list, that
-- can run.
use toy_kernel.Common.{
  ℕ, zero, suc, ◌+◌, ◌-◌, ◌≤◌, ◌<◌, ◌≡◌, ◌≢◌, inl, inr, true, false, Option, none, some, List,
  arith, ltb, ◌==◌, Bool-cases, length, take,
}
use toy_kernel.Sched.Task.{Task, runnable_at}
use toy_kernel.Sched.Switch.{next_task, pick}

-- Nobody in a range of positions can run.
abbrev pub NoneRun : List Task → ℕ → ℕ → Type 0
NoneRun ts from to = (m : ℕ) → from ≤ m → m < to → runnable_at ts m ≡ false

-- The first task that can run after the position `start`, around the list and `start` last.
pub data Next (ts : List Task) (start : ℕ) : Option ℕ → Type 0 where
  later :
      {n : ℕ}
      → start < n
      → n < length ts
      → runnable_at ts n ≡ true
      → NoneRun ts (start + 1) n
      → Next ts start (some n)
  wrapped :
      {n : ℕ}
      → n ≤ start
      → runnable_at ts n ≡ true
      → NoneRun ts (start + 1) (length ts)
      → NoneRun ts 0 n
      → Next ts start (some n)
  nobody : NoneRun ts 0 (length ts) → Next ts start none

module _ (ts : List Task) (start : ℕ) (valid : start < length ts) where
  -- One more task that cannot run.
  one_more :
      (from to : ℕ) → NoneRun ts from to → runnable_at ts to ≡ false → NoneRun ts from (to + 1)
  one_more from to none_run here m l h = elim (Bool-cases (m == to)) [
    | inl e ↦ let q : m ≡ to = ground arith in rw q here
    | inr e ↦ none_run m l (ground arith)
  ]

  join : NoneRun ts (start + 1) (length ts) → NoneRun ts 0 (start + 1) → NoneRun ts 0 (length ts)
  join above below m l h = elim (Bool-cases (ltb m (start + 1))) [
    | inl e ↦ below m l (ground arith)
    | inr e ↦ above m (ground arith) h
  ]

  -- A step of the walk to the position `n`: take it, give up, or go on.
  step :
      (left c n : ℕ)
      → next_task ts c ≡ n
      → (runnable_at ts n ≡ true → Next ts start (some n))
      → (runnable_at ts n ≡ false → n ≡ start → Next ts start none)
      → (runnable_at ts n ≡ false → n ≢ start → Next ts start (pick ts start left n))
      → Next ts start (pick ts start (suc left) c)
  unfolding pick
  step left c n at take stop go = elim (Bool-cases (runnable_at ts n)) [
    | inl can ↦ rw (at, can) (take can)
    | inr cannot ↦ elim (Bool-cases (n == start)) [
      | inl e ↦ rw (at, cannot, e) (stop cannot (ground arith))
      | inr e ↦ rw (at, cannot, e) (go cannot (ground arith))
    ]
  ]

  next_inside : (c : ℕ) → c + 1 < length ts → next_task ts c ≡ c + 1
  unfolding next_task
  next_inside c h = let inside : ltb (c + 1) (length ts) ≡ true = ground arith in rw inside

  next_end : (c : ℕ) → c + 1 ≡ length ts → next_task ts c ≡ 0
  unfolding next_task
  next_end c h = let outside : ltb (c + 1) (length ts) ≡ false = ground arith in rw outside

  -- The walk after it has gone past the end of the list.
  low_walk :
      (left c : ℕ)
      → left ≡ start - c
      → c < start
      → NoneRun ts (start + 1) (length ts)
      → NoneRun ts 0 (c + 1)
      → Next ts start (pick ts start left c)
  low_walk zero c e lt above below = absurd (omega arith)
  low_walk (suc left) c e lt above below =
      step left c (c + 1) (next_inside c (omega arith))
        (λ can. wrapped (omega arith) can above below)
        (λ cannot q. nobody (join above (rw q at (one_more 0 (c + 1) below cannot))))
        (λ cannot ne.
          low_walk left (c + 1) (omega arith) (omega arith) above (one_more 0 (c + 1) below cannot))

  high_walk :
      (left c : ℕ)
      → left ≡ length ts - c + start
      → start ≤ c
      → c < length ts
      → NoneRun ts (start + 1) (c + 1)
      → Next ts start (pick ts start left c)
  high_walk zero c e le lt above = absurd (omega arith)
  high_walk (suc left) c e le lt above = elim (Bool-cases (ltb (c + 1) (length ts))) [
    | inl more ↦
        step left c (c + 1) (next_inside c (ground arith))
          (λ can. later (omega arith) (ground arith) can above) (λ cannot q. absurd (omega arith))
          (λ cannot ne.
            high_walk left (c + 1) (omega arith) (omega arith) (ground arith)
              (one_more (start + 1) (c + 1) above cannot))
    | inr done ↦
        let q : c + 1 ≡ length ts = ground arith in
        let all = rw q at above in
        let first : (cannot : runnable_at ts 0 ≡ false) → NoneRun ts 0 1 =
          λ cannot. one_more 0 0 (λ m l h. absurd (omega arith)) cannot in
        step left c 0 (next_end c q)
          (λ can. wrapped (omega arith) can all (λ m l h. absurd (omega arith)))
          (λ cannot z. nobody (join all (λ m l h. first cannot m (omega arith) (omega arith))))
          (λ cannot ne. low_walk left 0 (omega arith) (omega arith) all (first cannot))
  ]

  -- From a current task of the list, as many rounds as there are tasks find the first task after it,
  -- around the list, that can run, or find that no task can.
  pub pick-Next : Next ts start (pick ts start (length ts) start)
  pick-Next =
      high_walk (length ts) start (omega arith) (omega arith) valid (λ m l h. absurd (omega arith))
