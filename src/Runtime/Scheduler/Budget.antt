-- ===== src/Runtime/Scheduler/Budget.antt =====
-- `max_runs` of runtime/scheduler/scheduler.py, over any number of ticks.
use sagittarius_engine.Prelude.{
  ℕ, suc, ◌+◌, ◌-◌, ◌≤◌, ◌<◌, ◌≡◌, refl, sym, ap, ◌∙◌, subst, Bool, Bool-cases, inl, inr, true,
  false, not, ◌&&◌, Option, none, some, List, [], ◌∷◌, ◌++◌, keep, map, All, All-append, ltb→lt,
  if◌then◌else◌, arith, ◌==◌, nat_eq, ==_iff,
}
use sagittarius_engine.Runtime.Scheduler.{ScheduledJob, rescheduled, tick, ticks, under_limit}
use sagittarius_engine.Runtime.Scheduler.Due.{
  has_come, is_to_come, is_due, is_waiting, has_runs_left, tick_lem,
}

-- How often the identity stands in the list.
abbrev pub count : ℕ → List ℕ → ℕ
count i [] = 0
count i (j ∷ l) = (if j == i then 1 else 0) + count i l

-- The runs that the jobs with the identity have left of `n` each.
abbrev pub budget : ℕ → ℕ → List ScheduledJob → ℕ
budget n i [] = 0
budget n i (job ∷ jobs) = (if job.ident == i then n - job.runs else 0) + budget n i jobs

-- A job with the identity has `n` as its limit, and has not reached it.
abbrev pub IsLimited : ℕ → ℕ → ScheduledJob → Type 0
IsLimited n i job = job.ident ≡ i → (job.max_runs ≡ some n) × (job.runs < n)

budget-append :
    (n i : ℕ) (xs ys : List ScheduledJob) → budget n i (xs ++ ys) ≡ budget n i xs + budget n i ys
budget-append n i [] ys = omega arith
budget-append n i (x ∷ xs) ys = omega (arith, budget-append n i xs ys)

due_not_waiting :
    (now : ℕ) (job : ScheduledJob) → is_due now job ≡ true → is_waiting now job ≡ false
due_not_waiting now job d = by_time job.next_run job.is_cancelled d
  where
    by_time :
        (time : Option ℕ) (cancelled : Bool)
        → (not cancelled && has_come time now) ≡ true
        → (not cancelled && is_to_come time now) ≡ false
    by_time none true h = refl
    by_time none false h = refl
    by_time (some time) true h = refl
    by_time (some time) false h = ap not h

-- One job's share, by what the tick does with it; the lists are those of the jobs behind it.
spent_step :
    (n i now : ℕ) (job : ScheduledJob) (due waiting left : Bool)
    (dues waits lefts jobs : List ScheduledJob)
    → (due ≡ true → waiting ≡ false)
    → IsLimited n i job
    → count i (map (λ j. j.ident) dues)
        + (budget n i waits + budget n i (map (rescheduled now) lefts))
      ≤ budget n i jobs
    → count i (map (λ j. j.ident) (if due then job ∷ dues else dues))
        + (budget n i (if waiting then job ∷ waits else waits)
            + budget n i (
                map
                  (rescheduled now)
                  (if due then (if left then job ∷ lefts else lefts) else lefts)))
      ≤ budget n i (job ∷ jobs)
spent_step n i now job due waiting left dues waits lefts jobs x l h =
    ground (arith, h, l, x, ==_iff job.ident i)

keep_if :
    (test : ScheduledJob → Bool) (b : Bool) (job : ScheduledJob) (jobs : List ScheduledJob)
    → keep test (if b then job ∷ jobs else jobs)
      ≡ (if b then (if test job then job ∷ keep test jobs else keep test jobs) else keep test jobs)
keep_if test true job jobs = refl
keep_if test false job jobs = refl

spent :
    (n i now : ℕ) (jobs : List ScheduledJob)
    → All (IsLimited n i) jobs
    → count i (map (λ j. j.ident) (keep (is_due now) jobs))
        + (budget n i (keep (is_waiting now) jobs)
            + budget n i (map (rescheduled now) (keep has_runs_left (keep (is_due now) jobs))))
      ≤ budget n i jobs
spent n i now [] l = omega arith
spent n i now (job ∷ jobs) l =
    let dues = keep (is_due now) jobs in
    let waits = keep (is_waiting now) jobs in
    subst
      (λ r.
        count i (map (λ j. j.ident) (keep (is_due now) (job ∷ jobs)))
          + (budget n i (keep (is_waiting now) (job ∷ jobs)) + budget n i (map (rescheduled now) r))
        ≤ budget n i (job ∷ jobs))
      (sym (keep_if has_runs_left (is_due now job) job dues))
      (spent_step n i now job (is_due now job) (is_waiting now job) (has_runs_left job) dues waits
        (keep has_runs_left dues) jobs (due_not_waiting now job) l.0 (spent n i now jobs l.1))

All-keep :
    (P : ScheduledJob → Type 0) (test : ScheduledJob → Bool) (jobs : List ScheduledJob)
    → All P jobs
    → All P (keep test jobs)
All-keep P test [] l = tt
All-keep P test (job ∷ jobs) l = elim (Bool-cases (test job)) [
  | inl k ↦ rw k (l.0, All-keep P test jobs l.1)
  | inr k ↦ rw k (All-keep P test jobs l.1)
]

rescheduled-IsLimited :
    (n i now : ℕ) (jobs : List ScheduledJob)
    → All (IsLimited n i) jobs
    → All (IsLimited n i) (map (rescheduled now) (keep has_runs_left jobs))
rescheduled-IsLimited n i now [] l = tt
rescheduled-IsLimited n i now (job ∷ jobs) l = elim (Bool-cases (has_runs_left job)) [
  | inl k ↦ rw k (
    (λ same.
        let (limit, _) = l.0 same in
        (limit, ltb→lt (suc job.runs) n (sym (ap (λ m. under_limit m (suc job.runs)) limit) ∙ k))),
    rescheduled-IsLimited n i now jobs l.1,
  )
  | inr k ↦ rw k (rescheduled-IsLimited n i now jobs l.1)
]

tick-IsLimited :
    (n i now : ℕ) (jobs : List ScheduledJob)
    → All (IsLimited n i) jobs
    → All (IsLimited n i) (tick now jobs).jobs
tick-IsLimited n i now jobs l =
    let dues : List ScheduledJob = keep (is_due now) jobs in
    subst (All (IsLimited n i)) (sym (tick_lem now jobs).1) (
      All-append (IsLimited n i) (keep (is_waiting now) jobs)
        (map (rescheduled now) (keep has_runs_left dues))
        (All-keep (IsLimited n i) (is_waiting now) jobs l)
        (rescheduled-IsLimited n i now dues (All-keep (IsLimited n i) (is_due now) jobs l)))

tick-budget :
    (n i now : ℕ) (jobs : List ScheduledJob)
    → All (IsLimited n i) jobs
    → count i (tick now jobs).spawned + budget n i (tick now jobs).jobs ≤ budget n i jobs
tick-budget n i now jobs l =
    let dues : List ScheduledJob = keep (is_due now) jobs in
    let again : List ScheduledJob = map (rescheduled now) (keep has_runs_left dues) in
    let t = tick_lem now jobs in
    omega (
      arith,
      spent n i now jobs l,
      ap (count i) t.0,
      ap (budget n i) t.1 ∙ budget-append n i (keep (is_waiting now) jobs) again,
    )

count-append : (i : ℕ) (xs ys : List ℕ) → count i (xs ++ ys) ≡ count i xs + count i ys
count-append i [] ys = omega arith
count-append i (x ∷ xs) ys = omega (arith, count-append i xs ys)

-- Where each job with an identity has the limit `n` and fewer runs than that, any number of ticks,
-- at any times, spawns this identity no more often than these jobs had runs left; what they have
-- left afterwards is at most the difference, and they are still below the limit. So a job with
-- `max_runs = n` is never spawned more than `n` times.
pub ticks-budget :
    (n i : ℕ) (times : List ℕ) (jobs : List ScheduledJob)
    → All (IsLimited n i) jobs
    → (count i (ticks times jobs).0 + budget n i (ticks times jobs).1 ≤ budget n i jobs)
      × All (IsLimited n i) (ticks times jobs).1
unfolding ticks
ticks-budget n i [] jobs l = (omega arith, l)
ticks-budget n i (now ∷ times) jobs l =
    let t = tick now jobs in
    let (spent_later, limited) = ticks-budget n i times t.jobs (tick-IsLimited n i now jobs l) in
    (
      omega (
        arith,
        spent_later,
        tick-budget n i now jobs l,
        count-append i t.spawned (ticks times t.jobs).0,
      ),
      limited,
    )
