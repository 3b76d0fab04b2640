-- ===== src/Runtime/Scheduler/Due.antt =====
-- Which jobs a tick of runtime/scheduler/scheduler.py runs, and when it wakes up next.
use sagittarius_engine.Prelude.{
  ℕ, suc, ◌+◌, ◌≤◌, ◌≡◌, refl, sym, ap, ◌∙◌, Bool, true, false, not, ◌&&◌, Option, none, some, List,
  [], ◌∷◌, ◌++◌, keep, map, All, All-map, All-append, leb, if◌then◌else◌, some_injective,
  append_assoc, append-nil, arith,
}
use sagittarius_engine.Runtime.Scheduler.{
  ScheduledJob, Tick, earlier, sort_by_time, sort_job, sort_jobs, rescheduled, run_job, run_jobs,
  begin_tick, tick, under_limit,
}

abbrev pub has_come : Option ℕ → ℕ → Bool
has_come none now = false
has_come (some time) now = leb time now

abbrev pub is_to_come : Option ℕ → ℕ → Bool
is_to_come none now = false
is_to_come (some time) now = not (leb time now)

-- Not cancelled, with a time that has come.
abbrev pub is_due : ℕ → ScheduledJob → Bool
is_due now job = not job.is_cancelled && has_come job.next_run now

-- Not cancelled, with a time to come.
abbrev pub is_waiting : ℕ → ScheduledJob → Bool
is_waiting now job = not job.is_cancelled && is_to_come job.next_run now

-- The job may run again after one more run.
abbrev pub has_runs_left : ScheduledJob → Bool
has_runs_left job = under_limit job.max_runs (suc job.runs)

-- The job is not due before the time.
abbrev pub IsNotBefore : ℕ → ScheduledJob → Type 0
IsNotBefore time job = (t : ℕ) → job.next_run ≡ some t → time ≤ t

earlier-le :
    (time next_wakeup : ℕ)
    → (earlier time next_wakeup ≤ time) × (earlier time next_wakeup ≤ next_wakeup)
earlier-le time next_wakeup = ground arith

-- The wakeup of a tick is in time for all the jobs that it keeps.
pub record IsInTime (limit : ℕ) (t : Tick) : Type 0 where
  pub in_time : All (IsNotBefore t.next_wakeup) t.jobs
  pub bounded : t.next_wakeup ≤ limit

IsInTime-add :
    (limit time : ℕ) (job : ScheduledJob) (t : Tick)
    → job.next_run ≡ some time
    → IsInTime limit t
    → IsInTime limit
        (record t { jobs = t.jobs ++ job ∷ []; next_wakeup = earlier time t.next_wakeup })
IsInTime-add limit time job t e w = record {
  in_time =
      All-append (IsNotBefore (earlier time t.next_wakeup)) t.jobs (job ∷ [])
        (All-map (λ j h u f. omega (arith, h u f, earlier-le time t.next_wakeup)) t.jobs w.in_time)
        (λ u f. ground (arith, earlier-le time t.next_wakeup, some_injective (sym e ∙ f)), tt);
  bounded = omega (arith, w.bounded, earlier-le time t.next_wakeup);
}

-- What the first loop does with one job, by whether it is due and whether it waits.
record Adds (due waiting : Bool) (job : ScheduledJob) (t t' : Tick) : Type 0 where
  to_run : t'.jobs_to_run ≡ t.jobs_to_run ++ (if due then job ∷ [] else [])
  kept : t'.jobs ≡ t.jobs ++ (if waiting then job ∷ [] else [])
  silent : t'.spawned ≡ t.spawned
  timely : (limit : ℕ) → IsInTime limit t → IsInTime limit t'

Adds-nothing : (job : ScheduledJob) (t : Tick) → Adds false false job t t
Adds-nothing job t = record {
  to_run = sym (append-nil t.jobs_to_run);
  kept = sym (append-nil t.jobs);
  silent = refl;
  timely = λ limit w. w;
}

sort_live-Adds :
    (now time : ℕ) (job : ScheduledJob) (t : Tick) (late : Bool)
    → job.next_run ≡ some time
    → Adds late (not late) job t (
        if late
        then record t { jobs_to_run = t.jobs_to_run ++ job ∷ [] }
        else record t { jobs = t.jobs ++ job ∷ []; next_wakeup = earlier time t.next_wakeup })
sort_live-Adds now time job t true e = record {
  to_run = refl;
  kept = sym (append-nil t.jobs);
  silent = refl;
  timely = λ limit w. record { in_time = w.in_time; bounded = w.bounded };
}
sort_live-Adds now time job t false e = record {
  to_run = sym (append-nil t.jobs_to_run);
  kept = refl;
  silent = refl;
  timely = λ limit w. IsInTime-add limit time job t e w;
}

sort_by_time-Adds :
    (now : ℕ) (job : ScheduledJob) (t : Tick) (time : Option ℕ)
    → job.next_run ≡ time
    → Adds (has_come time now) (is_to_come time now) job t (sort_by_time job time now t)
sort_by_time-Adds now job t none e = Adds-nothing job t
sort_by_time-Adds now job t (some time) e = sort_live-Adds now time job t (leb time now) e

sort_job-Adds :
    (now : ℕ) (job : ScheduledJob) (t : Tick) (cancelled : Bool)
    → Adds
        (not cancelled && has_come job.next_run now)
        (not cancelled && is_to_come job.next_run now)
        job
        t
        (if cancelled then t else sort_by_time job job.next_run now t)
sort_job-Adds now job t true = Adds-nothing job t
sort_job-Adds now job t false = sort_by_time-Adds now job t job.next_run refl

-- What the first loop has sorted.
record Sorted (now : ℕ) (jobs : List ScheduledJob) (t t' : Tick) : Type 0 where
  due : t'.jobs_to_run ≡ t.jobs_to_run ++ keep (is_due now) jobs
  waiting : t'.jobs ≡ t.jobs ++ keep (is_waiting now) jobs
  quiet : t'.spawned ≡ t.spawned
  still_timely : (limit : ℕ) → IsInTime limit t → IsInTime limit t'

append_if :
    {A : Type 0} (b : Bool) (a : A) (xs ys : List A)
    → (xs ++ (if b then a ∷ [] else [])) ++ ys ≡ xs ++ (if b then a ∷ ys else ys)
append_if true a xs ys = append_assoc xs (a ∷ []) ys
append_if false a xs ys = ap (λ l. l ++ ys) (append-nil xs)

sort_jobs-Sorted :
    (jobs : List ScheduledJob) (now : ℕ) (t : Tick) → Sorted now jobs t (sort_jobs jobs now t)
unfolding sort_jobs
sort_jobs-Sorted [] now t = record {
  due = sym (append-nil t.jobs_to_run);
  waiting = sym (append-nil t.jobs);
  quiet = refl;
  still_timely = λ limit w. w;
}
sort_jobs-Sorted (job ∷ jobs) now t =
    let a = sort_job-Adds now job t job.is_cancelled in
    let s = sort_jobs-Sorted jobs now (sort_job job now t) in
    record {
      due =
          s.due
          ∙ ap (λ l. l ++ keep (is_due now) jobs) a.to_run
          ∙ append_if (is_due now job) job t.jobs_to_run (keep (is_due now) jobs);
      waiting =
          s.waiting
          ∙ ap (λ l. l ++ keep (is_waiting now) jobs) a.kept
          ∙ append_if (is_waiting now job) job t.jobs (keep (is_waiting now) jobs);
      quiet = s.quiet ∙ a.silent;
      still_timely = λ limit w. s.still_timely limit (a.timely limit w);
    }

run_job_kept :
    (now : ℕ) (job : ScheduledJob) (t : Tick) (b : Bool) (rest : List ScheduledJob) (limit : ℕ)
    → IsInTime limit t
    → let r : Tick =
        (if b
          then record t {
            jobs = t.jobs ++ rescheduled now job ∷ [];
            next_wakeup = earlier (job.get_next_run now) t.next_wakeup;
            spawned = t.spawned ++ job.ident ∷ [];
          }
          else record t { spawned = t.spawned ++ job.ident ∷ [] }) in
      (r.jobs ++ map (rescheduled now) rest
        ≡ t.jobs ++ map (rescheduled now) (if b then job ∷ rest else rest))
      × (r.spawned ≡ t.spawned ++ job.ident ∷ [])
      × IsInTime limit r
run_job_kept now job t true rest limit w = (
  append_assoc t.jobs (rescheduled now job ∷ []) (map (rescheduled now) rest),
  refl,
  (let i = IsInTime-add limit (job.get_next_run now) (rescheduled now job) t refl w in
      record { in_time = i.in_time; bounded = i.bounded }),
)
run_job_kept now job t false rest limit w =
    (refl, refl, record { in_time = w.in_time; bounded = w.bounded })

run_jobs_lem :
    (now limit : ℕ) (jobs : List ScheduledJob) (t : Tick)
    → IsInTime limit t
    → ((run_jobs now jobs t).jobs ≡ t.jobs ++ map (rescheduled now) (keep has_runs_left jobs))
      × ((run_jobs now jobs t).spawned ≡ t.spawned ++ map (λ j. j.ident) jobs)
      × IsInTime limit (run_jobs now jobs t)
unfolding run_jobs
run_jobs_lem now limit [] t w = (sym (append-nil t.jobs), sym (append-nil t.spawned), w)
run_jobs_lem now limit (job ∷ jobs) t w =
    let (kept, spawned, timely) =
      run_job_kept now job t (has_runs_left job) (keep has_runs_left jobs) limit w in
    let (k, s, i) = run_jobs_lem now limit jobs (run_job now job t) timely in
    (
      k ∙ kept,
      s
          ∙ ap (λ l. l ++ map (λ j. j.ident) jobs) spawned
          ∙ append_assoc t.spawned (job.ident ∷ []) (map (λ j. j.ident) jobs),
      i,
    )

-- A tick spawns exactly the jobs that are due, once each and in order. It keeps the jobs that
-- wait, and behind them the spawned ones that have runs left, with their run counted and their
-- next time set; cancelled and dead jobs are gone. The next wakeup is at most a second later and
-- is not behind the time of any job that is kept.
pub tick_lem :
    (now : ℕ) (jobs : List ScheduledJob)
    → ((tick now jobs).spawned ≡ map (λ j. j.ident) (keep (is_due now) jobs))
      × ((tick now jobs).jobs
          ≡ keep (is_waiting now) jobs
            ++ map (rescheduled now) (keep has_runs_left (keep (is_due now) jobs)))
      × IsInTime (now + 1000) (tick now jobs)
unfolding tick
tick_lem now jobs =
    let s = sort_jobs-Sorted jobs now (begin_tick now) in
    let sorted : Tick = sort_jobs jobs now (begin_tick now) in
    let start : IsInTime (now + 1000) (begin_tick now) = record {
      in_time = tt;
      bounded = omega arith;
    } in
    let (kept, spawned, timely) =
      run_jobs_lem now (now + 1000) sorted.jobs_to_run sorted (s.still_timely (now + 1000) start) in
    (
      spawned
          ∙ ap (λ l. l ++ map (λ j. j.ident) sorted.jobs_to_run) s.quiet
          ∙ ap (map (λ j. j.ident)) s.due,
      kept
          ∙ ap (λ l. l ++ map (rescheduled now) (keep has_runs_left sorted.jobs_to_run)) s.waiting
          ∙ ap (λ l. keep (is_waiting now) jobs ++ map (rescheduled now) (keep has_runs_left l))
              s.due,
      timely,
    )
