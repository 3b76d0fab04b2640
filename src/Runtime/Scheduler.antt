-- ===== src/Runtime/Scheduler.antt =====
-- `Scheduler` and `ScheduledJob` (runtime/scheduler/scheduler.py). Times are in milliseconds. A
-- trigger gives the next time from a time. `spawn` may raise, which is logged; a call of it is
-- recorded by the job's identity. The thread, its condition and the reading of the clock behind the
-- loop are left out.
pub mod Due
pub mod Worker
pub mod Budget
use sagittarius_engine.Prelude.{
  Bool, true, false, not, ◌&&◌, ◌||◌, ℕ, suc, ◌+◌, Option, none, some, List, [], ◌∷◌, ◌++◌, ltb,
  leb, if◌then◌else◌,
}

pub record ScheduledJob : Type 0 where
  pub ident : ℕ
  pub get_next_run : ℕ → ℕ
  pub max_runs : Option ℕ
  pub runs : ℕ
  pub next_run : Option ℕ
  pub is_cancelled : Bool

-- `ScheduledJob(fn, trigger, max_runs)` at a time.
abbrev pub scheduled : ℕ → ℕ → (ℕ → ℕ) → Option ℕ → ScheduledJob
scheduled now ident trigger max_runs = record {
  ident = ident;
  get_next_run = trigger;
  max_runs = max_runs;
  runs = 0;
  next_run = some (trigger now);
  is_cancelled = false;
}

abbrev pub cancel : ScheduledJob → ScheduledJob
cancel job = record job { is_cancelled = true }

-- `IntervalTrigger`.
abbrev pub interval : ℕ → ℕ → ℕ
interval delta from_time = from_time + delta

-- What the loops of one tick hold.
pub record Tick : Type 0 where
  pub jobs_to_run : List ScheduledJob
  pub jobs : List ScheduledJob
  pub next_wakeup : ℕ
  pub spawned : List ℕ

abbrev pub earlier : ℕ → ℕ → ℕ
earlier time next_wakeup = if ltb time next_wakeup then time else next_wakeup

-- A job that is neither cancelled nor dead, by its `next_run`.
abbrev pub sort_live : ScheduledJob → ℕ → ℕ → Tick → Tick
sort_live job time now t =
    if leb time now
    then record t { jobs_to_run = t.jobs_to_run ++ job ∷ [] }
    else record t { jobs = t.jobs ++ job ∷ []; next_wakeup = earlier time t.next_wakeup }

abbrev pub sort_by_time : ScheduledJob → Option ℕ → ℕ → Tick → Tick
sort_by_time job none now t = t
sort_by_time job (some time) now t = sort_live job time now t

abbrev pub sort_job : ScheduledJob → ℕ → Tick → Tick
sort_job job now t = if job.is_cancelled then t else sort_by_time job job.next_run now t

-- The first loop.
unfoldable pub sort_jobs : List ScheduledJob → ℕ → Tick → Tick
sort_jobs [] now t = t
sort_jobs (job ∷ jobs) now t = sort_jobs jobs now (sort_job job now t)

abbrev pub under_limit : Option ℕ → ℕ → Bool
under_limit none runs = true
under_limit (some max) runs = ltb runs max

-- A job after its run, at a time.
abbrev pub rescheduled : ℕ → ScheduledJob → ScheduledJob
rescheduled now job = record job { runs = suc job.runs; next_run = some (job.get_next_run now) }

abbrev pub run_job : ℕ → ScheduledJob → Tick → Tick
run_job now job t =
    let t' : Tick = record t { spawned = t.spawned ++ job.ident ∷ [] } in
    if under_limit job.max_runs (suc job.runs)
    then record t' {
      jobs = t.jobs ++ rescheduled now job ∷ [];
      next_wakeup = earlier (job.get_next_run now) t.next_wakeup;
    }
    else t'

-- The second loop.
unfoldable pub run_jobs : ℕ → List ScheduledJob → Tick → Tick
run_jobs now [] t = t
run_jobs now (job ∷ jobs) t = run_jobs now jobs (run_job now job t)

abbrev pub begin_tick : ℕ → Tick
begin_tick now = record { jobs_to_run = []; jobs = []; next_wakeup = now + 1000; spawned = [] }

-- An iteration of `_run`: the jobs it leaves, when it wakes up next, and what it spawned.
unfoldable pub tick : ℕ → List ScheduledJob → Tick
unfolding sort_jobs run_jobs
tick now jobs =
    let sorted = sort_jobs jobs now (begin_tick now) in run_jobs now sorted.jobs_to_run sorted

abbrev pub add_job : ScheduledJob → List ScheduledJob → List ScheduledJob
add_job job jobs = jobs ++ job ∷ []

-- The ticks at some times: all that they spawned, and the jobs left.
unfoldable pub ticks : List ℕ → List ScheduledJob → List ℕ × List ScheduledJob
unfolding tick
ticks [] jobs = ([], jobs)
ticks (now ∷ times) jobs =
    let t = tick now jobs in let rest = ticks times t.jobs in (t.spawned ++ rest.0, rest.1)
