-- ===== src/Runtime/TaskManager.antt =====
-- `TaskManager` of runtime/tasks/task_manager.py with `BackgroundTask` of background_task.py. A task's
-- future is a phase: queued in a pool or on the event loop, running, ended, cancelled before it ran,
-- or never made. The executors and the loop are steps that begin and end the tasks. An event that
-- the bus refuses is only logged, so events are what `_emit` hands over. A span of the recorder, the
-- text of messages and progress reports are left out; `limit` is what `_get_max_retained_tasks`
-- answers.
pub mod Accounts
pub mod Counting
pub mod Invariant
pub mod Settled
pub mod Pools
pub mod Weights
pub mod Retention
pub mod Steps
pub mod Moves
use sagittarius_engine.Prelude.{
  ℕ, zero, suc, ◌+◌, ◌-◌, String, nat_eq, Bool, true, false, ◌&&◌, Option, none, some, List, [],
  ◌∷◌, ◌++◌, length, ltb, keep, reverse, map, if◌then◌else◌, Dict, get, put, remove, keys,
}

pub data TaskState : Type 0 where
  pending running completed failed cancelled : TaskState

-- Where the task's callable runs.
pub data Place : Type 0 where
  background critical event_loop : Place

pub data Phase : Type 0 where
  queued executing ended never_ran refused : Phase

pub record BackgroundTask : Type 0 where
  pub name : String
  pub place : Place
  pub phase : Phase
  pub status : TaskState
  pub token_set : Bool
  pub error : Option String

pub data Event : Type 0 where
  task_started task_completed task_failed : ℕ → Event

-- How many callables a pool was given, and how many of their futures are done.
pub record Pool : Type 0 where
  pub submitted : ℕ
  pub done : ℕ

pub record TaskManager : Type 0 where
  pub tasks : Dict ℕ BackgroundTask
  pub finished_task_ids : List ℕ
  pub background_pool : Pool
  pub critical_pool : Pool
  pub next_id : ℕ
  pub events : List Event

unfoldable pub new : TaskManager
new = record {
  tasks = [];
  finished_task_ids = [];
  background_pool = record { submitted = 0; done = 0 };
  critical_pool = record { submitted = 0; done = 0 };
  next_id = 0;
  events = [];
}

abbrev pub emit : Event → TaskManager → TaskManager
emit e m = record m { events = m.events ++ e ∷ [] }

abbrev pub set_task : ℕ → BackgroundTask → TaskManager → TaskManager
set_task i t m = record m { tasks = put i t m.tasks }

abbrev pub is_background : Place → Bool
is_background background = true
is_background _ = false

abbrev pub is_critical : Place → Bool
is_critical critical = true
is_critical _ = false

abbrev pub submit_if : Bool → Pool → Pool
submit_if here p = record p { submitted = if here then p.submitted + 1 else p.submitted }

abbrev pub done_if : Bool → Pool → Pool
done_if here p = record p { done = if here then p.done + 1 else p.done }

-- The event loop has no counters.
abbrev pub submit_to : Place → TaskManager → TaskManager
submit_to place m = record m {
  background_pool = submit_if (is_background place) m.background_pool;
  critical_pool = submit_if (is_critical place) m.critical_pool;
}

-- `_on_done`, where the future has such a callback.
abbrev pub done_in : Place → TaskManager → TaskManager
done_in place m = record m {
  background_pool = done_if (is_background place) m.background_pool;
  critical_pool = done_if (is_critical place) m.critical_pool;
}

-- `popleft()` and `del` while there are more than `limit` finished tasks.
unfoldable pub drop_oldest : ℕ → List ℕ → Dict ℕ BackgroundTask → List ℕ × Dict ℕ BackgroundTask
drop_oldest limit [] tasks = ([], tasks)
drop_oldest limit (i ∷ is) tasks =
    let rest = drop_oldest limit is (remove i tasks) in
    if ltb limit (length (i ∷ is)) then rest else (i ∷ is, tasks)

unfoldable pub cleanup_old_tasks : ℕ → TaskManager → TaskManager
cleanup_old_tasks limit m =
    let (kept, tasks) = drop_oldest limit m.finished_task_ids m.tasks in
    record m { finished_task_ids = kept; tasks = tasks }

-- The end that the wrappers and the error paths of `spawn` share.
unfoldable pub retire : ℕ → ℕ → TaskManager → TaskManager
retire limit i m =
    cleanup_old_tasks limit (record m { finished_task_ids = m.finished_task_ids ++ i ∷ [] })

unfoldable pub fail_task : ℕ → ℕ → BackgroundTask → String → TaskManager → TaskManager
fail_task limit i t why m =
    retire limit i
      (emit (task_failed i) (set_task i (record t { status = failed; error = some why }) m))

abbrev pub spawned : String → Place → BackgroundTask
spawned name place = record {
  name = name;
  place = place;
  phase = queued;
  status = running;
  token_set = false;
  error = none;
}

-- The task is known and counted before the executor is asked.
abbrev pub register_task : String → Place → TaskManager → TaskManager
register_task name place m =
    let i = m.next_id in
    submit_to place
      (emit (task_started i) (set_task i (spawned name place) (record m { next_id = suc i })))

-- `spawn`; `refusal` is what the executor or the event loop raises, if it does. The exception is
-- raised again.
unfoldable pub spawn : ℕ → String → Place → Option String → TaskManager → TaskManager
spawn limit name place none m = register_task name place m
spawn limit name place (some why) m =
    fail_task limit m.next_id (record (spawned name place) { phase = refused }) why
      (register_task name place m)

-- A worker, or the loop, takes the task up.
abbrev pub begin_from : Phase → ℕ → BackgroundTask → TaskManager → TaskManager
begin_from queued i t m = set_task i (record t { phase = executing }) m
begin_from _ i t m = m

-- How the body ends: it returns, raises an exception, or the loop cancels it.
pub data Ending : Type 0 where
  returns : Ending
  raises : String → Ending
  is_cancelled : Ending

abbrev pub record_ending : Ending → ℕ → BackgroundTask → TaskManager → TaskManager
record_ending returns i t m =
    emit (task_completed i) (set_task i (record t { status = completed; phase = ended }) m)
record_ending (raises why) i t m =
    emit (task_failed i)
      (set_task i (record t { status = failed; error = some why; phase = ended }) m)
record_ending is_cancelled i t m = set_task i (record t { phase = ended }) m

-- `_wrap_sync` and `_wrap_coro` from the end of the body on, and the future's callback: the append to
-- the finished tasks, `_cleanup_old_tasks` and the callback are taken in one step.
abbrev pub end_from : Phase → ℕ → Ending → ℕ → BackgroundTask → TaskManager → TaskManager
end_from executing limit how i t m = done_in t.place (retire limit i (record_ending how i t m))
end_from _ limit how i t m = m

-- `cancel` of the task: a queued future is cancelled and its callback runs; one that is refused has
-- no future.
abbrev pub cancel_from : Phase → ℕ → BackgroundTask → TaskManager → TaskManager
cancel_from queued i t m =
    done_in t.place
      (set_task i (record t { token_set = true; status = cancelled; phase = never_ran }) m)
cancel_from refused i t m = set_task i (record t { token_set = true }) m
cancel_from _ i t m = set_task i (record t { token_set = true; status = cancelled }) m

abbrev pub on_task :
    Option BackgroundTask → (BackgroundTask → TaskManager → TaskManager) → TaskManager → TaskManager
on_task none act m = m
on_task (some t) act m = act t m

unfoldable pub begin_task : ℕ → TaskManager → TaskManager
begin_task i m = on_task (get i m.tasks) (λ t. begin_from t.phase i t) m

unfoldable pub end_task : ℕ → ℕ → Ending → TaskManager → TaskManager
end_task limit i how m = on_task (get i m.tasks) (λ t. end_from t.phase limit how i t) m

unfoldable pub cancel : ℕ → TaskManager → TaskManager
cancel i m = on_task (get i m.tasks) (λ t. cancel_from t.phase i t) m

abbrev pub is_running : TaskState → Bool
is_running running = true
is_running _ = false

abbrev pub is_active : TaskState → Bool
is_active running = true
is_active pending = true
is_active _ = false

unfoldable pub get_active_tasks : TaskManager → Dict ℕ BackgroundTask
get_active_tasks m = keep (λ e. is_active e.1.status) m.tasks

unfoldable pub cancel_each : List ℕ → TaskManager → TaskManager
cancel_each [] m = m
cancel_each (i ∷ is) m = cancel_each is (cancel i m)

unfoldable pub cancel_all : TaskManager → TaskManager
cancel_all m = cancel_each (keys (keep (λ e. is_running e.1.status) m.tasks)) m

pub record TaskSnapshot : Type 0 where
  pub id : ℕ
  pub name : String
  pub state : TaskState
  pub error : Option String

unfoldable pub snapshot_of : ℕ × BackgroundTask → TaskSnapshot
snapshot_of (i, t) = record { id = i; name = t.name; state = t.status; error = t.error }

-- The newest first.
unfoldable pub snapshot : TaskManager → List TaskSnapshot
snapshot m = map snapshot_of (reverse m.tasks)

pub record PoolStats : Type 0 where
  pub max_workers : ℕ
  pub in_flight : ℕ
  pub queue_depth : ℕ
  pub submitted : ℕ
  pub done : ℕ

-- `max(0, in_flight - workers)` is the subtraction that stops at 0.
unfoldable pub stats_of : ℕ → Pool → PoolStats
stats_of workers p = record {
  max_workers = workers;
  in_flight = p.submitted - p.done;
  queue_depth = p.submitted - p.done - workers;
  submitted = p.submitted;
  done = p.done;
}

unfoldable pub pool_stats : TaskManager → PoolStats × PoolStats
pool_stats m = (stats_of 20 m.background_pool, stats_of 10 m.critical_pool)

-- What may happen to a task manager.
pub data Step : Type 0 where
  spawns : String → Place → Option String → Step
  begins : ℕ → Step
  ends : ℕ → Ending → Step
  cancels : ℕ → Step

unfoldable pub step : ℕ → Step → TaskManager → TaskManager
step limit (spawns name place refusal) m = spawn limit name place refusal m
step limit (begins i) m = begin_task i m
step limit (ends i how) m = end_task limit i how m
step limit (cancels i) m = cancel i m

unfoldable pub run : ℕ → List Step → TaskManager → TaskManager
run limit [] m = m
run limit (s ∷ ss) m = run limit ss (step limit s m)
