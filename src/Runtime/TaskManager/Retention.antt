-- ===== src/Runtime/TaskManager/Retention.antt =====
-- Which tasks a `TaskManager` still knows after any steps.
use sagittarius_engine.Prelude.{
  ℕ, ◌+◌, ◌≤◌, ◌≡◌, refl, nat_eq, Bool, true, false, some, List, [], ◌∷◌, length, if◌then◌else◌,
  Dict, get, arith,
}
use sagittarius_engine.Runtime.TaskManager.{
  cancelled, queued, never_ran, BackgroundTask, TaskManager, new, cancel, cancels, Step, run, step,
}
use sagittarius_engine.Runtime.TaskManager.Counting.{count, count-add}
use sagittarius_engine.Runtime.TaskManager.Invariant.{get-put_self}
use sagittarius_engine.Runtime.TaskManager.Settled.{has_settled, settled_weight}
use sagittarius_engine.Runtime.TaskManager.Steps.{step-Stepped, new-Sound, run-Stepped}
use sagittarius_engine.Runtime.TaskManager.Moves.{IsAbandoned}

-- A task that is queued, runs, or was cancelled before it ran.
abbrev pub unsettled_weight : BackgroundTask → ℕ
unsettled_weight t = if has_settled t.phase then 0 else 1

length-count : (d : Dict ℕ BackgroundTask) → length d ≡ count (λ t. 1) d
unfolding count
length-count [] = refl
length-count (e ∷ d) = omega (arith, length-count d)

either : (b : Bool) → 1 ≡ (if b then 1 else 0) + (if b then 0 else 1)
either true = refl
either false = refl

-- After any steps of a new task manager, the tasks it knows are the finished ones that it retains,
-- at most `limit`, and those that are queued, run, or were cancelled before they ran.
pub retained_lem :
    (limit : ℕ) (es : List Step)
    → (let m = run limit es new in
        (length m.tasks ≡ length m.finished_task_ids + count unsettled_weight m.tasks)
        × (length m.finished_task_ids ≤ limit))
unfolding new
retained_lem limit es =
    let m = run limit es new in
    let stepped = run-Stepped limit es new new-Sound in
    (
      omega (
        arith,
        length-count m.tasks,
        stepped.sound.counted,
        count-add settled_weight unsettled_weight (λ t. 1) m.tasks
            (λ t. either (has_settled t.phase)),
      ),
      stepped.bounded (none_yet limit),
    )
  where
    none_yet : (limit : ℕ) → length new.finished_task_ids ≤ limit
    none_yet limit = omega arith

-- A task that is cancelled while it is queued is never released, whatever happens afterwards and
-- whatever the limit: after any steps of a new task manager, the cancellation and any further steps,
-- it is still among the tasks.
pub cancel_keeps_task :
    (limit : ℕ) (es later : List Step) (i : ℕ) (t : BackgroundTask)
    → get i (run limit es new).tasks ≡ some t
    → t.phase ≡ queued
    → IsAbandoned (get i (run limit later (cancel i (run limit es new))).tasks)
unfolding cancel get step
cancel_keeps_task limit es later i t there waits =
    let m = run limit es new in
    let sound = (run-Stepped limit es new new-Sound).sound in
    let next = (step-Stepped limit (cancels i) m sound).sound in
    (run-Stepped limit later (cancel i m) next).abandoned i (cancelled_now m i t there waits)
  where
    cancelled_now :
        (m : TaskManager) (i : ℕ) (t : BackgroundTask)
        → get i m.tasks ≡ some t
        → t.phase ≡ queued
        → IsAbandoned (get i (cancel i m).tasks)
    cancelled_now m i t there waits =
        let u : BackgroundTask = record t {
          token_set = true;
          status = cancelled;
          phase = never_ran;
        } in
        rw (there, waits, get-put_self i u m.tasks) refl
