-- ===== src/Examples/Tasking.antt =====
-- The theorems about the task manager, at concrete inputs.
use sagittarius_engine.Prelude.{
  ◌+◌, ◌-◌, ◌≤◌, ◌≡◌, refl, nat_eq, false, none, some, List, [], ◌∷◌, length, get, put, remove,
}
use sagittarius_engine.Runtime.TaskManager.{
  background, critical, event_loop, queued, running, BackgroundTask, new, is_background,
  is_critical, returns, raises, Step, spawns, begins, ends, cancel, run, pool_stats, stats_of, step,
  end_task, begin_task, spawn, fail_task, retire, cleanup_old_tasks, drop_oldest,
}
use sagittarius_engine.Runtime.TaskManager.Accounts.{pool_stats_lem}
use sagittarius_engine.Runtime.TaskManager.Counting.{count}
use sagittarius_engine.Runtime.TaskManager.Weights.{outstanding, refusals}
use sagittarius_engine.Runtime.TaskManager.Retention.{
  unsettled_weight, retained_lem, cancel_keeps_task,
}
use sagittarius_engine.Runtime.TaskManager.Moves.{IsAbandoned}

abbrev busy : List Step
busy =
    spawns "index" background none
    ∷ spawns "save" critical none
    ∷ spawns "late" critical (some "cannot schedule new futures after shutdown")
    ∷ spawns "fetch" event_loop none
    ∷ spawns "thumbnail" background none
    ∷ begins 0
    ∷ begins 1
    ∷ ends 0 returns
    ∷ ends 1 (raises "disk full")
    ∷ []

pool_stats_lem_example :
    let m = run 2 busy new in
    let waiting_background =
      count (outstanding is_background) m.tasks + refusals is_background busy in
    let waiting_critical = count (outstanding is_critical) m.tasks + refusals is_critical busy in
    ((pool_stats m).0.in_flight ≡ waiting_background)
    × ((pool_stats m).0.queue_depth ≡ waiting_background - 20)
    × ((pool_stats m).1.in_flight ≡ waiting_critical)
    × ((pool_stats m).1.queue_depth ≡ waiting_critical - 10)
pool_stats_lem_example = pool_stats_lem 2 busy

-- Nothing runs any more, and the refused task counts as in flight.
late_in_flight : (pool_stats (run 2 busy new)).1.in_flight ≡ 1
unfolding pool_stats stats_of run step end_task begin_task spawn fail_task retire cleanup_old_tasks
    drop_oldest new get put
late_in_flight = refl

retained_lem_example :
    let m = run 2 busy new in
    (length m.tasks ≡ length m.finished_task_ids + count unsettled_weight m.tasks)
    × (length m.finished_task_ids ≤ 2)
retained_lem_example = retained_lem 2 busy

abbrev thumbnail : BackgroundTask
thumbnail = record {
  name = "thumbnail";
  place = background;
  phase = queued;
  status = running;
  token_set = false;
  error = none;
}

cancel_keeps_task_example : IsAbandoned (get 4 (run 2 busy (cancel 4 (run 2 busy new))).tasks)
unfolding run step end_task begin_task spawn fail_task retire cleanup_old_tasks drop_oldest new get
    put remove
cancel_keeps_task_example = cancel_keeps_task 2 busy busy 4 thumbnail refl refl
