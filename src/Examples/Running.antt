-- ===== src/Examples/Running.antt =====
-- The theorems about running work, at concrete inputs.
use sagittarius_engine.Prelude.{
  ◌+◌, ◌≤◌, nat_eq, string_eq, ◌≡◌, refl, none, some, List, [], ◌∷◌, ◌++◌, keep, map,
}
use sagittarius_engine.Runtime.ExclusiveAction.{
  Event, starts, submits, settles, finishes, run, initial, taken, run_exclusive,
}
use sagittarius_engine.Runtime.Scheduler.{
  ScheduledJob, scheduled, interval, cancel, tick, rescheduled,
}
use sagittarius_engine.Runtime.Scheduler.Due.{is_due, is_waiting, has_runs_left, IsInTime, tick_lem}

abbrev some_events : List Event
some_events =
    starts "export" 10
    ∷ starts "import" 11
    ∷ submits "export"
    ∷ finishes "import"
    ∷ settles "export"
    ∷ []

run_exclusive_example :
    let r = run some_events initial in
    (r.granted ≡ r.released + taken r.action.running_key) × (r.granted ≤ r.released + 1)
run_exclusive_example = run_exclusive some_events

abbrev jobs : List ScheduledJob
jobs =
    scheduled 0 1 (interval 100) none
    ∷ scheduled 0 2 (interval 50) (some 1)
    ∷ cancel (scheduled 0 3 (interval 10) none)
    ∷ scheduled 0 4 (interval 900) (some 2)
    ∷ []

tick_lem_example :
    ((tick 120 jobs).spawned ≡ map (λ j. j.ident) (keep (is_due 120) jobs))
    × ((tick 120 jobs).jobs
        ≡ keep (is_waiting 120) jobs
          ++ map (rescheduled 120) (keep has_runs_left (keep (is_due 120) jobs)))
    × IsInTime 1120 (tick 120 jobs)
tick_lem_example = tick_lem 120 jobs

two_due : map (λ j. j.ident) (keep (is_due 120) jobs) ≡ 1 ∷ 2 ∷ []
two_due = refl
