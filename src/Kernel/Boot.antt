-- ===== src/Kernel/Boot.antt =====
-- `Bootstrap.boot` (kernel/bootstrap.py) and `App.stop` (kernel/app.py): in which order the
-- engine's parts are started and stopped, over the lifecycle of kernel/lifecycle.py. What a part
-- does when it is called is a parameter: it returns or raises, and on stopping it may also hang.
-- A callback of `when_ready` may raise, but does not call the lifecycle back. The app's own methods
-- that only pass a call on are left out.
pub mod Starting
pub mod Stopping
use sagittarius_engine.Prelude.{
  ℕ, Bool, true, false, ◌||◌, Option, none, some, List, [], ◌∷◌, ◌++◌, ◌==◌, if◌then◌else◌,
}
use sagittarius_engine.Kernel.Lifecycle
use sagittarius_engine.Kernel.Lifecycle.{
  EngineState, engine_state_eq, booting, booted, stopping, stopped, EngineLifecycle, transition,
  set_ready, quietly,
}

-- The calls that booting and stopping make.
pub data Step : Type 0 where
  async_start discover extensions_start hosted_start scheduler_start emit_booted : Step
  scheduler_stop hosted_stop extensions_stop tasks_shutdown async_stop bus_shutdown : Step

pub data Exception : Type 0 where
  runtime_error value_error type_error attribute_error import_error os_error other_error : Exception

-- The `except` of `boot`.
abbrev pub caught_booting : Exception → Bool
caught_booting other_error = false
caught_booting _ = true

-- The `except`s of its cleanup.
abbrev pub caught_cleaning : Exception → Bool
caught_cleaning runtime_error = true
caught_cleaning value_error = true
caught_cleaning _ = false

pub data Outcome : Type 0 where
  returned : Outcome
  raised : Exception → Outcome
  lifecycle_raised : Lifecycle.Outcome → Outcome

pub record Engine : Type 0 where
  pub lifecycle : EngineLifecycle
  pub steps : List Step

abbrev pub attempted : Step → Engine → Engine
attempted s e = record e { steps = e.steps ++ s ∷ [] }

abbrev pub with_discovery : Bool → List Step
with_discovery true = discover ∷ extensions_start ∷ hosted_start ∷ scheduler_start ∷ []
with_discovery false = extensions_start ∷ hosted_start ∷ scheduler_start ∷ []

abbrev pub continue :
    Option Exception → Engine → Engine × Option Exception → Engine × Option Exception
continue none e rest = rest
continue (some x) e rest = (e, some x)

abbrev pub tidy : Option Exception → Engine → Engine × Option Exception → Engine × Option Exception
tidy none e rest = rest
tidy (some x) e rest = if caught_cleaning x then rest else (e, some x)

-- `raise e` behind the cleanup, which may raise on its own.
abbrev pub reraise : Exception → Engine × Option Exception → Engine × Outcome
reraise x (e, none) = (e, raised x)
reraise x (e, some y) = (e, raised y)

abbrev pub cleanup_steps : List Step
cleanup_steps = scheduler_stop ∷ hosted_stop ∷ async_stop ∷ []

abbrev pub lift : Lifecycle.Outcome → Outcome
lift Lifecycle.returned = returned
lift failure = lifecycle_raised failure

module _ (behaves : Step → Option Exception) (callback_raises : ℕ → Bool) where
  -- The body of the `try`.
  unfoldable pub run_steps : List Step → Engine → Engine × Option Exception
  run_steps [] e = (e, none)
  run_steps (s ∷ ss) e = continue (behaves s) (attempted s e) (run_steps ss (attempted s e))

  unfoldable pub clean_up : List Step → Engine → Engine × Option Exception
  clean_up [] e = (e, none)
  clean_up (s ∷ ss) e = tidy (behaves s) (attempted s e) (clean_up ss (attempted s e))

  make_ready : Engine → Engine × Outcome
  make_ready e =
      let (l, outcome) = set_ready (quietly callback_raises) e.lifecycle in
      (record e { lifecycle = l }, lift outcome)

  announce : EngineLifecycle × Lifecycle.Outcome → Engine → Engine × Outcome
  unfolding make_ready
  announce (l, Lifecycle.returned) e =
      make_ready (attempted emit_booted (record e { lifecycle = l }))
  announce (l, failure) e = (record e { lifecycle = l }, lifecycle_raised failure)

  -- Behind the `try`.
  unfoldable pub settle : Engine × Option Exception → Engine × Outcome
  unfolding clean_up announce
  settle (e, none) = announce (transition booted e.lifecycle) e
  settle (e, some x) =
      let cleaned = reraise x (clean_up cleanup_steps e) in
      if caught_booting x then cleaned else (e, raised x)

  -- The runtime is started before the `try`.
  start_runtime : Option Exception → Bool → Engine → Engine × Outcome
  unfolding settle run_steps
  start_runtime none auto_discover e = settle (run_steps (with_discovery auto_discover) e)
  start_runtime (some x) auto_discover e = (e, raised x)

  enter_boot : EngineLifecycle × Lifecycle.Outcome → Bool → Engine → Engine × Outcome
  unfolding start_runtime
  enter_boot (l, Lifecycle.returned) auto_discover e =
      start_runtime (behaves async_start) auto_discover
        (attempted async_start (record e { lifecycle = l }))
  enter_boot (l, failure) auto_discover e = (record e { lifecycle = l }, lifecycle_raised failure)

  unfoldable pub boot : Bool → Engine → Engine × Outcome
  unfolding enter_boot
  boot auto_discover e = enter_boot (transition booting e.lifecycle) auto_discover e

-- How a step ends: `_run_stop_step` logs an exception, and gives up on a thread that is still
-- alive.
pub data Ending : Type 0 where
  done : Ending
  failed : Exception → Ending
  hangs : Ending

abbrev pub stop_steps : List Step
stop_steps =
    scheduler_stop ∷ hosted_stop ∷ extensions_stop ∷ tasks_shutdown ∷ async_stop ∷ bus_shutdown ∷ []

-- The reports that the logger gets, by step.
pub data Report : Type 0 where
  reported_error : Step → Exception → Report
  reported_timeout : Step → Report

abbrev pub report : Step → Ending → List Report
report s done = []
report s (failed x) = reported_error s x ∷ []
report s hangs = reported_timeout s ∷ []

module _ (ends : Step → Ending) where
  abbrev pub run_stop_step : Step → Engine × List Report → Engine × List Report
  run_stop_step s (e, reports) = (attempted s e, reports ++ report s (ends s))

  unfoldable pub run_stop_steps : List Step → Engine × List Report → Engine × List Report
  run_stop_steps [] r = r
  run_stop_steps (s ∷ ss) r = run_stop_steps ss (run_stop_step s r)

  finish_stop : Engine × List Report → Engine × List Report × Outcome
  finish_stop (e, reports) =
      let (l, outcome) = transition stopped e.lifecycle in
      (record e { lifecycle = l }, reports, lift outcome)

  enter_stop : EngineLifecycle × Lifecycle.Outcome → Engine → Engine × List Report × Outcome
  unfolding run_stop_steps finish_stop
  enter_stop (l, Lifecycle.returned) e =
      finish_stop (run_stop_steps stop_steps (record e { lifecycle = l }, []))
  enter_stop (l, failure) e = (record e { lifecycle = l }, [], lifecycle_raised failure)

  unfoldable pub stop : Engine → Engine × List Report × Outcome
  unfolding enter_stop
  stop e =
      if e.lifecycle.state == stopping || e.lifecycle.state == stopped
      then (e, [], returned)
      else enter_stop (transition stopping e.lifecycle) e
