-- ===== src/Kernel/Boot/Stopping.antt =====
-- `App.stop` of kernel/app.py.
use sagittarius_engine.Prelude.{
  false, ◌||◌, List, [], ◌∷◌, ◌++◌, ◌==◌, ◌≡◌, refl, sym, ap, ◌∙◌, append_assoc, append-nil, arith,
}
use sagittarius_engine.Kernel.Lifecycle.{
  EngineState, engine_state_eq, stopping, stopped, EngineLifecycle, transition,
}
use sagittarius_engine.Kernel.Lifecycle
use sagittarius_engine.Kernel.Boot.{
  Step, Engine, Ending, Report, report, returned, attempted, stop_steps, run_stop_steps, enter_stop,
  finish_stop, stop,
}

abbrev pub reports_of : (Step → Ending) → List Step → List Report
reports_of ends [] = []
reports_of ends (s ∷ ss) = report s (ends s) ++ reports_of ends ss

to_stopping :
    (l : EngineLifecycle)
    → (l.state == stopping || l.state == stopped) ≡ false
    → transition stopping l ≡ (record l { state = stopping }, Lifecycle.returned)
unfolding transition
to_stopping l h = ground arith

module _ (ends : Step → Ending) where
  run_stop_steps_lem :
      (ss : List Step) (e : Engine) (rs : List Report)
      → run_stop_steps ends ss (e, rs)
        ≡ (record e { steps = e.steps ++ ss }, rs ++ reports_of ends ss)
  unfolding run_stop_steps
  run_stop_steps_lem [] e rs =
      ap (λ l. (record e { steps = l }, rs)) (sym (append-nil e.steps))
      ∙ ap (λ l. (record e { steps = e.steps ++ [] }, l)) (sym (append-nil rs))
  run_stop_steps_lem (s ∷ ss) e rs =
      run_stop_steps_lem ss (attempted s e) (rs ++ report s (ends s))
      ∙ ap (λ l. (record e { steps = l }, (rs ++ report s (ends s)) ++ reports_of ends ss))
          (append_assoc e.steps (s ∷ []) ss)
      ∙ ap (λ l. (record e { steps = e.steps ++ s ∷ ss }, l))
          (append_assoc rs (report s (ends s)) (reports_of ends ss))

  enters :
      (e : Engine)
      → (e.lifecycle.state == stopping || e.lifecycle.state == stopped) ≡ false
      → stop ends e ≡ enter_stop ends (transition stopping e.lifecycle) e
  unfolding stop
  enters e h = rw h refl

  -- Whatever the steps do, also if they raise or hang: `stop` on an engine that is not stopping
  -- yet, in any other state, attempts the six steps, each once and in order, and ends with the
  -- engine stopped. What raised or hung is reported, in order. A second `stop` does nothing.
  pub stop_completes :
      (e : Engine)
      → (e.lifecycle.state == stopping || e.lifecycle.state == stopped) ≡ false
      → let e' : Engine = record {
        lifecycle = record e.lifecycle { state = stopped };
        steps = e.steps ++ stop_steps;
      } in
        (stop ends e ≡ (e', reports_of ends stop_steps, returned))
        × (stop ends e' ≡ (e', [], returned))
  unfolding stop enter_stop finish_stop transition
  stop_completes e h = (
    enters e h
        ∙ ap (λ t. enter_stop ends t e) (to_stopping e.lifecycle h)
        ∙ ap (finish_stop ends) (
            run_stop_steps_lem stop_steps
              (record e { lifecycle = record e.lifecycle { state = stopping } }) []),
    refl,
  )
