-- ===== src/Kernel/Boot/Starting.antt =====
-- `Bootstrap.boot` of kernel/bootstrap.py, when all goes well and when a step fails.
use sagittarius_engine.Prelude.{
  ℕ, Bool, true, false, Option, none, some, List, [], ◌∷◌, ◌++◌, ◌≡◌, refl, sym, ap, ◌∙◌, All, map,
  elem, append_assoc, append-nil, arith,
}
use sagittarius_engine.Kernel.Lifecycle
use sagittarius_engine.Kernel.Lifecycle.{
  EngineState, engine_state_eq, booting, booted, ready, allowed, called, emitted_ready,
  EngineLifecycle, transition, set_ready, call_all,
}
use sagittarius_engine.Kernel.Boot.{
  Step, async_start, emit_booted, Exception, caught_booting, caught_cleaning, returned, raised,
  Engine, attempted, with_discovery, continue, tidy, reraise, cleanup_steps, run_steps, clean_up,
  settle, boot, enter_boot, start_runtime, announce, make_ready, lift,
}
use sagittarius_engine.Kernel.Lifecycle.Quiet.{set_ready_quiet}

-- The engine with some steps attempted.
abbrev pub went : List Step → Engine → Engine
went ss e = record e { steps = e.steps ++ ss }

went-nil : (e : Engine) → e ≡ went [] e
went-nil e = ap (λ ss. record e { steps = ss }) (sym (append-nil e.steps))

went-cons : (s : Step) (ss : List Step) (e : Engine) → went ss (attempted s e) ≡ went (s ∷ ss) e
went-cons s ss e = ap (λ l. record e { steps = l }) (append_assoc e.steps (s ∷ []) ss)

to_booting :
    (l : EngineLifecycle)
    → elem booting (allowed l.state) ≡ true
    → transition booting l ≡ (record l { state = booting }, Lifecycle.returned)
unfolding transition
to_booting l h = ground arith

module _ (behaves : Step → Option Exception) (callback_raises : ℕ → Bool) where
  abbrev pub Returns : Step → Type 0
  Returns s = behaves s ≡ none

  -- The step raises at most what the cleanup catches.
  abbrev pub IsTidy : Step → Type 0
  IsTidy s = (y : Exception) → behaves s ≡ some y → caught_cleaning y ≡ true

  run_steps-append :
      (ss rest : List Step) (e : Engine)
      → All Returns ss
      → run_steps behaves callback_raises (ss ++ rest) e
        ≡ run_steps behaves callback_raises rest (went ss e)
  unfolding run_steps
  run_steps-append [] rest e h = ap (run_steps behaves callback_raises rest) (went-nil e)
  run_steps-append (s ∷ ss) rest e h =
      ap
        (λ o.
          continue o (attempted s e)
            (run_steps behaves callback_raises (ss ++ rest) (attempted s e)))
        h.0
      ∙ run_steps-append ss rest (attempted s e) h.1
      ∙ ap (run_steps behaves callback_raises rest) (went-cons s ss e)

  tidied :
      (o : Option Exception) (e : Engine) (rest : Engine × Option Exception)
      → ((y : Exception) → o ≡ some y → caught_cleaning y ≡ true)
      → tidy o e rest ≡ rest
  tidied none e rest h = refl
  tidied (some y) e rest h = rw (h y refl) refl

  clean_up_lem :
      (ss : List Step) (e : Engine)
      → All IsTidy ss
      → clean_up behaves callback_raises ss e ≡ (went ss e, none)
  unfolding clean_up
  clean_up_lem [] e h = ap (λ e'. (e', none)) (went-nil e)
  clean_up_lem (s ∷ ss) e h =
      tidied (behaves s) (attempted s e) (clean_up behaves callback_raises ss (attempted s e)) h.0
      ∙ clean_up_lem ss (attempted s e) h.1
      ∙ ap (λ e'. (e', none)) (went-cons s ss e)

  begun :
      (auto_discover : Bool) (e : Engine)
      → elem booting (allowed e.lifecycle.state) ≡ true
      → behaves async_start ≡ none
      → boot behaves callback_raises auto_discover e
        ≡ settle behaves callback_raises (
            run_steps behaves callback_raises (with_discovery auto_discover) (
              attempted async_start
                (record e { lifecycle = record e.lifecycle { state = booting } })))
  unfolding boot enter_boot start_runtime
  begun auto_discover e may runs =
      let started : Engine =
        attempted async_start (record e { lifecycle = record e.lifecycle { state = booting } }) in
      ap (λ t. enter_boot behaves callback_raises t auto_discover e) (to_booting e.lifecycle may)
      ∙ ap (λ o. start_runtime behaves callback_raises o auto_discover started) runs

  settle_caught :
      (e : Engine) (x : Exception)
      → caught_booting x ≡ true
      → settle behaves callback_raises (e, some x)
        ≡ reraise x (clean_up behaves callback_raises cleanup_steps e)
  unfolding settle
  settle_caught e x caught = rw caught refl

  -- Where the state lets the engine boot and the runtime starts: if a step of the sequence raises
  -- an exception that `boot` catches, behind steps that return, and the cleanup raises at most what
  -- it catches, then no further step is started; the scheduler, the hosted services and the runtime
  -- are stopped in this order, and not the extensions; `boot` raises the exception and leaves the
  -- engine in the state booting.
  pub boot_fails :
      (auto_discover : Bool) (before : List Step) (s : Step) (after : List Step) (x : Exception)
      (e : Engine)
      → with_discovery auto_discover ≡ before ++ s ∷ after
      → elem booting (allowed e.lifecycle.state) ≡ true
      → behaves async_start ≡ none
      → All Returns before
      → behaves s ≡ some x
      → caught_booting x ≡ true
      → All IsTidy cleanup_steps
      → boot behaves callback_raises auto_discover e ≡ (
        record {
          lifecycle = record e.lifecycle { state = booting };
          steps = ((e.steps ++ async_start ∷ before) ++ s ∷ []) ++ cleanup_steps;
        },
        raised x,
      )
  unfolding run_steps
  boot_fails auto_discover before s after x e sequence may runs h fails caught tidy_steps =
      let started : Engine =
        attempted async_start (record e { lifecycle = record e.lifecycle { state = booting } }) in
      let failed : Engine = attempted s (went before started) in
      begun auto_discover e may runs
      ∙ ap (λ ss. settle behaves callback_raises (run_steps behaves callback_raises ss started))
          sequence
      ∙ ap (settle behaves callback_raises) (run_steps-append before (s ∷ after) started h)
      ∙ ap
          (λ o.
            settle behaves callback_raises
              (continue o failed (run_steps behaves callback_raises after failed)))
          fails
      ∙ settle_caught failed x caught
      ∙ ap (reraise x) (clean_up_lem cleanup_steps failed tidy_steps)
      ∙ ap
          (λ l. (
            record { lifecycle = started.lifecycle; steps = (l ++ s ∷ []) ++ cleanup_steps },
            raised x,
          ))
          (append_assoc e.steps (async_start ∷ []) before)

  -- Where the state lets the engine boot, all steps return and no waiting callback raises: `boot`
  -- returns with the engine ready. It has started the runtime and then each part in order,
  -- announced that it is booted, called each waiting callback once, and last emitted `app.ready`.
  pub boot_succeeds :
      (auto_discover : Bool) (e : Engine)
      → elem booting (allowed e.lifecycle.state) ≡ true
      → behaves async_start ≡ none
      → All Returns (with_discovery auto_discover)
      → All (λ cb. callback_raises cb ≡ false) e.lifecycle.ready_callbacks
      → boot behaves callback_raises auto_discover e ≡ (
        record {
          lifecycle = record {
            state = ready;
            ready_callbacks = [];
            effects =
                (e.lifecycle.effects ++ map called e.lifecycle.ready_callbacks)
                ++ emitted_ready ∷ [];
          };
          steps = (e.steps ++ async_start ∷ with_discovery auto_discover) ++ emit_booted ∷ [];
        },
        returned,
      )
  unfolding settle run_steps announce make_ready transition
  boot_succeeds auto_discover e may runs h quiet =
      let started : Engine =
        attempted async_start (record e { lifecycle = record e.lifecycle { state = booting } }) in
      let ss : List Step = with_discovery auto_discover in
      begun auto_discover e may runs
      ∙ ap (λ l. settle behaves callback_raises (run_steps behaves callback_raises l started))
          (sym (append-nil ss))
      ∙ ap (settle behaves callback_raises) (run_steps-append ss [] started h)
      ∙ ap
          (λ r. (
            record {
              lifecycle = r.0;
              steps = ((e.steps ++ async_start ∷ []) ++ ss) ++ emit_booted ∷ [];
            },
            lift r.1,
          ))
          (set_ready_quiet callback_raises e.lifecycle.ready_callbacks e.lifecycle.effects quiet)
      ∙ ap
          (λ l. (
            record {
              lifecycle = record {
                state = ready;
                ready_callbacks = [];
                effects =
                    (e.lifecycle.effects ++ map called e.lifecycle.ready_callbacks)
                    ++ emitted_ready ∷ [];
              };
              steps = l ++ emit_booted ∷ [];
            },
            returned,
          ))
          (append_assoc e.steps (async_start ∷ []) ss)
