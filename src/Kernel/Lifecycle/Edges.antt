-- ===== src/Kernel/Lifecycle/Edges.antt =====
-- Every method of kernel/lifecycle.py moves along the table `_ALLOWED` or not at all.
use sagittarius_engine.Prelude.{
  ℕ, ◌≡◌, ◌⊎◌, ◌≢◌, refl, Bool, true, false, List, [], ◌∷◌, elem, arith,
}
use sagittarius_engine.Kernel.Lifecycle.{
  quietly, EngineState, engine_state_eq, log, called, EngineLifecycle, Method, allowed, transition,
  call_all, set_ready, perform, set_booting, set_booted, set_stopping, set_stopped, sets_ready,
  when_readies, invalid_transition, booting, booted, ready, stopping, stopped,
}

abbrev pub Edge : EngineState → EngineState → Type 0
Edge s t = (s ≡ t) ⊎ (elem t (allowed s) ≡ true)

pub state-call_all :
    (raises : ℕ → Bool) (cbs : List ℕ) (l : EngineLifecycle)
    → (call_all (quietly raises) cbs l).0.state ≡ l.state
unfolding call_all
state-call_all raises [] l = refl
state-call_all raises (cb ∷ cbs) l = ground (arith, state-call_all raises cbs (log (called cb) l))

transition-Edge :
    (target : EngineState) (l : EngineLifecycle) → Edge l.state (transition target l).0.state
unfolding transition
transition-Edge target l = ground arith

set_ready-Edge :
    (raises : ℕ → Bool) (l : EngineLifecycle) → Edge l.state (set_ready (quietly raises) l).0.state
unfolding set_ready transition
set_ready-Edge raises l = ground (
  arith,
  state-call_all raises l.ready_callbacks (record l { state = ready; ready_callbacks = [] }),
)

-- Whatever public method is called, in whatever state, and whichever callbacks raise, where none calls
-- the lifecycle back: afterwards
-- the state is as before, or one that the table `_ALLOWED` gives for the state before.
pub perform-Edge :
    (raises : ℕ → Bool) (m : Method) (l : EngineLifecycle)
    → Edge l.state (perform (quietly raises) m l).0.state
unfolding perform
perform-Edge raises set_booting l = transition-Edge booting l
perform-Edge raises set_booted l = transition-Edge booted l
perform-Edge raises set_stopping l = transition-Edge stopping l
perform-Edge raises set_stopped l = transition-Edge stopped l
perform-Edge raises sets_ready l = set_ready-Edge raises l
perform-Edge raises (when_readies cb) l = ground arith

call_all-ne-invalid :
    (raises : ℕ → Bool) (cbs : List ℕ) (l : EngineLifecycle) (s t : EngineState)
    → (call_all (quietly raises) cbs l).1 ≢ invalid_transition s t
unfolding call_all
call_all-ne-invalid raises [] l s t = λ e. cc
call_all-ne-invalid raises (cb ∷ cbs) l s t =
    ground (arith, call_all-ne-invalid raises cbs (log (called cb) l) s t)

transition_rejected :
    (target : EngineState) (l : EngineLifecycle) (s t : EngineState)
    → (transition target l).1 ≡ invalid_transition s t
    → ((transition target l).0 ≡ l) × (s ≡ l.state) × (elem t (allowed s) ≡ false)
unfolding transition
transition_rejected target l s t h = ground arith

-- Where no callback calls the lifecycle back, a method that raises InvalidStateTransition has changed nothing: neither the state, nor the
-- callbacks that wait, nor anything outside. The error names the state and a target that the
-- table does not allow from it.
pub perform_rejected :
    (raises : ℕ → Bool) (m : Method) (l : EngineLifecycle) {s t : EngineState}
    → (perform (quietly raises) m l).1 ≡ invalid_transition s t
    → ((perform (quietly raises) m l).0 ≡ l) × (s ≡ l.state) × (elem t (allowed s) ≡ false)
unfolding perform set_ready
perform_rejected raises set_booting l h = transition_rejected booting l _ _ h
perform_rejected raises set_booted l h = transition_rejected booted l _ _ h
perform_rejected raises set_stopping l h = transition_rejected stopping l _ _ h
perform_rejected raises set_stopped l h = transition_rejected stopped l _ _ h
perform_rejected raises sets_ready l {s} {t} h = ground (
  arith,
  transition_rejected ready l s t,
  call_all-ne-invalid raises l.ready_callbacks (record l { state = ready; ready_callbacks = [] }) s
      t,
)
perform_rejected raises (when_readies cb) l h = ground arith
