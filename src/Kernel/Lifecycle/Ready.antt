-- ===== src/Kernel/Lifecycle/Ready.antt =====
-- The `app.ready` milestone of kernel/lifecycle.py: how often it is emitted, and that nothing waits
-- once it is.
use sagittarius_engine.Prelude.{ℕ, suc, ◌+◌, ◌≤◌, ◌≡◌, ap, refl, Bool, List, [], ◌∷◌, ◌++◌, arith}
use sagittarius_engine.Kernel.Lifecycle.{
  quietly, EngineState, engine_state_eq, log, called, emitted_ready, EngineLifecycle, Method,
  transition, call_all, set_ready, when_ready, perform, history, set_booting, set_booted,
  set_stopping, set_stopped, sets_ready, when_readies, booting, booted, ready, Effect, new,
}

-- How often `app.ready` was emitted.
abbrev pub readies : List Effect → ℕ
readies [] = 0
readies (called cb ∷ es) = readies es
readies (emitted_ready ∷ es) = suc (readies es)

-- The callbacks that were called, in order.
abbrev pub calls : List Effect → List ℕ
calls [] = []
calls (called cb ∷ es) = cb ∷ calls es
calls (emitted_ready ∷ es) = calls es

readies-append : (xs ys : List Effect) → readies (xs ++ ys) ≡ readies xs + readies ys
readies-append [] ys = omega arith
readies-append (called cb ∷ xs) ys = readies-append xs ys
readies-append (emitted_ready ∷ xs) ys = omega (arith, readies-append xs ys)

pub calls-append : (xs ys : List Effect) → calls (xs ++ ys) ≡ calls xs ++ calls ys
calls-append [] ys = refl
calls-append (called cb ∷ xs) ys = ap (◌∷◌ cb) (calls-append xs ys)
calls-append (emitted_ready ∷ xs) ys = calls-append xs ys

abbrev pub boots : List Method → ℕ
boots [] = 0
boots (set_booting ∷ ms) = suc (boots ms)
boots (m ∷ ms) = boots ms

abbrev pub registered : List Method → List ℕ
registered [] = []
registered (when_readies cb ∷ ms) = cb ∷ registered ms
registered (m ∷ ms) = registered ms

-- One emission is still to come from a boot under way.
abbrev due : EngineState → ℕ
due booting = 1
due booted = 1
due _ = 0

pub readies-call_all :
    (raises : ℕ → Bool) (cbs : List ℕ) (l : EngineLifecycle)
    → (readies (call_all (quietly raises) cbs l).0.effects ≡ readies l.effects)
      × ((call_all (quietly raises) cbs l).0.state ≡ l.state)
      × ((call_all (quietly raises) cbs l).0.ready_callbacks ≡ l.ready_callbacks)
unfolding call_all
readies-call_all raises [] l = (refl, refl, refl)
readies-call_all raises (cb ∷ cbs) l = ground (
  arith,
  readies-append l.effects (called cb ∷ []),
  readies-call_all raises cbs (log (called cb) l),
)

boots_count : Method → ℕ
boots_count m = boots (m ∷ [])

readies-perform :
    (raises : ℕ → Bool) (m : Method) (ms : List Method) (l : EngineLifecycle)
    → readies (perform (quietly raises) m l).0.effects
        + due (perform (quietly raises) m l).0.state
        + boots ms
      ≤ readies l.effects + due l.state + boots (m ∷ ms)
unfolding perform set_ready when_ready transition
readies-perform raises set_booting ms l = ground arith
readies-perform raises set_booted ms l = ground arith
readies-perform raises set_stopping ms l = ground arith
readies-perform raises set_stopped ms l = ground arith
readies-perform raises sets_ready ms l =
    let start = record l { state = ready; ready_callbacks = [] } in
    ground (
      arith,
      readies-call_all raises l.ready_callbacks start,
      readies-append (call_all (quietly raises) l.ready_callbacks start).0.effects
          (emitted_ready ∷ []),
    )
readies-perform raises (when_readies cb) ms l =
    ground (arith, readies-append l.effects (called cb ∷ []))

readies-history :
    (raises : ℕ → Bool) (ms : List Method) (l : EngineLifecycle)
    → readies (history (quietly raises) ms l).effects + due (history (quietly raises) ms l).state
      ≤ readies l.effects + due l.state + boots ms
unfolding history
readies-history raises [] l = omega arith
readies-history raises (m ∷ ms) l = omega (
  arith,
  readies-perform raises m ms l,
  readies-history raises ms (perform (quietly raises) m l).0,
)

-- Over any calls of the public methods on a new engine, whatever they raise, where no callback calls
-- the lifecycle back, `app.ready` is
-- emitted at most once for each call of `set_booting`.
pub readies-le-boots :
    (raises : ℕ → Bool) (ms : List Method)
    → readies (history (quietly raises) ms new).effects ≤ boots ms
readies-le-boots raises ms = omega (arith, readies-history raises ms new)

-- No callback waits on an engine that is ready.
abbrev pub IsSettled : EngineLifecycle → Type 0
IsSettled l = l.state ≡ ready → l.ready_callbacks ≡ []

-- Where no callback calls the lifecycle back: if no callback waits on a ready engine, then none does after any public method either, also
-- where a callback raises half-way through `set_ready`.
pub perform-IsSettled :
    (raises : ℕ → Bool) (m : Method) (l : EngineLifecycle)
    → IsSettled l
    → IsSettled (perform (quietly raises) m l).0
unfolding perform set_ready when_ready transition
perform-IsSettled raises set_booting l h = ground arith
perform-IsSettled raises set_booted l h = ground arith
perform-IsSettled raises set_stopping l h = ground arith
perform-IsSettled raises set_stopped l h = ground arith
perform-IsSettled raises sets_ready l h = ground (
  arith,
  readies-call_all raises l.ready_callbacks (record l { state = ready; ready_callbacks = [] }),
)
perform-IsSettled raises (when_readies cb) l h = ground arith

pub history-IsSettled :
    (raises : ℕ → Bool) (ms : List Method) (l : EngineLifecycle)
    → IsSettled l
    → IsSettled (history (quietly raises) ms l)
unfolding history
history-IsSettled raises [] l h = h
history-IsSettled raises (m ∷ ms) l h =
    history-IsSettled raises ms (perform (quietly raises) m l).0 (perform-IsSettled raises m l h)
