-- ===== src/Kernel/Lifecycle/Callbacks.antt =====
-- The callbacks of `when_ready` in kernel/lifecycle.py: which have run, also when one of them
-- raises.
use sagittarius_engine.Prelude.{
  All, ℕ, ◌≡◌, ◌∙◌, sym, ap, refl, Bool, true, false, List, [], ◌∷◌, ◌++◌, append-nil, append_assoc,
  arith,
}
use sagittarius_engine.Kernel.Lifecycle.{
  call, quietly, engine_state_eq, log, called, emitted_ready, EngineLifecycle, Method, transition,
  call_all, set_ready, when_ready, perform, history, set_booting, set_booted, set_stopping,
  set_stopped, sets_ready, when_readies, returned, booted, ready, new, callback_raised,
}
use sagittarius_engine.Kernel.Lifecycle.Ready.{
  readies, calls, calls-append, registered, readies-call_all, IsSettled,
}

call_all_raised :
    (raises : ℕ → Bool) (before : List ℕ) (cb : ℕ) (after : List ℕ) (l : EngineLifecycle)
    → All (λ c. raises c ≡ false) before
    → raises cb ≡ true
    → ((call_all (quietly raises) (before ++ cb ∷ after) l).1 ≡ callback_raised cb)
      × (calls (call_all (quietly raises) (before ++ cb ∷ after) l).0.effects
          ≡ calls l.effects ++ (before ++ cb ∷ []))
unfolding call_all
call_all_raised raises [] cb after l q r = rw r (refl, calls-append l.effects (called cb ∷ []))
call_all_raised raises (b ∷ before) cb after l q r =
    let ih = call_all_raised raises before cb after (log (called b) l) q.1 r in
    rw q.0 (
      ih.0,
      ih.1
          ∙ ap (λ es. es ++ (before ++ cb ∷ [])) (calls-append l.effects (called b ∷ []))
          ∙ append_assoc (calls l.effects) (b ∷ []) (before ++ cb ∷ []),
    )

-- `set_ready` on a booted engine whose callbacks do not call the lifecycle back and whose callback
-- `cb` is the first to raise: the engine is ready,
-- `app.ready` is not emitted, the callbacks behind `cb` are dropped without a call, and calling
-- `set_ready` again does nothing.
pub set_ready_raised :
    (raises : ℕ → Bool) (before : List ℕ) (cb : ℕ) (after : List ℕ) (l : EngineLifecycle)
    → l.state ≡ booted
    → l.ready_callbacks ≡ before ++ cb ∷ after
    → All (λ c. raises c ≡ false) before
    → raises cb ≡ true
    → let (l', outcome) = set_ready (quietly raises) l in
      (outcome ≡ callback_raised cb)
      × (l'.state ≡ ready)
      × (calls l'.effects ≡ calls l.effects ++ (before ++ cb ∷ []))
      × (readies l'.effects ≡ readies l.effects)
      × (l'.ready_callbacks ≡ [])
      × (set_ready (quietly raises) l' ≡ (l', returned))
unfolding set_ready transition
set_ready_raised raises before cb after l s w q r =
    let start = record l { state = ready; ready_callbacks = [] } in
    let looped = call_all_raised raises before cb after start q r in
    let kept = readies-call_all raises (before ++ cb ∷ after) start in ground arith

-- A callback that is called on a ready engine does not raise, and does nothing to the lifecycle but
-- have the callbacks of `inner` called.
pub record RunsInner (effect : ℕ → EngineLifecycle → EngineLifecycle × Bool) (inner : ℕ → List ℕ)
    : Type 0 where
  pub quiet : (cb : ℕ) (l : EngineLifecycle) → l.state ≡ ready → (effect cb l).1 ≡ false
  pub runs :
      (cb : ℕ) (l : EngineLifecycle)
      → l.state ≡ ready
      → calls (effect cb l).0.effects ≡ calls l.effects ++ inner cb
  pub stays : (cb : ℕ) (l : EngineLifecycle) → l.state ≡ ready → (effect cb l).0.state ≡ ready
  pub waits :
      (cb : ℕ) (l : EngineLifecycle)
      → l.state ≡ ready
      → (effect cb l).0.ready_callbacks ≡ l.ready_callbacks

-- Each callback with those that it has called.
abbrev pub with_inner : (ℕ → List ℕ) → List ℕ → List ℕ
with_inner inner [] = []
with_inner inner (cb ∷ cbs) = cb ∷ (inner cb ++ with_inner inner cbs)

with_inner-append :
    (inner : ℕ → List ℕ) (xs : List ℕ) (cb : ℕ)
    → with_inner inner (xs ++ cb ∷ []) ≡ with_inner inner xs ++ cb ∷ inner cb
with_inner-append inner [] cb = ap (◌∷◌ cb) (append-nil (inner cb))
with_inner-append inner (x ∷ xs) cb = ap (◌∷◌ x) (
    ap (λ ys. inner x ++ ys) (with_inner-append inner xs cb)
    ∙ sym (append_assoc (inner x) (with_inner inner xs) (cb ∷ inner cb)))

module _ (effect : ℕ → EngineLifecycle → EngineLifecycle × Bool) (inner : ℕ → List ℕ)
    (is : RunsInner effect inner) where
  calls_one :
      (cb : ℕ) (l : EngineLifecycle)
      → l.state ≡ ready
      → calls (effect cb (log (called cb) l)).0.effects ≡ calls l.effects ++ cb ∷ inner cb
  calls_one cb l s =
      is.runs cb (log (called cb) l) s
      ∙ ap (λ es. es ++ inner cb) (calls-append l.effects (called cb ∷ []))
      ∙ append_assoc (calls l.effects) (cb ∷ []) (inner cb)

  calls-call_all :
      (cbs : List ℕ) (l : EngineLifecycle)
      → l.state ≡ ready
      → (calls (call_all effect cbs l).0.effects ≡ calls l.effects ++ with_inner inner cbs)
        × ((call_all effect cbs l).1 ≡ returned)
        × ((call_all effect cbs l).0.ready_callbacks ≡ l.ready_callbacks)
        × ((call_all effect cbs l).0.state ≡ ready)
  unfolding call_all
  calls-call_all [] l s = (sym (append-nil (calls l.effects)), refl, refl, s)
  calls-call_all (cb ∷ cbs) l s =
      let l' = (effect cb (log (called cb) l)).0 in
      let ih = calls-call_all cbs l' (is.stays cb (log (called cb) l) s) in
      rw (is.quiet cb (log (called cb) l) s) (
        ih.0
            ∙ ap (λ es. es ++ with_inner inner cbs) (calls_one cb l s)
            ∙ append_assoc (calls l.effects) (cb ∷ inner cb) (with_inner inner cbs),
        ih.1,
        ih.2 ∙ is.waits cb (log (called cb) l) s,
        ih.3,
      )

  -- What was called, then what waits, in order.
  abbrev handled : EngineLifecycle → List ℕ
  handled l = calls l.effects ++ with_inner inner l.ready_callbacks

  abbrev Handles : Method → EngineLifecycle → EngineLifecycle → Type 0
  Handles m l l' = (handled l' ≡ handled l ++ with_inner inner (registered (m ∷ []))) × IsSettled l'

  handled-perform :
      (m : Method) (l : EngineLifecycle) → IsSettled l → Handles m l (perform effect m l).0
  unfolding perform set_ready when_ready transition call
  handled-perform set_booting l h = ground (arith, append-nil (handled l))
  handled-perform set_booted l h = ground (arith, append-nil (handled l))
  handled-perform set_stopping l h = ground (arith, append-nil (handled l))
  handled-perform set_stopped l h = ground (arith, append-nil (handled l))
  handled-perform sets_ready l h =
      let start = record l { state = ready; ready_callbacks = [] } in
      let after = (call_all effect l.ready_callbacks start).0 in
      ground (
        arith,
        append-nil (handled l),
        calls-call_all l.ready_callbacks start,
        calls-append after.effects (emitted_ready ∷ []),
        append-nil (calls after.effects),
      )
  handled-perform (when_readies cb) l h = ground (
    arith,
    calls_one cb l,
    is.stays cb (log (called cb) l),
    is.waits cb (log (called cb) l),
    append-nil (inner cb),
    append-nil (calls l.effects),
    append-nil (calls (effect cb (log (called cb) l)).0.effects),
    with_inner-append inner l.ready_callbacks cb,
    append_assoc (calls l.effects) (with_inner inner l.ready_callbacks) (cb ∷ inner cb),
  )

  registered-cons :
      (m : Method) (ms : List Method)
      → with_inner inner (registered (m ∷ ms))
        ≡ with_inner inner (registered (m ∷ [])) ++ with_inner inner (registered ms)
  registered-cons (when_readies cb) ms =
      ap (λ ys. cb ∷ (ys ++ with_inner inner (registered ms))) (sym (append-nil (inner cb)))
  registered-cons set_booting ms = refl
  registered-cons set_booted ms = refl
  registered-cons set_stopping ms = refl
  registered-cons set_stopped ms = refl
  registered-cons sets_ready ms = refl

  handled-history :
      (ms : List Method) (l : EngineLifecycle)
      → IsSettled l
      → (handled (history effect ms l) ≡ handled l ++ with_inner inner (registered ms))
        × IsSettled (history effect ms l)
  unfolding history
  handled-history [] l h = (sym (append-nil (handled l)), h)
  handled-history (m ∷ ms) l h =
      let (one, settled) = handled-perform m l h in
      let (more, settled') = handled-history ms (perform effect m l).0 settled in
      (
        more
            ∙ ap (λ xs. xs ++ with_inner inner (registered ms)) one
            ∙ append_assoc (handled l) (with_inner inner (registered (m ∷ [])))
                (with_inner inner (registered ms))
            ∙ ap (λ xs. handled l ++ xs) (sym (registered-cons m ms)),
        settled',
      )

  -- Where a callback that is called on a ready engine does not raise, and does nothing to the
  -- lifecycle but have the callbacks of `inner` called, as `when_ready` then does: over any calls of
  -- the public methods on a new engine, the callbacks given to `when_ready` have each run once for
  -- each registration or still wait, in the order in which they were registered, and the inner ones
  -- of each run right behind it, before those that were registered next; once the engine is ready
  -- none waits.
  pub history_in_order :
      (ms : List Method)
      → let l = history effect ms new in
        (calls l.effects ++ with_inner inner l.ready_callbacks ≡ with_inner inner (registered ms))
        × (l.state ≡ ready → l.ready_callbacks ≡ [])
  history_in_order ms = handled-history ms new (λ e. refl)
