-- ===== src/Kernel/Lifecycle.antt =====
-- kernel/lifecycle.py: the engine's state, its transitions and the one-shot `app.ready` milestone.
-- A callback is its identity, and `effect` says how a call of it leaves the lifecycle, which it may
-- call back, and whether it raises. What a method does to the outside, the calls of callbacks and the
-- emitted events, is appended to `effects`.
pub mod Edges
pub mod Ready
pub mod Callbacks
pub mod Quiet
use sagittarius_engine.Prelude.{
  ℕ, ◌≡◌, ◌↔◌, Bool, true, false, List, [], ◌∷◌, ◌++◌, Eq, ◌==◌, elem, if◌then◌else◌, arith,
}

pub data EngineState : Type 0 where
  created booting booted ready stopping stopped : EngineState

abbrev state_beq : EngineState → EngineState → Bool
state_beq created created = true
state_beq booting booting = true
state_beq booted booted = true
state_beq ready ready = true
state_beq stopping stopping = true
state_beq stopped stopped = true
state_beq _ _ = false

pub state_beq_iff : (a b : EngineState) → (state_beq a b ≡ true) ↔ (a ≡ b)
state_beq_iff a b = ground arith

instance abbrev pub engine_state_eq : Eq EngineState
engine_state_eq = record { test = state_beq; test_iff = state_beq_iff }

-- The table `_ALLOWED`.
abbrev pub allowed : EngineState → List EngineState
allowed created = booting ∷ stopping ∷ stopped ∷ []
allowed booting = booted ∷ stopping ∷ stopped ∷ []
allowed booted = ready ∷ stopping ∷ stopped ∷ []
allowed ready = stopping ∷ stopped ∷ []
allowed stopping = stopped ∷ []
allowed stopped = booting ∷ []

pub data Effect : Type 0 where
  called : ℕ → Effect
  emitted_ready : Effect

pub data Outcome : Type 0 where
  returned : Outcome
  invalid_transition : EngineState → EngineState → Outcome
  callback_raised : ℕ → Outcome

pub record EngineLifecycle : Type 0 where
  pub state : EngineState
  pub ready_callbacks : List ℕ
  pub effects : List Effect

abbrev pub new : EngineLifecycle
new = record { state = created; ready_callbacks = []; effects = [] }

unfoldable pub transition : EngineState → EngineLifecycle → EngineLifecycle × Outcome
transition target l =
    if target == l.state
    then (l, returned)
    else if elem target (allowed l.state)
    then (record l { state = target }, returned)
    else (l, invalid_transition l.state target)

abbrev pub is_ready : EngineLifecycle → Bool
is_ready l = l.state == ready

abbrev pub is_booted : EngineLifecycle → Bool
is_booted l = elem l.state (booted ∷ ready ∷ [])

abbrev log : Effect → EngineLifecycle → EngineLifecycle
log e l = record l { effects = l.effects ++ e ∷ [] }

-- A callback that does not call the lifecycle back.
abbrev pub quietly : (ℕ → Bool) → ℕ → EngineLifecycle → EngineLifecycle × Bool
quietly raises cb l = (l, raises cb)

module _ (effect : ℕ → EngineLifecycle → EngineLifecycle × Bool) where
  unfoldable pub call : ℕ → EngineLifecycle → EngineLifecycle × Outcome
  call cb l =
      let (l', raised) = effect cb (log (called cb) l) in
      (l', if raised then callback_raised cb else returned)

  -- The `for` loop of `set_ready`: the first callback that raises ends it.
  unfoldable pub call_all : List ℕ → EngineLifecycle → EngineLifecycle × Outcome
  call_all [] l = (l, returned)
  call_all (cb ∷ cbs) l =
      let (l', raised) = effect cb (log (called cb) l) in
      let rest = call_all cbs l' in if raised then (l', callback_raised cb) else rest

  emit_after : EngineLifecycle × Outcome → EngineLifecycle × Outcome
  emit_after (l, returned) = (log emitted_ready l, returned)
  emit_after (l, failure) = (l, failure)

  enter_ready : EngineLifecycle × Outcome → EngineLifecycle × Outcome
  enter_ready (l, returned) =
      emit_after (call_all l.ready_callbacks (record l { ready_callbacks = [] }))
  enter_ready (l, failure) = (l, failure)

  unfoldable pub set_ready : EngineLifecycle → EngineLifecycle × Outcome
  unfolding emit_after enter_ready
  set_ready l = if is_ready l then (l, returned) else enter_ready (transition ready l)

  unfoldable pub when_ready : ℕ → EngineLifecycle → EngineLifecycle × Outcome
  unfolding call
  when_ready cb l =
      if is_ready l
      then call cb l
      else (record l { ready_callbacks = l.ready_callbacks ++ cb ∷ [] }, returned)

-- The public methods.
pub data Method : Type 0 where
  set_booting set_booted set_stopping set_stopped sets_ready : Method
  when_readies : ℕ → Method

unfoldable pub perform :
    (ℕ → EngineLifecycle → EngineLifecycle × Bool)
    → Method
    → EngineLifecycle
    → EngineLifecycle × Outcome
unfolding transition set_ready when_ready
perform effect set_booting = transition booting
perform effect set_booted = transition booted
perform effect set_stopping = transition stopping
perform effect set_stopped = transition stopped
perform effect sets_ready = set_ready effect
perform effect (when_readies cb) = when_ready effect cb

-- A client that goes on after an exception.
unfoldable pub history :
    (ℕ → EngineLifecycle → EngineLifecycle × Bool) → List Method → EngineLifecycle → EngineLifecycle
history effect [] l = l
history effect (m ∷ ms) l = history effect ms (perform effect m l).0
