-- ===== src/Fsm/Base.antt =====
-- extensions/fsm/state_machine.py. A callback is its identity. What it does to the machine is
-- `requests`: the states to which it calls `transition_to`, one after another, given the state that
-- it finds. An exception that it raises itself is logged and has no other effect. Callbacks that
-- register callbacks are not modelled.
pub mod Legality
use sagittarius_engine.Prelude.{
  ℕ, zero, suc, Bool, true, false, Option, none, some, List, [], ◌∷◌, ◌++◌, Eq, ◌==◌, elem,
  if◌then◌else◌, Dict, get, put,
}

-- What happens in the course of a transition. `changed` shows the state that is overwritten.
pub data Trace (S : Type 0) : Type 0 where
  exit_called enter_called : S → ℕ → Trace S
  global_called : S → S → ℕ → Trace S
  changed : S → S → Trace S

pub record Machine (S : Type 0) : Type 0 where
  pub current_state : S
  pub allowed_transitions : Dict S (List S)
  pub enter_callbacks : Dict S (List ℕ)
  pub exit_callbacks : Dict S (List ℕ)
  pub global_callbacks : List ℕ
  pub trace : List (Trace S)

pub data Outcome (S : Type 0) : Type 0 where
  moved : Outcome S
  invalid_transition : S → S → Outcome S
  recursion_error : Outcome S

module _ {S : Type 0} where
  abbrev pub new : S → Machine S
  new s = record {
    current_state = s;
    allowed_transitions = [];
    enter_callbacks = [];
    exit_callbacks = [];
    global_callbacks = [];
    trace = [];
  }

  abbrev pub log : Trace S → Machine S → Machine S
  log t m = record m { trace = m.trace ++ t ∷ [] }

-- `transition_to`, as the callbacks find it.
abbrev pub Call : Type 0 → Type 0
Call S = S → Machine S → Machine S × Outcome S

module _ {S : Type 0} ⦃e : Eq S⦄ where
  -- `d.get(k, [])`, and of a set.
  abbrev pub get_all : {A : Type 0} → S → Dict S (List A) → List A
  get_all s d = elim (get s d) [ none ↦ [] | some xs ↦ xs ]

  unfoldable pub add_transition : S → S → Machine S → Machine S
  add_transition from to m =
      let targets = get_all from m.allowed_transitions in
      if elem to targets
      then m
      else record m { allowed_transitions = put from (targets ++ to ∷ []) m.allowed_transitions }

  unfoldable pub on_enter : S → ℕ → Machine S → Machine S
  on_enter s cb m = record m {
    enter_callbacks = put s (get_all s m.enter_callbacks ++ cb ∷ []) m.enter_callbacks;
  }

  unfoldable pub on_exit : S → ℕ → Machine S → Machine S
  on_exit s cb m = record m {
    exit_callbacks = put s (get_all s m.exit_callbacks ++ cb ∷ []) m.exit_callbacks;
  }

  unfoldable pub add_global_callback : ℕ → Machine S → Machine S
  add_global_callback cb m = record m { global_callbacks = m.global_callbacks ++ cb ∷ [] }

  abbrev succeeded : Outcome S → Bool
  succeeded moved = true
  succeeded _ = false

  -- The body of a callback: an exception from `transition_to` ends it.
  unfoldable pub request_each : Call S → List S → Machine S → Machine S
  request_each call [] m = m
  request_each call (t ∷ ts) m =
      let (m', outcome) = call t m in
      let rest = request_each call ts m' in if succeeded outcome then rest else m'

  module _ (requests : ℕ → S → List S) where
    -- A `for` loop over callbacks, each in its `try`.
    unfoldable pub call_each : Call S → (ℕ → Trace S) → List ℕ → Machine S → Machine S
    unfolding request_each
    call_each call note [] m = m
    call_each call note (cb ∷ cbs) m =
        call_each call note cbs (request_each call (requests cb m.current_state) (log (note cb) m))

    -- Steps 2 to 5 of `transition_to`, once the transition is found valid.
    unfoldable pub proceed : Call S → S → S → Machine S → Machine S
    unfolding call_each
    proceed call old target m =
        let m1 = call_each call (exit_called old) (get_all old m.exit_callbacks) m in
        let m2 = log (changed m1.current_state target) (record m1 { current_state = target }) in
        let m3 = call_each call (global_called old target) m2.global_callbacks m2 in
        call_each call (enter_called target) (get_all target m3.enter_callbacks) m3

    -- The fuel is the depth to which Python lets calls nest: past it, RecursionError is raised.
    unfoldable pub transition_to : ℕ → S → Machine S → Machine S × Outcome S
    unfolding proceed
    transition_to zero target m = (m, recursion_error)
    transition_to (suc depth) target m =
        let old = m.current_state in
        let done = proceed (transition_to depth) old target m in
        if elem target (get_all old m.allowed_transitions)
        then (done, moved)
        else (m, invalid_transition old target)
