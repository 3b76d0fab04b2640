-- ===== src/Fsm/Declarative.antt =====
-- extensions/fsm/declarative_state_machine.py. A callback is its identity, and `emits cb n` are the
-- events that it dispatches when it is the n-th callback call of the machine's life; an exception
-- that it raises is logged and has no other effect. Callbacks that register callbacks or rules, or
-- that call `transition_to`, are not modelled here. The `isinstance` tests are the types.
pub mod Runs
pub mod Order
pub mod Matrix
pub mod Ending
use sagittarius_engine.Prelude.{
  ℕ, zero, suc, ◌+◌, ◌≡◌, ◌↔◌, arith, Bool, true, false, Option, none, some, List, [], ◌∷◌, ◌++◌,
  Eq, ◌==◌, ◌&&◌, ==_iff, elem, if◌then◌else◌, Dict, get, put, has, keep, map,
}
use sagittarius_engine.Fsm.Base.{get_all}

-- The key of `_event_matrix`.
pub record Cell (S E : Type 0) : Type 0 where
  pub state : S
  pub event : E

module _ {S E : Type 0} ⦃s : Eq S⦄ ⦃e : Eq E⦄ where
  abbrev cell_beq : Cell S E → Cell S E → Bool
  cell_beq a b = a.state == b.state && a.event == b.event

  pub cell_beq_iff : (a b : Cell S E) → (cell_beq a b ≡ true) ↔ (a ≡ b)
  cell_beq_iff a b = ground (arith, ==_iff a.state b.state, ==_iff a.event b.event)

  instance abbrev pub cell_eq : Eq (Cell S E)
  cell_eq = record { test = cell_beq; test_iff = cell_beq_iff }

-- A transition that was carried out.
pub record Fired (S E : Type 0) : Type 0 where
  pub old : S
  pub event : E
  pub target : S

-- `calls` counts callback calls. `fired` and `emitted` are the history: the transitions, and the
-- events that were put into the queue.
pub record Machine (S E : Type 0) : Type 0 where
  pub current_state : S
  pub allowed_transitions : Dict S (List S)
  pub event_matrix : Dict (Cell S E) S
  pub exit_callbacks : Dict S (List ℕ)
  pub enter_callbacks : Dict S (List ℕ)
  pub event_callbacks : Dict E (List ℕ)
  pub global_callbacks : List ℕ
  pub event_queue : List E
  pub is_dispatching : Bool
  pub calls : ℕ
  pub fired : List (Fired S E)
  pub emitted : List E

pub data Outcome (S E : Type 0) : Type 0 where
  returned : Outcome S E
  invalid_event : S → E → Outcome S E

abbrev pub new : {S E : Type 0} → S → Machine S E
new s = record {
  current_state = s;
  allowed_transitions = [];
  event_matrix = [];
  exit_callbacks = [];
  enter_callbacks = [];
  event_callbacks = [];
  global_callbacks = [];
  event_queue = [];
  is_dispatching = false;
  calls = 0;
  fired = [];
  emitted = [];
}

-- `self.add_transition` of the base class.
abbrev pub add_transition : {S : Type 0} ⦃s : Eq S⦄ → S → S → Dict S (List S) → Dict S (List S)
add_transition from to d =
    let targets = get_all from d in if elem to targets then d else put from (targets ++ to ∷ []) d

module _ {S E : Type 0} ⦃s : Eq S⦄ ⦃e : Eq E⦄ where
  abbrev pub cell : S → E → Cell S E
  cell st ev = record { state = st; event = ev }

  unfoldable pub add_event_transition : S → E → S → Machine S E → Machine S E
  add_event_transition from ev to m = record m {
    event_matrix = put (cell from ev) to m.event_matrix;
    allowed_transitions = add_transition from to m.allowed_transitions;
  }

  unfoldable pub load_matrix : Dict (Cell S E) S → Machine S E → Machine S E
  unfolding add_event_transition
  load_matrix [] m = m
  load_matrix ((c, to) ∷ rest) m = load_matrix rest (add_event_transition c.state c.event to m)

  unfoldable pub on_event : E → ℕ → Machine S E → Machine S E
  on_event ev cb m = record m {
    event_callbacks = put ev (get_all ev m.event_callbacks ++ cb ∷ []) m.event_callbacks;
  }

  unfoldable pub get_next_state : E → Machine S E → Option S
  get_next_state ev m = get (cell m.current_state ev) m.event_matrix

  unfoldable pub can_dispatch : E → Machine S E → Bool
  can_dispatch ev m = has (cell m.current_state ev) m.event_matrix

  unfoldable pub get_valid_events : Machine S E → List E
  get_valid_events m =
      map (λ x. x.0.event) (keep (λ x. x.0.state == m.current_state) m.event_matrix)

  -- `dispatch` while the machine is dispatching.
  abbrev enqueue : List E → Machine S E → Machine S E
  enqueue evs m = record m { event_queue = m.event_queue ++ evs; emitted = m.emitted ++ evs }

  -- The `finally` of `dispatch`.
  settle : Option (Machine S E × Outcome S E) → Option (Machine S E × Outcome S E)
  settle none = none
  settle (some (m, outcome)) = some (record m { is_dispatching = false }, outcome)

  module _ (emits : ℕ → ℕ → List E) where
    unfoldable pub call_each : List ℕ → Machine S E → Machine S E
    call_each [] m = m
    call_each (cb ∷ cbs) m =
        call_each cbs (enqueue (emits cb m.calls) (record m { calls = m.calls + 1 }))

    -- The body of the `while` loop for an event that is valid, with its five steps.
    unfoldable pub fire : S → E → S → Machine S E → Machine S E
    unfolding call_each
    fire old ev target m =
        let m1 = call_each (get_all old m.exit_callbacks) m in
        let m2 = record m1 {
          current_state = target;
          fired = m1.fired ++ record { old = old; event = ev; target = target } ∷ [];
        } in
        let m3 = call_each m2.global_callbacks m2 in
        let m4 = call_each (get_all ev m3.event_callbacks) m3 in
        call_each (get_all target m4.enter_callbacks) m4

    -- One turn of the `while` loop, for the state that the matrix gives.
    unfoldable pub turn :
        (List E → Machine S E → Option (Machine S E × Outcome S E))
        → E
        → Option S
        → Machine S E
        → Option (Machine S E × Outcome S E)
    unfolding fire
    turn loop ev none m = some (record m { event_queue = [] }, invalid_event m.current_state ev)
    turn loop ev (some target) m =
        let m' = fire m.current_state ev target m in loop m'.event_queue m'

    -- The `while` loop over the queue; `none` where the fuel runs out.
    unfoldable pub drain : ℕ → List E → Machine S E → Option (Machine S E × Outcome S E)
    unfolding turn
    drain zero _ m = none
    drain (suc fuel) [] m = some (m, returned)
    drain (suc fuel) (ev ∷ rest) m =
        turn (drain fuel) ev (get_next_state ev m) (record m { event_queue = rest })

    unfoldable pub dispatch : ℕ → E → Machine S E → Option (Machine S E × Outcome S E)
    unfolding drain settle
    dispatch fuel ev m =
        let queued = enqueue (ev ∷ []) m in
        let run =
          settle (drain fuel queued.event_queue (record queued { is_dispatching = true })) in
        if m.is_dispatching then some (queued, returned) else run
