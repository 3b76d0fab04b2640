-- ===== src/Examples/Machines.antt =====
-- The state machines' theorems at concrete inputs.
use sagittarius_engine.Prelude.{
  ℕ, nat_eq, string_eq, ◌≡◌, refl, false, some, List, [], ◌∷◌, ◌++◌, String, ◌==◌, if◌then◌else◌,
  arith, map, Dict, get, put,
}
use sagittarius_engine.Fsm.Base
use sagittarius_engine.Fsm.Base.{moved, invalid_transition, changed, transition_to, get_all}
use sagittarius_engine.Fsm.Base.Legality.{detoured, transition_to_detour}
use sagittarius_engine.Fsm.Declarative
use sagittarius_engine.Fsm.Declarative.{
  Cell, cell, cell_eq, Fired, returned, dispatch, load_matrix, invalid_event,
}
use sagittarius_engine.Fsm.Declarative.Order.{dispatch_in_order}
use sagittarius_engine.Fsm.Declarative.Runs.{Chain, LeftOver}
use sagittarius_engine.Fsm.Declarative.Ending.{IsBounded, dispatch_ends}

-- A door: "closed" to "open" and "locked", and back.
abbrev door : Base.Machine String
door = record (Base.new "closed") {
  allowed_transitions =
      ("closed", "open" ∷ "locked" ∷ []) ∷ ("open", "closed" ∷ []) ∷ ("locked", "closed" ∷ []) ∷ [];
  enter_callbacks = ("open", 1 ∷ []) ∷ [];
}

-- The callback 1 closes the door again, the callback 2 locks it.
abbrev requests : ℕ → String → List String
requests cb s = if cb == 1 then "closed" ∷ [] else if s == "closed" then "locked" ∷ [] else []

abbrev self_locking : Base.Machine String
self_locking = record door { exit_callbacks = ("closed", 2 ∷ []) ∷ []; enter_callbacks = [] }

transition_to_detour_example :
    let (m', outcome) = transition_to requests 9 "open" self_locking in
    (outcome ≡ moved)
    × (m'.current_state ≡ "open")
    × (m'.trace
        ≡ (detoured requests 8 "locked" 2 self_locking).trace ++ changed "locked" "open" ∷ [])
unfolding get transition_to
transition_to_detour_example =
    transition_to_detour requests 8 "open" "locked" 2 self_locking refl refl refl refl refl refl

abbrev cells : Dict (Cell String String) String
cells = (cell "idle" "start", "busy") ∷ (cell "busy" "finish", "idle") ∷ []

abbrev worker : Declarative.Machine String String
worker = record (load_matrix cells (Declarative.new "idle")) {
  enter_callbacks = ("busy", 1 ∷ []) ∷ [];
}

-- The first callback call dispatches "finish" and then "start" twice, of which the second is
-- invalid.
abbrev emits : ℕ → ℕ → List String
emits cb n = if n == 0 then "finish" ∷ "start" ∷ "start" ∷ [] else []

abbrev credit : ℕ → ℕ
credit n = if n == 0 then 3 else 0

emits-IsBounded : IsBounded emits credit
emits-IsBounded cb n = ground arith

dispatch_ends_example :
    (r : Declarative.Machine String String × Declarative.Outcome String String) × (dispatch emits 9
        "start" worker
      ≡ some r)
unfolding load_matrix
dispatch_ends_example = dispatch_ends emits credit emits-IsBounded 9 "start" worker (omega arith)

abbrev stuck : Declarative.Machine String String
stuck = record worker {
  current_state = "busy";
  calls = 2;
  fired =
      record { old = "idle"; event = "start"; target = "busy" }
      ∷ record { old = "busy"; event = "finish"; target = "idle" }
      ∷ record { old = "idle"; event = "start"; target = "busy" }
      ∷ [];
  emitted = "start" ∷ "finish" ∷ "start" ∷ "start" ∷ [];
}

dispatch_in_order_example :
    (done : List (Fired String String)) × (more left : List String) × (stuck.fired
      ≡ worker.fired ++ done)
    × (stuck.emitted ≡ worker.emitted ++ "start" ∷ more)
    × (map (λ f. f.event) done ++ left ≡ "start" ∷ more)
    × LeftOver worker.event_matrix "busy" (invalid_event "busy" "start") left
    × Chain worker.event_matrix worker.current_state done "busy"
    × (stuck.event_queue ≡ [])
    × (stuck.is_dispatching ≡ false)
unfolding load_matrix dispatch get put Declarative.get_next_state
dispatch_in_order_example =
    dispatch_in_order emits 9 "start" worker stuck (invalid_event "busy" "start") refl refl refl
