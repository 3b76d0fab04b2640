-- ===== src/Fsm/Declarative/Runs.antt =====
-- Runs of the loop of `dispatch` in extensions/fsm/declarative_state_machine.py.
use sagittarius_engine.Prelude.{
  ◌≡◌, ap, ◌∙◌, none, some, List, [], ◌∷◌, ◌++◌, Eq, nat_eq, Dict, get, map, append_assoc,
}
use sagittarius_engine.Fsm.Declarative.{
  Machine, Outcome, Fired, Cell, cell, cell_eq, returned, invalid_event,
}

module _ {S E : Type 0} ⦃s : Eq S⦄ ⦃e : Eq E⦄ where
  -- `n` is `m` after some callbacks: events were put at the end of the queue, and nothing else
  -- changed.
  pub record Queued (m n : Machine S E) : Type 0 where
    pub added : List E
    pub queue : n.event_queue ≡ m.event_queue ++ added
    pub emission : n.emitted ≡ m.emitted ++ added
    pub history : n.fired ≡ m.fired
    pub state : n.current_state ≡ m.current_state
    pub matrix : n.event_matrix ≡ m.event_matrix
    pub lock : n.is_dispatching ≡ m.is_dispatching

  pub Queued-trans : (m n o : Machine S E) → Queued m n → Queued n o → Queued m o
  Queued-trans m n o p q = record {
    added = p.added ++ q.added;
    queue = q.queue ∙ ap (λ xs. xs ++ q.added) p.queue ∙ append_assoc m.event_queue p.added q.added;
    emission =
        q.emission ∙ ap (λ xs. xs ++ q.added) p.emission ∙ append_assoc m.emitted p.added q.added;
    history = q.history ∙ p.history;
    state = q.state ∙ p.state;
    matrix = q.matrix ∙ p.matrix;
    lock = q.lock ∙ p.lock;
  }

  -- The transitions lead from one state to another along cells of the matrix.
  abbrev pub Chain : Dict (Cell S E) S → S → List (Fired S E) → S → Type 0
  Chain d a [] b = a ≡ b
  Chain d a (f ∷ fs) b =
      (f.old ≡ a) × (get (cell f.old f.event) d ≡ some f.target) × Chain d f.target fs b

  -- What is left of the queue: nothing, or the event that was invalid and those behind it.
  abbrev pub LeftOver : Dict (Cell S E) S → S → Outcome S E → List E → Type 0
  LeftOver d current returned left = left ≡ []
  LeftOver d current (invalid_event st ev) left =
      (dropped : List E) × (left ≡ ev ∷ dropped) × (st ≡ current) × (get (cell st ev) d ≡ none)

  -- A run of the loop from `m` to `n`: the transitions `done` fired, the events `more` were
  -- dispatched by callbacks.
  pub record Ran (m : Machine S E) (queue : List E) (n : Machine S E) (outcome : Outcome S E)
      : Type 0 where
    pub done : List (Fired S E)
    pub more : List E
    pub left : List E
    pub history : n.fired ≡ m.fired ++ done
    pub emission : n.emitted ≡ m.emitted ++ more
    pub in_order : map (λ f. f.event) done ++ left ≡ queue ++ more
    pub left_over : LeftOver m.event_matrix n.current_state outcome left
    pub chain : Chain m.event_matrix m.current_state done n.current_state
    pub emptied : n.event_queue ≡ []
    pub matrix : n.event_matrix ≡ m.event_matrix
