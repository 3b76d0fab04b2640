-- ===== src/Fsm/Declarative/Matrix.antt =====
-- The transition matrix of declarative_state_machine.py: what the queries say, and what `dispatch`
-- then does.
use sagittarius_engine.Prelude.{
  ◌≡◌, ◌≢◌, refl, true, false, none, some, List, [], ◌∷◌, ◌++◌, Eq, ◌==◌, ◌&&◌, ◌||◌, Dict, get,
  has, keep, map, elem, elem-append, arith, ==_iff, ==_refl, get-put,
}
use sagittarius_engine.Fsm.Base.{get_all}
use sagittarius_engine.Fsm.Declarative.{
  Machine, Cell, cell, cell_eq, get_next_state, can_dispatch, get_valid_events,
  add_event_transition, load_matrix, add_transition, new,
}

elem-add_transition :
    {S : Type 0} ⦃s : Eq S⦄ (from to a t : S) (d : Dict S (List S))
    → elem t (get_all a (add_transition from to d))
      ≡ (elem t (get_all a d) || (from == a && to == t))
elem-add_transition from to a t d = ground (
  arith,
  get-put from a (get_all from d ++ to ∷ []) d,
  ==_iff from a,
  ==_iff to t,
  elem-append t (get_all from d) (to ∷ []),
)

module _ {S E : Type 0} ⦃s : Eq S⦄ ⦃e : Eq E⦄ where
  valid_lem :
      (st : S) (ev : E) (d : Dict (Cell S E) S)
      → elem ev (map (λ x. x.0.event) (keep (λ x. x.0.state == st) d)) ≡ has (cell st ev) d
  unfolding get
  valid_lem st ev [] = refl
  valid_lem st ev ((c, to) ∷ d) =
      ground (arith, valid_lem st ev d, ==_iff c.state st, ==_iff c.event ev)

  -- The three queries agree: the events of `get_valid_events` are those for which `can_dispatch`
  -- holds, and those for which `get_next_state` gives a state.
  pub queries_agree :
      (ev : E) (m : Machine S E)
      → (elem ev (get_valid_events m) ≡ can_dispatch ev m)
        × (can_dispatch ev m ≡ true → get_next_state ev m ≢ none)
        × (can_dispatch ev m ≡ false → get_next_state ev m ≡ none)
  unfolding get_valid_events can_dispatch get_next_state
  queries_agree ev m = (valid_lem m.current_state ev m.event_matrix, ground arith, ground arith)

  -- Each cell of the matrix is an allowed transition of the base class too.
  abbrev pub IsSynced : Machine S E → Type 0
  IsSynced m =
      (a : S) (ev : E) (t : S)
      → get (cell a ev) m.event_matrix ≡ some t
      → elem t (get_all a m.allowed_transitions) ≡ true

  add_event_transition-IsSynced :
      (from : S) (ev : E) (to : S) (m : Machine S E)
      → IsSynced m
      → IsSynced (add_event_transition from ev to m)
  unfolding add_event_transition
  add_event_transition-IsSynced from ev to m h a x t g = ground (
    arith,
    elem-add_transition from to a t m.allowed_transitions,
    h a x t,
    get-put (cell from ev) (cell a x) to m.event_matrix,
    ==_iff from a,
    ==_iff ev x,
    ==_refl to,
  )

  pub new-IsSynced : (st : S) → IsSynced (new {E = E} st)
  unfolding get
  new-IsSynced st a x t g = absurd (cc)

  -- If each cell of the event matrix is an allowed transition of the base class too, then this still
  -- holds after any further matrix is loaded.
  pub load_matrix-IsSynced :
      (d : Dict (Cell S E) S) (m : Machine S E) → IsSynced m → IsSynced (load_matrix d m)
  unfolding load_matrix
  load_matrix-IsSynced [] m h = h
  load_matrix-IsSynced ((c, to) ∷ d) m h =
      load_matrix-IsSynced d (add_event_transition c.state c.event to m)
        (add_event_transition-IsSynced c.state c.event to m h)
