-- ===== src/Fsm/Declarative/Order.antt =====
-- In which order `dispatch` of declarative_state_machine.py handles events, and along which cells
-- of the matrix.
use sagittarius_engine.Prelude.{
  ℕ, zero, suc, ◌+◌, ◌≡◌, refl, ap, sym, ◌∙◌, subst, true, false, Option, none, some, List, [], ◌∷◌,
  ◌++◌, Eq, nat_eq, if◌then◌else◌, arith, Option-cases, some_injective, inl, inr, map, append_assoc,
  append-nil,
}
use sagittarius_engine.Fsm.Base.{get_all}
use sagittarius_engine.Fsm.Declarative.{
  Machine, Outcome, Fired, cell_eq, returned, invalid_event, call_each, fire, drain, turn, dispatch,
  settle, enqueue, get_next_state,
}
use sagittarius_engine.Fsm.Declarative.Runs.{Queued, Queued-trans, Chain, LeftOver, Ran}

module _ {S E : Type 0} ⦃s : Eq S⦄ ⦃e : Eq E⦄ where
  module _ (emits : ℕ → ℕ → List E) where
    Queued-call_each : (cbs : List ℕ) (m : Machine S E) → Queued m (call_each emits cbs m)
    unfolding call_each
    Queued-call_each [] m = record {
      added = [];
      queue = sym (append-nil m.event_queue);
      emission = sym (append-nil m.emitted);
      history = refl;
      state = refl;
      matrix = refl;
      lock = refl;
    }
    Queued-call_each (cb ∷ cbs) m =
        let evs = emits cb m.calls in
        let m' = enqueue evs (record m { calls = m.calls + 1 }) in
        Queued-trans m m' _
          (record {
            added = evs;
            queue = refl;
            emission = refl;
            history = refl;
            state = refl;
            matrix = refl;
            lock = refl;
          })
          (Queued-call_each cbs m')

    -- What one turn of the loop does.
    record Turn (old : S) (ev : E) (target : S) (m n : Machine S E) : Type 0 where
      added : List E
      queue : n.event_queue ≡ m.event_queue ++ added
      emission : n.emitted ≡ m.emitted ++ added
      history : n.fired ≡ m.fired ++ record { old = old; event = ev; target = target } ∷ []
      state : n.current_state ≡ target
      matrix : n.event_matrix ≡ m.event_matrix
      lock : n.is_dispatching ≡ m.is_dispatching

    fire-Turn :
        (old : S) (ev : E) (target : S) (m : Machine S E)
        → Turn old ev target m (fire emits old ev target m)
    unfolding fire
    fire-Turn old ev target m =
        let m1 = call_each emits (get_all old m.exit_callbacks) m in
        let m2 = record m1 {
          current_state = target;
          fired = m1.fired ++ record { old = old; event = ev; target = target } ∷ [];
        } in
        let m3 = call_each emits m2.global_callbacks m2 in
        let m4 = call_each emits (get_all ev m3.event_callbacks) m3 in
        let before = Queued-call_each (get_all old m.exit_callbacks) m in
        let after = Queued-trans m2 m3 _ (Queued-call_each m2.global_callbacks m2) (
          Queued-trans m3 m4 _ (Queued-call_each (get_all ev m3.event_callbacks) m3)
            (Queued-call_each (get_all target m4.enter_callbacks) m4)) in
        record {
          added = before.added ++ after.added;
          queue =
              after.queue
              ∙ ap (λ xs. xs ++ after.added) before.queue
              ∙ append_assoc m.event_queue before.added after.added;
          emission =
              after.emission
              ∙ ap (λ xs. xs ++ after.added) before.emission
              ∙ append_assoc m.emitted before.added after.added;
          history =
              after.history
              ∙ ap (λ fs. fs ++ record { old = old; event = ev; target = target } ∷ [])
                  before.history;
          state = after.state;
          matrix = after.matrix ∙ before.matrix;
          lock = after.lock ∙ before.lock;
        }

    Ran-invalid :
        (ev : E) (rest : List E) (m n : Machine S E) (outcome : Outcome S E)
        → get_next_state ev m ≡ none
        → ◌≡◌ {A = Option (Machine S E × Outcome S E)}
            (some (record m { event_queue = [] }, invalid_event m.current_state ev))
            (some (n, outcome))
        → Ran m (ev ∷ rest) n outcome
    unfolding get_next_state
    Ran-invalid ev rest m n outcome shut r =
        subst (λ (x : Machine S E × Outcome S E). Ran m (ev ∷ rest) x.0 x.1) (some_injective r)
          (record {
            done = [];
            more = [];
            left = ev ∷ rest;
            history = sym (append-nil m.fired);
            emission = sym (append-nil m.emitted);
            in_order = sym (append-nil (ev ∷ rest));
            left_over = (rest, refl, refl, shut);
            chain = refl;
            emptied = refl;
            matrix = refl;
          })

    Ran-cons :
        (ev : E) (rest : List E) (target : S) (m m' n : Machine S E) (outcome : Outcome S E)
        → get_next_state ev m ≡ some target
        → Turn m.current_state ev target (record m { event_queue = rest }) m'
        → Ran m' m'.event_queue n outcome
        → Ran m (ev ∷ rest) n outcome
    unfolding get_next_state
    Ran-cons ev rest target m m' n outcome open_cell t r =
        let f : Fired S E = record { old = m.current_state; event = ev; target = target } in
        record {
          done = f ∷ r.done;
          more = t.added ++ r.more;
          left = r.left;
          history =
              r.history ∙ ap (λ fs. fs ++ r.done) t.history ∙ append_assoc m.fired (f ∷ []) r.done;
          emission =
              r.emission
              ∙ ap (λ es. es ++ r.more) t.emission
              ∙ append_assoc m.emitted t.added r.more;
          in_order =
              ap (◌∷◌ ev)
                (r.in_order ∙ ap (λ q. q ++ r.more) t.queue ∙ append_assoc rest t.added r.more);
          left_over = subst (λ d. LeftOver d n.current_state outcome r.left) t.matrix r.left_over;
          chain = (
            refl,
            open_cell,
            subst (λ d. Chain d target r.done n.current_state) t.matrix
                (subst (λ a. Chain m'.event_matrix a r.done n.current_state) t.state r.chain),
          );
          emptied = r.emptied;
          matrix = r.matrix ∙ t.matrix;
        }

    drain-Ran :
        (fuel : ℕ) (q : List E) (m : Machine S E) (n : Machine S E) (outcome : Outcome S E)
        → m.event_queue ≡ q
        → drain emits fuel q m ≡ some (n, outcome)
        → Ran m q n outcome
    unfolding drain
    drain-Ran zero q m n outcome e r = absurd (cc)
    drain-Ran (suc fuel) [] m n outcome e r =
        subst (λ (x : Machine S E × Outcome S E). Ran m [] x.0 x.1) (some_injective r)
          (record {
            done = [];
            more = [];
            left = [];
            history = sym (append-nil m.fired);
            emission = sym (append-nil m.emitted);
            in_order = refl;
            left_over = refl;
            chain = refl;
            emptied = e;
            matrix = refl;
          })
    drain-Ran (suc fuel) (ev ∷ rest) m n outcome e r = elim (Option-cases (get_next_state ev m)) [
      | inl shut ↦ Ran-invalid ev rest m n outcome shut (
          ap (λ o. turn emits (drain emits fuel) ev o (record m { event_queue = rest })) (sym shut)
          ∙ r)
      | inr (target, open_cell) ↦
          let m0 = record m { event_queue = rest } in
          let m' = fire emits m.current_state ev target m0 in
          Ran-cons ev rest target m m' n outcome open_cell (fire-Turn m.current_state ev target m0)
            (drain-Ran fuel m'.event_queue m' n outcome refl
              (ap (λ o. turn emits (drain emits fuel) ev o m0) (sym open_cell) ∙ r))
    ]

module _ {S E : Type 0} ⦃s : Eq S⦄ ⦃e : Eq E⦄ where
  settle-some :
      (o : Option (Machine S E × Outcome S E)) (n : Machine S E) (outcome : Outcome S E)
      → settle o ≡ some (n, outcome)
      → (k : Machine S E) × (o ≡ some (k, outcome)) × (n ≡ record k { is_dispatching = false })
  unfolding settle
  settle-some none n outcome h = absurd (cc)
  settle-some (some (k, o)) n outcome h = (k, ground arith, ground arith)

-- A `dispatch` that ends, on a machine that is idle with an empty queue, with `n` callbacks calling
-- back in: the events are handled in the order in which they were dispatched, first the given one,
-- then those of the callbacks; each transition starts in the state where the one before ended, and
-- stands in the matrix. If `dispatch` returns, every event was handled; if it raises, the error
-- names the state it is left in and the first event without a cell there, and the events behind
-- that one are dropped. Either way the queue is empty and the machine idle again.
pub dispatch_in_order :
    {S E : Type 0} ⦃s : Eq S⦄ ⦃e : Eq E⦄ (emits : ℕ → ℕ → List E) (fuel : ℕ) (ev : E)
    (m n : Machine S E) (outcome : Outcome S E)
    → m.is_dispatching ≡ false
    → m.event_queue ≡ []
    → dispatch emits fuel ev m ≡ some (n, outcome)
    → (done : List (Fired S E)) × (more left : List E) × (n.fired ≡ m.fired ++ done)
      × (n.emitted ≡ m.emitted ++ ev ∷ more)
      × (map (λ f. f.event) done ++ left ≡ ev ∷ more)
      × LeftOver m.event_matrix n.current_state outcome left
      × Chain m.event_matrix m.current_state done n.current_state
      × (n.event_queue ≡ [])
      × (n.is_dispatching ≡ false)
unfolding dispatch settle
dispatch_in_order {S} {E} emits fuel ev m n outcome idle empty r =
    let queued = enqueue (ev ∷ []) m in
    let start = record queued { is_dispatching = true } in
    let run = settle (drain emits fuel queued.event_queue start) in
    let (k, ended, same) =
      settle-some (drain emits fuel queued.event_queue start) n outcome
        (ap (λ b. if b then some (queued, returned) else run) (sym idle) ∙ r) in
    let ran = drain-Ran emits fuel queued.event_queue start k outcome refl ended in
    (
      ran.done,
      ran.more,
      ran.left,
      ap (λ x. x.fired) same ∙ ran.history,
      ap (λ x. x.emitted) same ∙ ran.emission ∙ append_assoc m.emitted (ev ∷ []) ran.more,
      ran.in_order ∙ ap (λ q. (q ++ ev ∷ []) ++ ran.more) empty,
      subst (λ x. LeftOver m.event_matrix x.current_state outcome ran.left) (sym same)
          ran.left_over,
      subst (λ x. Chain m.event_matrix m.current_state ran.done x.current_state) (sym same)
          ran.chain,
      ap (λ x. x.event_queue) same ∙ ran.emptied,
      ap (λ x. x.is_dispatching) same,
    )
