-- ===== src/Fsm/Declarative/Ending.antt =====
-- When the loop of `dispatch` of declarative_state_machine.py ends.
use sagittarius_engine.Prelude.{
  ℕ, zero, suc, ◌+◌, ◌≤◌, ◌<◌, ◌≡◌, refl, ap, ◌∙◌, true, false, Option, none, some, List, [], ◌∷◌,
  ◌++◌, Eq, if◌then◌else◌, arith, Option-cases, Bool-cases, inl, inr, length, length-append,
}
use sagittarius_engine.Fsm.Base.{get_all}
use sagittarius_engine.Fsm.Declarative.{
  Machine, Outcome, cell_eq, returned, invalid_event, call_each, fire, drain, turn, dispatch,
  settle, enqueue, get_next_state,
}

-- The callbacks dispatch finitely many events in all: `credit n` bounds those of the calls from the
-- n-th on.
abbrev pub IsBounded : {E : Type 0} → (ℕ → ℕ → List E) → (ℕ → ℕ) → Type 0
IsBounded emits credit = (cb n : ℕ) → length (emits cb n) + credit (n + 1) ≤ credit n

module _ {S E : Type 0} ⦃s : Eq S⦄ ⦃e : Eq E⦄ (emits : ℕ → ℕ → List E) (credit : ℕ → ℕ)
    (bounded : IsBounded emits credit) where
  -- What may still have to be handled.
  abbrev load : Machine S E → ℕ
  load m = length m.event_queue + credit m.calls

  load-call_each : (cbs : List ℕ) (m : Machine S E) → load (call_each emits cbs m) ≤ load m
  unfolding call_each
  load-call_each [] m = omega arith
  load-call_each (cb ∷ cbs) m =
      let m' = enqueue (emits cb m.calls) (record m { calls = m.calls + 1 }) in
      omega (
        arith,
        load-call_each cbs m',
        bounded cb m.calls,
        length-append m.event_queue (emits cb m.calls),
      )

  load-fire :
      (old : S) (ev : E) (target : S) (m : Machine S E) → load (fire emits old ev target m) ≤ load m
  unfolding fire
  load-fire old ev target m =
      let m1 = call_each emits (get_all old m.exit_callbacks) m in
      let m2 = record m1 {
        current_state = target;
        fired = m1.fired ++ record { old = old; event = ev; target = target } ∷ [];
      } in
      let m3 = call_each emits m2.global_callbacks m2 in
      let m4 = call_each emits (get_all ev m3.event_callbacks) m3 in
      omega (
        arith,
        load-call_each (get_all old m.exit_callbacks) m,
        load-call_each m2.global_callbacks m2,
        load-call_each (get_all ev m3.event_callbacks) m3,
        load-call_each (get_all target m4.enter_callbacks) m4,
      )

  drain_ends :
      (fuel : ℕ) (q : List E) (m : Machine S E)
      → length q + credit m.calls < fuel
      → (r : Machine S E × Outcome S E) × (drain emits fuel q m ≡ some r)
  unfolding drain turn
  drain_ends zero q m h = absurd (omega arith)
  drain_ends (suc fuel) [] m h = ((m, returned), refl)
  drain_ends (suc fuel) (ev ∷ rest) m h = elim (Option-cases (get_next_state ev m)) [
    | inl shut ↦ (
      (record m { event_queue = [] }, invalid_event m.current_state ev),
      ap (λ o. turn emits (drain emits fuel) ev o (record m { event_queue = rest })) shut,
    )
    | inr (target, open_cell) ↦
        let m0 = record m { event_queue = rest } in
        let m' = fire emits m.current_state ev target m0 in
        let (r, ends) =
          drain_ends fuel m'.event_queue m'
            (omega (arith, load-fire m.current_state ev target m0)) in
        (r, ap (λ o. turn emits (drain emits fuel) ev o m0) open_cell ∙ ends)
  ]

  settle_ends :
      (o : Option (Machine S E × Outcome S E)) (r : Machine S E × Outcome S E)
      → o ≡ some r
      → (r' : Machine S E × Outcome S E) × (settle o ≡ some r')
  unfolding settle
  settle_ends none r h = absurd (cc)
  settle_ends (some (m, o)) r h = ((record m { is_dispatching = false }, o), refl)

  -- Where the callbacks dispatch finitely many events in all, every `dispatch` ends, after as many
  -- turns of the loop as there are events waiting, given, or still to be dispatched by callbacks.
  pub dispatch_ends :
      (fuel : ℕ) (ev : E) (m : Machine S E)
      → length m.event_queue + 1 + credit m.calls < fuel
      → (r : Machine S E × Outcome S E) × (dispatch emits fuel ev m ≡ some r)
  unfolding dispatch
  dispatch_ends fuel ev m h =
      let queued = enqueue (ev ∷ []) m in
      let start = record queued { is_dispatching = true } in
      let (r, ends) =
        drain_ends fuel queued.event_queue start
          (omega (arith, length-append m.event_queue (ev ∷ []))) in
      let (r', settled) = settle_ends (drain emits fuel queued.event_queue start) r ends in
      elim (Bool-cases m.is_dispatching) [
        | inl busy ↦ (
          (queued, returned),
          ap
              (λ b.
                if b
                then some (queued, returned)
                else settle (drain emits fuel queued.event_queue start))
              busy,
        )
        | inr idle ↦ (
          r',
          ap
                (λ b.
                  if b
                  then some (queued, returned)
                  else settle (drain emits fuel queued.event_queue start))
                idle
              ∙ settled,
        )
      ]
