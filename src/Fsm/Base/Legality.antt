-- ===== src/Fsm/Base/Legality.antt =====
-- Which states `transition_to` of state_machine.py can leave a machine in.
use sagittarius_engine.Prelude.{
  ℕ, zero, suc, ◌≡◌, refl, ap, sym, ◌∙◌, subst, true, false, List, [], ◌∷◌, ◌++◌, Eq, nat_eq, elem,
  Dict, All, arith, Bool-cases, inl, inr,
}
use sagittarius_engine.Fsm.Base.{
  Machine, Trace, Call, moved, invalid_transition, changed, exit_called, enter_called,
  global_called, log, get_all, request_each, call_each, proceed, transition_to, succeeded,
}

-- `u` is reached from `s` along transitions of the matrix.
pub data Reach {S : Type 0} ⦃e : Eq S⦄ (matrix : Dict S (List S)) (s : S) : S → Type 0 where
  stays : Reach matrix s s
  moves : {t u : S} → Reach matrix s t → elem u (get_all t matrix) ≡ true → Reach matrix s u

module _ {S : Type 0} ⦃e : Eq S⦄ where
  Reach-trans :
      {matrix : Dict S (List S)} {s t u : S}
      → Reach matrix s t
      → Reach matrix t u
      → Reach matrix s u
  Reach-trans r stays = r
  Reach-trans r (moves q edge) = moves (Reach-trans r q) edge

  -- The machine `n` comes from `m` by legal moves, with the rules and the exit callbacks that `m`
  -- has.
  pub record Legal (m n : Machine S) : Type 0 where
    pub reached : Reach m.allowed_transitions m.current_state n.current_state
    pub matrix : n.allowed_transitions ≡ m.allowed_transitions
    pub exits : n.exit_callbacks ≡ m.exit_callbacks

  Legal-refl : (m : Machine S) → Legal m m
  Legal-refl m = record { reached = stays; matrix = refl; exits = refl }

  Legal-trans : (m n o : Machine S) → Legal m n → Legal n o → Legal m o
  Legal-trans m n o p q = record {
    reached =
        Reach-trans p.reached
          (subst (λ d. Reach d n.current_state o.current_state) p.matrix q.reached);
    matrix = q.matrix ∙ p.matrix;
    exits = q.exits ∙ p.exits;
  }

  module _ (requests : ℕ → S → List S) (exits : Dict S (List ℕ)) where
    -- A call that is legal on the machines with these exit callbacks.
    abbrev IsLegalCall : Call S → Type 0
    IsLegalCall call = (t : S) (m : Machine S) → m.exit_callbacks ≡ exits → Legal m (call t m).0

    Legal-request_each :
        (call : Call S) (ok : IsLegalCall call) (ts : List S) (m : Machine S)
        → m.exit_callbacks ≡ exits
        → Legal m (request_each call ts m)
    unfolding request_each
    Legal-request_each call ok [] m x = Legal-refl m
    Legal-request_each call ok (t ∷ ts) m x =
        let m' = (call t m).0 in
        let one = ok t m x in
        elim (Bool-cases (succeeded (call t m).1)) [
          | inl good ↦
              rw good (Legal-trans m m' _ one (Legal-request_each call ok ts m' (one.exits ∙ x)))
          | inr bad ↦ rw bad one
        ]

    Legal-call_each :
        (call : Call S) (ok : IsLegalCall call) (note : ℕ → Trace S) (cbs : List ℕ) (m : Machine S)
        → m.exit_callbacks ≡ exits
        → Legal m (call_each requests call note cbs m)
    unfolding call_each
    Legal-call_each call ok note [] m x = Legal-refl m
    Legal-call_each call ok note (cb ∷ cbs) m x =
        let m0 = log (note cb) m in
        let m' = request_each call (requests cb m.current_state) m0 in
        let one = Legal-request_each call ok (requests cb m.current_state) m0 x in
        Legal-trans m m' _
          (record { reached = one.reached; matrix = one.matrix; exits = one.exits })
          (Legal-call_each call ok note cbs m' (one.exits ∙ x))

    abbrev IsQuiet : ℕ → Type 0
    IsQuiet cb = (t : S) → requests cb t ≡ []

    -- Callbacks that request nothing leave the machine alone but for the trace.
    quiet-call_each :
        (call : Call S) (note : ℕ → Trace S) (cbs : List ℕ) (m : Machine S)
        → All IsQuiet cbs
        → let n = call_each requests call note cbs m in
          (n.current_state ≡ m.current_state)
          × (n.allowed_transitions ≡ m.allowed_transitions)
          × (n.exit_callbacks ≡ m.exit_callbacks)
    unfolding call_each request_each
    quiet-call_each call note [] m q = (refl, refl, refl)
    quiet-call_each call note (cb ∷ cbs) m q =
        let m0 = log (note cb) m in
        let same =
          ap (λ ts. call_each requests call note cbs (request_each call ts m0))
            (q.0 m.current_state) in
        subst
          (λ n.
            (n.current_state ≡ m.current_state)
            × (n.allowed_transitions ≡ m.allowed_transitions)
            × (n.exit_callbacks ≡ m.exit_callbacks))
          (sym same) (quiet-call_each call note cbs m0 q.1)

    module _ (quiet : (s : S) → All IsQuiet (get_all s exits)) where
      Legal-proceed :
          (call : Call S) (ok : IsLegalCall call) (target : S) (m : Machine S)
          → m.exit_callbacks ≡ exits
          → elem target (get_all m.current_state m.allowed_transitions) ≡ true
          → Legal m (proceed requests call m.current_state target m)
      unfolding proceed
      Legal-proceed call ok target m x edge =
          let old = m.current_state in
          let m1 = call_each requests call (exit_called old) (get_all old m.exit_callbacks) m in
          let m2 = log (changed m1.current_state target) (record m1 { current_state = target }) in
          let m3 = call_each requests call (global_called old target) m2.global_callbacks m2 in
          let left =
            quiet-call_each call (exit_called old) (get_all old m.exit_callbacks) m
              (subst (λ d. All IsQuiet (get_all old d)) (sym x) (quiet old)) in
          let entered : Legal m m2 = record {
            reached = moves stays edge;
            matrix = left.1;
            exits = left.2;
          } in
          let told =
            Legal-call_each call ok (global_called old target) m2.global_callbacks m2
              (left.2 ∙ x) in
          let greeted =
            Legal-call_each call ok (enter_called target) (get_all target m3.enter_callbacks) m3
              (told.exits ∙ left.2 ∙ x) in
          Legal-trans m m2 _ entered (Legal-trans m2 m3 _ told greeted)

      Legal-transition_to : (depth : ℕ) → IsLegalCall (λ t m. transition_to requests depth t m)
      unfolding transition_to
      Legal-transition_to zero target m x = Legal-refl m
      Legal-transition_to (suc depth) target m x =
          elim (Bool-cases (elem target (get_all m.current_state m.allowed_transitions))) [
            | inl edge ↦ rw edge (
                Legal-proceed (transition_to requests depth) (Legal-transition_to depth) target m x
                  edge)
            | inr shut ↦ rw shut (Legal-refl m)
          ]

-- Where no exit callback of the machine requests a transition: a call of `transition_to`, with all
-- that the global and enter callbacks request in its course, moves the machine along transitions of
-- the matrix only, and leaves the matrix as it is. It fails with InvalidStateTransitionError
-- exactly when the matrix does not have the transition, and the machine is then as before.
pub transition_to_legal :
    {S : Type 0} ⦃e : Eq S⦄ (requests : ℕ → S → List S) (depth : ℕ) (target : S) (m : Machine S)
    → ((s : S) → All (λ cb. (t : S) → requests cb t ≡ []) (get_all s m.exit_callbacks))
    → let (n, outcome) = transition_to requests (suc depth) target m in
      Reach m.allowed_transitions m.current_state n.current_state
      × (n.allowed_transitions ≡ m.allowed_transitions)
      × (elem target (get_all m.current_state m.allowed_transitions) ≡ true → outcome ≡ moved)
      × (elem target (get_all m.current_state m.allowed_transitions) ≡ false
          → (outcome ≡ invalid_transition m.current_state target) × (n ≡ m))
unfolding transition_to
transition_to_legal requests depth target m quiet =
    let legal = Legal-transition_to requests m.exit_callbacks quiet (suc depth) target m refl in
    (legal.reached, legal.matrix, ground arith, ground arith)

-- The machine behind the exit callback `cb`, which has moved it to another state.
abbrev pub detoured : {S : Type 0} ⦃e : Eq S⦄ → (ℕ → S → List S) → ℕ → S → ℕ → Machine S → Machine S
detoured requests depth detour cb m =
    (transition_to requests depth detour (log (exit_called m.current_state cb) m)).0

-- An exit callback that itself moves the machine to another state does not stop the transition:
-- where the state has this one exit callback, which requests one move and gets it, and no further
-- callback answers to the target, the machine ends in the target as a success, moved there from
-- the detour, also where the matrix does not allow that move.
pub transition_to_detour :
    {S : Type 0} ⦃e : Eq S⦄ (requests : ℕ → S → List S) (depth : ℕ) (target detour : S) (cb : ℕ)
    (m : Machine S)
    → get_all m.current_state m.exit_callbacks ≡ cb ∷ []
    → requests cb m.current_state ≡ detour ∷ []
    → elem target (get_all m.current_state m.allowed_transitions) ≡ true
    → (detoured requests depth detour cb m).current_state ≡ detour
    → (detoured requests depth detour cb m).global_callbacks ≡ []
    → get_all target (detoured requests depth detour cb m).enter_callbacks ≡ []
    → let (m', outcome) = transition_to requests (suc depth) target m in
      (outcome ≡ moved)
      × (m'.current_state ≡ target)
      × (m'.trace ≡ (detoured requests depth detour cb m).trace ++ changed detour target ∷ [])
unfolding transition_to proceed call_each request_each
transition_to_detour requests depth target detour cb m x q edge at_detour no_global no_enter =
    ground arith
