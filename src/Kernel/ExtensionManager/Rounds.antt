-- ===== src/Kernel/ExtensionManager/Rounds.antt =====
-- `_try_initialize_available` of kernel/extension_manager.py: that its rounds end, in which order
-- they initialize, and what they leave pending.
use sagittarius_engine.Prelude.{
  ℕ, zero, suc, ◌<◌, ◌≡◌, refl, sym, ap, subst, ◌∙◌, String, string_eq, Bool, true, false, Option,
  some, List, [], ◌∷◌, ◌++◌, elem, elem-append, length, arith, append_assoc, append-nil, All,
  All-map, inl, inr, ◌⊎◌,
}
use sagittarius_engine.Kernel.Descriptors.{Extension, names}
use sagittarius_engine.Kernel.ExtensionManager.{
  Exception, Hook, Outcome, returned, raised, sort_failed, Manager, Round, scan, rounds,
  after_round, pending_of, try_initialize_available,
}
use sagittarius_engine.Kernel.ExtensionManager.Scan.{
  IsInOrder, IsInOrder-append, names-append, IsSettledBy, Scanned, scan-Scanned,
}

-- What `rounds` gives: a manager whose new extensions stand in order, with nothing pending that
-- could still be initialized if no hook raised.
pub record Initializes (pending : List Extension) (m : Manager) (known : List String) (m' : Manager)
    (out : Outcome) : Type 0 where
  pub fresh : List Extension
  pub appended : m'.initialized_extensions ≡ m.initialized_extensions ++ fresh
  in_order : IsInOrder known fresh
  registered : m'.registered_extensions ≡ m.registered_extensions
  maximal : out ≡ returned → All (IsSettledBy (known ++ names fresh)) pending

still_known :
    (n : String) (known : List String) (xs : List Extension)
    → elem n known ≡ true
    → elem n (known ++ names xs) ≡ true
still_known n known xs h = ground (arith, elem-append n known (names xs))

settles :
    (known final : List String) (xs : List Extension)
    → ((n : String) → elem n known ≡ true → elem n final ≡ true)
    → All (λ x. (elem x.name known ≡ true) ⊎ IsSettledBy final x) xs
    → All (IsSettledBy final) xs
settles known final [] grown h = tt
settles known final (x ∷ xs) grown h =
    (elim h.0 [ inl k ↦ inl (grown x.name k) | inr s ↦ s ], settles known final xs grown h.1)

Ends : Option (Manager × Outcome) → (Manager → Outcome → Type 0) → Type 0
Ends o P = (m : Manager) × (out : Outcome) × (o ≡ some (m, out)) × P m out

stops :
    (pending : List Extension) (m : Manager) (known : List String) (r : Round)
    → (s : Scanned pending m known r) → (out : Outcome)
    → (out ≡ returned → All (IsSettledBy (known ++ names s.fresh)) pending)
    → Ends (some (r.manager, out)) (Initializes pending m known)
unfolding Ends
stops pending m known r s out maximal = (
  r.manager,
  out,
  refl,
  record {
    fresh = s.fresh;
    appended = s.appended;
    in_order = s.in_order;
    registered = s.registered;
    maximal = maximal;
  },
)

no_progress :
    (pending : List Extension) (m : Manager) (known : List String) (r : Round)
    → (s : Scanned pending m known r) → r.initialized_any ≡ false
    → All (IsSettledBy (known ++ names s.fresh)) pending
no_progress pending m known r s still =
    let same : known ++ names s.fresh ≡ known =
      ap (λ f. known ++ names f) (s.progress still).0 ∙ append-nil known in
    subst (λ k. All (IsSettledBy k) pending) (sym same)
      (settles r.known known pending (λ n. subst (λ k. elem n k ≡ true) (s.learnt ∙ same))
        (s.covers (IsSettledBy known) (s.progress still).1
          (All-map (λ x b. inr b) r.next_pending (s.blocked still))))

goes_on :
    (pending : List Extension) (m : Manager) (known : List String) (r : Round)
    → (s : Scanned pending m known r) → r.outcome ≡ returned
    → (again : Option (Manager × Outcome))
    → Ends again (Initializes r.next_pending r.manager r.known)
    → Ends again (Initializes pending m known)
unfolding Ends
goes_on pending m known r s ok again (m', out, eq, i) =
    let fresh : List Extension = s.fresh ++ i.fresh in
    let final : r.known ++ names i.fresh ≡ known ++ names fresh =
      ap (λ k. k ++ names i.fresh) s.learnt
      ∙ append_assoc known (names s.fresh) (names i.fresh)
      ∙ ap (λ k. known ++ k) (sym (names-append s.fresh i.fresh)) in
    (
      m',
      out,
      eq,
      record {
        fresh = fresh;
        appended =
            i.appended
            ∙ ap (λ l. l ++ i.fresh) s.appended
            ∙ append_assoc m.initialized_extensions s.fresh i.fresh;
        in_order =
            IsInOrder-append known s.fresh i.fresh s.in_order
              (subst (λ k. IsInOrder k i.fresh) s.learnt i.in_order);
        registered = i.registered ∙ s.registered;
        maximal = λ done.
            subst (λ k. All (IsSettledBy k) pending) final
              (settles r.known (r.known ++ names i.fresh) pending
                (λ n. still_known n r.known i.fresh)
                (s.covers (IsSettledBy (r.known ++ names i.fresh)) ok (i.maximal done)));
      },
    )

after_round-Initializes :
    (pending : List Extension) (m : Manager) (known : List String) (r : Round)
    → Scanned pending m known r
    → (again : Option (Manager × Outcome))
    → (length r.next_pending < length pending
        → Ends again (Initializes r.next_pending r.manager r.known))
    → (out : Outcome) (any : Bool) → r.outcome ≡ out
    → r.initialized_any ≡ any
    → Ends (after_round out any again r.manager) (Initializes pending m known)
after_round-Initializes pending m known r s again ih (raised e) any oe ae =
    stops pending m known r s (raised e) (λ e. absurd (cc))
after_round-Initializes pending m known r s again ih (sort_failed e) any oe ae =
    stops pending m known r s (sort_failed e) (λ e. absurd (cc))
after_round-Initializes pending m known r s again ih returned false oe ae =
    stops pending m known r s returned (λ e. no_progress pending m known r s ae)
after_round-Initializes pending m known r s again ih returned true oe ae =
    goes_on pending m known r s oe again (ih (ground (arith, s.fewer oe, s.moved oe ae)))

module _ (behaves : Hook → ℕ → Option Exception) where
  rounds-Initializes :
      (fuel : ℕ) (pending : List Extension) (m : Manager) (known : List String)
      → length pending < fuel
      → Ends (rounds behaves fuel pending m known) (Initializes pending m known)
  unfolding rounds
  rounds-Initializes zero pending m known l = absurd (omega arith)
  rounds-Initializes (suc fuel) pending m known l =
      let r = scan behaves pending m known in
      after_round-Initializes pending m known r (scan-Scanned behaves pending m known)
        (rounds behaves fuel r.next_pending r.manager r.known)
        (λ fewer. rounds-Initializes fuel r.next_pending r.manager r.known (omega arith)) r.outcome
        r.initialized_any refl refl

  -- With fuel for a round per pending extension and one more, `_try_initialize_available` ends.
  -- It only appends to the initialized extensions, and each one that it appends has all its
  -- dependencies, the optional ones too, among those initialized before it. If it ends without
  -- an exception, then every enabled extension that was pending is now initialized, or has a
  -- dependency that is not: no further round could do more.
  pub try_initialize_available_lem :
      (fuel : ℕ) (m : Manager)
      → length (pending_of m) < fuel
      → (m' : Manager) × (out : Outcome) × (try_initialize_available behaves fuel m
          ≡ some (m', out))
        × Initializes (pending_of m) m (names m.initialized_extensions) m' out
  unfolding try_initialize_available Ends
  try_initialize_available_lem fuel m l =
      rounds-Initializes fuel (pending_of m) m (names m.initialized_extensions) l
