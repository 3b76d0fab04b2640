-- ===== src/Container/Ending.antt =====
-- A `StdLibContainer` whose factories are classes ends every resolution.
use sagittarius_engine.Prelude.{
  ℕ, zero, suc, ◌+◌, ◌*◌, ◌≤◌, ◌<◌, ◌≡◌, refl, String, string_eq, true, false, not, ◌&&◌, Option,
  none, some, List, [], ◌∷◌, ◌++◌, length, elem, Bool-cases, inl, inr, Dict, get, put, remove, keys,
  get_absent, All-remove, arith,
}
use sagittarius_engine.Kernel.ExtensionSort.Fuel.{room, room-le, room-cons-lt}
use sagittarius_engine.Container.{
  Param, Init, plain, unreadable, params, ClassInfo, Factory, lazy, callable, StdLibContainer,
  Outcome, found, raised, Attempt, and_then, hand_out, give_up,
}
use sagittarius_engine.Container.Resolve.{
  construct, inject, inject_hinted, instantiate, build, guard_cycle, first_unhinted, annotated,
  call_bare, needs_nothing, constructor_raises, resolve_scoped, scope_lookup, in_scope, run_factory,
  keep_instance, resolve_from, resolve_at, resolve, concrete_of,
}
use sagittarius_engine.Container.Steps.{Ends, Ends-resolve_at}
use sagittarius_engine.Container.Laziness.{
  IsDeclarative, length-remove-lt, lazy_at, KeepsFactories, factories-IsKept, Outcomes,
  Outcomes-and_then, mul_lt,
}

module _ (classes : Dict String ClassInfo) where
  Outcomes-construct :
      (cls : String) (args : List (String × Option ℕ)) (c : StdLibContainer)
      → Outcomes (construct classes cls args c)
  unfolding construct
  Outcomes-construct cls args c = elim (Bool-cases (constructor_raises (get cls classes))) [
    | inl bad ↦ rw bad tt
    | inr good ↦ rw good tt
  ]

  -- A resolution that ends in every declarative container with at most `n` factories.
  abbrev EndsUpTo : ℕ → (String → StdLibContainer → Attempt) → Type 0
  EndsUpTo n rec =
      (a : String) (c : StdLibContainer)
      → IsDeclarative c
      → length c.factories ≤ n
      → Outcomes (rec a c) × Ends KeepsFactories c (rec a c)

  Outcomes-inject :
      (n : ℕ) (rec : String → StdLibContainer → Attempt)
      → EndsUpTo n rec
      → (cls : String) (ps : List Param) (args : List (String × Option ℕ)) (c : StdLibContainer)
      → IsDeclarative c
      → length c.factories ≤ n
      → Outcomes (inject classes rec cls ps args c)
  unfolding inject
  Outcomes-inject n rec ends cls [] args c lazies le = Outcomes-construct cls args c
  Outcomes-inject n rec ends cls (p ∷ ps) args c lazies le =
      let now = ends (annotated p.annotation) c lazies le in
      Outcomes-and_then c (rec (annotated p.annotation) c) _ _ now.0 now.1
        (λ i d h.
          Outcomes-inject n rec ends cls ps (args ++ (p.name, some i) ∷ []) d (h.0 lazies)
            (omega (arith, h.1)))
        (λ e d h. elim (Bool-cases p.has_default) [
          | inl default ↦ rw default (
              Outcomes-inject n rec ends cls ps (args ++ (p.name, none) ∷ []) d (h.0 lazies)
                (omega (arith, h.1)))
          | inr needed ↦ rw needed tt
        ])

  Outcomes-instantiate :
      (n : ℕ) (rec : String → StdLibContainer → Attempt)
      → EndsUpTo n rec
      → (cls : String) (init : Init) (c : StdLibContainer) → IsDeclarative c
      → length c.factories ≤ n
      → Outcomes (instantiate classes rec cls init c)
  Outcomes-instantiate n rec ends cls plain c lazies le = Outcomes-construct cls [] c
  Outcomes-instantiate n rec ends cls unreadable c lazies le = Outcomes-construct cls [] c
  Outcomes-instantiate n rec ends cls (params ps) c lazies le = hinted (first_unhinted ps)
    where
      hinted : (o : Option String) → Outcomes (inject_hinted classes rec cls ps o c)
      hinted none = Outcomes-inject n rec ends cls ps [] c lazies le
      hinted (some name) = tt

  -- What bounds the depth of the recursion.
  abbrev pub depth : ℕ → List String → ℕ
  depth n path = n * (length (keys classes) + 2) + room (keys classes) path

  known :
      (cls : String) (info : ClassInfo)
      → get cls classes ≡ some info
      → elem cls (keys classes) ≡ true
  known cls info g = ground (arith, get_absent cls classes)

  depth-le : (m n : ℕ) (path : List String) → m ≤ n → depth m path ≤ depth n path
  depth-le m n path h = grind arith

  depth-lt : (m n : ℕ) (path : List String) → m < n → depth m [] < depth n path
  depth-lt m n path h =
      omega (arith, room-le (keys classes) [], mul_lt m n (length (keys classes) + 2) h)

  depth-enough : (n : ℕ) → depth n [] < (n + 1) * (length (keys classes) + 2)
  depth-enough n =
      omega (
        arith,
        room-le (keys classes) [],
        mul_lt n (n + 1) (length (keys classes) + 2) (omega arith),
      )

  module _ (fuel : ℕ)
      (ends : (path : List String) (a : String) (c : StdLibContainer)
        → IsDeclarative c
        → depth (length c.factories) path < fuel
        → Outcomes (resolve_at classes fuel path a c)) where
    Outcomes-build :
        (path : List String) (cls : String) (o : Option ClassInfo) (c : StdLibContainer)
        → get cls classes ≡ o
        → elem cls path ≡ false
        → IsDeclarative c
        → depth (length c.factories) path < suc fuel
        → Outcomes (build classes (resolve_at classes fuel) path cls o c)
    Outcomes-build path cls none c g free lazies lt = tt
    Outcomes-build path cls (some info) c g free lazies lt = elim (Bool-cases info.is_abstract) [
      | inl abs ↦ rw abs tt
      | inr conc ↦ rw conc (
          Outcomes-instantiate (length c.factories) (resolve_at classes fuel (cls ∷ path))
            (λ b d lazy_d le. (
              ends (cls ∷ path) b d lazy_d (
                  omega (
                    arith,
                    depth-le (length d.factories) (length c.factories) (cls ∷ path) le,
                    room-cons-lt (keys classes) path cls (known cls info g) free,
                  )),
              Ends-resolve_at KeepsFactories factories-IsKept classes fuel (cls ∷ path) b d,
            ))
            cls info.init c lazies (omega arith))
    ]

    Outcomes-guard_cycle :
        (path : List String) (cls : String) (c : StdLibContainer)
        → IsDeclarative c
        → depth (length c.factories) path < suc fuel
        → Outcomes (guard_cycle classes (resolve_at classes fuel) path cls c)
    unfolding guard_cycle
    Outcomes-guard_cycle path cls c lazies lt = elim (Bool-cases (elem cls path)) [
      | inl busy ↦ rw busy tt
      | inr free ↦ rw free (Outcomes-build path cls (get cls classes) c refl free lazies lt)
    ]

    Outcomes-resolve_from :
        (path : List String) (a : String) (i : Option ℕ) (f : Option Factory) (c : StdLibContainer)
        → get a c.factories ≡ f
        → IsDeclarative c
        → depth (length c.factories) path < suc fuel
        → Outcomes (resolve_from classes (resolve_at classes fuel) path a i f c)
    unfolding run_factory
    Outcomes-resolve_from path a (some i) f c g lazies lt = tt
    Outcomes-resolve_from path a none none c g lazies lt =
        Outcomes-guard_cycle path (concrete_of a (get a c.bindings)) c lazies lt
    Outcomes-resolve_from path a none (some (callable s)) c g lazies lt =
        absurd (cc (lazy_at a (callable s) c.factories lazies g))
    Outcomes-resolve_from path a none (some (lazy cls)) c g lazies lt =
        taken (resolve_at classes fuel [] cls (record c { factories = remove a c.factories })) (
          ends [] cls (record c { factories = remove a c.factories })
            (All-remove _ a c.factories lazies)
            (omega (
              arith,
              depth-lt (length (remove a c.factories)) (length c.factories) path
                  (length-remove-lt a (lazy cls) c.factories g),
            )))
      where
        taken :
            (r : Attempt)
            → Outcomes r
            → Outcomes (
                keep_instance classes a (
                  and_then r hand_out
                    (λ e d. give_up e (record d { factories = put a (lazy cls) d.factories }))))
        taken none h = h
        taken (some (found i, d)) h = tt
        taken (some (raised e, d)) h = tt

  Outcomes-resolve_at :
      (fuel : ℕ) (path : List String) (a : String) (c : StdLibContainer)
      → IsDeclarative c
      → depth (length c.factories) path < fuel
      → Outcomes (resolve_at classes fuel path a c)
  unfolding resolve_at
  Outcomes-resolve_at zero path a c lazies lt = absurd (omega arith)
  Outcomes-resolve_at (suc fuel) path a c lazies lt =
      Outcomes-resolve_from fuel (Outcomes-resolve_at fuel) path a (get a c.instances)
        (get a c.factories) c refl lazies lt

  Outcomes-call_bare :
      (cls : String) (o : Option ClassInfo) (c : StdLibContainer)
      → Outcomes (call_bare classes cls o c)
  Outcomes-call_bare cls none c = tt
  Outcomes-call_bare cls (some info) c =
      elim (Bool-cases (not info.is_abstract && needs_nothing info.init)) [
        | inl possible ↦ rw possible (Outcomes-construct cls [] c)
        | inr bad ↦ rw bad tt
      ]

  Outcomes-in_scope :
      (a concrete : String) (i : Option ℕ) (s : Dict String ℕ) (ss : List (Dict String ℕ))
      (c : StdLibContainer)
      → Outcomes (in_scope classes a concrete i s ss c)
  Outcomes-in_scope a concrete (some i) s ss c = tt
  Outcomes-in_scope a concrete none s ss c =
      settled (call_bare classes concrete (get concrete classes) c)
        (Outcomes-call_bare concrete (get concrete classes) c)
    where
      settled :
          (r : Attempt)
          → Outcomes r
          → Outcomes (and_then r (λ i d. hand_out i (record d { scopes = put a i s ∷ ss })) give_up)
      settled none h = h
      settled (some (found i, d)) h = tt
      settled (some (raised e, d)) h = tt

  Outcomes-scope_lookup :
      (rec : String → StdLibContainer → Attempt) (a : String) (ss : List (Dict String ℕ))
      (o : Option String) (c : StdLibContainer)
      → Outcomes (rec a c)
      → Outcomes (scope_lookup classes rec a ss o c)
  Outcomes-scope_lookup rec a [] o c h = h
  Outcomes-scope_lookup rec a (s ∷ ss) none c h = h
  Outcomes-scope_lookup rec a (s ∷ ss) (some concrete) c h =
      Outcomes-in_scope a concrete (get a s) s ss c

  outcome_of : (r : Attempt) → Outcomes r → (o : Outcome × StdLibContainer) × (r ≡ some o)
  outcome_of none h = absurd h
  outcome_of (some o) h = (o, refl)

  -- Whatever the classes and the bindings are, with cycles among them or not: where every factory
  -- wraps a class, `resolve` ends, with an object or an exception. The calls of `_resolve` nest no
  -- deeper than the number of factories and one more, times the number of classes and two more.
  pub resolve_ends :
      (a : String) (c : StdLibContainer)
      → IsDeclarative c
      → (o : Outcome × StdLibContainer) × (resolve classes
            ((length c.factories + 1) * (length (keys classes) + 2))
            a
            c
          ≡ some o)
  unfolding resolve resolve_scoped
  resolve_ends a c lazies =
      let fuel : ℕ = (length c.factories + 1) * (length (keys classes) + 2) in
      outcome_of (resolve classes fuel a c) (
        Outcomes-scope_lookup (resolve_at classes fuel []) a c.scopes (get a c.scoped_registry) c
          (Outcomes-resolve_at fuel [] a c lazies (depth-enough (length c.factories))))
