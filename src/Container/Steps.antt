-- ===== src/Container/Steps.antt =====
-- What every step of a resolution keeps, the whole resolution keeps.
use sagittarius_engine.Prelude.{
  ℕ, zero, suc, ◌≡◌, refl, String, string_eq, not, ◌&&◌, Option, none, some, List, [], ◌∷◌, ◌++◌,
  elem, Bool-cases, inl, inr, Dict, get, put, remove,
}
use sagittarius_engine.Container.{
  Param, Init, plain, unreadable, params, ClassInfo, Object, Script, make, reuse, throw, ask,
  Factory, lazy, callable, StdLibContainer, found, raised, Attempt, and_then, hand_out, give_up,
  Error,
}
use sagittarius_engine.Container.Resolve.{
  construct, inject, instantiate, build, guard_cycle, first_unhinted, resolve_scoped, scope_lookup,
  in_scope, call_bare, run_script, run_factory, keep_instance, resolve_from, resolve_at, resolve,
  concrete_of, annotated, needs_nothing, constructor_raises, inject_hinted,
}

-- A relation between the container before and after.
pub record IsKept (Q : StdLibContainer → StdLibContainer → Type 0) : Type 0 where
  pub nothing : (c : StdLibContainer) → Q c c
  pub both : (c d e : StdLibContainer) → Q c d → Q d e → Q c e
  pub building : (c : StdLibContainer) (os : List Object) → Q c (record c { built = c.built ++ os })
  pub scoping : (c : StdLibContainer) (ss : List (Dict String ℕ)) → Q c (record c { scopes = ss })
  pub keeping :
      (abstract : String) (f : Factory) (i : ℕ) (c d : StdLibContainer)
      → get abstract c.instances ≡ none
      → get abstract c.factories ≡ some f
      → Q c d
      → Q c (record d { instances = put abstract i d.instances })
  pub taking :
      (abstract : String) (f : Factory) (i : ℕ) (c d : StdLibContainer)
      → get abstract c.instances ≡ none
      → get abstract c.factories ≡ some f
      → Q (record c { factories = remove abstract c.factories }) d
      → Q c (record d { instances = put abstract i d.instances })
  pub restoring :
      (abstract : String) (f : Factory) (c d : StdLibContainer)
      → get abstract c.instances ≡ none
      → get abstract c.factories ≡ some f
      → Q (record c { factories = remove abstract c.factories }) d
      → Q c (record d { factories = put abstract f d.factories })

module _ (Q : StdLibContainer → StdLibContainer → Type 0) where
  abbrev pub Ends : StdLibContainer → Attempt → Type 0
  Ends c none = Unit
  Ends c (some (o, d)) = Q c d

  module _ (q : IsKept Q) where
    Ends-and_then :
        (c : StdLibContainer) (r : Attempt) (k : ℕ → StdLibContainer → Attempt)
        (h : Error → StdLibContainer → Attempt)
        → Ends c r
        → ((i : ℕ) (d : StdLibContainer) → Q c d → Ends c (k i d))
        → ((e : Error) (d : StdLibContainer) → Q c d → Ends c (h e d))
        → Ends c (and_then r k h)
    Ends-and_then c none k h r f g = tt
    Ends-and_then c (some (found i, d)) k h r f g = f i d r
    Ends-and_then c (some (raised e, d)) k h r f g = g e d r

    -- From an earlier container on.
    Ends-after : (c d : StdLibContainer) (r : Attempt) → Q c d → Ends d r → Ends c r
    Ends-after c d none h r = tt
    Ends-after c d (some (o, e)) h r = q.both c d e h r

    module _ (classes : Dict String ClassInfo) where
      Ends-construct :
          (cls : String) (args : List (String × Option ℕ)) (c : StdLibContainer)
          → Ends c (construct classes cls args c)
      unfolding construct
      Ends-construct cls args c = elim (Bool-cases (constructor_raises (get cls classes))) [
        | inl bad ↦ rw bad (q.nothing c)
        | inr good ↦ rw good (q.building c (record { cls = cls; args = args } ∷ []))
      ]

      Ends-call_bare :
          (cls : String) (o : Option ClassInfo) (c : StdLibContainer)
          → Ends c (call_bare classes cls o c)
      Ends-call_bare cls none c = q.nothing c
      Ends-call_bare cls (some info) c =
          elim (Bool-cases (not info.is_abstract && needs_nothing info.init)) [
            | inl possible ↦ rw possible (Ends-construct cls [] c)
            | inr bad ↦ rw bad (q.nothing c)
          ]

      abbrev Keeps : (String → StdLibContainer → Attempt) → Type 0
      Keeps rec = (a : String) (c : StdLibContainer) → Ends c (rec a c)

      Ends-inject :
          (rec : String → StdLibContainer → Attempt)
          → Keeps rec
          → (cls : String) (ps : List Param) (args : List (String × Option ℕ)) (c : StdLibContainer)
          → Ends c (inject classes rec cls ps args c)
      unfolding inject
      Ends-inject rec keeps cls [] args c = Ends-construct cls args c
      Ends-inject rec keeps cls (p ∷ ps) args c =
          Ends-and_then c (rec (annotated p.annotation) c) _ _ (keeps (annotated p.annotation) c)
            (λ i d h.
              Ends-after c d _ h (Ends-inject rec keeps cls ps (args ++ (p.name, some i) ∷ []) d))
            (λ e d h. elim (Bool-cases p.has_default) [
              | inl default ↦ rw default (
                  Ends-after c d _ h (Ends-inject rec keeps cls ps (args ++ (p.name, none) ∷ []) d))
              | inr needed ↦ rw needed h
            ])

      Ends-instantiate :
          (rec : String → StdLibContainer → Attempt)
          → Keeps rec
          → (cls : String) (init : Init) (c : StdLibContainer)
          → Ends c (instantiate classes rec cls init c)
      Ends-instantiate rec keeps cls plain c = Ends-construct cls [] c
      Ends-instantiate rec keeps cls unreadable c = Ends-construct cls [] c
      Ends-instantiate rec keeps cls (params ps) c = Ends-hinted (first_unhinted ps)
        where
          Ends-hinted : (o : Option String) → Ends c (inject_hinted classes rec cls ps o c)
          Ends-hinted none = Ends-inject rec keeps cls ps [] c
          Ends-hinted (some name) = q.nothing c

      abbrev KeepsAll : (List String → String → StdLibContainer → Attempt) → Type 0
      KeepsAll rec = (path : List String) → Keeps (rec path)

      module _ (rec : List String → String → StdLibContainer → Attempt) (keeps : KeepsAll rec) where
        Ends-build :
            (path : List String) (cls : String) (o : Option ClassInfo) (c : StdLibContainer)
            → Ends c (build classes rec path cls o c)
        Ends-build path cls none c = q.nothing c
        Ends-build path cls (some info) c = elim (Bool-cases info.is_abstract) [
          | inl abs ↦ rw abs (q.nothing c)
          | inr conc ↦
              rw conc (Ends-instantiate (rec (cls ∷ path)) (keeps (cls ∷ path)) cls info.init c)
        ]

        Ends-guard_cycle :
            (path : List String) (cls : String) (c : StdLibContainer)
            → Ends c (guard_cycle classes rec path cls c)
        unfolding guard_cycle
        Ends-guard_cycle path cls c = elim (Bool-cases (elem cls path)) [
          | inl busy ↦ rw busy (q.nothing c)
          | inr free ↦ rw free (Ends-build path cls (get cls classes) c)
        ]

        Ends-scope_lookup :
            (a : String) (ss : List (Dict String ℕ)) (o : Option String) (c : StdLibContainer)
            → Ends c (scope_lookup classes (rec []) a ss o c)
        Ends-scope_lookup a [] o c = keeps [] a c
        Ends-scope_lookup a (s ∷ ss) none c = keeps [] a c
        Ends-scope_lookup a (s ∷ ss) (some concrete) c = Ends-in_scope (get a s)
          where
            Ends-in_scope : (i : Option ℕ) → Ends c (in_scope classes a concrete i s ss c)
            Ends-in_scope (some i) = q.nothing c
            Ends-in_scope none =
                Ends-and_then c (call_bare classes concrete (get concrete classes) c) _ _
                  (Ends-call_bare concrete (get concrete classes) c)
                  (λ i d h. q.both c d _ h (q.scoping d (put a i s ∷ ss))) (λ e d h. h)

        pub Ends-resolve_scoped :
            (a : String) (c : StdLibContainer) → Ends c (resolve_scoped classes (rec []) a c)
        unfolding resolve_scoped
        Ends-resolve_scoped a c = Ends-scope_lookup a c.scopes (get a c.scoped_registry) c

        Ends-run_script :
            (s : Script) (c : StdLibContainer)
            → Ends c (run_script classes (resolve_scoped classes (rec [])) s c)
        unfolding run_script
        Ends-run_script (make cls) c = Ends-construct cls [] c
        Ends-run_script (reuse i) c = q.nothing c
        Ends-run_script (throw message) c = q.nothing c
        Ends-run_script (ask key on_object on_error) c =
            Ends-and_then c (resolve_scoped classes (rec []) key c) _ _ (Ends-resolve_scoped key c)
              (λ i d h. Ends-after c d _ h (Ends-run_script (on_object i) d))
              (λ e d h. Ends-after c d _ h (Ends-run_script (on_error e) d))

        Ends-resolve_from :
            (path : List String) (a : String) (i : Option ℕ) (f : Option Factory)
            (c : StdLibContainer)
            → get a c.instances ≡ i
            → get a c.factories ≡ f
            → Ends c (resolve_from classes rec path a i f c)
        unfolding run_factory
        Ends-resolve_from path a (some i) f c gi gf = q.nothing c
        Ends-resolve_from path a none none c gi gf =
            Ends-guard_cycle path (concrete_of a (get a c.bindings)) c
        Ends-resolve_from path a none (some (callable s)) c gi gf =
            Ends-and_then c (run_script classes (resolve_scoped classes (rec [])) s c) _ _
              (Ends-run_script s c) (λ i d h. q.keeping a (callable s) i c d gi gf h) (λ e d h. h)
        Ends-resolve_from path a none (some (lazy cls)) c gi gf =
            taken (rec [] cls (record c { factories = remove a c.factories }))
              (keeps [] cls (record c { factories = remove a c.factories }))
          where
            taken :
                (r : Attempt)
                → Ends (record c { factories = remove a c.factories }) r
                → Ends c (
                    keep_instance classes a (
                      and_then r hand_out
                        (λ e d. give_up e (record d { factories = put a (lazy cls) d.factories }))))
            taken none h = tt
            taken (some (found i, d)) h = q.taking a (lazy cls) i c d gi gf h
            taken (some (raised e, d)) h = q.restoring a (lazy cls) c d gi gf h

      pub Ends-resolve_at : (fuel : ℕ) → KeepsAll (resolve_at classes fuel)
      unfolding resolve_at
      Ends-resolve_at zero path a c = tt
      Ends-resolve_at (suc fuel) path a c =
          Ends-resolve_from (resolve_at classes fuel) (Ends-resolve_at fuel) path a
            (get a c.instances) (get a c.factories) c refl refl

      -- A resolution keeps what each of its steps keeps.
      pub resolve-Ends :
          (fuel : ℕ) (a : String) (c : StdLibContainer) → Ends c (resolve classes fuel a c)
      unfolding resolve
      resolve-Ends fuel a c =
          Ends-resolve_scoped (resolve_at classes fuel) (Ends-resolve_at fuel) a c
