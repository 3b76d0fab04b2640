-- ===== src/Container/Outside.antt =====
-- What a scoped registration of a `StdLibContainer` does outside any scope.
use sagittarius_engine.Prelude.{
  ℕ, zero, suc, ◌≡◌, refl, String, string_eq, Bool, true, false, Option, none, some, List, [], ◌∷◌,
  ◌++◌, elem, if◌then◌else◌, Dict, get, remove,
}
use sagittarius_engine.Container.{
  Param, Init, plain, unreadable, params, ClassInfo, StdLibContainer, Outcome, found, raised, Error,
  Attempt, and_then, scoped, Script, make, reuse, throw, ask, Factory, lazy, callable,
}
use sagittarius_engine.Container.Resolve.{
  constructor_raises, first_unhinted, annotated, concrete_of, construct, inject, inject_hinted,
  instantiate, build, guard_cycle, scope_lookup, resolve_scoped, run_script, run_factory,
  resolve_from, resolve_at, resolve,
}

-- The attempt whose container has the scoped class `t` for `a` as well.
abbrev pub registering : String → String → Attempt → Attempt
registering a t none = none
registering a t (some (o, c)) = some (o, scoped a t c)

abbrev NoScope : Attempt → Type 0
NoScope none = Unit
NoScope (some (o, c)) = c.scopes ≡ []

module _ (a t : String) where
  record Agrees (r q : Attempt) : Type 0 where
    same : q ≡ registering a t r
    outside : NoScope r

  abbrev Like : (String → StdLibContainer → Attempt) → Type 0
  Like f = (b : String) (c : StdLibContainer) → c.scopes ≡ [] → Agrees (f b c) (f b (scoped a t c))

  answer :
      (o : Outcome) (c : StdLibContainer)
      → c.scopes ≡ []
      → Agrees (some (o, c)) (some (o, scoped a t c))
  answer o c h = record { same = refl; outside = h }

  and_then_from :
      (r : Attempt) (k : ℕ → StdLibContainer → Attempt) (h : Error → StdLibContainer → Attempt)
      (k' : ℕ → StdLibContainer → Attempt) (h' : Error → StdLibContainer → Attempt)
      → NoScope r
      → ((i : ℕ) (c : StdLibContainer) → c.scopes ≡ [] → Agrees (k i c) (k' i (scoped a t c)))
      → ((e : Error) (c : StdLibContainer) → c.scopes ≡ [] → Agrees (h e c) (h' e (scoped a t c)))
      → Agrees (and_then r k h) (and_then (registering a t r) k' h')
  and_then_from none k h k' h' out on_object on_error = record { same = refl; outside = tt }
  and_then_from (some (found i, c)) k h k' h' out on_object on_error = on_object i c out
  and_then_from (some (raised e, c)) k h k' h' out on_object on_error = on_error e c out

  and_then-Agrees :
      (r q : Attempt) (k : ℕ → StdLibContainer → Attempt) (h : Error → StdLibContainer → Attempt)
      (k' : ℕ → StdLibContainer → Attempt) (h' : Error → StdLibContainer → Attempt)
      → Agrees r q
      → ((i : ℕ) (c : StdLibContainer) → c.scopes ≡ [] → Agrees (k i c) (k' i (scoped a t c)))
      → ((e : Error) (c : StdLibContainer) → c.scopes ≡ [] → Agrees (h e c) (h' e (scoped a t c)))
      → Agrees (and_then r k h) (and_then q k' h')
  and_then-Agrees r q k h k' h' both on_object on_error =
      rw both.same (and_then_from r k h k' h' both.outside on_object on_error)

  if-Agrees :
      (b : Bool) (r r' q q' : Attempt)
      → Agrees r q
      → Agrees r' q'
      → Agrees (if b then r else r') (if b then q else q')
  if-Agrees true r r' q q' met other = met
  if-Agrees false r r' q q' met other = other

  module _ (classes : Dict String ClassInfo) where
    construct-Agrees :
        (cls : String) (args : List (String × Option ℕ)) (c : StdLibContainer)
        → c.scopes ≡ []
        → Agrees (construct classes cls args c) (construct classes cls args (scoped a t c))
    unfolding construct scoped
    construct-Agrees cls args c h =
        if-Agrees (constructor_raises (get cls classes)) _ _ _ _ (answer _ c h) (answer _ _ h)

    inject-Agrees :
        (f : String → StdLibContainer → Attempt)
        → Like f
        → (cls : String) (ps : List Param) (args : List (String × Option ℕ)) (c : StdLibContainer)
        → c.scopes ≡ []
        → Agrees (inject classes f cls ps args c) (inject classes f cls ps args (scoped a t c))
    unfolding inject
    inject-Agrees f like cls [] args c h = construct-Agrees cls args c h
    inject-Agrees f like cls (p ∷ ps) args c h =
        and_then-Agrees _ _ _ _ _ _ (like (annotated p.annotation) c h)
          (λ i c' h'. inject-Agrees f like cls ps (args ++ (p.name, some i) ∷ []) c' h')
          (λ e c' h'.
            if-Agrees p.has_default _ _ _ _
              (inject-Agrees f like cls ps (args ++ (p.name, none) ∷ []) c' h') (answer _ c' h'))

    inject_hinted-Agrees :
        (f : String → StdLibContainer → Attempt)
        → Like f
        → (cls : String) (ps : List Param) (o : Option String) (c : StdLibContainer) → c.scopes ≡ []
        → Agrees
            (inject_hinted classes f cls ps o c)
            (inject_hinted classes f cls ps o (scoped a t c))
    inject_hinted-Agrees f like cls ps none c h = inject-Agrees f like cls ps [] c h
    inject_hinted-Agrees f like cls ps (some name) c h = answer _ c h

    instantiate-Agrees :
        (f : String → StdLibContainer → Attempt)
        → Like f
        → (cls : String) (i : Init) (c : StdLibContainer) → c.scopes ≡ []
        → Agrees (instantiate classes f cls i c) (instantiate classes f cls i (scoped a t c))
    instantiate-Agrees f like cls plain c h = construct-Agrees cls [] c h
    instantiate-Agrees f like cls unreadable c h = construct-Agrees cls [] c h
    instantiate-Agrees f like cls (params ps) c h =
        inject_hinted-Agrees f like cls ps (first_unhinted ps) c h

    module _ (f : List String → String → StdLibContainer → Attempt)
        (like : (resolving : List String) → Like (f resolving)) where
      build-Agrees :
          (resolving : List String) (cls : String) (o : Option ClassInfo) (c : StdLibContainer)
          → c.scopes ≡ []
          → Agrees
              (build classes f resolving cls o c)
              (build classes f resolving cls o (scoped a t c))
      build-Agrees resolving cls none c h = answer _ c h
      build-Agrees resolving cls (some info) c h =
          if-Agrees info.is_abstract _ _ _ _ (answer _ c h)
            (instantiate-Agrees (f (cls ∷ resolving)) (like (cls ∷ resolving)) cls info.init c h)

      guard_cycle-Agrees :
          (resolving : List String) (cls : String) (c : StdLibContainer)
          → c.scopes ≡ []
          → Agrees
              (guard_cycle classes f resolving cls c)
              (guard_cycle classes f resolving cls (scoped a t c))
      unfolding guard_cycle
      guard_cycle-Agrees resolving cls c h =
          if-Agrees (elem cls resolving) _ _ _ _ (answer _ c h)
            (build-Agrees resolving cls (get cls classes) c h)

    scope_lookup-Agrees :
        (f : String → StdLibContainer → Attempt)
        → Like f
        → (b : String) (ss : List (Dict String ℕ)) (o o' : Option String) (c : StdLibContainer)
        → ss ≡ []
        → c.scopes ≡ []
        → Agrees (scope_lookup classes f b ss o c) (scope_lookup classes f b ss o' (scoped a t c))
    scope_lookup-Agrees f like b [] o o' c none_open h = like b c h
    scope_lookup-Agrees f like b (s ∷ ss) o o' c none_open h = absurd (cc)

    resolve_scoped-Agrees :
        (f : String → StdLibContainer → Attempt) → Like f → Like (resolve_scoped classes f)
    unfolding resolve_scoped scoped
    resolve_scoped-Agrees f like b c h = scope_lookup-Agrees f like b c.scopes _ _ c h h

    run_script-Agrees :
        (f : String → StdLibContainer → Attempt)
        → Like f
        → (s : Script) (c : StdLibContainer) → c.scopes ≡ []
        → Agrees (run_script classes f s c) (run_script classes f s (scoped a t c))
    unfolding run_script
    run_script-Agrees f like (make cls) c h = construct-Agrees cls [] c h
    run_script-Agrees f like (reuse i) c h = answer _ c h
    run_script-Agrees f like (throw message) c h = answer _ c h
    run_script-Agrees f like (ask key on_object on_error) c h =
        and_then-Agrees _ _ _ _ _ _ (like key c h)
          (λ i c' h'. run_script-Agrees f like (on_object i) c' h')
          (λ e c' h'. run_script-Agrees f like (on_error e) c' h')

    module _ (f : List String → String → StdLibContainer → Attempt)
        (like : (resolving : List String) → Like (f resolving)) where
      run_factory-Agrees :
          (b : String) (g : Factory) (c : StdLibContainer)
          → c.scopes ≡ []
          → Agrees (run_factory classes f b g c) (run_factory classes f b g (scoped a t c))
      unfolding run_factory scoped
      run_factory-Agrees b (lazy cls) c h =
          and_then-Agrees _ _ _ _ _ _
            (like [] cls (record c { factories = remove b c.factories }) h)
            (λ i c' h'. answer _ c' h') (λ e c' h'. answer _ _ h')
      run_factory-Agrees b (callable s) c h =
          run_script-Agrees (resolve_scoped classes (f [])) (resolve_scoped-Agrees (f []) (like []))
            s c h

      resolve_from-Agrees :
          (resolving : List String) (b : String) (i : Option ℕ) (g : Option Factory)
          (c : StdLibContainer)
          → c.scopes ≡ []
          → Agrees
              (resolve_from classes f resolving b i g c)
              (resolve_from classes f resolving b i g (scoped a t c))
      unfolding scoped
      resolve_from-Agrees resolving b (some i) g c h = answer _ c h
      resolve_from-Agrees resolving b none (some g) c h =
          and_then-Agrees _ _ _ _ _ _ (run_factory-Agrees b g c h) (λ i c' h'. answer _ _ h')
            (λ e c' h'. answer _ c' h')
      resolve_from-Agrees resolving b none none c h =
          guard_cycle-Agrees f like resolving (concrete_of b (get b c.bindings)) c h

    resolve_at-Like :
        (fuel : ℕ) (resolving : List String) → Like (resolve_at classes fuel resolving)
    unfolding resolve_at scoped
    resolve_at-Like zero resolving b c h = record { same = refl; outside = tt }
    resolve_at-Like (suc fuel) resolving b c h =
        resolve_from-Agrees (resolve_at classes fuel) (resolve_at-Like fuel) resolving b
          (get b c.instances) (get b c.factories) c h

-- Outside any scope a scoped registration has no effect on `resolve`: each type, the registered one
-- included, gives the object or the exception that it gives without the registration, and leaves the
-- same container with the registration in it. So the scoped class is not looked at.
pub scoped_outside :
    (classes : Dict String ClassInfo) (fuel : ℕ) (a t b : String) (c : StdLibContainer)
    → c.scopes ≡ []
    → resolve classes fuel b (scoped a t c) ≡ registering a t (resolve classes fuel b c)
unfolding resolve
scoped_outside classes fuel a t b c outside =
    (resolve_scoped-Agrees a t classes (resolve_at classes fuel [])
      (resolve_at-Like a t classes fuel []) b c outside).same
