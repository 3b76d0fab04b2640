-- ===== src/Container/Resolve.antt =====
-- `resolve` and `_resolve` of infrastructure/container/std_container.py.
use sagittarius_engine.Prelude.{
  ℕ, zero, suc, String, string_eq, Bool, ◌&&◌, not, true, Option, none, some, List, [], ◌∷◌, ◌++◌,
  length, elem, if◌then◌else◌, Dict, get, put, remove,
}
use sagittarius_engine.Container.{
  Param, Init, plain, unreadable, params, ClassInfo, circular, cannot_resolve, abstract_class,
  constructor_raised, missing_hint, param_failed, thrown, Script, make, reuse, throw, ask, Factory,
  lazy, callable, StdLibContainer, Attempt, and_then, give_up, hand_out,
}

abbrev pub constructor_raises : Option ClassInfo → Bool
constructor_raises none = true
constructor_raises (some info) = info.raises

abbrev pub all_default : List Param → Bool
all_default [] = true
all_default (p ∷ ps) = p.has_default && all_default ps

abbrev pub needs_nothing : Init → Bool
needs_nothing plain = true
needs_nothing unreadable = true
needs_nothing (params ps) = all_default ps

-- The first parameter that has no type hint.
abbrev pub first_unhinted : List Param → Option String
first_unhinted [] = none
first_unhinted (p ∷ ps) =
    let rest = first_unhinted ps in elim p.annotation [ none ↦ some p.name | some _ ↦ rest ]

abbrev pub annotated : Option String → String
annotated none = ""
annotated (some t) = t

abbrev pub concrete_of : String → Option String → String
concrete_of abstract none = abstract
concrete_of abstract (some concrete) = concrete

module _ (classes : Dict String ClassInfo) where
  -- `concrete(**dependencies)`.
  unfoldable pub construct : String → List (String × Option ℕ) → StdLibContainer → Attempt
  construct cls args c =
      if constructor_raises (get cls classes)
      then give_up (constructor_raised cls) c
      else hand_out (length c.built)
          (record c { built = c.built ++ record { cls = cls; args = args } ∷ [] })

  -- `concrete()`.
  abbrev pub call_bare : String → Option ClassInfo → StdLibContainer → Attempt
  call_bare cls none c = give_up (constructor_raised cls) c
  call_bare cls (some info) c =
      if not info.is_abstract && needs_nothing info.init
      then construct cls [] c
      else give_up (constructor_raised cls) c

  -- The loop over the parameters of `cls`, with the dependencies found so far.
  unfoldable pub inject :
      (String → StdLibContainer → Attempt)
      → String
      → List Param
      → List (String × Option ℕ)
      → StdLibContainer
      → Attempt
  inject resolve cls [] args c = construct cls args c
  inject resolve cls (p ∷ ps) args c =
      and_then (resolve (annotated p.annotation) c)
        (λ i c'. inject resolve cls ps (args ++ (p.name, some i) ∷ []) c')
        (λ e c'.
          let skip = inject resolve cls ps (args ++ (p.name, none) ∷ []) c' in
          if p.has_default then skip else give_up (param_failed p.name cls e) c')

  abbrev pub inject_hinted :
      (String → StdLibContainer → Attempt)
      → String
      → List Param
      → Option String
      → StdLibContainer
      → Attempt
  inject_hinted resolve cls ps (some name) c = give_up (missing_hint name cls) c
  inject_hinted resolve cls ps none c = inject resolve cls ps [] c

  abbrev pub instantiate :
      (String → StdLibContainer → Attempt) → String → Init → StdLibContainer → Attempt
  instantiate resolve cls plain c = construct cls [] c
  instantiate resolve cls unreadable c = construct cls [] c
  instantiate resolve cls (params ps) c = inject_hinted resolve cls ps (first_unhinted ps) c

  -- From the concrete class on, with the classes that are being resolved.
  abbrev pub build :
      (List String → String → StdLibContainer → Attempt)
      → List String
      → String
      → Option ClassInfo
      → StdLibContainer
      → Attempt
  build resolve resolving cls none c = give_up (cannot_resolve cls) c
  build resolve resolving cls (some info) c =
      if info.is_abstract
      then give_up (abstract_class cls) c
      else instantiate (resolve (cls ∷ resolving)) cls info.init c

  unfoldable pub guard_cycle :
      (List String → String → StdLibContainer → Attempt)
      → List String
      → String
      → StdLibContainer
      → Attempt
  guard_cycle resolve resolving cls c =
      if elem cls resolving
      then give_up (circular cls) c
      else build resolve resolving cls (get cls classes) c

  -- `ScopeContext.resolve`, and what `resolve` does where it returns `None`.
  abbrev pub in_scope :
      String → String → Option ℕ → Dict String ℕ → List (Dict String ℕ) → StdLibContainer → Attempt
  in_scope abstract concrete (some i) scope rest c = hand_out i c
  in_scope abstract concrete none scope rest c =
      and_then (call_bare concrete (get concrete classes) c)
        (λ i c'. hand_out i (record c' { scopes = put abstract i scope ∷ rest })) give_up

  abbrev pub scope_lookup :
      (String → StdLibContainer → Attempt)
      → String
      → List (Dict String ℕ)
      → Option String
      → StdLibContainer
      → Attempt
  scope_lookup resolve abstract [] registered c = resolve abstract c
  scope_lookup resolve abstract (scope ∷ rest) none c = resolve abstract c
  scope_lookup resolve abstract (scope ∷ rest) (some concrete) c =
      in_scope abstract concrete (get abstract scope) scope rest c

  unfoldable pub resolve_scoped :
      (String → StdLibContainer → Attempt) → String → StdLibContainer → Attempt
  resolve_scoped resolve abstract c =
      scope_lookup resolve abstract c.scopes (get abstract c.scoped_registry) c

  unfoldable pub run_script :
      (String → StdLibContainer → Attempt) → Script → StdLibContainer → Attempt
  run_script resolve (make cls) c = construct cls [] c
  run_script resolve (reuse i) c = hand_out i c
  run_script resolve (throw message) c = give_up (thrown message) c
  run_script resolve (ask key on_object on_error) c =
      and_then (resolve key c) (λ i c'. run_script resolve (on_object i) c')
        (λ e c'. run_script resolve (on_error e) c')

  -- `self._factories[abstract](self)`. A lazy factory takes itself out first, and comes back when
  -- the class cannot be resolved.
  unfoldable pub run_factory :
      (List String → String → StdLibContainer → Attempt)
      → String
      → Factory
      → StdLibContainer
      → Attempt
  run_factory resolve abstract (lazy cls) c =
      and_then (resolve [] cls (record c { factories = remove abstract c.factories })) hand_out
        (λ e c'. give_up e (record c' { factories = put abstract (lazy cls) c'.factories }))
  run_factory resolve abstract (callable s) c = run_script (resolve_scoped (resolve [])) s c

  abbrev pub keep_instance : String → Attempt → Attempt
  keep_instance abstract r =
      and_then r (λ i c. hand_out i (record c { instances = put abstract i c.instances })) give_up

  abbrev pub resolve_from :
      (List String → String → StdLibContainer → Attempt)
      → List String
      → String
      → Option ℕ
      → Option Factory
      → StdLibContainer
      → Attempt
  resolve_from resolve resolving abstract (some i) f c = hand_out i c
  resolve_from resolve resolving abstract none (some f) c =
      keep_instance abstract (run_factory resolve abstract f c)
  resolve_from resolve resolving abstract none none c =
      guard_cycle resolve resolving (concrete_of abstract (get abstract c.bindings)) c

  -- `_resolve`.
  unfoldable pub resolve_at : ℕ → List String → String → StdLibContainer → Attempt
  resolve_at zero resolving abstract c = none
  resolve_at (suc fuel) resolving abstract c =
      resolve_from (resolve_at fuel) resolving abstract (get abstract c.instances)
        (get abstract c.factories) c

  -- `resolve`.
  unfoldable pub resolve : ℕ → String → StdLibContainer → Attempt
  resolve fuel abstract c = resolve_scoped (resolve_at fuel []) abstract c
