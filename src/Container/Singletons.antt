-- ===== src/Container/Singletons.antt =====
-- A singleton of a `StdLibContainer` is created once.
use sagittarius_engine.Prelude.{
  ℕ, zero, suc, ◌≡◌, ◌≢◌, ◌⊎◌, refl, sym, ap, subst, ◌∙◌, String, string_eq, false, Option, none,
  some, List, [], ◌∷◌, ◌==◌, ==_iff, inl, inr, Dict, get, put, get-put, arith,
}
use sagittarius_engine.Container.{
  ClassInfo, Factory, StdLibContainer, Outcome, found, raised, Attempt, bind, singleton, scoped,
  Script, a_class, a_function, an_instance, enter_scope, exit_scope,
}
use sagittarius_engine.Container.Resolve.{
  resolve, resolve_at, resolve_from, resolve_scoped, scope_lookup, keep_instance, run_factory,
}
use sagittarius_engine.Container.Steps.{IsKept, Ends, resolve-Ends}

-- Instances stay as they are, and so do the scoped registrations.
abbrev KeepsInstances : StdLibContainer → StdLibContainer → Type 0
KeepsInstances c d =
    ((k : String) (i : ℕ) → get k c.instances ≡ some i → get k d.instances ≡ some i)
    × (d.scoped_registry ≡ c.scoped_registry)

put_kept :
    (a : String) (i : ℕ) (c d : StdLibContainer)
    → get a c.instances ≡ none
    → ((k : String) (j : ℕ) → get k c.instances ≡ some j → get k d.instances ≡ some j)
    → (k : String) (j : ℕ) → get k c.instances ≡ some j
    → get k (put a i d.instances) ≡ some j
put_kept a i c d absent h k j g = ground (arith, get-put a k i d.instances, h k j g, ==_iff a k)

instances-IsKept : IsKept KeepsInstances
instances-IsKept = record {
  nothing = λ c. ((λ k i g. g), refl);
  both = λ c d e h k. ((λ n i g. k.0 n i (h.0 n i g)), k.1 ∙ h.1);
  building = λ c os. ((λ k i g. g), refl);
  scoping = λ c ss. ((λ k i g. g), refl);
  keeping = λ a f i c d absent there h. (put_kept a i c d absent h.0, h.1);
  taking = λ a f i c d absent there h. (put_kept a i c d absent h.0, h.1);
  restoring = λ a f c d absent there h. h;
}

module _ (classes : Dict String ClassInfo) where
  -- What may happen to a container behind a resolution of `a`: further resolutions of anything,
  -- registrations, and scopes; but `a` is neither given another instance nor a scope.
  pub data Later (a : String) : StdLibContainer → StdLibContainer → Type 0 where
    here : {c : StdLibContainer} → Later a c c
    resolves :
        {c d e : StdLibContainer} (fuel : ℕ) (b : String) (o : Outcome)
        → Later a c d
        → resolve classes fuel b d ≡ some (o, e)
        → Later a c e
    binds : {c d : StdLibContainer} (b t : String) → Later a c d → Later a c (bind b t d)
    supplies_class :
        {c d : StdLibContainer} (b t : String) → Later a c d → Later a c (singleton b (a_class t) d)
    supplies_function :
        {c d : StdLibContainer} (b : String) (s : Script)
        → Later a c d
        → Later a c (singleton b (a_function s) d)
    supplies_instance :
        {c d : StdLibContainer} (b : String) (i : ℕ)
        → (b == a) ≡ false
        → Later a c d
        → Later a c (singleton b (an_instance i) d)
    scopes :
        {c d : StdLibContainer} (b t : String)
        → (b == a) ≡ false
        → Later a c d
        → Later a c (scoped b t d)
    enters : {c d : StdLibContainer} → Later a c d → Later a c (enter_scope d)
    exits : {c d : StdLibContainer} → Later a c d → Later a c (exit_scope d)

  -- The instance of `a` stands, and `a` has no scope.
  abbrev Stands : String → ℕ → StdLibContainer → Type 0
  Stands a i c = (get a c.instances ≡ some i) × (get a c.scoped_registry ≡ none)

  resolve-Stands :
      (a b : String) (i fuel : ℕ) (c d : StdLibContainer) (o : Outcome)
      → resolve classes fuel b c ≡ some (o, d)
      → Stands a i c
      → Stands a i d
  resolve-Stands a b i fuel c d o r s =
      let kept : KeepsInstances c d =
        subst (λ t. Ends KeepsInstances c t) r
          (resolve-Ends KeepsInstances instances-IsKept classes fuel b c) in
      (kept.0 a i s.0, ap (get a) kept.1 ∙ s.1)

  Later-Stands :
      (a : String) (i : ℕ) {c d : StdLibContainer} → Stands a i c → Later a c d → Stands a i d
  unfolding bind singleton scoped enter_scope exit_scope
  Later-Stands a i s here = s
  Later-Stands a i s (resolves {d} {e} fuel b o l r) =
      resolve-Stands a b i fuel d e o r (Later-Stands a i s l)
  Later-Stands a i s (binds b t l) = Later-Stands a i s l
  Later-Stands a i s (supplies_class b t l) = Later-Stands a i s l
  Later-Stands a i s (supplies_function b t l) = Later-Stands a i s l
  Later-Stands a i s (supplies_instance {d} b j other l) =
      let before = Later-Stands a i s l in
      (get-put b a j d.instances ∙ (rw other before.0), before.1)
  Later-Stands a i s (scopes {d} b t other l) =
      let before = Later-Stands a i s l in
      (before.0, get-put b a t d.scoped_registry ∙ (rw other before.1))
  Later-Stands a i s (enters l) = Later-Stands a i s l
  Later-Stands a i s (exits l) = Later-Stands a i s l

  unscoped :
      (r : String → StdLibContainer → Attempt) (a : String) (ss : List (Dict String ℕ))
      (c : StdLibContainer)
      → scope_lookup classes r a ss none c ≡ r a c
  unscoped r a [] c = refl
  unscoped r a (s ∷ ss) c = refl

  resolve-unscoped :
      (a : String) (fuel : ℕ) (c : StdLibContainer)
      → get a c.scoped_registry ≡ none
      → resolve classes fuel a c ≡ resolve_at classes fuel [] a c
  unfolding resolve resolve_scoped
  resolve-unscoped a fuel c h =
      subst
        (λ o.
          scope_lookup classes (resolve_at classes fuel []) a c.scopes o c
          ≡ resolve_at classes fuel [] a c)
        (sym h) (unscoped (resolve_at classes fuel []) a c.scopes c)

  -- A type with an instance is resolved to it, and nothing changes.
  resolve_found :
      (a : String) (i fuel : ℕ) (c : StdLibContainer)
      → Stands a i c
      → resolve classes (suc fuel) a c ≡ some (found i, c)
  unfolding resolve_at
  resolve_found a i fuel c s =
      resolve-unscoped a (suc fuel) c s.1
      ∙ subst
          (λ o.
            resolve_from classes (resolve_at classes fuel) [] a o (get a c.factories) c
            ≡ some (found i, c))
          (sym s.0) refl

  kept_from :
      (rec : List String → String → StdLibContainer → Attempt) (a : String) (i : ℕ)
      (c d : StdLibContainer) (oi : Option ℕ) (of : Option Factory)
      → get a c.instances ≡ oi
      → (oi ≢ none) ⊎ (of ≢ none)
      → resolve_from classes rec [] a oi of c ≡ some (found i, d)
      → get a d.instances ≡ some i
  kept_from rec a i c d (some j) of g there h = cc
  kept_from rec a i c d none none g (inl no_instance) h = absurd (no_instance refl)
  kept_from rec a i c d none none g (inr no_factory) h = absurd (no_factory refl)
  kept_from rec a i c d none (some f) g there h = kept (run_factory classes rec a f c) h
    where
      kept :
          (r : Attempt) → keep_instance classes a r ≡ some (found i, d) → get a d.instances ≡ some i
      kept none e = absurd (cc)
      kept (some (raised x, c')) e = absurd (cc)
      kept (some (found j, c')) e = ground (arith, e, get-put a a j c'.instances, ==_iff a a)

  resolve_at-instance :
      (a : String) (i fuel : ℕ) (c d : StdLibContainer)
      → (get a c.instances ≢ none) ⊎ (get a c.factories ≢ none)
      → resolve_at classes fuel [] a c ≡ some (found i, d)
      → get a d.instances ≡ some i
  unfolding resolve_at
  resolve_at-instance a i zero c d there h = absurd (cc)
  resolve_at-instance a i (suc fuel) c d there h =
      kept_from (resolve_at classes fuel) a i c d (get a c.instances) (get a c.factories) refl there
        h

  -- A type that is registered as a singleton, by an object, a class or a function, and has no scope:
  -- once `resolve` has returned an object for it, `resolve` returns that same object for ever, and
  -- without any change. In between the container may resolve anything else, with any outcome, take
  -- any registration but another object or a scope for this type, and enter and leave scopes.
  pub singleton_once :
      (a : String) (i fuel more : ℕ) (c d e : StdLibContainer)
      → (get a c.instances ≢ none) ⊎ (get a c.factories ≢ none)
      → get a c.scoped_registry ≡ none
      → resolve classes fuel a c ≡ some (found i, d)
      → Later a d e
      → resolve classes (suc more) a e ≡ some (found i, e)
  singleton_once a i fuel more c d e there unscoped_a r l =
      let kept : KeepsInstances c d =
        subst (λ t. Ends KeepsInstances c t) r
          (resolve-Ends KeepsInstances instances-IsKept classes fuel a c) in
      let stands : Stands a i d = (
        resolve_at-instance a i fuel c d there (sym (resolve-unscoped a fuel c unscoped_a) ∙ r),
        ap (get a) kept.1 ∙ unscoped_a,
      ) in
      resolve_found a i more e (Later-Stands a i stands l)
