-- ===== src/Container/Lifetimes.antt =====
-- What `registrations` says of a type, over resolutions that succeed and that fail.
use sagittarius_engine.Prelude.{
  ℕ, ◌≡◌, refl, subst, ◌∙◌, String, string_eq, Option, none, some, [], ◌∷◌, ◌||◌, ==_iff,
  if◌then◌else◌, Dict, get, put, has, get-put, get-remove, arith,
}
use sagittarius_engine.Container.{ClassInfo, StdLibContainer, Outcome}
use sagittarius_engine.Container.Resolve.{resolve}
use sagittarius_engine.Container.Registrations.{
  Lifetime, transient, singleton_lifetime, scoped_lifetime, Registration, note_all,
  describe_binding, describe_factory, describe_instance, describe_scoped, registrations,
}
use sagittarius_engine.Container.Steps.{IsKept, Ends, resolve-Ends}

abbrev lifetime_in : Option Registration → Option Lifetime
lifetime_in none = none
lifetime_in (some r) = some r.lifetime

-- The lifetime that `registrations` reports.
abbrev pub reported : String → StdLibContainer → Option Lifetime
reported k c = lifetime_in (get k (registrations c))

lifetime-note_all :
    {A : Type 0} (describe : A → Registration) (l : Lifetime) (k : String) (d : Dict String A)
    (registered : Dict String Registration)
    → ((a : A) → (describe a).lifetime ≡ l)
    → lifetime_in (get k (note_all describe d registered))
      ≡ (if has k d then some l else lifetime_in (get k registered))
unfolding note_all get
lifetime-note_all describe l k [] registered h = ground arith
lifetime-note_all describe l k ((j, a) ∷ d) registered h = ground (
  arith,
  h a,
  lifetime-note_all describe l k d (put j (describe a) registered) h,
  get-put j k (describe a) registered,
  ==_iff j k,
)

-- What is written last wins: a scope, then a singleton, then a binding.
reported_lem :
    (k : String) (c : StdLibContainer)
    → reported k c ≡ (
        if has k c.scoped_registry
        then some scoped_lifetime
        else if has k c.instances || has k c.factories
        then some singleton_lifetime
        else if has k c.bindings
        then some transient
        else none)
unfolding registrations get
reported_lem k c =
    let b = note_all describe_binding c.bindings [] in
    let f = note_all describe_factory c.factories b in
    let i = note_all (describe_instance c.built) c.instances f in
    ground (
      arith,
      lifetime-note_all describe_scoped scoped_lifetime k c.scoped_registry i (λ a. refl),
      lifetime-note_all (describe_instance c.built) singleton_lifetime k c.instances f (λ a. refl),
      lifetime-note_all describe_factory singleton_lifetime k c.factories b (λ a. refl),
      lifetime-note_all describe_binding transient k c.bindings [] (λ a. refl),
    )

-- The registrations of a type, wherever they stand.
abbrev SameRegistered : StdLibContainer → StdLibContainer → Type 0
SameRegistered c d =
    ((k : String)
      → (has k d.instances || has k d.factories) ≡ (has k c.instances || has k c.factories))
    × (d.scoped_registry ≡ c.scoped_registry)
    × (d.bindings ≡ c.bindings)

registered-IsKept : IsKept SameRegistered
registered-IsKept = record {
  nothing = λ c. ((λ k. refl), refl, refl);
  both = λ c d e h g. ((λ k. g.0 k ∙ h.0 k), g.1 ∙ h.1, g.2 ∙ h.2);
  building = λ c os. ((λ k. refl), refl, refl);
  scoping = λ c ss. ((λ k. refl), refl, refl);
  keeping = λ a f i c d absent there h.
      ((λ k. ground (arith, get-put a k i d.instances, h.0 k, ==_iff a k)), h.1, h.2);
  taking = λ a f i c d absent there h. (
    (λ k. ground (arith, get-put a k i d.instances, get-remove a k c.factories, h.0 k, ==_iff a k)),
    h.1,
    h.2,
  );
  restoring = λ a f c d absent there h. (
    (λ k. ground (arith, get-put a k f d.factories, get-remove a k c.factories, h.0 k, ==_iff a k)),
    h.1,
    h.2,
  );
}

-- A resolution, whether it returns an object or raises, changes no type's lifetime as
-- `registrations` reports it: it neither adds a registration nor loses one, also where a lazy
-- singleton's class cannot be resolved, or becomes an instance.
pub resolve_keeps_lifetimes :
    (classes : Dict String ClassInfo) (fuel : ℕ) (a : String) (c d : StdLibContainer) (o : Outcome)
    (k : String)
    → resolve classes fuel a c ≡ some (o, d)
    → reported k d ≡ reported k c
resolve_keeps_lifetimes classes fuel a c d o k r =
    let kept : SameRegistered c d =
      subst (λ t. Ends SameRegistered c t) r
        (resolve-Ends SameRegistered registered-IsKept classes fuel a c) in
    cc (reported_lem k c, reported_lem k d, kept.0 k, kept.1, kept.2)
