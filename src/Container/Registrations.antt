-- ===== src/Container/Registrations.antt =====
-- `registrations` of infrastructure/container/std_container.py.
use sagittarius_engine.Prelude.{
  ℕ, zero, suc, String, string_eq, Bool, true, false, Option, none, some, List, [], ◌∷◌, Dict, put,
}
use sagittarius_engine.Container.{Object, Factory, StdLibContainer}

-- `registrations`: what stands later is written over what stands earlier.
pub data Lifetime : Type 0 where
  transient singleton_lifetime scoped_lifetime : Lifetime

pub record Registration : Type 0 where
  pub concrete : Option String
  pub lifetime : Lifetime
  pub instantiated : Bool

-- `for abstract, a in d.items(): found[abstract] = describe(a)`.
unfoldable pub note_all :
    {A : Type 0}
    → (A → Registration)
    → Dict String A
    → Dict String Registration
    → Dict String Registration
note_all describe [] registered = registered
note_all describe ((k, a) ∷ d) registered = note_all describe d (put k (describe a) registered)

abbrev pub class_of : List Object → ℕ → Option String
class_of [] i = none
class_of (o ∷ os) zero = some o.cls
class_of (o ∷ os) (suc i) = class_of os i

abbrev pub describe_binding : String → Registration
describe_binding cls = record { concrete = some cls; lifetime = transient; instantiated = false }

abbrev pub describe_factory : Factory → Registration
describe_factory f = record { concrete = none; lifetime = singleton_lifetime; instantiated = false }

abbrev pub describe_instance : List Object → ℕ → Registration
describe_instance built i = record {
  concrete = class_of built i;
  lifetime = singleton_lifetime;
  instantiated = true;
}

abbrev pub describe_scoped : String → Registration
describe_scoped cls = record {
  concrete = some cls;
  lifetime = scoped_lifetime;
  instantiated = false;
}

unfoldable pub registrations : StdLibContainer → Dict String Registration
registrations c = note_all describe_scoped c.scoped_registry (
    note_all (describe_instance c.built) c.instances
      (note_all describe_factory c.factories (note_all describe_binding c.bindings [])))
