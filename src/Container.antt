-- ===== src/Container.antt =====
-- `StdLibContainer` of infrastructure/container/std_container.py with `ScopeContext` of
-- scope_context.py beside it. A type is its name; what `inspect` says of the classes, and which
-- constructors raise, is the table `classes`, so the cache of parsed signatures is left out. An
-- object is its place in `built`. The container is used by one thread.
pub mod Resolve
pub mod Registrations
pub mod Steps
pub mod Singletons
pub mod Lifetimes
pub mod Ending
pub mod Laziness
pub mod Scopes
pub mod Outside
use sagittarius_engine.Prelude.{
  ℕ, zero, suc, ◌+◌, ◌-◌, String, string_eq, Bool, ◌&&◌, not, true, false, Option, none, some, List,
  [], ◌∷◌, ◌++◌, length, elem, if◌then◌else◌, Dict, get, put, remove, has,
}

pub record Param : Type 0 where
  pub name : String
  pub annotation : Option String
  pub has_default : Bool

-- `__init__` is `object.__init__`, or has no signature that can be read, or has parameters.
pub data Init : Type 0 where
  plain unreadable : Init
  params : List Param → Init

pub record ClassInfo : Type 0 where
  pub is_abstract : Bool
  pub init : Init
  pub raises : Bool

pub data Error : Type 0 where
  circular cannot_resolve abstract_class constructor_raised : String → Error
  missing_hint : String → String → Error
  param_failed : String → String → Error → Error
  thrown : String → Error

pub record Object : Type 0 where
  pub cls : String
  pub args : List (String × Option ℕ)

-- A factory function of the application. It makes an object, hands out one that exists, raises, or
-- calls `container.resolve` and goes on with what that returns or raises.
pub data Script : Type 0 where
  make : String → Script
  reuse : ℕ → Script
  throw : String → Script
  ask : String → (ℕ → Script) → (Error → Script) → Script

pub data Factory : Type 0 where
  lazy : String → Factory
  callable : Script → Factory

-- `_current_scope` is the head of `scopes`, and the others are what resetting brings back.
pub record StdLibContainer : Type 0 where
  pub bindings : Dict String String
  pub instances : Dict String ℕ
  pub factories : Dict String Factory
  pub scoped_registry : Dict String String
  pub open_scopes : ℕ
  pub scopes : List (Dict String ℕ)
  pub built : List Object

unfoldable pub new : StdLibContainer
new = record {
  bindings = [];
  instances = [];
  factories = [];
  scoped_registry = [];
  open_scopes = 0;
  scopes = [];
  built = [];
}

unfoldable pub bind : String → String → StdLibContainer → StdLibContainer
bind abstract concrete c = record c { bindings = put abstract concrete c.bindings }

-- What `singleton` is given: a class, a function, or an object.
pub data Supply : Type 0 where
  a_class : String → Supply
  a_function : Script → Supply
  an_instance : ℕ → Supply

unfoldable pub singleton : String → Supply → StdLibContainer → StdLibContainer
singleton abstract (a_class cls) c = record c { factories = put abstract (lazy cls) c.factories }
singleton abstract (a_function s) c = record c { factories = put abstract (callable s) c.factories }
singleton abstract (an_instance i) c = record c { instances = put abstract i c.instances }

unfoldable pub scoped : String → String → StdLibContainer → StdLibContainer
scoped abstract concrete c = record c { scoped_registry = put abstract concrete c.scoped_registry }

-- `__enter__` and `__exit__` of a scope that `create_scope` made.
unfoldable pub enter_scope : StdLibContainer → StdLibContainer
enter_scope c = record c { scopes = [] ∷ c.scopes; open_scopes = c.open_scopes + 1 }

abbrev pub outer : List (Dict String ℕ) → List (Dict String ℕ)
outer [] = []
outer (s ∷ ss) = ss

unfoldable pub exit_scope : StdLibContainer → StdLibContainer
exit_scope c = record c { scopes = outer c.scopes; open_scopes = c.open_scopes - 1 }

pub data Outcome : Type 0 where
  found : ℕ → Outcome
  raised : Error → Outcome

-- `none` is no outcome of the program: the recursion stops there when the fuel runs out.
abbrev pub Attempt : Type 0
Attempt = Option (Outcome × StdLibContainer)

-- What follows on an object and on an exception.
abbrev pub and_then :
    Attempt → (ℕ → StdLibContainer → Attempt) → (Error → StdLibContainer → Attempt) → Attempt
and_then none k h = none
and_then (some (found i, c)) k h = k i c
and_then (some (raised e, c)) k h = h e c

abbrev pub give_up : Error → StdLibContainer → Attempt
give_up e c = some (raised e, c)

abbrev pub hand_out : ℕ → StdLibContainer → Attempt
hand_out i c = some (found i, c)
