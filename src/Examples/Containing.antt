-- ===== src/Examples/Containing.antt =====
-- The container at concrete classes and registrations.
use sagittarius_engine.Prelude.{
  ◌+◌, ◌*◌, ◌≡◌, ◌≢◌, refl, inr, String, string_eq, true, false, none, some, [], ◌∷◌, length, Dict,
  get, put, remove, keys,
}
use sagittarius_engine.Container.{
  Param, Init, ClassInfo, StdLibContainer, Outcome, found, bind, scoped, enter_scope, exit_scope,
  Factory,
}
use sagittarius_engine.Container.Resolve.{
  resolve, resolve_scoped, resolve_at, run_factory, guard_cycle, construct,
}
use sagittarius_engine.Container.Lifetimes.{reported, resolve_keeps_lifetimes}
use sagittarius_engine.Container.Singletons.{Later, singleton_once}
use sagittarius_engine.Container.Ending.{resolve_ends}
use sagittarius_engine.Container.Scopes.{IsBare, resolved, scope_lem}
use sagittarius_engine.Container.Outside.{registering, scoped_outside}

abbrev concrete : Init → ClassInfo
concrete i = record { is_abstract = false; init = i; raises = false }

abbrev needs : String → Param
needs t = record { name = "it"; annotation = some t; has_default = false }

-- `Repo` implements `IRepo`; `A` and `B` need each other.
abbrev classes : Dict String ClassInfo
classes =
    ("IRepo", record { is_abstract = true; init = Init.plain; raises = false })
    ∷ ("Repo", concrete Init.plain)
    ∷ ("Command", concrete (Init.params (needs "IRepo" ∷ [])))
    ∷ ("A", concrete (Init.params (needs "B" ∷ [])))
    ∷ ("B", concrete (Init.params (needs "A" ∷ [])))
    ∷ []

abbrev start : StdLibContainer
start = record {
  bindings = [];
  instances = [];
  factories = ("IRepo", Factory.lazy "Repo") ∷ [];
  scoped_registry = [];
  open_scopes = 0;
  scopes = [];
  built = [];
}

abbrev after : StdLibContainer
after = record {
  bindings = [];
  instances = ("IRepo", 0) ∷ [];
  factories = [];
  scoped_registry = [];
  open_scopes = 0;
  scopes = [];
  built = record { cls = "Repo"; args = [] } ∷ [];
}

first : resolve classes 20 "IRepo" start ≡ some (found 0, after)
unfolding resolve resolve_scoped resolve_at get run_factory remove guard_cycle construct put
first = refl

has_factory : get "IRepo" start.factories ≢ none
unfolding get
has_factory h = absurd (cc)

unscoped : get "IRepo" start.scoped_registry ≡ none
unfolding get
unscoped = refl

singleton_once_example :
    resolve classes 6 "IRepo" (bind "C" "D" after) ≡ some (found 0, bind "C" "D" after)
singleton_once_example =
    singleton_once classes "IRepo" 0 20 5 start after (bind "C" "D" after) (inr has_factory)
      unscoped first (Later.binds "C" "D" Later.here)

resolve_keeps_lifetimes_example : reported "IRepo" after ≡ reported "IRepo" start
resolve_keeps_lifetimes_example =
    resolve_keeps_lifetimes classes 20 "IRepo" start after (found 0) "IRepo" first

resolve_ends_example :
    (o : Outcome × StdLibContainer) × (resolve classes
        ((length start.factories + 1) * (length (keys classes) + 2))
        "A"
        start
      ≡ some o)
resolve_ends_example = resolve_ends classes "A" start (refl, tt)

abbrev with_scope : StdLibContainer
with_scope = record start { factories = []; scoped_registry = ("IRepo", "Repo") ∷ [] }

known_repo : get "Repo" classes ≡ some (concrete Init.plain)
unfolding get
known_repo = refl

registered : get "IRepo" with_scope.scoped_registry ≡ some "Repo"
unfolding get
registered = refl

repo-IsBare : IsBare (concrete Init.plain)
repo-IsBare = record { concrete = refl; bare = refl; quiet = refl }

abbrev inside : StdLibContainer
inside = resolved "IRepo" "Repo" with_scope

scope_lem_example :
    (resolve classes 5 "IRepo" (enter_scope with_scope) ≡ some (found 0, inside))
    × (resolve classes 5 "IRepo" inside ≡ some (found 0, inside))
    × ((exit_scope inside).scopes ≡ [])
    × ((exit_scope inside).open_scopes ≡ 0)
    × (resolve classes 5 "IRepo" (enter_scope (exit_scope inside))
        ≡ some (found 1, resolved "IRepo" "Repo" (exit_scope inside)))
scope_lem_example =
    scope_lem classes 5 "IRepo" "Repo" (concrete Init.plain) known_repo repo-IsBare with_scope
      registered

abbrev irepo : ClassInfo
irepo = record { is_abstract = true; init = Init.plain; raises = false }

known_irepo : get "IRepo" classes ≡ some irepo
unfolding get
known_irepo = refl

abbrev empty : StdLibContainer
empty = record {
  bindings = [];
  instances = [];
  factories = [];
  scoped_registry = [];
  open_scopes = 0;
  scopes = [];
  built = [];
}

scoped_outside_example :
    resolve classes 4 "IRepo" (scoped "IRepo" "Repo" empty)
    ≡ registering "IRepo" "Repo" (resolve classes 4 "IRepo" empty)
scoped_outside_example = scoped_outside classes 4 "IRepo" "Repo" "IRepo" empty refl
