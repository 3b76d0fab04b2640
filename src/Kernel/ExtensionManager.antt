-- ===== src/Kernel/ExtensionManager.antt =====
-- `ExtensionManager` of kernel/extension_manager.py. `behaves hook x` is the exception that the
-- hook of the extension with identity x raises, if any. Hook calls and emitted events are appended
-- to `effects`; emitting does not raise, as the buses report their handlers' failures. Tracing,
-- logging and the async hooks are left out.
pub mod Rounds
pub mod Scan
pub mod Hooks
pub mod Running
use sagittarius_engine.Prelude.{
  ℕ, zero, suc, String, string_eq, nat_eq, Bool, true, false, not, Option, none, some, List, [],
  ◌∷◌, ◌++◌, Eq, ◌==◌, ◌&&◌, elem, if◌then◌else◌, keep, length, map, reverse,
}
use sagittarius_engine.Kernel.Descriptors.{Extension, names, sort_by_priority}
use sagittarius_engine.Kernel.ExtensionSort
use sagittarius_engine.Kernel.ExtensionSort.{SortError, build_and_sort, enabled_only}

pub data Exception : Type 0 where
  runtime_error value_error type_error import_error other_error : Exception

pub data Hook : Type 0 where
  initialize start stop dispose : Hook

pub data Effect : Type 0 where
  called : Hook → ℕ → Effect
  emitted : Hook → String → Effect

pub data Outcome : Type 0 where
  returned : Outcome
  raised : Exception → Outcome
  sort_failed : SortError → Outcome

-- `except (RuntimeError, ValueError, TypeError, ImportError)`, of the code that initializes.
abbrev pub caught_initializing : Exception → Bool
caught_initializing other_error = false
caught_initializing _ = true

-- `except (RuntimeError, ValueError, TypeError)`, of the code that stops and disposes.
abbrev pub caught_stopping : Exception → Bool
caught_stopping import_error = false
caught_stopping other_error = false
caught_stopping _ = true

pub record Manager : Type 0 where
  pub registered_extensions : List Extension
  pub sorted_extensions : List Extension
  pub initialized_extensions : List Extension
  pub effects : List Effect

abbrev pub new : Manager
new = record {
  registered_extensions = [];
  sorted_extensions = [];
  initialized_extensions = [];
  effects = [];
}

abbrev pub log : List Effect → Manager → Manager
log es m = record m { effects = m.effects ++ es }

-- Every dependency is known: the optional ones too, whether they are registered or not.
abbrev pub all_known : List String → List String → Bool
all_known known [] = true
all_known known (dep ∷ deps) = elem dep known && all_known known deps

abbrev pub deps_satisfied : List String → Extension → Bool
deps_satisfied known x = all_known known x.dependencies && all_known known x.optional_dependencies

-- A run of the `for` loop of `_try_initialize_available`.
pub record Round : Type 0 where
  pub manager : Manager
  pub known : List String
  pub next_pending : List Extension
  pub initialized_any : Bool
  pub outcome : Outcome

-- `ext.initialize(context)` and the lines around it.
abbrev pub initialized : Extension → Manager → Manager
initialized x m = record m {
  initialized_extensions = m.initialized_extensions ++ x ∷ [];
  effects = m.effects ++ emitted initialize x.name ∷ called initialize x.ident ∷ [];
}

abbrev pub failed : Extension → Manager → Manager
failed x = log (emitted initialize x.name ∷ called initialize x.ident ∷ [])

abbrev pub keep_pending : Extension → Round → Round
keep_pending x r = record r { next_pending = x ∷ r.next_pending }

abbrev pub made_progress : Round → Round
made_progress r = record r { initialized_any = true }

abbrev pub after_try : Option Exception → Extension → Manager → List String → Round → Round
after_try none x m known done = done
after_try (some e) x m known done = record {
  manager = failed x m;
  known = known;
  next_pending = [];
  initialized_any = true;
  outcome = raised e;
}

abbrev pub after_round :
    Outcome → Bool → Option (Manager × Outcome) → Manager → Option (Manager × Outcome)
after_round returned true again m = again
after_round outcome _ again m = some (m, outcome)

abbrev pub pending_of : Manager → List Extension
pending_of m = sort_by_priority (
    keep (λ x. x.enabled && not (elem x.name (names m.initialized_extensions)))
      m.registered_extensions)

abbrev pub and_then : Manager × Outcome → (Manager → Manager × Outcome) → Manager × Outcome
and_then (m, returned) next = next m
and_then (m, failure) next = (m, failure)

-- What a `try` block of `_rollback` or `stop_and_dispose` does on the hook's response.
abbrev pub responded : Hook → Extension → Manager → Option Exception → Manager × Outcome
responded hook x m none = (log (emitted hook x.name ∷ []) m, returned)
responded hook x m (some e) = if caught_stopping e then (m, returned) else (m, raised e)

-- `raise e` behind a call that may raise on its own.
abbrev pub raise_after : Exception → Manager × Outcome → Manager × Outcome
raise_after e (m, returned) = (m, raised e)
raise_after e (m, failure) = (m, failure)

module _ (behaves : Hook → ℕ → Option Exception) where
  unfoldable pub scan : List Extension → Manager → List String → Round
  scan [] m known = record {
    manager = m;
    known = known;
    next_pending = [];
    initialized_any = false;
    outcome = returned;
  }
  scan (x ∷ xs) m known =
      let skipped = keep_pending x (scan xs m known) in
      let done = made_progress (scan xs (initialized x m) (known ++ x.name ∷ [])) in
      if deps_satisfied known x
      then after_try (behaves initialize x.ident) x m known done
      else skipped

  -- The `while True` loop; `none` where the fuel runs out.
  unfoldable pub rounds : ℕ → List Extension → Manager → List String → Option (Manager × Outcome)
  rounds zero pending m known = none
  rounds (suc fuel) pending m known =
      let r = scan pending m known in
      let again = rounds fuel r.next_pending r.manager r.known in
      after_round r.outcome r.initialized_any again r.manager

  unfoldable pub try_initialize_available : ℕ → Manager → Option (Manager × Outcome)
  unfolding rounds
  try_initialize_available fuel m = rounds fuel (pending_of m) m (names m.initialized_extensions)

  -- A `try` block with a hook's call in it.
  abbrev pub attempt : Hook → Extension → Manager → Manager × Outcome
  attempt hook x m = responded hook x (log (called hook x.ident ∷ []) m) (behaves hook x.ident)

  -- The loop of `_rollback`. An exception that it does not catch ends it.
  unfoldable pub dispose_each : List Extension → Manager → Manager × Outcome
  dispose_each [] m = (record m { initialized_extensions = [] }, returned)
  dispose_each (x ∷ xs) m = and_then (attempt dispose x m) (dispose_each xs)

  unfoldable pub rollback : Manager → Manager × Outcome
  unfolding dispose_each
  rollback m = dispose_each (reverse m.initialized_extensions) m

  -- `except …: self._rollback(); raise e`.
  unfoldable pub roll_back_and_raise : Exception → Manager → Manager × Outcome
  unfolding rollback
  roll_back_and_raise e m = raise_after e (rollback m)

  guard_registration : Option (Manager × Outcome) → Option (Manager × Outcome)
  unfolding roll_back_and_raise
  guard_registration none = none
  guard_registration (some (m, returned)) = some (m, returned)
  guard_registration (some (m, sort_failed s)) = some (m, sort_failed s)
  guard_registration (some (m, raised e)) =
      let undone = roll_back_and_raise e m in
      if caught_initializing e then some undone else some (m, raised e)

  -- `register`, for an object that passes its `isinstance` tests.
  unfoldable pub register : ℕ → Extension → Manager → Option (Manager × Outcome)
  unfolding guard_registration try_initialize_available
  register fuel x m = guard_registration (
      try_initialize_available fuel
        (record m { registered_extensions = m.registered_extensions ++ x ∷ [] }))

  -- The initialize stage of `initialize_and_start`.
  unfoldable pub initialize_each : List Extension → Manager → Manager × Outcome
  unfolding roll_back_and_raise
  initialize_each [] m = (m, returned)
  initialize_each (x ∷ xs) m =
      let next = initialize_each xs m in
      let done = initialize_each xs (initialized x m) in
      if elem x.ident (map (λ y. y.ident) m.initialized_extensions)
      then next
      else elim (behaves initialize x.ident) [
        | none ↦ done
        | some e ↦
            let undone = roll_back_and_raise e (failed x m) in
            if caught_initializing e then undone else (failed x m, raised e)
      ]

  -- The start stage.
  unfoldable pub start_each : List Extension → Manager → Manager × Outcome
  start_each [] m = (m, returned)
  start_each (x ∷ xs) m =
      let m' = log (called start x.ident ∷ []) m in
      let done = start_each xs (log (emitted start x.name ∷ []) m') in
      elim (behaves start x.ident) [ none ↦ done | some e ↦ (m', raised e) ]

  start_sorted : Manager × Outcome → Manager × Outcome
  unfolding start_each
  start_sorted (m, returned) = start_each m.sorted_extensions m
  start_sorted (m, failure) = (m, failure)

  initialize_sorted : ExtensionSort.Result (List Extension) → Manager → Manager × Outcome
  unfolding initialize_each start_sorted
  initialize_sorted (ExtensionSort.err e) m = (m, sort_failed e)
  initialize_sorted (ExtensionSort.ok order) m =
      start_sorted (initialize_each order (record m { sorted_extensions = order }))

  unfoldable pub initialize_and_start : Manager → Manager × Outcome
  unfolding initialize_sorted build_and_sort
  initialize_and_start m = initialize_sorted (build_and_sort m.registered_extensions) m

  unfoldable pub stop_each : List Extension → Manager → Manager × Outcome
  stop_each [] m = (record m { sorted_extensions = []; initialized_extensions = [] }, returned)
  stop_each (x ∷ xs) m =
      and_then (attempt stop x m) (λ m'. and_then (attempt dispose x m') (stop_each xs))

  unfoldable pub stop_and_dispose : Manager → Manager × Outcome
  unfolding stop_each
  stop_and_dispose m = stop_each (reverse m.sorted_extensions) m
