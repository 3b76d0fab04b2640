-- ===== src/Examples/Extensions.antt =====
-- The extension manager's theorems at concrete inputs.
use sagittarius_engine.Prelude.{
  ℕ, nat_eq, ◌≡◌, refl, subst, some_injective, true, Option, none, some, [], ◌∷◌, ◌++◌, string_eq,
  ◌==◌, if◌then◌else◌, arith, get, put,
}
use sagittarius_engine.Kernel.Descriptors.{Extension, pos, sort_by_priority}
use sagittarius_engine.Kernel.ExtensionSort
use sagittarius_engine.Kernel.ExtensionSort.{build_and_sort}
use sagittarius_engine.Kernel.ExtensionManager.{
  Exception, caught_stopping, runtime_error, value_error, Hook, initialize, stop, dispose, Manager,
  new, Outcome, returned, raised, pending_of, try_initialize_available, initialize_and_start,
  stop_and_dispose,
}
use sagittarius_engine.Kernel.ExtensionManager.Rounds.{Initializes, try_initialize_available_lem}
use sagittarius_engine.Kernel.ExtensionManager.Running.{
  tried, stopping, IsCaught, initialize_and_start_lem, initialize_and_start_rolls_back,
  stop_and_dispose_lem,
}
use sagittarius_engine.Kernel.ExtensionManager.Hooks.{each, initializing, starting}

abbrev core : Extension
core = record {
  ident = 1;
  name = "core";
  dependencies = [];
  optional_dependencies = [];
  priority = pos 0;
  enabled = true;
}

abbrev ui : Extension
ui = record {
  ident = 2;
  name = "ui";
  dependencies = "core" ∷ [];
  optional_dependencies = [];
  priority = pos 9;
  enabled = true;
}

abbrev registered : Manager
registered = record new { registered_extensions = ui ∷ core ∷ [] }

abbrev all_return : Hook → ℕ → Option Exception
all_return hook x = none

-- The hooks of `ui` that a test makes raise.
abbrev ui_raises : Hook → ℕ → Option Exception
ui_raises initialize x = if x == 2 then some value_error else none
ui_raises dispose x = some runtime_error
ui_raises hook x = none

sorted : build_and_sort registered.registered_extensions ≡ ExtensionSort.ok (core ∷ ui ∷ [])
unfolding build_and_sort get put
sorted = refl

dispose-IsCaught : (x : Extension) → IsCaught ui_raises dispose x
dispose-IsCaught x e h = subst (λ y. caught_stopping y ≡ true) (some_injective h) refl

stop-IsCaught : (x : Extension) → IsCaught ui_raises stop x
stop-IsCaught x e h = absurd (cc)

try_initialize_available_lem_example :
    (m' : Manager) × (out : Outcome) × (try_initialize_available ui_raises 3 registered
      ≡ some (m', out))
    × Initializes (pending_of registered) registered [] m' out
unfolding sort_by_priority
try_initialize_available_lem_example =
    try_initialize_available_lem ui_raises 3 registered (omega arith)

initialize_and_start_lem_example : initialize_and_start all_return registered ≡ (
  record registered {
    sorted_extensions = core ∷ ui ∷ [];
    initialized_extensions = core ∷ ui ∷ [];
    effects = each initializing (core ∷ ui ∷ []) ++ each starting (core ∷ ui ∷ []);
  },
  returned,
)
initialize_and_start_lem_example =
    initialize_and_start_lem all_return registered (core ∷ ui ∷ []) sorted (refl, (refl, tt))
      (refl, (refl, tt)) (refl, (refl, tt))

initialize_and_start_rolls_back_example : initialize_and_start ui_raises registered ≡ (
  record registered {
    sorted_extensions = core ∷ ui ∷ [];
    initialized_extensions = [];
    effects =
        (each initializing (core ∷ []) ++ initializing ui)
        ++ each (tried ui_raises dispose) (core ∷ []);
  },
  raised value_error,
)
initialize_and_start_rolls_back_example =
    initialize_and_start_rolls_back ui_raises registered (core ∷ []) ui [] value_error sorted
      (refl, tt) (refl, tt) refl refl refl (dispose-IsCaught core, tt)

stop_and_dispose_lem_example :
    stop_and_dispose ui_raises (record registered { sorted_extensions = core ∷ ui ∷ [] }) ≡ (
      record registered {
        sorted_extensions = [];
        initialized_extensions = [];
        effects = each (stopping ui_raises) (ui ∷ core ∷ []);
      },
      returned,
    )
stop_and_dispose_lem_example =
    stop_and_dispose_lem ui_raises (record registered { sorted_extensions = core ∷ ui ∷ [] })
      (stop-IsCaught ui, (stop-IsCaught core, tt))
      (dispose-IsCaught ui, (dispose-IsCaught core, tt))
