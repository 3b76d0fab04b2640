-- ===== src/Examples/Booting.antt =====
-- The theorems about booting and stopping at concrete inputs.
use sagittarius_engine.Prelude.{
  ℕ, ◌≡◌, refl, subst, some_injective, Bool, true, false, Option, none, some, [], ◌∷◌,
}
use sagittarius_engine.Kernel.Lifecycle
use sagittarius_engine.Kernel.Lifecycle.{booting, ready, stopped, called, emitted_ready}
use sagittarius_engine.Kernel.Boot.{
  Step, extensions_start, hosted_start, scheduler_start, hosted_stop, async_start, discover,
  Exception, os_error, value_error, caught_cleaning, Engine, boot, raised, cleanup_steps,
}
use sagittarius_engine.Kernel.Boot.Starting.{IsTidy, boot_fails}

abbrev fresh : Engine
fresh = record { lifecycle = record Lifecycle.new { ready_callbacks = 5 ∷ 6 ∷ [] }; steps = [] }

-- The hosted services do not start, and their stopping raises as well.
abbrev broken : Step → Option Exception
broken hosted_start = some os_error
broken hosted_stop = some value_error
broken s = none

abbrev quiet : ℕ → Bool
quiet cb = false

hosted_stop-IsTidy : IsTidy broken quiet hosted_stop
hosted_stop-IsTidy y h = subst (λ z. caught_cleaning z ≡ true) (some_injective h) refl

boot_fails_example : boot broken quiet true fresh ≡ (
  record {
    lifecycle = record fresh.lifecycle { state = booting };
    steps = async_start ∷ discover ∷ extensions_start ∷ hosted_start ∷ cleanup_steps;
  },
  raised os_error,
)
boot_fails_example =
    boot_fails broken quiet true (discover ∷ extensions_start ∷ []) hosted_start
      (scheduler_start ∷ []) os_error fresh refl refl refl (refl, (refl, tt)) refl refl
      ((λ y h. absurd (cc)), (hosted_stop-IsTidy, ((λ y h. absurd (cc)), tt)))
