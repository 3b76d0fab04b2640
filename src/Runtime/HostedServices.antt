-- ===== src/Runtime/HostedServices.antt =====
-- runtime/hosted/hosted_service_manager.py: start with rollback, and stop, of hosted services. A
-- service is its identity; `starts` and `stops` say whether its method returns, in place of
-- raising. What is done to services and told to the event bus is a list of effects.
use sagittarius_engine.Prelude.{
  ℕ, ◌≡◌, ◌≢◌, ◌∙◌, refl, ap, Bool, true, false, not, Option, none, some, List, [], ◌∷◌, ◌++◌,
  reverse, keep, if◌then◌else◌, arith, append_assoc, append-nil, All,
}

pub data Effect : Type 0 where
  started start_failed stopped stop_failed emitted_started emitted_stopped : ℕ → Effect

pub data Outcome : Type 0 where
  returned : Outcome
  start_error : ℕ → Outcome
  stop_errors : List ℕ → Outcome

pub record HostedServiceManager : Type 0 where
  pub services : List ℕ
  pub started_services : List ℕ

abbrev pub new : HostedServiceManager
new = record { services = []; started_services = [] }

-- The `isinstance` test of `register` is `is_service`; it raises TypeError for `none`.
unfoldable pub register : (ℕ → Bool) → ℕ → HostedServiceManager → Option HostedServiceManager
register is_service s m =
    if is_service s then some (record m { services = m.services ++ s ∷ [] }) else none

-- The services whose `stop` was called, in order.
abbrev pub attempted : List Effect → List ℕ
attempted [] = []
attempted (stopped s ∷ es) = s ∷ attempted es
attempted (stop_failed s ∷ es) = s ∷ attempted es
attempted (_ ∷ es) = attempted es

module _ (starts stops : ℕ → Bool) where
  -- The loops of `_rollback` and `stop` over the services that they are given.
  unfoldable pub stop_each : List ℕ → List Effect
  stop_each [] = []
  stop_each (s ∷ ss) =
      let rest = stop_each ss in
      if stops s then stopped s ∷ emitted_stopped s ∷ rest else stop_failed s ∷ rest

  unfoldable pub rollback : HostedServiceManager → HostedServiceManager × List Effect
  unfolding stop_each
  rollback m = (record m { started_services = [] }, stop_each (reverse m.started_services))

  -- The loop of `start` over the services left, with the effects so far.
  unfoldable pub start_each :
      List ℕ → HostedServiceManager → List Effect → HostedServiceManager × List Effect × Outcome
  unfolding rollback
  start_each [] m es = (m, es, returned)
  start_each (s ∷ ss) m es =
      let m' = record m { started_services = m.started_services ++ s ∷ [] } in
      let rest = start_each ss m' (es ++ started s ∷ emitted_started s ∷ []) in
      let (m'', undone) = rollback m in
      if starts s then rest else (m'', es ++ start_failed s ∷ undone, start_error s)

  unfoldable pub start : HostedServiceManager → HostedServiceManager × List Effect × Outcome
  unfolding start_each
  start m = start_each m.services m []

  stop_outcome : List ℕ → Outcome
  stop_outcome [] = returned
  stop_outcome errors = stop_errors errors

  unfoldable pub stop : HostedServiceManager → HostedServiceManager × List Effect × Outcome
  unfolding stop_each stop_outcome
  stop m = (
    record m { started_services = [] },
    stop_each (reverse m.started_services),
    stop_outcome (keep (λ s. not (stops s)) (reverse m.started_services)),
  )

  -- What starting a list of services does while none raises.
  abbrev pub started_all : List ℕ → List Effect
  started_all [] = []
  started_all (s ∷ ss) = started s ∷ emitted_started s ∷ started_all ss

  abbrev pub Starts : ℕ → Type 0
  Starts s = starts s ≡ true

  start_each_ok :
      (ss : List ℕ) (m : HostedServiceManager) (es : List Effect)
      → All Starts ss
      → start_each ss m es
        ≡ (record m { started_services = m.started_services ++ ss }, es ++ started_all ss, returned)
  unfolding start_each
  start_each_ok [] m es h = ground (arith, append-nil m.started_services, append-nil es)
  start_each_ok (s ∷ ss) m es h = rw h.0 (
      start_each_ok ss (record m { started_services = m.started_services ++ s ∷ [] })
        (es ++ started s ∷ emitted_started s ∷ []) h.1
      ∙ ground (
        arith,
        append_assoc m.started_services (s ∷ []) ss,
        append_assoc es (started s ∷ emitted_started s ∷ []) (started_all ss),
      ))

  start_each_fails :
      (before : List ℕ) (s : ℕ) (after : List ℕ) (m : HostedServiceManager) (es : List Effect)
      → All Starts before
      → starts s ≡ false
      → start_each (before ++ s ∷ after) m es ≡ (
        record m { started_services = [] },
        es
            ++ started_all before
            ++ start_failed s ∷ stop_each (reverse (m.started_services ++ before)),
        start_error s,
      )
  unfolding start_each
  start_each_fails [] s after m es h f =
      rw f (ground (arith, append-nil m.started_services, append-nil es))
  start_each_fails (b ∷ before) s after m es h f = rw h.0 (
      start_each_fails before s after (record m { started_services = m.started_services ++ b ∷ [] })
        (es ++ started b ∷ emitted_started b ∷ []) h.1 f
      ∙ ground (
        arith,
        append_assoc m.started_services (b ∷ []) before,
        append_assoc es (started b ∷ emitted_started b ∷ []) (started_all before),
      ))

  -- `start` of a manager that has started nothing, where every service starts: they are started in
  -- the order of registration, and all count as started.
  pub start_succeeds :
      (m : HostedServiceManager)
      → m.started_services ≡ []
      → All Starts m.services
      → start m ≡ (record m { started_services = m.services }, started_all m.services, returned)
  unfolding start
  start_succeeds m e h = start_each_ok m.services m [] h ∙ ground arith

  -- `start` of a manager that has started nothing, where `s` is the first service to raise: those
  -- before it were started and are stopped again, the last first, each of them also where another's
  -- stop raises; those behind it are not touched, none counts as started, and the error of `s` is
  -- raised.
  pub start_rolls_back :
      (before : List ℕ) (s : ℕ) (after : List ℕ) (m : HostedServiceManager)
      → m.started_services ≡ []
      → m.services ≡ before ++ s ∷ after
      → All Starts before
      → starts s ≡ false
      → start m ≡ (
        record m { started_services = [] },
        started_all before ++ start_failed s ∷ stop_each (reverse before),
        start_error s,
      )
  unfolding start
  start_rolls_back before s after m e w h f =
      ap (λ ss. start_each ss m []) w ∙ start_each_fails before s after m [] h f ∙ ground arith

  attempted-stop_each : (ss : List ℕ) → attempted (stop_each ss) ≡ ss
  unfolding stop_each
  attempted-stop_each [] = refl
  attempted-stop_each (s ∷ ss) = ground (arith, attempted-stop_each ss)

  -- `stop` attempts each started service once, the last started first, whichever of them raise;
  -- none counts as started afterwards, and the error it raises lists those that raised, in that
  -- order; there is no error when none did.
  pub stop_lem :
      (m : HostedServiceManager)
      → let (m', es, outcome) = stop m in
        let failed = keep (λ s. not (stops s)) (reverse m.started_services) in
        (attempted es ≡ reverse m.started_services)
        × (m' ≡ record m { started_services = [] })
        × (failed ≡ [] → outcome ≡ returned)
        × (failed ≢ [] → outcome ≡ stop_errors failed)
  unfolding stop
  stop_lem m = let tried = attempted-stop_each (reverse m.started_services) in ground arith
