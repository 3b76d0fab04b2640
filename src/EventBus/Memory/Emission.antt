-- ===== src/EventBus/Memory/Emission.antt =====
-- What `emit` of memory_event_bus.py delivers, and to whom.
use sagittarius_engine.Prelude.{ℕ, ◌≡◌, Bool, Option, List, [], ◌∷◌, map, All, string_eq, refl, ap}
use sagittarius_engine.EventBus.Memory.{
  Bus, EventRef, Payload, handlers_of, deliver, emit, get_event_key, payload_of, get_handlers,
}

module _ {H : Type 0} (effect : H → Payload → Bus H → Bus H × Bool) where
  handlers-deliver :
      (p : Payload) (hs : List H) (b : Bus H) → map (λ c. c.handler) (deliver effect p hs b).1 ≡ hs
  unfolding deliver
  handlers-deliver p [] b = refl
  handlers-deliver p (h ∷ hs) b = ap (◌∷◌ h) (handlers-deliver p hs (effect h p b).0)

  payloads-deliver :
      (p : Payload) (hs : List H) (b : Bus H) → All (λ c. c.payload ≡ p) (deliver effect p hs b).1
  unfolding deliver
  payloads-deliver p [] b = tt
  payloads-deliver p (h ∷ hs) b = (refl, payloads-deliver p hs (effect h p b).0)

  -- `emit` calls each handler that is subscribed when it begins, once, in the order of
  -- subscription, with the same payload, whatever the handlers do to the bus meanwhile and
  -- whichever of them raise.
  pub emit_delivers :
      (ref : EventRef) (d : Option ℕ) (b : Bus H)
      → (map (λ c. c.handler) (emit effect ref d b).1 ≡ get_handlers ref b)
        × All (λ c. c.payload ≡ payload_of ref d) (emit effect ref d b).1
  unfolding emit get_handlers
  emit_delivers ref d b = (
    handlers-deliver (payload_of ref d) (handlers_of (get_event_key ref) b) b,
    payloads-deliver (payload_of ref d) (handlers_of (get_event_key ref) b) b,
  )
