-- ===== src/EventBus/Resilient.antt =====
-- infrastructure/event_bus/resilient_event_bus.py: retries and the dead-letter queue over an inner
-- memory bus. Each retry wrapper is an object of its own, told apart by a serial number.
-- `emit` is that of an event named by a string. `fails handler data n` says whether the handler raises when it is
-- called with the payload for the n-th time in the run (every call is counted).
pub mod Retries
pub mod Matching
pub mod Correspondence
pub mod Refinement
use sagittarius_engine.Prelude.{
  ℕ, zero, suc, ◌+◌, String, ◌≡◌, ◌↔◌, Bool, true, false, Option, none, some, List, [], ◌∷◌, ◌++◌,
  Eq, nat_eq, string_eq, ◌==◌, if◌then◌else◌, Dict, get, put, remove, has, map, map_values, ◌&&◌,
  arith, ==_iff,
}
use sagittarius_engine.EventBus.Memory.{
  EventRef, named, get_event_key, Bus, handlers_of, subscribe, unsubscribe, subscriptions,
}

-- What the inner bus holds: a handler of a client, or a `resilient_wrapper`.
pub data Handler : Type 0 where
  client : ℕ → Handler
  wrapper : (serial : ℕ) → (event : String) → (handler : ℕ) → Handler

abbrev handler_beq : Handler → Handler → Bool
handler_beq (client a) (client b) = a == b
handler_beq (wrapper s n h) (wrapper t m g) = s == t && n == m && h == g
handler_beq _ _ = false

pub handler_beq_iff : (a b : Handler) → (handler_beq a b ≡ true) ↔ (a ≡ b)
handler_beq_iff (client a) (client b) = ground (arith, ==_iff a b)
handler_beq_iff (wrapper s n h) (wrapper t m g) = ground (arith, ==_iff s t, ==_iff n m, ==_iff h g)
handler_beq_iff a b = ground arith

instance abbrev pub handler_eq : Eq Handler
handler_eq = record { test = handler_beq; test_iff = handler_beq_iff }

-- The key of `_wrapper_map`.
pub record Key : Type 0 where
  pub event : String
  pub handler : ℕ

abbrev key_beq : Key → Key → Bool
key_beq a b = a.event == b.event && a.handler == b.handler

pub key_beq_iff : (a b : Key) → (key_beq a b ≡ true) ↔ (a ≡ b)
key_beq_iff a b = ground (arith, ==_iff a.event b.event, ==_iff a.handler b.handler)

instance abbrev pub key_eq : Eq Key
key_eq = record { test = key_beq; test_iff = key_beq_iff }

-- An entry of the dead-letter queue. The exception is named by the number of the call that raised
-- it.
pub record DeadLetter : Type 0 where
  pub event : String
  pub payload : ℕ
  pub handler : ℕ
  pub exception : ℕ
  pub parked_at : ℕ

pub record ResilientBus : Type 0 where
  pub inner : Bus Handler
  pub max_retries : ℕ
  pub dlq : List DeadLetter
  pub wrapper_map : Dict Key Handler
  pub next_serial : ℕ
  pub calls : ℕ
  pub reported : List Key

abbrev pub new : ℕ → ResilientBus
new max_retries = record {
  inner = [];
  max_retries = max_retries;
  dlq = [];
  wrapper_map = [];
  next_serial = 0;
  calls = 0;
  reported = [];
}

-- `on` for an event with this name in `_wrapper_map` and this key on the inner bus.
unfoldable pub on_named : String → String → ℕ → ResilientBus → ResilientBus
on_named name event handler b =
    let key : Key = record { event = name; handler = handler } in
    let made : Handler = wrapper b.next_serial name handler in
    if has key b.wrapper_map then b else record b {
      wrapper_map = put key made b.wrapper_map;
      next_serial = b.next_serial + 1;
      inner = subscribe event made b.inner;
    }

detach : Key → String → Option Handler → ResilientBus → ResilientBus
detach key event none b = b
detach key event (some made) b = record b {
  wrapper_map = remove key b.wrapper_map;
  inner = unsubscribe event made b.inner;
}

unfoldable pub off_named : String → String → ℕ → ResilientBus → ResilientBus
unfolding detach
off_named name event handler b =
    let key : Key = record { event = name; handler = handler } in
    detach key event (get key b.wrapper_map) b

-- `name_of` is `getattr(x, "__name__", str(x))` of an event that is no string.
abbrev pub event_name : (EventRef → String) → EventRef → String
event_name name_of (named n) = n
event_name name_of ref = name_of ref

unfoldable pub on : (EventRef → String) → EventRef → ℕ → ResilientBus → ResilientBus
unfolding on_named get_event_key
on name_of ref handler b = on_named (event_name name_of ref) (get_event_key ref) handler b

unfoldable pub off : (EventRef → String) → EventRef → ℕ → ResilientBus → ResilientBus
unfolding off_named get_event_key
off name_of ref handler b = off_named (event_name name_of ref) (get_event_key ref) handler b

-- The inverted `_wrapper_map`: the last pair with the wrapper wins.
unfoldable pub unwrap : Dict Key Handler → Handler → Handler
unwrap [] w = w
unwrap ((k, v) ∷ m) w =
    let rest = unwrap m w in
    if has w (map (λ e. (e.1, e.0)) m) then rest else if v == w then client k.handler else w

unfoldable pub subscribed : ResilientBus → Bus Handler
unfolding unwrap subscriptions
subscribed b = map_values (map (unwrap b.wrapper_map)) (subscriptions b.inner)

module _ (fails : ℕ → ℕ → ℕ → Bool) (clock : ℕ → ℕ) where
  -- The `for attempt in range(max_retries + 1)` loop, `left` attempts after this one. It stands in
  -- `resilient_wrapper` and in `reprocess`.
  unfoldable pub attempts : ℕ → String → ℕ → ℕ → ResilientBus → ResilientBus
  attempts zero event payload handler b =
      if fails handler payload b.calls
      then record b {
        calls = b.calls + 1;
        reported = b.reported ++ record { event = event; handler = handler } ∷ [];
        dlq =
            b.dlq
            ++ record {
              event = event;
              payload = payload;
              handler = handler;
              exception = b.calls;
              parked_at = clock b.calls;
            }
              ∷ [];
      }
      else record b { calls = b.calls + 1 }
  attempts (suc left) event payload handler b =
      let retry = attempts left event payload handler (record b { calls = b.calls + 1 }) in
      if fails handler payload b.calls then retry else record b { calls = b.calls + 1 }

  -- One handler of the inner bus is called: a wrapper retries; a client that subscribed to the
  -- inner bus directly is called once, and a failure is reported by the inner bus.
  unfoldable pub call_inner : String → ℕ → Handler → ResilientBus → ResilientBus
  unfolding attempts
  call_inner event payload (wrapper serial name handler) b =
      attempts b.max_retries name payload handler b
  call_inner event payload (client handler) b =
      if fails handler payload b.calls
      then record b {
        calls = b.calls + 1;
        reported = b.reported ++ record { event = event; handler = handler } ∷ [];
      }
      else record b { calls = b.calls + 1 }

  unfoldable pub call_each : String → ℕ → List Handler → ResilientBus → ResilientBus
  unfolding call_inner
  call_each event payload [] b = b
  call_each event payload (h ∷ hs) b = call_each event payload hs (call_inner event payload h b)

  unfoldable pub emit : String → ℕ → ResilientBus → ResilientBus
  unfolding call_each
  emit event payload b = call_each event payload (handlers_of event b.inner) b

  unfoldable pub reprocess_each : List DeadLetter → ResilientBus → ResilientBus
  unfolding attempts
  reprocess_each [] b = b
  reprocess_each (d ∷ ds) b =
      reprocess_each ds (attempts b.max_retries d.event d.payload d.handler b)

  unfoldable pub reprocess : ResilientBus → ResilientBus
  unfolding reprocess_each
  reprocess b = reprocess_each b.dlq (record b { dlq = [] })
