-- ===== src/EventBus/Memory.antt =====
-- infrastructure/event_bus/memory_event_bus.py. A handler is a value of a type with equality, a
-- payload is its identity. What a handler does when it is called is `effect`: the bus as it leaves
-- it (a handler may subscribe, unsubscribe or emit), and whether it raises.
pub mod Emission
pub mod Subscribers
use sagittarius_engine.Prelude.{
  ℕ, String, Bool, true, false, not, ◌&&◌, Option, none, some, List, [], ◌∷◌, ◌++◌, Eq, string_eq,
  ◌==◌, elem, if◌then◌else◌, Dict, get, put, has, keep, map,
}

-- What `on`, `off`, `emit` take for the event: a string, a class or an object, the latter two with
-- their attribute `event_name` where they have one, and their class's `__qualname__`.
pub data EventRef : Type 0 where
  named : String → EventRef
  event_class : Option String → String → EventRef
  event_object : ℕ → Option String → String → EventRef

-- `if key: return key`, which an empty name fails.
key_or : Option String → String → String
key_or none qualname = qualname
key_or (some key) qualname = if key == "" then qualname else key

unfoldable pub get_event_key : EventRef → String
unfolding key_or
get_event_key (named n) = n
get_event_key (event_class key qualname) = key_or key qualname
get_event_key (event_object _ key qualname) = key_or key qualname

-- What a handler receives: None, a value, or the event itself.
pub data Payload : Type 0 where
  nothing : Payload
  value : ℕ → Payload
  event : EventRef → Payload

unfoldable pub payload_of : EventRef → Option ℕ → Payload
payload_of (named n) none = nothing
payload_of ref none = event ref
payload_of ref (some d) = value d

-- One call of a handler.
pub record Delivery (H : Type 0) : Type 0 where
  pub handler : H
  pub payload : Payload
  pub raised : Bool

-- `_handlers`.
abbrev pub Bus : Type 0 → Type 0
Bus H = Dict String (List H)

-- `self._handlers.get(name, ())`.
abbrev pub handlers_of : {H : Type 0} → String → Bus H → List H
handlers_of name b = elim (get name b) [ none ↦ [] | some hs ↦ hs ]

-- The `for` loop of `emit` over its snapshot: the bus that the handlers leave, and the calls made.
unfoldable pub deliver :
    {H : Type 0}
    → (H → Payload → Bus H → Bus H × Bool)
    → Payload
    → List H
    → Bus H
    → Bus H × List (Delivery H)
deliver effect p [] b = (b, [])
deliver effect p (h ∷ hs) b =
    let (b', raised) = effect h p b in
    let (b'', calls) = deliver effect p hs b' in
    (b'', record { handler = h; payload = p; raised = raised } ∷ calls)

unfoldable pub emit :
    {H : Type 0}
    → (H → Payload → Bus H → Bus H × Bool)
    → EventRef
    → Option ℕ
    → Bus H
    → Bus H × List (Delivery H)
unfolding deliver get_event_key payload_of
emit effect ref payload b =
    deliver effect (payload_of ref payload) (handlers_of (get_event_key ref) b) b

-- The handler failures that `emit` reports, each of a call that raised.
abbrev pub reports : {H : Type 0} → List (Delivery H) → List H
reports calls = map (λ c. c.handler) (keep (λ c. c.raised) calls)

unfoldable pub get_handlers : {H : Type 0} → EventRef → Bus H → List H
unfolding get_event_key
get_handlers ref b = handlers_of (get_event_key ref) b

abbrev pub is_nonempty : {H : Type 0} → List H → Bool
is_nonempty [] = false
is_nonempty (h ∷ hs) = true

unfoldable pub subscriptions : {H : Type 0} → Bus H → Bus H
subscriptions = keep (λ e. is_nonempty e.1)

module _ {H : Type 0} ⦃e : Eq H⦄ where
  unfoldable pub subscribe : String → H → Bus H → Bus H
  subscribe key h b =
      let current = handlers_of key b in if elem h current then b else put key (current ++ h ∷ []) b

  unfoldable pub unsubscribe : String → H → Bus H → Bus H
  unsubscribe key h b =
      let current = handlers_of key b in
      if has key b && elem h current then put key (keep (λ g. not (g == h)) current) b else b

  unfoldable pub on : EventRef → H → Bus H → Bus H
  unfolding subscribe get_event_key
  on ref h b = subscribe (get_event_key ref) h b

  unfoldable pub off : EventRef → H → Bus H → Bus H
  unfolding unsubscribe get_event_key
  off ref h b = unsubscribe (get_event_key ref) h b
