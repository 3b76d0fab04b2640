-- ===== src/EventBus/Resilient/Refinement.antt =====
-- resilient_event_bus.py seen through `subscriptions`, against a plain memory bus that holds the
-- clients' handlers themselves.
use sagittarius_engine.Prelude.{
  sym, subst, ◌==◌, Bool-cases, inl, inr, ℕ, String, ◌≡◌, refl, ap, ◌∙◌, true, some, List, [], ◌∷◌,
  map, arith, nat_eq, string_eq, All, get, has, get-map_values, map_values, Dict, ==_iff,
}
use sagittarius_engine.EventBus.Memory
use sagittarius_engine.EventBus.Memory.{
  EventRef, get_event_key, Bus, handlers_of, subscribe, unsubscribe, subscriptions,
}
use sagittarius_engine.EventBus.Memory.Subscribers.{handlers-subscriptions}
use sagittarius_engine.EventBus.Resilient.Correspondence.{Stands-on, Stands-off}
use sagittarius_engine.EventBus.Resilient.Matching.{target, key, IsOwn, Stands, Stands-new}
use sagittarius_engine.EventBus.Resilient.{
  event_name, on_named, off_named, ResilientBus, Handler, client, handler_eq, key_eq, Key, on, off,
  new, unwrap, subscribed,
}

abbrev inverted : Dict Key Handler → Dict Handler Key
inverted = map (λ e. (e.1, e.0))

unwrap_known :
    (m : Dict Key Handler) (w : Handler)
    → All IsOwn m
    → has w (inverted m) ≡ true
    → unwrap m w ≡ client (target w)
unfolding unwrap get
unwrap_known [] w a h = absurd (cc)
unwrap_known ((k, v) ∷ m) w a h = ground (arith, unwrap_known m w a.1, ==_iff v w, a.0)

has-inverted :
    (m : Dict Key Handler) (k : Key) (w : Handler) → get k m ≡ some w → has w (inverted m) ≡ true
unfolding get
has-inverted [] k w e = cc
has-inverted ((j, v) ∷ m) k w e = ground (arith, has-inverted m k w, ==_iff v w, ==_iff j k)

map-unwrap :
    (naming : String → String) (m : Dict Key Handler) (n : String) (ws : List Handler)
    → All IsOwn m
    → All (λ w. get (key naming n (target w)) m ≡ some w) ws
    → map (unwrap m) ws ≡ map client (map target ws)
map-unwrap naming m n [] a r = refl
map-unwrap naming m n (w ∷ ws) a r = ground (
  arith,
  unwrap_known m w a (has-inverted m (key naming n (target w)) w r.0),
  map-unwrap naming m n ws a r.1,
)

-- A client's calls of `on` and `off`.
pub data Call : Type 0 where
  on_call off_call : EventRef → ℕ → Call

abbrev pub event_of : Call → EventRef
event_of (on_call ref h) = ref
event_of (off_call ref h) = ref

unfoldable pub subscribe_all : (EventRef → String) → List Call → ResilientBus → ResilientBus
subscribe_all name_of [] b = b
subscribe_all name_of (on_call ref h ∷ cs) b = subscribe_all name_of cs (on name_of ref h b)
subscribe_all name_of (off_call ref h ∷ cs) b = subscribe_all name_of cs (off name_of ref h b)

unfoldable pub subscribe_plain : List Call → Bus ℕ → Bus ℕ
unfolding Memory.on Memory.off
subscribe_plain [] p = p
subscribe_plain (on_call ref h ∷ cs) p = subscribe_plain cs (Memory.on ref h p)
subscribe_plain (off_call ref h ∷ cs) p = subscribe_plain cs (Memory.off ref h p)

-- The name of the call's event is what `naming` gives for its key.
abbrev pub IsNamed : (EventRef → String) → (String → String) → Call → Type 0
IsNamed name_of naming c = event_name name_of (event_of c) ≡ naming (get_event_key (event_of c))

module _ (name_of : EventRef → String) (naming : String → String)
    (one_to_one : (i j : String) → naming i ≡ naming j → i ≡ j) where
  same_names : (i j : String) → (naming i == naming j) ≡ (i == j)
  same_names i j = elim (Bool-cases (i == j)) [
    | inl same ↦ (==_iff (naming i) (naming j)).1 (ap naming ((==_iff i j).0 same)) ∙ sym same
    | inr other ↦ elim (Bool-cases (naming i == naming j)) [
      | inl clash ↦
          clash ∙ sym ((==_iff i j).1 (one_to_one i j ((==_iff (naming i) (naming j)).0 clash)))
      | inr apart ↦ apart ∙ sym other
    ]
  ]

  Stands-subscribe_all :
      (cs : List Call) (p : Bus ℕ) (b : ResilientBus)
      → All (IsNamed name_of naming) cs
      → Stands naming p b
      → Stands naming (subscribe_plain cs p) (subscribe_all name_of cs b)
  unfolding subscribe_all subscribe_plain on off Memory.on Memory.off
  Stands-subscribe_all [] p b named s = s
  Stands-subscribe_all (on_call ref h ∷ cs) p b named s =
      let k = get_event_key ref in
      Stands-subscribe_all cs (subscribe k h p) (on name_of ref h b) named.1 (
        subst (λ i. Stands naming (subscribe k h p) (on_named i k h b)) (sym named.0)
          (Stands-on naming same_names p b s k h))
  Stands-subscribe_all (off_call ref h ∷ cs) p b named s =
      let k = get_event_key ref in
      Stands-subscribe_all cs (unsubscribe k h p) (off name_of ref h b) named.1 (
        subst (λ i. Stands naming (unsubscribe k h p) (off_named i k h b)) (sym named.0)
          (Stands-off naming same_names p b s k h))

handlers_of-map_values :
    (f : Handler → Handler) (n : String) (d : Bus Handler)
    → handlers_of n (map_values (map f) d) ≡ map f (handlers_of n d)
handlers_of-map_values f n d = ground (arith, get-map_values (map f) n d)

Stands-subscribed :
    (naming : String → String) (p : Bus ℕ) (b : ResilientBus) (n : String)
    → Stands naming p b
    → handlers_of n (subscribed b) ≡ map client (handlers_of n p)
unfolding subscribed
Stands-subscribed naming p b n s =
    handlers_of-map_values (unwrap b.wrapper_map) n (subscriptions b.inner)
    ∙ ap (map (unwrap b.wrapper_map)) (handlers-subscriptions n b.inner s.distinct)
    ∙ map-unwrap naming b.wrapper_map n (handlers_of n b.inner) s.entries (s.recorded n)
    ∙ ap (map client) (s.targets n)

-- Any calls of `on` and `off` on a new resilient bus, for events whose names (a string itself, or
-- `__name__`) and keys on the inner bus correspond one to one: `subscriptions` reports for each key
-- the handlers, in the order, that a plain memory bus would hold after the same calls. The wrappers
-- do not show.
pub subscribed-refines :
    (name_of : EventRef → String) (naming : String → String)
    → ((i j : String) → naming i ≡ naming j → i ≡ j)
    → (r : ℕ) (cs : List Call) (n : String) → All (IsNamed name_of naming) cs
    → handlers_of n (subscribed (subscribe_all name_of cs (new r)))
      ≡ map client (handlers_of n (subscribe_plain cs []))
subscribed-refines name_of naming one_to_one r cs n named =
    Stands-subscribed naming (subscribe_plain cs []) (subscribe_all name_of cs (new r)) n
      (Stands-subscribe_all name_of naming one_to_one cs [] (new r) named (Stands-new naming r))
