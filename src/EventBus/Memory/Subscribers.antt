-- ===== src/EventBus/Memory/Subscribers.antt =====
-- Who is subscribed after `on` and `off` of memory_event_bus.py.
use sagittarius_engine.Prelude.{
  String, ◌≡◌, inl, inr, true, false, not, List, [], ◌∷◌, ◌++◌, Eq, string_eq, ◌==◌, elem,
  if◌then◌else◌, refl, arith, has, keep, keys, ◌&&◌, Distinct, elem-append, ==_iff, ==_refl,
  get-put, put-Distinct, get-keep, Bool-cases,
}
use sagittarius_engine.EventBus.Memory.{
  Bus, EventRef, handlers_of, get_event_key, get_handlers, subscribe, unsubscribe, on, off,
  subscriptions, is_nonempty,
}

module _ {H : Type 0} ⦃e : Eq H⦄ where
  -- What `on` and `off` make of the handlers of their event.
  abbrev pub added : H → List H → List H
  added h hs = if elem h hs then hs else hs ++ h ∷ []

  abbrev pub dropped : H → List H → List H
  dropped h hs = keep (λ g. not (g == h)) hs

  pub elem-dropped : (h g : H) (hs : List H) → elem g (dropped h hs) ≡ (elem g hs && not (g == h))
  elem-dropped h g [] = refl
  elem-dropped h g (x ∷ hs) =
      ground (arith, ==_iff x h, ==_iff x g, ==_iff g h, elem-dropped h g hs)

  dropped_absent : (h : H) (hs : List H) → elem h hs ≡ false → dropped h hs ≡ hs
  dropped_absent h [] a = refl
  dropped_absent h (x ∷ hs) a = ground (arith, dropped_absent h hs)

  pub get_handlers-subscribe :
      (key k : String) (h : H) (b : Bus H)
      → handlers_of k (subscribe key h b)
        ≡ (if key == k then added h (handlers_of k b) else handlers_of k b)
  unfolding subscribe
  get_handlers-subscribe key k h b =
      ground (arith, ==_iff key k, get-put key k (handlers_of key b ++ h ∷ []) b)

  pub get_handlers-unsubscribe :
      (key k : String) (h : H) (b : Bus H)
      → handlers_of k (unsubscribe key h b)
        ≡ (if key == k then dropped h (handlers_of k b) else handlers_of k b)
  unfolding unsubscribe
  get_handlers-unsubscribe key k h b = ground (
    arith,
    ==_iff key k,
    get-put key k (dropped h (handlers_of key b)) b,
    dropped_absent h (handlers_of key b),
  )

  -- `on` and `off` change the handlers of their own event only: `on` appends the handler if it is
  -- not there, `off` removes it and keeps the order of the others.
  pub get_handlers_on_off :
      (ref other : EventRef) (h : H) (b : Bus H)
      → (get_handlers other (on ref h b) ≡ (
          if get_event_key ref == get_event_key other
          then added h (get_handlers other b)
          else get_handlers other b))
        × (get_handlers other (off ref h b) ≡ (
            if get_event_key ref == get_event_key other
            then dropped h (get_handlers other b)
            else get_handlers other b))
  unfolding on off get_handlers
  get_handlers_on_off ref other h b = (
    get_handlers-subscribe (get_event_key ref) (get_event_key other) h b,
    get_handlers-unsubscribe (get_event_key ref) (get_event_key other) h b,
  )

  -- A dictionary of handlers as the methods leave it: no event stands twice, and no handler twice
  -- under one event.
  pub record IsWellFormed (b : Bus H) : Type 0 where
    pub keys_distinct : Distinct (keys b)
    pub handlers_distinct : (k : String) → Distinct (handlers_of k b)

  Distinct-snoc : (h : H) (hs : List H) → Distinct hs → elem h hs ≡ false → Distinct (hs ++ h ∷ [])
  Distinct-snoc h [] d a = (refl, tt)
  Distinct-snoc h (x ∷ hs) d a =
      ground (arith, elem-append x hs (h ∷ []), ==_iff h x, ==_iff x h, Distinct-snoc h hs d.1)

  Distinct-added : (h : H) (hs : List H) → Distinct hs → Distinct (added h hs)
  Distinct-added h hs d = elim (Bool-cases (elem h hs)) [
    | inl old ↦ rw old d
    | inr new ↦ rw new (Distinct-snoc h hs d new)
  ]

  Distinct-dropped : (h : H) (hs : List H) → Distinct hs → Distinct (dropped h hs)
  Distinct-dropped h [] d = tt
  Distinct-dropped h (x ∷ hs) d = ground (arith, elem-dropped h x hs, Distinct-dropped h hs d.1)

  pub keys-subscribe :
      (key : String) (h : H) (b : Bus H) → Distinct (keys b) → Distinct (keys (subscribe key h b))
  unfolding subscribe
  keys-subscribe key h b d = ground (arith, put-Distinct key (handlers_of key b ++ h ∷ []) b d)

  pub keys-unsubscribe :
      (key : String) (h : H) (b : Bus H) → Distinct (keys b) → Distinct (keys (unsubscribe key h b))
  unfolding unsubscribe
  keys-unsubscribe key h b d = ground (arith, put-Distinct key (dropped h (handlers_of key b)) b d)

  -- If each event has one entry in the dictionary and no handler stands twice in its list, then this
  -- still holds after `on` and after `off`, of any event and any handler.
  pub on_off-IsWellFormed :
      (ref : EventRef) (h : H) (b : Bus H)
      → IsWellFormed b
      → IsWellFormed (on ref h b) × IsWellFormed (off ref h b)
  unfolding on off
  on_off-IsWellFormed ref h b w = (
    record {
      keys_distinct = keys-subscribe (get_event_key ref) h b w.keys_distinct;
      handlers_distinct = λ k.
          rw get_handlers-subscribe
            (elim (get_event_key ref == k)
              as (λ t. Distinct (if t then added h (handlers_of k b) else handlers_of k b)) [
                | true ↦ Distinct-added h (handlers_of k b) (w.handlers_distinct k)
                | false ↦ w.handlers_distinct k
              ]);
    },
    record {
      keys_distinct = keys-unsubscribe (get_event_key ref) h b w.keys_distinct;
      handlers_distinct = λ k.
          rw get_handlers-unsubscribe
            (elim (get_event_key ref == k)
              as (λ t. Distinct (if t then dropped h (handlers_of k b) else handlers_of k b)) [
                | true ↦ Distinct-dropped h (handlers_of k b) (w.handlers_distinct k)
                | false ↦ w.handlers_distinct k
              ]);
    },
  )

  pub handlers-subscriptions :
      (k : String) (b : Bus H)
      → Distinct (keys b)
      → handlers_of k (subscriptions b) ≡ handlers_of k b
  unfolding subscriptions
  handlers-subscriptions k b d = ground (arith, get-keep is_nonempty k b d)

  -- `subscriptions` shows the handlers of each event that has any, and nothing else.
  pub subscriptions_lem :
      (k : String) (b : Bus H)
      → IsWellFormed b
      → (handlers_of k (subscriptions b) ≡ handlers_of k b)
        × (has k (subscriptions b) ≡ is_nonempty (handlers_of k b))
  unfolding subscriptions
  subscriptions_lem k b w = ground (arith, get-keep is_nonempty k b w.keys_distinct)

  -- After `off` the handler is not subscribed to the event, and an `on` brings it back at the end.
  pub off_then_on :
      (ref : EventRef) (h : H) (b : Bus H)
      → (elem h (get_handlers ref (off ref h b)) ≡ false)
        × (get_handlers ref (on ref h (off ref h b)) ≡ dropped h (get_handlers ref b) ++ h ∷ [])
  off_then_on ref h b =
      let key = get_event_key ref in
      ground (
        arith,
        get_handlers_on_off ref ref h b,
        get_handlers_on_off ref ref h (off ref h b),
        ==_iff key key,
        ==_refl h,
        elem-dropped h h (get_handlers ref b),
      )
