-- ===== src/Examples/Messages.antt =====
-- The event buses' theorems at concrete inputs.
use sagittarius_engine.Prelude.{
  ℕ, nat_eq, string_eq, ◌≡◌, refl, List, [], ◌∷◌, arith, map, get, put, subst, Bool-cases, inl, inr,
  All, some, String, sym, ap, ◌∙◌, ◌==◌, ==_iff, if◌then◌else◌,
}
use sagittarius_engine.EventBus.Memory.{
  EventRef, named, event_class, get_event_key, Bus, handlers_of, subscribe, subscriptions,
}
use sagittarius_engine.EventBus.Memory.Subscribers.{IsWellFormed}
use sagittarius_engine.EventBus.Resilient
use sagittarius_engine.EventBus.Resilient.{
  on_named, unwrap, ResilientBus, DeadLetter, client, attempts, reprocess, subscribed,
}
use sagittarius_engine.EventBus.Resilient.Refinement.{
  IsNamed, Call, on_call, off_call, subscribe_all, subscribe_plain, subscribed-refines,
}

abbrev two_events : Bus ℕ
two_events = ("saved", 1 ∷ 2 ∷ []) ∷ ("closed", []) ∷ []

two_events-IsWellFormed : IsWellFormed two_events
unfolding get
two_events-IsWellFormed = record {
  keys_distinct = (refl, (refl, tt));
  handlers_distinct = λ k. ground arith;
}

-- The class Saved has the `event_name` order.saved.
abbrev saved : EventRef
saved = event_class (some "order.saved") "Saved"

abbrev name_of : EventRef → String
name_of (event_class key qualname) = qualname
name_of _ = ""

-- Which name goes with a key: the two change places.
abbrev naming : String → String
naming key = if key == "order.saved" then "Saved" else if key == "Saved" then "order.saved" else key

naming_twice : (key : String) → naming (naming key) ≡ key
naming_twice key = elim (Bool-cases (key == "order.saved")) [
  | inl here ↦ subst (λ k. naming (naming k) ≡ k) (sym ((==_iff key "order.saved").0 here)) refl
  | inr elsewhere ↦ elim (Bool-cases (key == "Saved")) [
    | inl here ↦ subst (λ k. naming (naming k) ≡ k) (sym ((==_iff key "Saved").0 here)) refl
    | inr other ↦
        let kept : naming key ≡ key =
          ap (λ b. if b then "Saved" else if key == "Saved" then "order.saved" else key) elsewhere
          ∙ ap (λ b. if b then "order.saved" else key) other in
        ap naming kept ∙ kept
  ]
]

abbrev some_calls : List Call
some_calls =
    on_call saved 1
    ∷ on_call saved 2
    ∷ on_call saved 1
    ∷ off_call saved 1
    ∷ on_call (named "closed") 1
    ∷ []

some_calls-IsNamed : All (IsNamed name_of naming) some_calls
unfolding get_event_key
some_calls-IsNamed = (refl, (refl, (refl, (refl, (refl, tt)))))

subscribed-refines_example :
    handlers_of "order.saved" (subscribed (subscribe_all name_of some_calls (Resilient.new 3)))
    ≡ map client (handlers_of "order.saved" (subscribe_plain some_calls []))
subscribed-refines_example =
    subscribed-refines name_of naming
      (λ i j same. sym (naming_twice i) ∙ ap naming same ∙ naming_twice j) 3 some_calls
      "order.saved" some_calls-IsNamed

-- Two classes with the name Saved: the handler is not subscribed to the second.
second_class_missed :
    handlers_of "user.saved" (
      subscribed (
        subscribe_all name_of
          (on_call saved 1 ∷ on_call (event_class (some "user.saved") "Saved") 1 ∷ [])
          (Resilient.new 3)))
    ≡ []
unfolding subscribed subscribe_all Resilient.on on_named get_event_key subscribe subscriptions
    unwrap get put
second_class_missed = refl
