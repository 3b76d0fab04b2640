-- ===== src/Examples/Kernel.antt =====
-- The kernel's theorems at concrete inputs.
use sagittarius_engine.Prelude.{
  append-nil, ℕ, nat_eq, ◌≡◌, ◌≢◌, ◌<◌, ◌||◌, refl, ◌⊎◌, Bool-cases, sym, some_injective, subst,
  Bool, true, false, some, List, [], ◌∷◌, ◌++◌, String, string_eq, ◌==◌, if◌then◌else◌, arith,
  ==_iff, get, put, elem, inl, inr,
}
use sagittarius_engine.Kernel.Descriptors.{Extension, pos, names}
use sagittarius_engine.Kernel.ExtensionSort.{build_and_sort, by_name_from, enabled_only, ok}
use sagittarius_engine.Kernel.ExtensionSort.Corollaries.{
  Sorts, build_and_sort-Sorts, build_and_sort_succeeds, IsRanked, dictionary,
}
use sagittarius_engine.Kernel.Lifecycle
use sagittarius_engine.Kernel.Lifecycle.{
  called, quietly, when_ready, transition, call_all, call, EngineLifecycle, EngineState,
  engine_state_eq, perform, history, set_ready, set_booting, set_booted, sets_ready, set_stopping,
  when_readies, booting, booted, ready, created, stopped, allowed, callback_raised, returned,
  invalid_transition,
}
use sagittarius_engine.Kernel.Lifecycle.Ready.{readies, calls, calls-append}
use sagittarius_engine.Kernel.Lifecycle.Callbacks.{
  set_ready_raised, history_in_order, RunsInner, with_inner,
}

abbrev core : Extension
core = record {
  ident = 1;
  name = "core";
  dependencies = [];
  optional_dependencies = [];
  priority = pos 0;
  enabled = true;
}

abbrev ui : Extension
ui = record {
  ident = 2;
  name = "ui";
  dependencies = "core" ∷ [];
  optional_dependencies = [];
  priority = pos 9;
  enabled = true;
}

abbrev two_extensions : List Extension
two_extensions = ui ∷ core ∷ []

build_and_sort-Sorts_example : Sorts two_extensions (build_and_sort two_extensions)
build_and_sort-Sorts_example = build_and_sort-Sorts two_extensions

ui_behind_core : build_and_sort two_extensions ≡ ok (core ∷ ui ∷ [])
unfolding build_and_sort get put
ui_behind_core = refl

abbrev rank : String → ℕ
rank n = if n == "ui" then 2 else if n == "core" then 0 else 1

true_is_not_false : true ≢ false
true_is_not_false e = cc

core_only :
    (m : String) → (elem m ui.dependencies || elem m ui.optional_dependencies) ≡ true → "core" ≡ m
core_only m d = (==_iff "core" m).0 (ground arith)

-- An extension of the dictionary is one of the two.
looked_up :
    (n : String) (x : Extension)
    → get n (dictionary two_extensions) ≡ some x
    → ((n ≡ "ui") × (x ≡ ui)) ⊎ ((n ≡ "core") × (x ≡ core))
unfolding get put by_name_from
looked_up n x g = elim (Bool-cases ("ui" == n)) [
  | inl is_ui ↦ inl (sym ((==_iff "ui" n).0 is_ui), sym (some_injective (rw is_ui at g)))
  | inr other ↦ elim (Bool-cases ("core" == n)) [
    | inl is_core ↦
        inr (sym ((==_iff "core" n).0 is_core), sym (some_injective (rw (other, is_core) at g)))
    | inr neither ↦ absurd (cc)
  ]
]

two_extensions-IsRanked : IsRanked rank two_extensions
two_extensions-IsRanked n m x g d = elim (looked_up n x g) [
  | inl (named, same) ↦
      subst (λ k. rank k < rank n)
        (core_only m
          (subst (λ y. (elem m y.dependencies || elem m y.optional_dependencies) ≡ true) same d))
        (subst (λ k. rank "core" < rank k) (sym named) (omega arith))
  | inr (named, same) ↦ absurd (
      true_is_not_false (
        sym (subst (λ y. (elem m y.dependencies || elem m y.optional_dependencies) ≡ true) same d)))
]

two_extensions_closed :
    (n m : String) (x : Extension)
    → get n (dictionary two_extensions) ≡ some x
    → elem m x.dependencies ≡ true
    → elem m (names (enabled_only two_extensions)) ≡ true
two_extensions_closed n m x g d = elim (looked_up n x g) [
  | inl (named, same) ↦
      subst (λ k. elem k (names (enabled_only two_extensions)) ≡ true)
        (core_only m (ground (arith, subst (λ y. elem m y.dependencies ≡ true) same d))) refl
  | inr (named, same) ↦
      absurd (true_is_not_false (sym (subst (λ y. elem m y.dependencies ≡ true) same d)))
]

build_and_sort_succeeds_example :
    (order : List Extension) × (build_and_sort two_extensions ≡ ok order)
build_and_sort_succeeds_example =
    build_and_sort_succeeds rank two_extensions two_extensions-IsRanked two_extensions_closed

abbrev second_raises : ℕ → Bool
second_raises cb = cb == 8

abbrev waiting : EngineLifecycle
waiting = record { state = booted; ready_callbacks = 7 ∷ 8 ∷ 9 ∷ []; effects = [] }

set_ready_raised_example :
    let (l', outcome) = set_ready (quietly second_raises) waiting in
    (outcome ≡ callback_raised 8)
    × (l'.state ≡ ready)
    × (calls l'.effects ≡ calls waiting.effects ++ (7 ∷ 8 ∷ []))
    × (readies l'.effects ≡ readies waiting.effects)
    × (l'.ready_callbacks ≡ [])
    × (set_ready (quietly second_raises) l' ≡ (l', returned))
set_ready_raised_example =
    set_ready_raised second_raises (7 ∷ []) 8 (9 ∷ []) waiting refl refl (refl, tt) refl

-- Callback 1 gives 3 to `when_ready`, which runs it before 2, which was registered earlier.
abbrev calls_back : ℕ → EngineLifecycle → EngineLifecycle × Bool
calls_back cb l = if cb == 1 then ((when_ready (quietly (λ c. false)) 3 l).0, false) else (l, false)

abbrev inner : ℕ → List ℕ
inner cb = if cb == 1 then 3 ∷ [] else []

calls_back-RunsInner : RunsInner calls_back inner
unfolding when_ready call
calls_back-RunsInner = record {
  quiet = λ cb l s. ground arith;
  runs = λ cb l s.
      ground (arith, calls-append l.effects (called 3 ∷ []), append-nil (calls l.effects));
  stays = λ cb l s. ground arith;
  waits = λ cb l s. ground arith;
}

abbrev early_twice : List Lifecycle.Method
early_twice =
    when_readies 1 ∷ set_booting ∷ set_booted ∷ when_readies 2 ∷ sets_ready ∷ when_readies 1 ∷ []

history_in_order_example :
    let l = history calls_back early_twice Lifecycle.new in
    (calls l.effects ++ with_inner inner l.ready_callbacks ≡ 1 ∷ 3 ∷ 2 ∷ 1 ∷ 3 ∷ [])
    × (l.state ≡ ready → l.ready_callbacks ≡ [])
history_in_order_example = history_in_order calls_back inner calls_back-RunsInner early_twice

overtaken :
    calls
      (history calls_back
        (set_booting ∷ set_booted ∷ when_readies 1 ∷ when_readies 2 ∷ sets_ready ∷ [])
        Lifecycle.new).effects
    ≡ 1 ∷ 3 ∷ 2 ∷ []
unfolding history perform transition set_ready call_all call when_ready
overtaken = refl
