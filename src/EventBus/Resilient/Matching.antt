-- ===== src/EventBus/Resilient/Matching.antt =====
-- When a resilient bus (infrastructure/event_bus/resilient_event_bus.py) stands for a plain one.
use sagittarius_engine.Prelude.{
  ℕ, ◌<◌, String, ◌≡◌, refl, some, [], map, nat_eq, string_eq, elem, All, get, has, keys, Distinct,
}
use sagittarius_engine.EventBus.Memory.{Bus, handlers_of}
use sagittarius_engine.EventBus.Resilient.{
  ResilientBus, Handler, client, wrapper, handler_eq, key_eq, Key, new,
}

-- The client's handler that an entry of the inner bus stands for.
abbrev pub target : Handler → ℕ
target (client h) = h
target (wrapper _ _ h) = h

-- The key in `_wrapper_map` for a handler of the inner bus's event `n`, where `naming` gives the name of
-- the event with that key.
abbrev pub key : (String → String) → String → ℕ → Key
key naming n h = record { event = naming n; handler = h }

abbrev pub SerialBelow : ℕ → Handler → Type 0
SerialBelow n (client _) = Unit
SerialBelow n (wrapper s _ _) = s < n

-- An entry of `_wrapper_map` holds a wrapper of its own handler.
abbrev pub IsOwn : Key × Handler → Type 0
IsOwn e = target e.1 ≡ e.0.handler

-- The resilient bus `b` stands for the plain bus `p`.
pub record Stands (naming : String → String) (p : Bus ℕ) (b : ResilientBus) : Type 0 where
  pub targets : (n : String) → map target (handlers_of n b.inner) ≡ handlers_of n p
  pub known : (n : String) (h : ℕ) → has (key naming n h) b.wrapper_map ≡ elem h (handlers_of n p)
  pub recorded :
      (n : String)
      → All (λ w. get (key naming n (target w)) b.wrapper_map ≡ some w) (handlers_of n b.inner)
  pub made :
      (n : String) (h : ℕ) (w : Handler)
      → get (key naming n h) b.wrapper_map ≡ some w
      → (target w ≡ h) × SerialBelow b.next_serial w
  pub entries : All IsOwn b.wrapper_map
  pub distinct : Distinct (keys b.inner)

pub Stands-new : (naming : String → String) (r : ℕ) → Stands naming [] (new r)
unfolding get
Stands-new naming r = record {
  targets = λ n. refl;
  known = λ n h. refl;
  recorded = λ n. tt;
  made = λ n h w e. absurd (cc);
  entries = tt;
  distinct = tt;
}
