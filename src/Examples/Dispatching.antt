-- ===== src/Examples/Dispatching.antt =====
-- The dispatcher's theorems at concrete inputs.
use sagittarius_engine.Prelude.{
  ℕ, suc, ◌+◌, refl, [], ◌∷◌, true, false, nat_eq, ◌==◌, if◌then◌else◌,
}
use sagittarius_engine.Kernel.Dispatcher.{
  World, Script, Middleware, Handler, Outcome, returned, raised, finish, set, call_next, look,
  next_cid, dispatch,
}
use sagittarius_engine.Kernel.Dispatcher.Tracing.{Follows, dispatch_traced_agrees}

-- A retry: where the handler raises, it is called once more.
abbrev again : Outcome ℕ → Script ℕ (Outcome ℕ)
again (returned n) = finish (returned n)
again (raised e) = call_next finish

abbrev retrying : Middleware ℕ (Outcome ℕ)
retrying = record { name = "Retry"; process = call_next again }

abbrev counting : Middleware ℕ (Outcome ℕ)
counting = record { name = "Count"; process = look (λ n. set (n + 10) (call_next finish)) }

-- Raises the first time.
abbrev flaky : ℕ → Outcome ℕ × ℕ
flaky n = if n == 10 then (raised "busy", 11) else (returned n, suc n)

abbrev handler : Handler ℕ (Outcome ℕ)
handler = record { class_name = "ListQuery"; execute = flaky }

abbrev world : World ℕ
world = record { user = 0; marks = []; last_cid = 4 }

dispatch_traced_agrees_example :
    Follows 5
      (dispatch true (counting ∷ retrying ∷ []) handler world)
      (dispatch false (counting ∷ retrying ∷ []) handler world)
      (next_cid world)
      world
dispatch_traced_agrees_example =
    dispatch_traced_agrees (counting ∷ retrying ∷ []) handler world world refl
