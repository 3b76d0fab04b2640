-- ===== src/Kernel/Dispatcher/Onion.antt =====
-- The order of the frames in kernel/middleware_pipeline.py.
use sagittarius_engine.Prelude.{
  ℕ, ◌≡◌, refl, ap, ◌∙◌, Option, none, some, List, [], ◌∷◌, ◌++◌, reverse,
}
use mathlib.Core.List.{reverse-cons, reverse-append}
use sagittarius_engine.Kernel.Dispatcher.{
  Middleware, Computation, frame, traced_frame, chain, execute, add,
}

module _ {S O : Type 0} where
  -- The frame that `execute` puts around the next handler.
  abbrev pub frame_of : Option ℕ → Middleware S O → Computation S O → Computation S O
  frame_of none = frame
  frame_of (some cid) = traced_frame cid

  chain-append :
      (wrap : Middleware S O → Computation S O → Computation S O) (xs ys : List (Middleware S O))
      (next : Computation S O)
      → chain wrap (xs ++ ys) next ≡ chain wrap ys (chain wrap xs next)
  unfolding chain
  chain-append wrap [] ys next = refl
  chain-append wrap (x ∷ xs) ys next = chain-append wrap xs ys (wrap x next)

  chain_onion :
      (wrap : Middleware S O → Computation S O → Computation S O) (m : Middleware S O)
      (ms : List (Middleware S O)) (final : Computation S O)
      → (chain wrap (reverse (m ∷ ms)) final ≡ wrap m (chain wrap (reverse ms) final))
        × (chain wrap (reverse (ms ++ m ∷ [])) final ≡ chain wrap (reverse ms) (wrap m final))
  unfolding chain
  chain_onion wrap m ms final = (
    ap (λ l. chain wrap l final) (reverse-cons m ms)
        ∙ chain-append wrap (reverse ms) (m ∷ []) final,
    ap (λ l. chain wrap l final) (reverse-append ms (m ∷ [])),
  )

  -- The pipeline is an onion, with a recorder and without: the first middleware is the outermost
  -- frame, around all the others, and the one that `add` appends is the innermost, right around
  -- the handler.
  pub execute_onion :
      (recorder : Option ℕ) (m : Middleware S O) (ms : List (Middleware S O))
      (final : Computation S O)
      → (execute recorder (m ∷ ms) final ≡ frame_of recorder m (execute recorder ms final))
        × (execute recorder (add m ms) final ≡ execute recorder ms (frame_of recorder m final))
  unfolding execute
  execute_onion none m ms final = chain_onion frame m ms final
  execute_onion (some cid) m ms final = chain_onion (traced_frame cid) m ms final
