-- ===== src/Kernel/Lifecycle/Quiet.antt =====
-- `set_ready` of kernel/lifecycle.py where no waiting callback raises.
use sagittarius_engine.Prelude.{
  ℕ, Bool, false, List, [], ◌∷◌, ◌++◌, ◌≡◌, sym, ap, ◌∙◌, All, map, append_assoc, append-nil,
}
use sagittarius_engine.Kernel.Lifecycle.{
  quietly, booted, ready, called, emitted_ready, Effect, EngineLifecycle, engine_state_eq, returned,
  transition, set_ready, call_all, emit_after, enter_ready,
}

module _ (raises : ℕ → Bool) where
  call_all_quiet :
      (cbs : List ℕ) (l : EngineLifecycle)
      → All (λ cb. raises cb ≡ false) cbs
      → call_all (quietly raises) cbs l
        ≡ (record l { effects = l.effects ++ map called cbs }, returned)
  unfolding call_all
  call_all_quiet [] l h =
      ap (λ es. (record l { effects = es }, returned)) (sym (append-nil l.effects))
  call_all_quiet (cb ∷ cbs) l h =
      rw (call_all, h.0)
        (call_all_quiet cbs (record l { effects = l.effects ++ called cb ∷ [] }) h.1
          ∙ ap (λ es. (record l { effects = es }, returned))
              (append_assoc l.effects (called cb ∷ []) (map called cbs)))

  pub set_ready_quiet :
      (cbs : List ℕ) (es : List Effect)
      → All (λ cb. raises cb ≡ false) cbs
      → set_ready (quietly raises) (record { state = booted; ready_callbacks = cbs; effects = es })
        ≡ (
          record {
            state = ready;
            ready_callbacks = [];
            effects = (es ++ map called cbs) ++ emitted_ready ∷ [];
          },
          returned,
        )
  unfolding set_ready transition emit_after enter_ready
  set_ready_quiet cbs es h =
      ap (emit_after (quietly raises))
        (call_all_quiet cbs (record { state = ready; ready_callbacks = []; effects = es }) h)
