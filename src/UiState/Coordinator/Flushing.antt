-- ===== src/UiState/Coordinator/Flushing.antt =====
-- What a store that keeps its promises holds after a flush.
use sagittarius_engine.Prelude.{
  ℕ, ◌≡◌, refl, ap, ◌∙◌, String, nat_eq, false, List, [], ◌∷◌, ==_refl, All, list_eq, if◌then◌else◌,
  Bool-cases, inl, inr,
}
use sagittarius_engine.UiState.{
  Keys, collection, StateData, StateScope, storage_key, same_slice, without, StateStore,
  IsStateStore,
}
use sagittarius_engine.UiState.Coordinator.{
  same_scope, Dirty, drop_scope, Coordinator, discard, discard_keys, write_each, flush,
}

-- The last contributor that is written to the slice of a scope has its state there.
pub latest : (ℕ → StateData) → StateScope → Dirty → StateData → StateData
latest capture s [] d = d
latest capture s ((t, c) ∷ rest) d = latest capture s rest (if same_slice t s then capture c else d)

drop_scope-All :
    (P : StateScope × ℕ → Type 0) (s : StateScope) (pending : Dirty)
    → All P pending
    → All P (drop_scope s pending)
unfolding drop_scope
drop_scope-All P s [] h = tt
drop_scope-All P s ((t, c) ∷ rest) h = elim (Bool-cases (same_scope t s)) [
  | inl same ↦ rw same (drop_scope-All P s rest h.1)
  | inr other ↦ rw other (h.0, drop_scope-All P s rest h.1)
]

-- Where only the scope itself shares its slice, nothing is left that writes to it.
latest_dropped :
    (capture : ℕ → StateData) (s : StateScope) (pending : Dirty) (d : StateData)
    → All (λ e. same_scope e.0 s ≡ false → same_slice e.0 s ≡ false) pending
    → latest capture s (drop_scope s pending) d ≡ d
unfolding latest drop_scope
latest_dropped capture s [] d apart = refl
latest_dropped capture s ((t, c) ∷ rest) d apart = elim (Bool-cases (same_scope t s)) [
  | inl same ↦ rw same (latest_dropped capture s rest d apart.1)
  | inr other ↦ rw other (
      ap (λ b. latest capture s (drop_scope s rest) (if b then capture c else d)) (apart.0 other)
      ∙ latest_dropped capture s rest d apart.1)
]

module _ {S : Type 0} (store : StateStore S) (IsGood : S → Type 0) (IsValid : StateScope → Type 0)
    (kept : IsStateStore store IsGood IsValid) (scope_of : ℕ → StateScope)
    (capture : ℕ → StateData) where
  written :
      (s : StateScope) (pending : Dirty) (st : S)
      → IsGood st
      → All (λ e. IsValid e.0) pending
      → store.read s (write_each store scope_of capture pending st).0
        ≡ latest capture s pending (store.read s st)
  unfolding write_each latest
  written s [] st good valid = refl
  written s ((t, c) ∷ rest) st good valid = rw (kept.write_quiet t (capture c) st) (
      written s rest (store.write t (capture c) st).0
        (kept.write-IsGood t (capture c) st good valid.0) valid.1
      ∙ ap (λ d. latest capture s rest d) (kept.read-write s t (capture c) st good valid.0))

  write_each_quiet :
      (pending : Dirty) (st : S) → (write_each store scope_of capture pending st).1 ≡ false
  unfolding write_each
  write_each_quiet [] st = refl
  write_each_quiet ((t, c) ∷ rest) st =
      rw (kept.write_quiet t (capture c) st)
        (write_each_quiet rest (store.write t (capture c) st).0)

  discard_keys_held :
      (m : Coordinator store) (s : StateScope) (ks : Keys)
      → (discard_keys store scope_of capture s ks m).0
        ≡ record m { held = (store.flush (store.discard_keys s ks m.held).0).0 }
  discard_keys_held m s ks = rw (kept.discard_keys_quiet s ks m.held) refl

  flush_held :
      (m : Coordinator store)
      → let st = (write_each store scope_of capture m.dirty m.held).0 in
        flush store scope_of capture m
        ≡ (record { held = (store.flush st).0; dirty = []; timer_running = false }, false)
  flush_held m = rw (write_each_quiet m.dirty m.held) (
      ap
        (λ b. (
          record {
            held = (store.flush (write_each store scope_of capture m.dirty m.held).0).0;
            dirty = [];
            timer_running = false;
          },
          b,
        ))
        (kept.flush_quiet (write_each store scope_of capture m.dirty m.held).0))

  -- A flush raises nothing. After it nothing is pending, the timer is stopped, and every scope reads what the last
  -- pending contributor of its slice captured, or what it read before if there is none.
  pub flush_lem :
      (m : Coordinator store) (s : StateScope)
      → IsGood m.held
      → All (λ e. IsValid e.0) m.dirty
      → (let (after, raised) = flush store scope_of capture m in
          (store.read s after.held ≡ latest capture s m.dirty (store.read s m.held))
          × (after.dirty ≡ [])
          × (after.timer_running ≡ false)
          × (raised ≡ false))
  flush_lem m s good valid = rw (flush_held m) (
    kept.read-flush s (write_each store scope_of capture m.dirty m.held).0
        ∙ written s m.dirty m.held good valid,
    refl,
    refl,
    refl,
  )

  -- A contributor that is discarded while its write is pending is not written by the next flush: its
  -- scope reads as empty, if no other pending scope shares its slice.
  pub discard_stays :
      (m : Coordinator store) (c : ℕ)
      → IsGood m.held
      → IsValid (scope_of c)
      → All (λ e. IsValid e.0) m.dirty
      → All (λ e. same_scope e.0 (scope_of c) ≡ false → same_slice e.0 (scope_of c) ≡ false) m.dirty
      → store.read
          (scope_of c)
          (flush store scope_of capture (discard store scope_of capture c m).0).0.held
        ≡ []
  discard_stays m c good valid_c valid apart =
      let s = scope_of c in
      let emptied = (store.discard s m.held).0 in
      (flush_lem (discard store scope_of capture c m).0 s
        (kept.discard-IsGood s m.held good valid_c)
        (drop_scope-All (λ e. IsValid e.0) s m.dirty valid)).0
      ∙ latest_dropped capture s m.dirty (store.read s emptied) apart
      ∙ kept.read-discard s s m.held good valid_c
      ∙ ap (λ b. if b then [] else store.read s m.held) (==_refl (storage_key s))

  -- Values that are forgotten, named by a collection, come back with the next flush, if a contributor
  -- of the slice is pending: the slice is what the contributor captures. Otherwise it is what is left
  -- of it.
  pub discard_keys_lem :
      (m : Coordinator store) (s : StateScope) (names : List String)
      → IsGood m.held
      → IsValid s
      → All (λ e. IsValid e.0) m.dirty
      → store.read s
          (flush store scope_of capture
            (discard_keys store scope_of capture s (collection names) m).0).0.held
        ≡ latest capture s m.dirty (without names (store.read s m.held))
  discard_keys_lem m s names good valid_s valid =
      let forgotten = (store.discard_keys s (collection names) m.held).0 in
      ap (λ after. store.read s (flush store scope_of capture after).0.held)
        (discard_keys_held m s (collection names))
      ∙ (flush_lem (record m { held = (store.flush forgotten).0 }) s
          (kept.flush-IsGood forgotten
            (kept.discard_keys-IsGood s (collection names) m.held good valid_s))
          valid).0
      ∙ ap (λ d. latest capture s m.dirty d)
          (kept.read-flush s forgotten
            ∙ kept.read-discard_keys s s names m.held good valid_s
            ∙ ap (λ b. if b then without names (store.read s m.held) else store.read s m.held)
                (==_refl (storage_key s)))
