-- ===== src/UiState/Coordinator.antt =====
-- `UiStateCoordinator` (ui_state_coordinator.py) over any store. A contributor is a number; `scope_of`
-- is its scope, `capture` what its `capture_state` answers when it is asked. The timer's interval
-- is Qt's.
pub mod Flushing
use sagittarius_engine.Prelude.{
  ℕ, ◌≡◌, ◌↔◌, refl, String, nat_eq, Eq, Bool, true, false, ◌&&◌, Option, none, some, List, [], ◌∷◌,
  ◌==◌, ==_iff, list_eq, if◌then◌else◌, Dict, get, put, remove,
}
use sagittarius_engine.UiState.{
  Keys, Key, StateData, Lifetime, persistent, session, StateScope, storage_key, StateStore,
}

abbrev pub same_instance : Option Key → Option Key → Bool
same_instance none none = true
same_instance (some i) (some j) = i == j
same_instance _ _ = false

abbrev pub same_lifetime : Lifetime → Lifetime → Bool
same_lifetime persistent persistent = true
same_lifetime session session = true
same_lifetime _ _ = false

abbrev pub same_scope : StateScope → StateScope → Bool
same_scope s t =
    s.key == t.key
    && same_instance s.instance_id t.instance_id
    && same_lifetime s.lifetime t.lifetime

-- `_dirty` in the order of the dict: a scope that is there keeps its place.
abbrev pub Dirty : Type 0
Dirty = List (StateScope × ℕ)

unfoldable pub mark : StateScope → ℕ → Dirty → Dirty
mark s c [] = (s, c) ∷ []
mark s c ((t, d) ∷ rest) =
    let later = mark s c rest in if same_scope t s then (t, c) ∷ rest else (t, d) ∷ later

-- `_dirty.pop(scope, None)`
unfoldable pub drop_scope : StateScope → Dirty → Dirty
drop_scope s [] = []
drop_scope s ((t, d) ∷ rest) =
    let later = drop_scope s rest in if same_scope t s then later else (t, d) ∷ later

module _ {S : Type 0} (store : StateStore S) where
  pub record Coordinator : Type 0 where
    pub held : S
    pub dirty : Dirty
    pub timer_running : Bool

  module _ (scope_of : ℕ → StateScope) (capture : ℕ → StateData) where
    -- What `restore_state` is handed.
    abbrev pub restore_into : ℕ → Coordinator → StateData
    restore_into c m = store.read (scope_of c) m.held

    abbrev pub mark_dirty : ℕ → Coordinator → Coordinator
    mark_dirty c m = record m { dirty = mark (scope_of c) c m.dirty; timer_running = true }

    -- The methods that can raise also say whether they did.
    abbrev pub discard : ℕ → Coordinator → Coordinator × Bool
    discard c m =
        let (st, raised) = store.discard (scope_of c) m.held in
        (record m { dirty = drop_scope (scope_of c) m.dirty; held = st }, raised)

    abbrev pub discard_keys : StateScope → Keys → Coordinator → Coordinator × Bool
    discard_keys s ks m =
        let (st, raised) = store.discard_keys s ks m.held in
        let (st', raised') = store.flush st in
        if raised then (record m { held = st }, true) else (record m { held = st' }, raised')

    unfoldable pub write_each : Dirty → S → S × Bool
    write_each [] st = (st, false)
    write_each ((s, c) ∷ rest) st =
        let (st', raised) = store.write s (capture c) st in
        let later = write_each rest st' in if raised then (st', true) else later

    abbrev pub write_dirty_contributors : Coordinator → Coordinator × Bool
    write_dirty_contributors m =
        let (st, raised) = write_each m.dirty m.held in (record m { held = st; dirty = [] }, raised)

    abbrev pub flush : Coordinator → Coordinator × Bool
    flush m =
        let (written, raised) = write_dirty_contributors (record m { timer_running = false }) in
        let (st, raised') = store.flush written.held in
        if raised then (written, true) else (record written { held = st }, raised')
