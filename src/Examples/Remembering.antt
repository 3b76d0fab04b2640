-- ===== src/Examples/Remembering.antt =====
-- The theorems about remembered state, at concrete inputs.
use sagittarius_engine.Prelude.{
  put, inr, ℕ, zero, suc, ◌≡◌, refl, string_eq, nat_eq, true, false, none, [], ◌∷◌, list_eq, Dict,
  get,
}
use sagittarius_engine.UiState.{
  collection, iterator, Key, StateData, persistent, StateScope, storage_key, without, IsStateStore,
}
use sagittarius_engine.UiState.Memory.{in_memory, Anything, in_memory-IsStateStore}
use sagittarius_engine.UiState.Document.{
  Saving, degrades, Stored, number, slice, schema_version_key, DocumentStore, slice_of, read, write,
  document_store,
}
use sagittarius_engine.UiState.Document.Outcomes.{NeverEscapes}
use sagittarius_engine.UiState.Document.Port.{
  IsReadable, IsUnreserved, document_store-IsStateStore, newer_adopted,
}
use sagittarius_engine.UiState.Coordinator.{Coordinator, discard, discard_keys, flush}
use sagittarius_engine.UiState.Coordinator.Flushing.{latest, discard_stays, discard_keys_lem}

abbrev dashboard : StateScope
dashboard = record { key = 100 ∷ []; instance_id = none; lifetime = persistent }

abbrev shell : StateScope
shell = record { key = 115 ∷ []; instance_id = none; lifetime = persistent }

abbrev scope_of : ℕ → StateScope
scope_of zero = dashboard
scope_of (suc n) = shell

abbrev capture : ℕ → StateData
capture c = ("symbol", c) ∷ ("interval", 5) ∷ []

abbrev disk_full : Dict Key Stored → Saving
disk_full document = degrades

disk_full-NeverEscapes : NeverEscapes disk_full
disk_full-NeverEscapes = record { caught = λ document. inr refl }

-- The iterator names both entries, and the second stays.
iterator_used_up :
    (let (after, raised) =
        (document_store disk_full).discard_keys dashboard
          (iterator ("symbol" ∷ "zoom" ∷ []))
          (record {
            document = (100 ∷ [], slice (("symbol", 9) ∷ ("zoom", 2) ∷ [])) ∷ [];
            degraded = false;
          }) in
      read dashboard after ≡ ("zoom", 2) ∷ [])
unfolding get put storage_key
iterator_used_up = refl

document_store-IsStateStore_example :
    IsStateStore (document_store disk_full) IsReadable IsUnreserved
document_store-IsStateStore_example = document_store-IsStateStore disk_full disk_full-NeverEscapes

abbrev newer : DocumentStore
newer = record {
  document = (schema_version_key, number 2) ∷ (115 ∷ [], slice (("width", 7) ∷ [])) ∷ [];
  degraded = false;
}

newer_adopted_example :
    (read shell newer ≡ [])
    × (read shell (write disk_full dashboard [] newer).0
        ≡ slice_of (get (storage_key shell) newer.document))
unfolding get storage_key
newer_adopted_example = newer_adopted disk_full shell dashboard [] newer refl refl refl refl

abbrev pending : Coordinator in_memory
pending = record {
  held = (100 ∷ [], ("symbol", 9) ∷ ("zoom", 2) ∷ []) ∷ [];
  dirty = (dashboard, 0) ∷ (shell, 1) ∷ [];
  timer_running = true;
}

discard_stays_example :
    in_memory.read
      (scope_of 0)
      (flush in_memory scope_of capture (discard in_memory scope_of capture 0 pending).0).0.held
    ≡ []
unfolding storage_key
discard_stays_example =
    discard_stays in_memory Anything Anything in_memory-IsStateStore scope_of capture pending 0 tt
      tt (tt, (tt, tt)) (λ h. absurd (cc), (λ h. refl, tt))

discard_keys_lem_example :
    in_memory.read dashboard
      (flush in_memory scope_of capture
        (discard_keys in_memory scope_of capture dashboard
          (collection ("symbol" ∷ []))
          pending).0).0.held
    ≡ latest capture dashboard pending.dirty
        (without ("symbol" ∷ []) (in_memory.read dashboard pending.held))
discard_keys_lem_example =
    discard_keys_lem in_memory Anything Anything in_memory-IsStateStore scope_of capture pending
      dashboard ("symbol" ∷ []) tt tt (tt, (tt, tt))
