-- ===== src/UiState/Document/Outcomes.antt =====
-- How a flush of the persistent store ends, and which values its `discard_keys` forgets
-- (adapters/config_manager_state_store.py).
use sagittarius_engine.Prelude.{
  arith, ◌⊎◌, elem, ℕ, ◌≡◌, refl, ap, String, string_eq, nat_eq, false, List, [], ◌∷◌, list_eq,
  if◌then◌else◌, inl, inr, Dict,
}
use sagittarius_engine.UiState.{collection, iterator, Key, StateData, StateScope, without}
use sagittarius_engine.UiState.Document.{
  Stored, DocumentStore, read, Saving, flushed, flush, remaining, saved, degrades, escapes,
}

-- Saving raises nothing but `OSError` and `ValueError`.
pub record NeverEscapes (saving : Dict Key Stored → Saving) : Type 0 where
  pub caught :
      (document : Dict Key Stored) → (saving document ≡ saved) ⊎ (saving document ≡ degrades)

pub document-flushed : (r : Saving) (st : DocumentStore) → (flushed r st).0.document ≡ st.document
document-flushed saved st = refl
document-flushed degrades st = refl
document-flushed escapes st = refl

pub read-flush :
    (saving : Dict Key Stored → Saving) (s : StateScope) (st : DocumentStore)
    → read s (flush saving st).0 ≡ read s st
read-flush saving s st =
    ap (λ document. read s (record { document = document; degraded = false }))
      (document-flushed (saving st.document) st)

pub flush_caught :
    (saving : Dict Key Stored → Saving)
    → NeverEscapes saving
    → (st : DocumentStore) → (flush saving st).1 ≡ false
flush_caught saving never st = elim (never.caught st.document) [
  | inl fine ↦ ap (λ r. (flushed r st).1) fine
  | inr bad ↦ ap (λ r. (flushed r st).1) bad
]

-- A collection is tested against every entry, an iterator against the first.
pub remaining_of_collection :
    (names : List String) (d : StateData) → remaining (collection names) d ≡ without names d
remaining_of_collection names [] = refl
remaining_of_collection names ((key, value) ∷ d) = ground (arith, remaining_of_collection names d)

remaining_after : (d : StateData) → remaining (iterator []) d ≡ d
remaining_after [] = refl
remaining_after ((key, value) ∷ d) = ap (◌∷◌ (key, value)) (remaining_after d)

-- `discard_keys` with an iterator forgets at most the first entry of the slice: the entries behind it
-- stay, also those that the iterator names.
pub remaining_of_iterator :
    (names : List String) (key : String) (value : ℕ) (d : StateData)
    → remaining (iterator names) ((key, value) ∷ d)
      ≡ (if elem key names then d else (key, value) ∷ d)
remaining_of_iterator names key value d =
    ap (λ rest. if elem key names then rest else (key, value) ∷ rest) (remaining_after d)
