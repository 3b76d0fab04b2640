-- ===== src/UiState/Document.antt =====
-- `ConfigManagerStateStore` (adapters/config_manager_state_store.py): the slices are values of a
-- `ConfigManager` of its own, of which `document` is what `get` answers. `saving` says what `save` does
-- with a document; what is on the disk is left to Config.
pub mod Outcomes
pub mod Port
use sagittarius_engine.Prelude.{
  arith, ◌⊎◌, elem, ℕ, ◌≡◌, refl, sym, ap, ◌∙◌, String, string_eq, nat_eq, Bool, true, false, ◌||◌,
  leb, Option, none, some, List, [], ◌∷◌, ◌==◌, ==_iff, list_eq, if◌then◌else◌, Bool-cases, inl,
  inr, Dict, get, put, get-put,
}
use sagittarius_engine.UiState.{
  Keys, collection, iterator, evaluate, Key, StateData, StateScope, storage_key, same_slice,
  without, StateStore, IsStateStore,
}

pub data Stored : Type 0 where
  number : ℕ → Stored
  slice : StateData → Stored
  something_else : Stored

-- "schema_version"
abbrev pub schema_version_key : Key
schema_version_key =
    115 ∷ 99 ∷ 104 ∷ 101 ∷ 109 ∷ 97 ∷ 95 ∷ 118 ∷ 101 ∷ 114 ∷ 115 ∷ 105 ∷ 111 ∷ 110 ∷ []

pub record DocumentStore : Type 0 where
  pub document : Dict Key Stored
  pub degraded : Bool

abbrev pub is_readable : Option Stored → Bool
is_readable none = true
is_readable (some (number version)) = leb version 1
is_readable (some _) = false

abbrev pub schema_is_readable : DocumentStore → Bool
schema_is_readable st = is_readable (get schema_version_key st.document)

abbrev pub slice_of : Option Stored → StateData
slice_of (some (slice d)) = d
slice_of _ = []

abbrev pub read : StateScope → DocumentStore → StateData
read s st = if schema_is_readable st then slice_of (get (storage_key s) st.document) else []

-- `save` returns, or raises `OSError` or `ValueError`, or raises another exception, as it does for a
-- value that is not JSON.
pub data Saving : Type 0 where
  saved degrades escapes : Saving

abbrev pub flushed : Saving → DocumentStore → DocumentStore × Bool
flushed saved st = (st, false)
flushed degrades st = (record st { degraded = true }, false)
flushed escapes st = (st, true)

abbrev pub flush : (Dict Key Stored → Saving) → DocumentStore → DocumentStore × Bool
flush saving st = flushed (saving st.document) st

abbrev pub stamped : Key → StateData → Dict Key Stored → Dict Key Stored
stamped key d document = put key (slice d) (put schema_version_key (number 1) document)

abbrev pub write :
    (Dict Key Stored → Saving) → StateScope → StateData → DocumentStore → DocumentStore × Bool
write saving s d st = flush saving (record st { document = stamped (storage_key s) d st.document })

-- The comprehension of `discard_keys`, which evaluates `set(keys)` for each entry.
abbrev pub remaining : Keys → StateData → StateData
remaining ks [] = []
remaining ks ((key, value) ∷ d) =
    let (names, left) = evaluate ks in
    let rest = remaining left d in if elem key names then rest else (key, value) ∷ rest

abbrev pub document_store : (Dict Key Stored → Saving) → StateStore DocumentStore
document_store saving = record {
  read = read;
  write = write saving;
  discard = λ s st. write saving s [] st;
  discard_keys = λ s ks st. write saving s (remaining ks (read s st)) st;
  flush = flush saving;
}
