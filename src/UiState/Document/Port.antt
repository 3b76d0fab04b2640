-- ===== src/UiState/Document/Port.antt =====
-- The persistent store (adapters/config_manager_state_store.py) against the promises of its port.
use sagittarius_engine.Prelude.{
  ◌≡◌, refl, sym, ap, ◌∙◌, String, string_eq, nat_eq, Bool, true, false, Option, none, some, List,
  [], ◌==◌, ==_iff, list_eq, if◌then◌else◌, Bool-cases, inl, inr, Dict, get, put, get-put,
}
use sagittarius_engine.UiState.{
  Key, StateData, StateScope, storage_key, same_slice, without, IsStateStore,
}
use sagittarius_engine.UiState.Document.{
  Stored, schema_version_key, DocumentStore, is_readable, schema_is_readable, slice_of, read,
  Saving, flush, stamped, write, remaining, document_store, number, slice, something_else,
}
use sagittarius_engine.UiState.Document.Outcomes.{
  NeverEscapes, document-flushed, read-flush, flush_caught, remaining_of_collection,
}

abbrev pub IsReadable : DocumentStore → Type 0
IsReadable st = schema_is_readable st ≡ true

abbrev pub IsUnreserved : StateScope → Type 0
IsUnreserved s = (storage_key s == schema_version_key) ≡ false

readable_after :
    (key : Key) (d : StateData) (document : Dict Key Stored)
    → (key == schema_version_key) ≡ false
    → is_readable (get schema_version_key (stamped key d document)) ≡ true
readable_after key d document unreserved = ap is_readable (
    get-put key schema_version_key (slice d) (put schema_version_key (number 1) document)
    ∙ ap
        (λ c.
          if c
          then some (slice d)
          else get schema_version_key (put schema_version_key (number 1) document))
        unreserved
    ∙ get-put schema_version_key schema_version_key (number 1) document)

pick_slice :
    (b : Bool) (d : StateData) (o : Option Stored)
    → slice_of (if b then some (slice d) else o) ≡ (if b then d else slice_of o)
pick_slice true d o = refl
pick_slice false d o = refl

-- The version is no slice, so that stamping changes no slice where the version was a number.
unstamped :
    (b : Bool) (o : Option Stored)
    → (b ≡ true → slice_of o ≡ [])
    → slice_of (if b then some (number 1) else o) ≡ slice_of o
unstamped true o h = sym (h refl)
unstamped false o h = refl

readable_empty : (o : Option Stored) → is_readable o ≡ true → slice_of o ≡ []
readable_empty none h = refl
readable_empty (some (number n)) h = refl
readable_empty (some (slice d)) h = absurd (cc)
readable_empty (some something_else) h = absurd (cc)

slice_after :
    (a b : Key) (d : StateData) (document : Dict Key Stored)
    → ((schema_version_key == b) ≡ true → slice_of (get b document) ≡ [])
    → slice_of (get b (stamped a d document)) ≡ (if a == b then d else slice_of (get b document))
slice_after a b d document at_version =
    ap slice_of (get-put a b (slice d) (put schema_version_key (number 1) document))
    ∙ pick_slice (a == b) d (get b (put schema_version_key (number 1) document))
    ∙ ap (λ o. if a == b then d else o)
        (ap slice_of (get-put schema_version_key b (number 1) document)
          ∙ unstamped (schema_version_key == b) (get b document) at_version)

-- What a write makes readable, whatever version the document had.
read_written :
    (saving : Dict Key Stored → Saving) (s t : StateScope) (d : StateData) (st : DocumentStore)
    → IsUnreserved t
    → ((schema_version_key == storage_key s) ≡ true
        → slice_of (get (storage_key s) st.document) ≡ [])
    → read s (write saving t d st).0
      ≡ (if same_slice t s then d else slice_of (get (storage_key s) st.document))
read_written saving s t d st unreserved at_version =
    read-flush saving s (record st { document = stamped (storage_key t) d st.document })
    ∙ ap
        (λ c.
          if c then slice_of (get (storage_key s) (stamped (storage_key t) d st.document)) else [])
        (readable_after (storage_key t) d st.document unreserved)
    ∙ slice_after (storage_key t) (storage_key s) d st.document at_version

at_version_empty :
    (s : StateScope) (st : DocumentStore)
    → IsReadable st
    → (schema_version_key == storage_key s) ≡ true
    → slice_of (get (storage_key s) st.document) ≡ []
at_version_empty s st good same =
    ap (λ k. slice_of (get k st.document))
      (sym ((==_iff schema_version_key (storage_key s)).0 same))
    ∙ readable_empty (get schema_version_key st.document) good

read-write_lem :
    (saving : Dict Key Stored → Saving) (s t : StateScope) (d : StateData) (st : DocumentStore)
    → IsReadable st
    → IsUnreserved t
    → read s (write saving t d st).0 ≡ (if same_slice t s then d else read s st)
read-write_lem saving s t d st good unreserved =
    read_written saving s t d st unreserved (at_version_empty s st good)
    ∙ ap
        (λ c.
          if same_slice t s
          then d
          else (if c then slice_of (get (storage_key s) st.document) else []))
        (sym good)

kept_keys :
    (s t : StateScope) (names : List String) (st : DocumentStore)
    → (if same_slice t s then without names (read t st) else read s st)
      ≡ (if same_slice t s then without names (read s st) else read s st)
kept_keys s t names st = elim (Bool-cases (same_slice t s)) [
  | inl same ↦ rw same (
      ap (λ k. without names (if schema_is_readable st then slice_of (get k st.document) else []))
        ((==_iff (storage_key t) (storage_key s)).0 same))
  | inr other ↦ rw other refl
]

flush-IsReadable :
    (saving : Dict Key Stored → Saving) (st : DocumentStore)
    → IsReadable st
    → IsReadable (flush saving st).0
flush-IsReadable saving st good =
    ap (λ document. is_readable (get schema_version_key document))
      (document-flushed (saving st.document) st)
    ∙ good

write-IsReadable :
    (saving : Dict Key Stored → Saving) (t : StateScope) (d : StateData) (st : DocumentStore)
    → IsUnreserved t
    → IsReadable (write saving t d st).0
write-IsReadable saving t d st valid =
    flush-IsReadable saving (record st { document = stamped (storage_key t) d st.document })
      (readable_after (storage_key t) d st.document valid)

-- Where saving raises nothing but `OSError` and `ValueError`: for documents of this schema and scopes
-- that are not named like its version, the persistent store keeps what the port promises, of
-- `discard_keys` where a collection gives the names, whether saving fails or not, and raises nothing.
pub document_store-IsStateStore :
    (saving : Dict Key Stored → Saving)
    → NeverEscapes saving
    → IsStateStore (document_store saving) IsReadable IsUnreserved
document_store-IsStateStore saving never = record {
  read-write = λ s t d st good valid. read-write_lem saving s t d st good valid;
  read-discard = λ s t st good valid. read-write_lem saving s t [] st good valid;
  read-discard_keys = λ s t names st good valid.
      ap (λ d. read s (write saving t d st).0) (remaining_of_collection names (read t st))
      ∙ read-write_lem saving s t (without names (read t st)) st good valid
      ∙ kept_keys s t names st;
  read-flush = λ s st. read-flush saving s st;
  write-IsGood = λ t d st good valid. write-IsReadable saving t d st valid;
  discard-IsGood = λ t st good valid. write-IsReadable saving t [] st valid;
  discard_keys-IsGood =
      λ t ks st good valid. write-IsReadable saving t (remaining ks (read t st)) st valid;
  flush-IsGood = λ st good. flush-IsReadable saving st good;
  write_quiet = λ t d st. flush_caught saving never _;
  discard_quiet = λ t st. flush_caught saving never _;
  discard_keys_quiet = λ t ks st. flush_caught saving never _;
  flush_quiet = λ st. flush_caught saving never st;
}

-- A document that a newer build wrote is read as empty only until the first write: after a write
-- to any scope, every other scope reads the newer slices.
pub newer_adopted :
    (saving : Dict Key Stored → Saving) (s t : StateScope) (d : StateData) (st : DocumentStore)
    → schema_is_readable st ≡ false
    → IsUnreserved s
    → IsUnreserved t
    → same_slice t s ≡ false
    → (read s st ≡ [])
      × (read s (write saving t d st).0 ≡ slice_of (get (storage_key s) st.document))
newer_adopted saving s t d st newer unreserved_s unreserved_t other = (
  rw newer refl,
  read_written saving s t d st unreserved_t (λ same. absurd (
        cc (
          unreserved_s,
          (==_iff (storage_key s) schema_version_key).1
              (sym ((==_iff schema_version_key (storage_key s)).0 same)),
        )))
      ∙ ap (λ c. if c then d else slice_of (get (storage_key s) st.document)) other,
)
