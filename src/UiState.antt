-- ===== src/UiState.antt =====
-- extensions/ui_state: the address of a slice of remembered state (state_scope.py), and the port that
-- stores fill (ports/i_state_store.py). A key is the list of its code points; a slice's values are
-- numbers that stand for JSON values.
pub mod Scopes
pub mod Memory
pub mod Document
pub mod Coordinator
use sagittarius_engine.Prelude.{
  ℕ, ◌≡◌, String, string_eq, nat_eq, Bool, true, false, not, ◌&&◌, Option, none, some, List, [],
  ◌∷◌, ◌++◌, ◌==◌, elem, keep, list_eq, if◌then◌else◌, Dict,
}

abbrev pub Key : Type 0
Key = List ℕ

abbrev pub StateData : Type 0
StateData = Dict String ℕ

pub data Lifetime : Type 0 where
  persistent session : Lifetime

pub record StateScope : Type 0 where
  pub key : Key
  pub instance_id : Option Key
  pub lifetime : Lifetime

abbrev pub is_singleton : StateScope → Bool
is_singleton s = is_none s.instance_id
  where
    is_none : Option Key → Bool
    is_none none = true
    is_none (some i) = false

abbrev pub as_default : StateScope → StateScope
as_default s = record s { instance_id = none; lifetime = persistent }

-- "#"
abbrev pub separator : ℕ
separator = 35

abbrev pub key_of : Key → Option Key → Key
key_of key none = key
key_of key (some i) = key ++ separator ∷ i

unfoldable pub storage_key : StateScope → Key
storage_key s = key_of s.key s.instance_id

abbrev pub same_slice : StateScope → StateScope → Bool
same_slice t s = storage_key t == storage_key s

abbrev pub without : List String → StateData → StateData
without names d = keep (λ e. not (elem e.0 names)) d

-- An iterable of names: a collection gives the same names each time it is iterated, an iterator gives
-- what it has once and nothing after that.
pub data Keys : Type 0 where
  collection iterator : List String → Keys

-- `set(keys)`, and what it leaves of `keys`.
abbrev pub evaluate : Keys → List String × Keys
evaluate (collection names) = (names, collection names)
evaluate (iterator names) = (names, iterator [])

-- The port, for stores with the state `S`. What can raise also says whether it did.
pub record StateStore (S : Type 0) : Type 0 where
  pub read : StateScope → S → StateData
  pub write : StateScope → StateData → S → S × Bool
  pub discard : StateScope → S → S × Bool
  pub discard_keys : StateScope → Keys → S → S × Bool
  pub flush : S → S × Bool

-- What the port promises, for states that are good and scopes that are valid, and for keys in a
-- collection.
pub record IsStateStore {S : Type 0} (store : StateStore S) (IsGood : S → Type 0)
    (IsValid : StateScope → Type 0) : Type 0 where
  pub read-write :
      (s t : StateScope) (d : StateData) (st : S)
      → IsGood st
      → IsValid t
      → store.read s (store.write t d st).0 ≡ (if same_slice t s then d else store.read s st)
  pub read-discard :
      (s t : StateScope) (st : S)
      → IsGood st
      → IsValid t
      → store.read s (store.discard t st).0 ≡ (if same_slice t s then [] else store.read s st)
  pub read-discard_keys :
      (s t : StateScope) (names : List String) (st : S)
      → IsGood st
      → IsValid t
      → store.read s (store.discard_keys t (collection names) st).0
        ≡ (if same_slice t s then without names (store.read s st) else store.read s st)
  pub read-flush : (s : StateScope) (st : S) → store.read s (store.flush st).0 ≡ store.read s st
  pub write-IsGood :
      (t : StateScope) (d : StateData) (st : S)
      → IsGood st
      → IsValid t
      → IsGood (store.write t d st).0
  pub discard-IsGood :
      (t : StateScope) (st : S) → IsGood st → IsValid t → IsGood (store.discard t st).0
  pub discard_keys-IsGood :
      (t : StateScope) (ks : Keys) (st : S)
      → IsGood st
      → IsValid t
      → IsGood (store.discard_keys t ks st).0
  pub flush-IsGood : (st : S) → IsGood st → IsGood (store.flush st).0
  pub write_quiet : (t : StateScope) (d : StateData) (st : S) → (store.write t d st).1 ≡ false
  pub discard_quiet : (t : StateScope) (st : S) → (store.discard t st).1 ≡ false
  pub discard_keys_quiet :
      (t : StateScope) (ks : Keys) (st : S) → (store.discard_keys t ks st).1 ≡ false
  pub flush_quiet : (st : S) → (store.flush st).1 ≡ false
