-- ===== src/UiState/Memory.antt =====
-- `InMemoryStateStore` (adapters/in_memory_state_store.py), and `NullStateStore` beside it.
use sagittarius_engine.Prelude.{
  ◌≡◌, refl, sym, ap, ◌∙◌, String, string_eq, nat_eq, Bool, true, false, Option, none, some, List,
  [], ◌==◌, ==_iff, list_eq, if◌then◌else◌, Bool-cases, inl, inr, Dict, get, put, remove, get-put,
  get-remove,
}
use sagittarius_engine.UiState.{
  evaluate, Key, StateData, storage_key, without, StateStore, IsStateStore,
}

abbrev pub Slices : Type 0
Slices = Dict Key StateData

abbrev pub get_or_empty : Option StateData → StateData
get_or_empty none = []
get_or_empty (some d) = d

abbrev pub rewrite_slice : Key → List String → Option StateData → Slices → Slices
rewrite_slice k names none slices = slices
rewrite_slice k names (some d) slices = put k (without names d) slices

abbrev pub in_memory : StateStore Slices
in_memory = record {
  read = λ s slices. get_or_empty (get (storage_key s) slices);
  write = λ s d slices. (put (storage_key s) d slices, false);
  discard = λ s slices. (remove (storage_key s) slices, false);
  discard_keys = λ s ks slices.
      (rewrite_slice (storage_key s) (evaluate ks).0 (get (storage_key s) slices) slices, false);
  flush = λ slices. (slices, false);
}

abbrev pub null_store : StateStore Unit
null_store = record {
  read = λ s st. [];
  write = λ s d st. (st, false);
  discard = λ s st. (st, false);
  discard_keys = λ s ks st. (st, false);
  flush = λ st. (st, false);
}

-- Every state is good and every scope is valid.
abbrev pub Anything : {A : Type 0} → A → Type 0
Anything a = Unit

branch :
    (b : Bool) (d : StateData) (o : Option StateData)
    → get_or_empty (if b then some d else o) ≡ (if b then d else get_or_empty o)
branch true d o = refl
branch false d o = refl

pub read-put :
    (a b : Key) (d : StateData) (slices : Slices)
    → get_or_empty (get b (put a d slices)) ≡ (if a == b then d else get_or_empty (get b slices))
read-put a b d slices = ap get_or_empty (get-put a b d slices) ∙ branch (a == b) d (get b slices)

removed :
    (b : Bool) (o : Option StateData)
    → get_or_empty (if b then none else o) ≡ (if b then [] else get_or_empty o)
removed true o = refl
removed false o = refl

read-remove :
    (a b : Key) (slices : Slices)
    → get_or_empty (get b (remove a slices)) ≡ (if a == b then [] else get_or_empty (get b slices))
read-remove a b slices = ap get_or_empty (get-remove a b slices) ∙ removed (a == b) (get b slices)

at_once :
    (a b : Key) (names : List String) (slices : Slices) (o : Option StateData)
    → get a slices ≡ o
    → get_or_empty (get b (rewrite_slice a names o slices)) ≡ (
        if a == b then without names (get_or_empty (get b slices)) else get_or_empty (get b slices))
at_once a b names slices o there = elim (Bool-cases (a == b)) [
  | inr other ↦ rw other (untouched o other)
  | inl same ↦
      let moved : get b slices ≡ o = ap (λ k. get k slices) (sym ((==_iff a b).0 same)) ∙ there in
      rw same (changed o same moved)
]
  where
    untouched :
        (o : Option StateData)
        → (a == b) ≡ false
        → get_or_empty (get b (rewrite_slice a names o slices)) ≡ get_or_empty (get b slices)
    untouched none other = refl
    untouched (some d) other =
        read-put a b (without names d) slices
        ∙ ap (λ c. if c then without names d else get_or_empty (get b slices)) other

    changed :
        (o : Option StateData)
        → (a == b) ≡ true
        → get b slices ≡ o
        → get_or_empty (get b (rewrite_slice a names o slices))
          ≡ without names (get_or_empty (get b slices))
    changed none same moved = rw moved refl
    changed (some d) same moved =
        read-put a b (without names d) slices
        ∙ ap (λ c. if c then without names d else get_or_empty (get b slices)) same
        ∙ ap (λ p. without names (get_or_empty p)) (sym moved)

-- The store in memory keeps what the port promises.
pub in_memory-IsStateStore : IsStateStore in_memory Anything Anything
in_memory-IsStateStore = record {
  read-write = λ s t d slices good valid. read-put (storage_key t) (storage_key s) d slices;
  read-discard = λ s t slices good valid. read-remove (storage_key t) (storage_key s) slices;
  read-discard_keys = λ s t names slices good valid.
      at_once (storage_key t) (storage_key s) names slices (get (storage_key t) slices) refl;
  read-flush = λ s slices. refl;
  write-IsGood = λ t d slices good valid. tt;
  discard-IsGood = λ t slices good valid. tt;
  discard_keys-IsGood = λ t ks slices good valid. tt;
  flush-IsGood = λ slices good. tt;
  write_quiet = λ t d slices. refl;
  discard_quiet = λ t slices. refl;
  discard_keys_quiet = λ t ks slices. refl;
  flush_quiet = λ slices. refl;
}
