-- ===== src/Config/Layers.antt =====
-- The override order of infrastructure/config/config_manager.py.
use sagittarius_engine.Prelude.{
  Bool-cases, inl, inr, true, false, ◌≡◌, refl, sym, ap, ◌∙◌, subst, Option, none, some, List, [],
  ◌∷◌, ◌++◌, String, string_eq, Dict, get, if◌then◌else◌, get-put, ◌==◌, All,
}
use sagittarius_engine.Config.{
  Disk, ConfigSource, ConfigManager, merge, merge_all, load, load_unless, lookup, defaulted,
  sources_of, set, add_source, runtime_source_label,
}
use sagittarius_engine.Config.Winner.{
  or_else, get-update, get-label_keys, supplied, winner, label_of, value_of, IsDict,
  or_else-value_of, or_else-label_of, or_else-none, load_loaded, defaulted_if,
}

module _ {V : Type 0} (disk : Disk V) where
  abbrev pub AreDicts : List (ConfigSource V) → Type 0
  AreDicts sources = All (λ s. IsDict (s.read disk)) sources

  merge-cache :
      (key label : String) (a : Option (String × V)) (r : Option (Dict String V))
      (m : ConfigManager V)
      → IsDict r
      → or_else (value_of a) (get key (merge label r m).cache)
        ≡ or_else (value_of (or_else a (supplied key label r))) (get key m.cache)
  merge-cache key label none none m d = refl
  merge-cache key label (some a) none m d = refl
  merge-cache key label a (some entries) m d =
      ap (or_else (value_of a)) (get-update key m.cache entries d)
      ∙ or_else-value_of a label (get key entries) (get key m.cache)

  merge-key_sources :
      (key label : String) (a : Option (String × V)) (r : Option (Dict String V))
      (m : ConfigManager V)
      → or_else (label_of a) (get key (merge label r m).key_sources)
        ≡ or_else (label_of (or_else a (supplied key label r))) (get key m.key_sources)
  merge-key_sources key label none none m = refl
  merge-key_sources key label (some a) none m = refl
  merge-key_sources key label a (some entries) m =
      ap (or_else (label_of a)) (get-label_keys label key m.key_sources entries)
      ∙ or_else-label_of a label (get key entries) (get key m.key_sources)

  merge_all-cache :
      (key : String) (sources : List (ConfigSource V)) (m : ConfigManager V)
      → AreDicts sources
      → get key (merge_all disk sources m).cache
        ≡ or_else (value_of (winner key disk sources)) (get key m.cache)
  unfolding merge_all
  merge_all-cache key [] m d = refl
  merge_all-cache key (s ∷ sources) m d =
      merge_all-cache key sources (merge s.label (s.read disk) m) d.1
      ∙ merge-cache key s.label (winner key disk sources) (s.read disk) m d.0

  merge_all-key_sources :
      (key : String) (sources : List (ConfigSource V)) (m : ConfigManager V)
      → get key (merge_all disk sources m).key_sources
        ≡ or_else (label_of (winner key disk sources)) (get key m.key_sources)
  unfolding merge_all
  merge_all-key_sources key [] m = refl
  merge_all-key_sources key (s ∷ sources) m =
      merge_all-key_sources key sources (merge s.label (s.read disk) m)
      ∙ merge-key_sources key s.label (winner key disk sources) (s.read disk) m

  load_fresh :
      (m : ConfigManager V)
      → m.loaded ≡ false
      → load disk m ≡ merge_all disk m.sources (record m { cache = []; key_sources = [] })
  unfolding load load_unless
  load_fresh m fresh = ap (λ b. load_unless b disk m) fresh

  -- If nothing is loaded and every source that can be read gives a dict, then after `_load` each
  -- key has the value that the last source with that key supplies, and `sources` names that same
  -- source; a key that no source supplies has neither.
  pub load_lem :
      (m : ConfigManager V) (key : String)
      → m.loaded ≡ false
      → AreDicts m.sources
      → (get key (load disk m).cache ≡ value_of (winner key disk m.sources))
        × (get key (sources_of disk m).0 ≡ label_of (winner key disk m.sources))
  unfolding sources_of get
  load_lem m key fresh d =
      let empty : ConfigManager V = record m { cache = []; key_sources = [] } in
      (
        ap (λ r. get key r.cache) (load_fresh m fresh)
            ∙ merge_all-cache key m.sources empty d
            ∙ or_else-none (value_of (winner key disk m.sources)),
        ap (λ r. get key r.key_sources) (load_fresh m fresh)
            ∙ merge_all-key_sources key m.sources empty
            ∙ or_else-none (label_of (winner key disk m.sources)),
      )

  merge-sources :
      (label : String) (r : Option (Dict String V)) (m : ConfigManager V)
      → (merge label r m).sources ≡ m.sources
  merge-sources label none m = refl
  merge-sources label (some entries) m = refl

  merge_all-sources :
      (sources : List (ConfigSource V)) (m : ConfigManager V)
      → (merge_all disk sources m).sources ≡ m.sources
  unfolding merge_all
  merge_all-sources [] m = refl
  merge_all-sources (s ∷ sources) m =
      merge_all-sources sources (merge s.label (s.read disk) m)
      ∙ merge-sources s.label (s.read disk) m

  merge_all-loaded :
      (sources : List (ConfigSource V)) (m : ConfigManager V)
      → (merge_all disk sources m).loaded ≡ true
  unfolding merge_all
  merge_all-loaded [] m = refl
  merge_all-loaded (s ∷ sources) m = merge_all-loaded sources (merge s.label (s.read disk) m)

  load-sources_and_loaded :
      (m : ConfigManager V) → ((load disk m).sources ≡ m.sources) × ((load disk m).loaded ≡ true)
  load-sources_and_loaded m = elim (Bool-cases m.loaded) [
    | inl already ↦
        let same : load disk m ≡ m = load_loaded disk m already in
        (ap (λ r. r.sources) same, ap (λ r. r.loaded) same ∙ already)
    | inr fresh ↦
        let empty : ConfigManager V = record m { cache = []; key_sources = [] } in
        (
          ap (λ r. r.sources) (load_fresh m fresh) ∙ merge_all-sources m.sources empty,
          ap (λ r. r.loaded) (load_fresh m fresh) ∙ merge_all-loaded m.sources empty,
        )
  ]

  -- After `set` of a key, `get` gives the new value for this key and `sources` names the call of
  -- `set`; for every other key both answer as they did before.
  pub lookup-set :
      (m : ConfigManager V) (key other : String) (value : V) (default : Option V)
      → ((lookup disk other default (set disk key value m)).0
          ≡ (if key == other then some value else (lookup disk other default m).0))
        × (get other (sources_of disk (set disk key value m)).0
            ≡ (if key == other then some runtime_source_label else get other (sources_of disk m).0))
  unfolding lookup sources_of set
  lookup-set m key other value default =
      let m' : ConfigManager V = set disk key value m in
      let same : load disk m' ≡ m' = load_loaded disk m' (load-sources_and_loaded m).1 in
      (
        ap (λ r. defaulted default (get other r.cache)) same
            ∙ ap (defaulted default) (get-put key other value (load disk m).cache)
            ∙ defaulted_if (key == other) value default (get other (load disk m).cache),
        ap (λ r. get other r.key_sources) same
            ∙ get-put key other runtime_source_label (load disk m).key_sources,
      )

  -- A source that is added after a `set` undoes it: `get` answers as if `set` had not been called,
  -- for every key, the one that was set too. The sources that can be read give dicts.
  pub add_source_undoes_set :
      (m : ConfigManager V) (source : ConfigSource V) (key other : String) (value : V)
      (default : Option V)
      → AreDicts (m.sources ++ source ∷ [])
      → (lookup disk other default (add_source source (set disk key value m))).0
        ≡ (lookup disk other default (add_source source m)).0
  unfolding lookup set
  add_source_undoes_set m source key other value default d =
      let all : List (ConfigSource V) = m.sources ++ source ∷ [] in
      let after : ConfigManager V = add_source source (set disk key value m) in
      let same : after.sources ≡ all = ap (λ l. l ++ source ∷ []) (load-sources_and_loaded m).0 in
      ap (defaulted default) (
        (load_lem after other refl (subst AreDicts (sym same) d)).0
        ∙ ap (λ l. value_of (winner other disk l)) same
        ∙ sym (load_lem (add_source source m) other refl d).0)
