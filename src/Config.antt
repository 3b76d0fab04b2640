-- ===== src/Config.antt =====
-- `ConfigManager` (infrastructure/config/config_manager.py) with the sources of json_source.py and
-- dict_source.py. A disk maps a path to what the file holds. A source's `read` may raise, which is
-- none. The JSON encoding of a value and what happens when a file is written are parameters; a file
-- that holds JSON holds an object. The environment is left out.
pub mod Winner
pub mod Layers
pub mod Reloading
pub mod Encoding
pub mod Saving
use sagittarius_engine.Prelude.{
  Bool, true, false, Option, none, some, List, [], ◌∷◌, ◌++◌, String, string_eq, Dict, get, put,
  keys, if◌then◌else◌, join,
}

module _ (V : Type 0) where
  -- What `open` and `json.load` make of a file: an object, or they raise `JSONDecodeError`,
  -- `UnicodeDecodeError` or `OSError`.
  pub data Content : Type 0 where
    holds : Dict String V → Content
    not_json not_text unreadable : Content

  abbrev pub Disk : Type 0
  Disk = Dict String Content

  -- What happens when a file is opened for writing and written: it works; `makedirs` or `open` raises
  -- `OSError`; or the writing raises it and leaves something behind.
  pub data Medium : Type 0 where
    writes cannot_open : Medium
    breaks_off : Content → Medium

  pub record ConfigSource : Type 0 where
    pub label : String
    pub read : Disk → Option (Dict String V)

  pub record ConfigManager : Type 0 where
    pub sources : List ConfigSource
    pub cache : Dict String V
    pub loaded : Bool
    pub writable_path : Option String
    pub dirty : Dict String V
    pub key_sources : Dict String String

abbrev pub runtime_source_label : String
runtime_source_label = "runtime:set()"

-- `target.update(entries)`.
unfoldable pub update {ℓ} : {W : Type ℓ} → Dict String W → Dict String W → Dict String W
update target [] = target
update target ((k, v) ∷ entries) = update (put k v target) entries

-- `for key in entries: target[key] = label`.
unfoldable pub label_keys :
    {V : Type 0} → String → Dict String String → Dict String V → Dict String String
label_keys label target [] = target
label_keys label target ((k, v) ∷ entries) = label_keys label (put k label target) entries

abbrev pub new : (V : Type 0) → ConfigManager V
new V = record {
  sources = [];
  cache = [];
  loaded = false;
  writable_path = none;
  dirty = [];
  key_sources = [];
}

module _ {V : Type 0} where
  abbrev pub add_source : ConfigSource V → ConfigManager V → ConfigManager V
  add_source source m = record m { sources = m.sources ++ source ∷ []; loaded = false }

  -- `JsonSource.read`: a missing file and one that is not JSON are empty, any other raises.
  abbrev pub decoded : Option (Content V) → Option (Dict String V)
  decoded none = some []
  decoded (some (holds entries)) = some entries
  decoded (some not_json) = some []
  decoded (some not_text) = none
  decoded (some unreadable) = none

  unfoldable pub read_json : String → Disk V → Option (Dict String V)
  read_json path disk = decoded (get path disk)

  abbrev pub json_source : String → ConfigSource V
  json_source path = record { label = join "json:" path; read = read_json path }

  abbrev pub load_json : String → Bool → ConfigManager V → ConfigManager V
  load_json path writable m =
      let m' : ConfigManager V = add_source (json_source path) m in
      if writable then record m' { writable_path = some path } else m'

  -- The body of `_load`'s loop; an exception of `read` is logged.
  abbrev pub merge : String → Option (Dict String V) → ConfigManager V → ConfigManager V
  merge label none m = m
  merge label (some entries) m = record m {
    cache = update m.cache entries;
    key_sources = label_keys label m.key_sources entries;
  }

  unfoldable pub merge_all : Disk V → List (ConfigSource V) → ConfigManager V → ConfigManager V
  merge_all disk [] m = record m { loaded = true }
  merge_all disk (source ∷ sources) m =
      merge_all disk sources (merge source.label (source.read disk) m)

  load_unless : Bool → Disk V → ConfigManager V → ConfigManager V
  unfolding merge_all
  load_unless true disk m = m
  load_unless false disk m = merge_all disk m.sources (record m { cache = []; key_sources = [] })

  -- `_load`.
  unfoldable pub load : Disk V → ConfigManager V → ConfigManager V
  unfolding load_unless
  load disk m = load_unless m.loaded disk m

  -- The end of `get`: `cast` is none where it raises.
  abbrev pub converted : (is_instance : V → Bool) (cast : V → Option V) → V → V
  converted is_instance cast v =
      if is_instance v then v else elim (cast v) [ none ↦ v | some w ↦ w ]

  abbrev pub defaulted : Option V → Option V → Option V
  defaulted default none = default
  defaulted default (some v) = some v

  unfoldable pub lookup : Disk V → String → Option V → ConfigManager V → Option V × ConfigManager V
  unfolding load
  lookup disk key default m = let m' = load disk m in (defaulted default (get key m'.cache), m')

  -- `get` with its three arguments.
  abbrev pub lookup_cast :
      (is_instance : V → Bool) (cast : V → Option V)
      → Disk V
      → String
      → Option V
      → ConfigManager V
      → Option V × ConfigManager V
  lookup_cast is_instance cast disk key default m =
      let r = lookup disk key default m in
      (elim r.0 [ none ↦ none | some v ↦ some (converted is_instance cast v) ], r.1)

  -- `sources()`.
  unfoldable pub sources_of : Disk V → ConfigManager V → Dict String String × ConfigManager V
  unfolding load
  sources_of disk m = let m' = load disk m in (m'.key_sources, m')

  unfoldable pub set : Disk V → String → V → ConfigManager V → ConfigManager V
  unfolding load
  set disk key value m =
      let m' = load disk m in
      record m' {
        cache = put key value m'.cache;
        dirty = put key value m'.dirty;
        key_sources = put key runtime_source_label m'.key_sources;
      }

-- How `save` ends: it returns, or raises `ValueError`, `UnicodeDecodeError`, `OSError` or what
-- `json.dump` raises for a value.
pub data Outcome : Type 0 where
  returned no_writable_source undecodable os_error not_encodable : Outcome

module _ {V : Type 0} where
  -- `existing`; an exception that is not caught is none.
  abbrev pub existing : Option (Content V) → Option (Dict String V)
  existing none = some []
  existing (some (holds entries)) = some entries
  existing (some not_json) = some []
  existing (some unreadable) = some []
  existing (some not_text) = none

  abbrev pub encoded_entry : String → Option V → Option (Dict String V) → Option (Dict String V)
  encoded_entry k none rest = none
  encoded_entry k (some v) none = none
  encoded_entry k (some v) (some rest) = some ((k, v) ∷ rest)

  -- `json.dump` into the file, which was emptied when it was opened.
  abbrev pub dump :
      String
      → Option (Dict String V)
      → Disk V
      → ConfigManager V
      → Disk V × ConfigManager V × Outcome
  dump path none disk m = (put path not_json disk, m, not_encodable)
  dump path (some written) disk m =
      (put path (holds written) disk, record m { dirty = [] }, returned)

-- `encode` is what `json.load` gives back of a value that `json.dump` wrote; none where it raises.
module _ {V : Type 0} (encode : V → Option V) where
  unfoldable pub encode_all : Dict String V → Option (Dict String V)
  encode_all [] = some []
  encode_all ((k, v) ∷ entries) = encoded_entry k (encode v) (encode_all entries)

  module _ (medium : String → Medium V) where
    abbrev pub write_merged :
        Medium V
        → String
        → Dict String V
        → Disk V
        → ConfigManager V
        → Disk V × ConfigManager V × Outcome
    write_merged writes path merged disk m = dump path (encode_all merged) disk m
    write_merged cannot_open path merged disk m = (disk, m, os_error)
    write_merged (breaks_off left) path merged disk m = (put path left disk, m, os_error)

    abbrev pub write_over :
        String
        → Option (Dict String V)
        → Dict String V
        → Disk V
        → ConfigManager V
        → Disk V × ConfigManager V × Outcome
    write_over path none changes disk m = (disk, m, undecodable)
    write_over path (some old) changes disk m =
        write_merged (medium path) path (update old changes) disk m

    -- What `save` writes over the file's content.
    unfoldable pub write_dirty :
        String → Dict String V → Disk V → ConfigManager V → Disk V × ConfigManager V × Outcome
    write_dirty path [] disk m = (disk, m, returned)
    write_dirty path (change ∷ changes) disk m =
        write_over path (existing (get path disk)) (change ∷ changes) disk m

    unfoldable pub save_to :
        Option String → Disk V → ConfigManager V → Disk V × ConfigManager V × Outcome
    unfolding write_dirty
    save_to none disk m = (disk, m, no_writable_source)
    save_to (some path) disk m = write_dirty path m.dirty disk m

    unfoldable pub save : Disk V → ConfigManager V → Disk V × ConfigManager V × Outcome
    unfolding save_to
    save disk m = save_to m.writable_path disk m
