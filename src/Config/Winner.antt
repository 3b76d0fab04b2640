-- ===== src/Config/Winner.antt =====
-- Which source of infrastructure/config/config_manager.py supplies a key.
use sagittarius_engine.Prelude.{
  Bool, true, false, ◌≡◌, refl, ap, Option, none, some, List, [], ◌∷◌, String, string_eq, Dict, get,
  put, keys, Distinct, if◌then◌else◌, get-put, get_absent, ==_iff, arith,
}
use sagittarius_engine.Config.{
  Disk, ConfigSource, ConfigManager, update, label_keys, load, load_unless, defaulted,
}

abbrev pub or_else {ℓ} : {A : Type ℓ} → Option A → Option A → Option A
or_else none b = b
or_else (some a) b = some a

pub get-update {ℓ} :
    {W : Type ℓ} (k : String) (target entries : Dict String W)
    → Distinct (keys entries)
    → get k (update target entries) ≡ or_else (get k entries) (get k target)
unfolding get update
get-update k target [] d = refl
get-update k target ((i, w) ∷ entries) d = ground (
  arith,
  get-update k (put i w target) entries d.1,
  get-put i k w target,
  get_absent i entries d.0,
  ==_iff i k,
)

abbrev pub labelled : {V : Type 0} → String → Option V → Option String
labelled label none = none
labelled label (some v) = some label

pub get-label_keys :
    {V : Type 0} (label k : String) (target : Dict String String) (entries : Dict String V)
    → get k (label_keys label target entries)
      ≡ or_else (labelled label (get k entries)) (get k target)
unfolding get label_keys
get-label_keys label k target [] = refl
get-label_keys label k target ((i, w) ∷ entries) = ground (
  arith,
  get-label_keys label k (put i label target) entries,
  get-put i k label target,
  ==_iff i k,
)

-- What one source supplies for a key: its label and the value.
abbrev pub tagged : {V : Type 0} → String → Option V → Option (String × V)
tagged label none = none
tagged label (some v) = some (label, v)

abbrev pub supplied : {V : Type 0} → String → String → Option (Dict String V) → Option (String × V)
supplied key label none = none
supplied key label (some entries) = tagged label (get key entries)

-- The last source that supplies the key.
abbrev pub winner : {V : Type 0} → String → Disk V → List (ConfigSource V) → Option (String × V)
winner key disk [] = none
winner key disk (source ∷ sources) =
    or_else (winner key disk sources) (supplied key source.label (source.read disk))

abbrev pub label_of : {V : Type 0} → Option (String × V) → Option String
label_of none = none
label_of (some p) = some p.0

abbrev pub value_of : {V : Type 0} → Option (String × V) → Option V
value_of none = none
value_of (some p) = some p.1

-- A Python dict has each key once.
abbrev pub IsDict : {V : Type 0} → Option (Dict String V) → Type 0
IsDict none = Unit
IsDict (some entries) = Distinct (keys entries)

pub or_else-value_of :
    {V : Type 0} (a : Option (String × V)) (label : String) (o rest : Option V)
    → or_else (value_of a) (or_else o rest) ≡ or_else (value_of (or_else a (tagged label o))) rest
or_else-value_of none label none rest = refl
or_else-value_of none label (some v) rest = refl
or_else-value_of (some a) label o rest = refl

pub or_else-label_of :
    {V : Type 0} (a : Option (String × V)) (label : String) (o : Option V) (rest : Option String)
    → or_else (label_of a) (or_else (labelled label o) rest)
      ≡ or_else (label_of (or_else a (tagged label o))) rest
or_else-label_of none label none rest = refl
or_else-label_of none label (some v) rest = refl
or_else-label_of (some a) label o rest = refl

pub or_else-none {ℓ} : {A : Type ℓ} (o : Option A) → or_else o none ≡ o
or_else-none none = refl
or_else-none (some a) = refl

pub load_loaded :
    {V : Type 0} (disk : Disk V) (m : ConfigManager V) → m.loaded ≡ true → load disk m ≡ m
unfolding load load_unless
load_loaded disk m already = ap (λ b. load_unless b disk m) already

pub defaulted_if :
    {V : Type 0} (b : Bool) (value : V) (default o : Option V)
    → defaulted default (if b then some value else o)
      ≡ (if b then some value else defaulted default o)
defaulted_if true value default o = refl
defaulted_if false value default o = refl
