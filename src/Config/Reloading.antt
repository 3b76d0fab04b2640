-- ===== src/Config/Reloading.antt =====
-- What a new manager of infrastructure/config/config_manager.py reads from one file.
use sagittarius_engine.Prelude.{
  false, ◌≡◌, refl, sym, ap, ◌∙◌, subst, Option, none, some, [], ◌∷◌, String, string_eq, Dict, get,
  put, keys, Distinct, put-Distinct, All, All-put, if◌then◌else◌, get-put, ==_refl,
}
use sagittarius_engine.Config.{
  Content, Disk, new, read_json, load_json, update, lookup, defaulted, decoded,
}
use sagittarius_engine.Config.Layers.{load_lem}
use sagittarius_engine.Config.Winner.{IsDict, supplied, tagged, value_of}

pub update-Distinct :
    {W : Type 0} (target entries : Dict String W)
    → Distinct (keys target)
    → Distinct (keys (update target entries))
unfolding update
update-Distinct target [] d = d
update-Distinct target ((k, v) ∷ entries) d =
    update-Distinct (put k v target) entries (put-Distinct k v target d)

pub update-All :
    {W : Type 0} (P : String × W → Type 0) (target entries : Dict String W)
    → All P target
    → All P entries
    → All P (update target entries)
unfolding update
update-All P target [] t e = t
update-All P target ((k, v) ∷ entries) t e =
    update-All P (put k v target) entries (All-put P k v target t e.0) e.1

module _ {V : Type 0} where
  -- What a new manager on the file alone answers for a key.
  abbrev pub reloaded : Disk V → String → String → Option V
  reloaded disk path key = (lookup disk key none (load_json path false (new V))).0

  unpacked : (label : String) (o : Option V) → defaulted none (value_of (tagged label o)) ≡ o
  unpacked label none = refl
  unpacked label (some v) = refl

  abbrev pub value_in : Option (Dict String V) → String → Option V
  value_in none key = none
  value_in (some entries) key = get key entries

  read_value :
      (label key : String) (r : Option (Dict String V))
      → defaulted none (value_of (supplied key label r)) ≡ value_in r key
  read_value label key none = refl
  read_value label key (some entries) = unpacked label (get key entries)

  pub reload :
      (disk : Disk V) (path key : String)
      → IsDict (read_json path disk)
      → reloaded disk path key ≡ value_in (read_json path disk) key
  unfolding lookup
  reload disk path key d =
      ap (defaulted none) (load_lem disk (load_json path false (new V)) key refl (d, tt)).0
      ∙ read_value _ key (read_json path disk)

  read_back :
      (path : String) (c : Content V) (disk : Disk V)
      → read_json path (put path c disk) ≡ decoded (some c)
  unfolding read_json
  read_back path c disk =
      ap decoded
        (get-put path path c disk ∙ ap (λ b. if b then some c else get path disk) (==_refl path))

  -- A new manager after the file was written.
  pub reload_put :
      (disk : Disk V) (path key : String) (c : Content V)
      → IsDict (decoded (some c))
      → reloaded (put path c disk) path key ≡ value_in (decoded (some c)) key
  reload_put disk path key c d =
      reload (put path c disk) path key (subst IsDict (sym (read_back path c disk)) d)
      ∙ ap (λ r. value_in r key) (read_back path c disk)
