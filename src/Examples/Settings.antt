-- ===== src/Examples/Settings.antt =====
-- The configuration's theorems at concrete inputs.
use sagittarius_engine.Prelude.{
  ℕ, nat_eq, string_eq, ◌≡◌, refl, true, none, some, [], ◌∷◌, get, put, Option, String,
  if◌then◌else◌, ◌==◌,
}
use sagittarius_engine.Config.{
  Disk, ConfigSource, ConfigManager, new, load_json, add_source, lookup, set, save, read_json,
  holds, not_json, Medium, writes, no_writable_source, not_encodable, save_to, write_dirty,
  encode_all, update,
}
use sagittarius_engine.Config.Layers.{add_source_undoes_set}
use sagittarius_engine.Config.Winner.{winner}
use sagittarius_engine.Config.Encoding.{IsStable}
use sagittarius_engine.Config.Saving.{Saves, save_lem}

abbrev disk : Disk ℕ
disk = ("user.json", holds (("port", 80) ∷ ("size", 3) ∷ [])) ∷ ("broken.json", not_json) ∷ []

abbrev defaults : ConfigSource ℕ
defaults = record { label = "defaults"; read = λ d. some (("port", 8000) ∷ ("debug", 0) ∷ []) }

abbrev unreadable : ConfigSource ℕ
unreadable = record { label = "vault"; read = λ d. none }

abbrev config : ConfigManager ℕ
config = load_json "user.json" true (add_source unreadable (add_source defaults (new ℕ)))

user_port_wins : winner "port" disk config.sources ≡ some ("json:user.json", 80)
unfolding read_json get
user_port_wins = refl

add_source_undoes_set_example :
    (lookup disk "port" none (add_source unreadable (set disk "port" 81 config))).0
    ≡ (lookup disk "port" none (add_source unreadable config)).0
unfolding read_json get
add_source_undoes_set_example =
    add_source_undoes_set disk config unreadable "port" "port" 81 none
      ((refl, (refl, tt)), (tt, ((refl, (refl, tt)), (tt, tt))))

abbrev edited : ConfigManager ℕ
edited = record config { dirty = ("port", 81) ∷ ("depth", 2) ∷ [] }

-- JSON gives every number back but 13.
abbrev encode : ℕ → Option ℕ
encode v = if v == 13 then none else some v

abbrev works : String → Medium ℕ
works path = writes

save_lem_example :
    (edited.writable_path ≡ none
      → save encode works disk edited ≡ (disk, edited, no_writable_source))
    × ((path : String)
        → edited.writable_path ≡ some path
        → IsStable encode (get path disk)
        → Saves encode works disk edited path (save encode works disk edited))
save_lem_example = save_lem encode works disk edited (refl, (refl, tt))

-- The file is emptied before the value is encoded.
lost_file : save encode works disk (record config { dirty = ("port", 13) ∷ [] }) ≡ (
  ("user.json", not_json) ∷ ("broken.json", not_json) ∷ [],
  record config { dirty = ("port", 13) ∷ [] },
  not_encodable,
)
unfolding save save_to write_dirty encode_all update get put
lost_file = refl
