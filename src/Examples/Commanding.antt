-- ===== src/Examples/Commanding.antt =====
-- The theorems about the commands of the workbench, at concrete inputs.
use sagittarius_engine.Prelude.{
  ◌+◌, ◌≤◌, ◌≡◌, ◌≢◌, refl, ◌↔◌, String, string_eq, nat_eq, Bool, true, false, Option, none, some,
  List, [], ◌∷◌, ◌==◌, length, keep, All, Dict, get, keys,
}
use sagittarius_engine.Workbench.ActionText.{Text, Unicode, plain_text}
use sagittarius_engine.Workbench.ActionText.Plain.{reading, plain_text_lem}
use sagittarius_engine.Workbench.ActionDescriptor.{
  Qt, Shortcut, standard, typed, ActionConfirmation, ActionDescriptor,
}
use sagittarius_engine.Workbench.ActionRegistry.{
  Entry, refuse_conflicts, bound_keys, contribute_all, build,
}
use sagittarius_engine.Workbench.ActionRegistry.Conflicts.{
  IsAdmissible, refuse_conflicts-IsAdmissible,
}
use sagittarius_engine.Workbench.ActionRegistry.Harmony.{answers, one_command_per_key}
use sagittarius_engine.Workbench.ActionRegistry.Menus.{menu_groups}
use sagittarius_engine.Workbench.ActionRegistry.Menus.Grouping.{
  actions_of, in_group, menu_groups_lem,
}
use sagittarius_engine.Workbench.ActionRegistry.Triggers.{
  Call, toggled, toggled-IsClick, run, run_lem, Answers,
}

-- "Save &&&As"
abbrev save_as : Text
save_as = 83 ∷ 97 ∷ 118 ∷ 101 ∷ 32 ∷ 38 ∷ 38 ∷ 38 ∷ 65 ∷ 115 ∷ []

plain_text_lem_example : plain_text save_as ≡ reading save_as
plain_text_lem_example = plain_text_lem save_as refl

abbrev ascii : Unicode
ascii = record { lower = λ c. (c + 32) ∷ []; is_alnum = λ key. true; is_space = λ c. c == 32 }

-- The key 1 is Copy.
abbrev desktop : Qt
desktop = record {
  standard_keys = 1 ∷ [];
  key_bindings = λ key. "Ctrl+C" ∷ [];
  portable = λ keys. keys;
  keystrokes = λ keys. 1;
}

-- "&Trade"
abbrev trade_menu : List Text
trade_menu = (38 ∷ 84 ∷ 114 ∷ 97 ∷ 100 ∷ 101 ∷ []) ∷ []

abbrev question : ActionConfirmation
question = record {
  title = 83 ∷ [];
  consequence = 83 ∷ [];
  accept_text = 83 ∷ [];
  reject_text = 67 ∷ [];
}

abbrev command : String → Text → Option Shortcut → Option String → ActionDescriptor
command action_id text shortcut surface_id = record {
  action_id = action_id;
  text = text;
  menu_path = trade_menu;
  toolbar = none;
  shortcut = shortcut;
  checkable = true;
  needs_input = false;
  confirm = some question;
  surface_id = surface_id;
  group = some "orders";
}

-- "&Order", "&Stop", "&Copy"
abbrev order : ActionDescriptor
order = command "order" (38 ∷ 79 ∷ []) (some (typed "F7")) (some "live")

abbrev stop : ActionDescriptor
stop = command "stop" (38 ∷ 83 ∷ []) (some (typed "F7")) (some "live")

abbrev copy : ActionDescriptor
copy = command "copy" (38 ∷ 67 ∷ []) (some (standard 1)) none

abbrev stop_too : ActionDescriptor
stop_too = command "stop_too" (38 ∷ 83 ∷ []) (some (typed "F7")) (some "paper")

abbrev commands : List ActionDescriptor
commands = order ∷ stop ∷ copy ∷ stop_too ∷ []

one_command_per_key_example :
    length (keep (answers "live" "F7") (contribute_all desktop ascii commands [])) ≤ 1
one_command_per_key_example = one_command_per_key desktop ascii commands "live" "F7"

refuse_conflicts-IsAdmissible_example :
    let keys_of = bound_keys desktop copy.shortcut in
    let entries = contribute_all desktop ascii (order ∷ []) [] in
    (refuse_conflicts desktop ascii copy keys_of entries ≡ none)
    ↔ IsAdmissible desktop ascii copy keys_of entries
refuse_conflicts-IsAdmissible_example =
    refuse_conflicts-IsAdmissible desktop ascii copy (bound_keys desktop copy.shortcut)
      (contribute_all desktop ascii (order ∷ []) [])

menu_groups_lem_example :
    let entries = contribute_all desktop ascii commands [] in
    (actions_of (some "orders") (menu_groups trade_menu (some "live") entries)
      ≡ keys (keep (in_group trade_menu (some "live") (some "orders")) entries))
    × All (λ g. g.1 ≢ []) (menu_groups trade_menu (some "live") entries)
menu_groups_lem_example =
    menu_groups_lem trade_menu (some "live") (some "orders")
      (contribute_all desktop ascii commands [])

abbrev no_one : ActionConfirmation → Bool
no_one c = false

abbrev order_entry : Entry
order_entry = record (build order ("F7" ∷ [])) { handler = some 5; enabled = true }

abbrev bound_entries : Dict String Entry
bound_entries = ("order", order_entry) ∷ []

run_lem_example :
    (get "order" bound_entries ≡ none → run no_one "order" bound_entries ≡ none)
    × ((e : Entry)
        → get "order" bound_entries ≡ some (toggled e)
        → (out : Entry × Call) × (after : Dict String Entry) × (run no_one "order" bound_entries
            ≡ some (after, out.1))
          × (get "order" after ≡ some out.0)
          × ((j : String) → ("order" == j) ≡ false → get j after ≡ get j bound_entries)
          × Answers toggled toggled-IsClick no_one e out)
run_lem_example = run_lem toggled toggled-IsClick no_one "order" bound_entries
