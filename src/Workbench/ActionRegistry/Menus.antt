-- ===== src/Workbench/ActionRegistry/Menus.antt =====
-- How an `ActionRegistry` answers for menus and toolbars: an action is given by its id.
pub mod Grouping
use sagittarius_engine.Prelude.{
  String, string_eq, nat_eq, Bool, true, false, ◌&&◌, Option, none, some, List, [], ◌∷◌, ◌++◌, ◌==◌,
  elem, keep, map, list_eq, if◌then◌else◌, Dict, keys,
}
use sagittarius_engine.Workbench.ActionText.{Text}
use sagittarius_engine.Workbench.ActionRegistry.{Entry, scopes_meet}

-- `group` with `None` as a name of its own.
abbrev pub same_group : Option String → Option String → Bool
same_group none none = true
same_group (some a) (some b) = a == b
same_group _ _ = false

abbrev pub Groups : Type 0
Groups = List (Option String × List String)

-- `groups.setdefault(name, []).append(action)`
unfoldable pub add_to_group : Option String → String → Groups → Groups
add_to_group name action [] = (name, action ∷ []) ∷ []
add_to_group name action ((other, actions) ∷ rest) =
    let later = add_to_group name action rest in
    if same_group other name
    then (other, actions ++ action ∷ []) ∷ rest
    else (other, actions) ∷ later

abbrev pub in_menu : List Text → Option String → String × Entry → Bool
in_menu path surface e =
    e.1.descriptor.menu_path == path && scopes_meet e.1.descriptor.surface_id surface

unfoldable pub group_all : List Text → Option String → Dict String Entry → Groups → Groups
group_all path surface [] groups = groups
group_all path surface (e ∷ rest) groups =
    group_all path surface rest
      (if in_menu path surface e then add_to_group e.1.descriptor.group e.0 groups else groups)

unfoldable pub menu_groups : List Text → Option String → Dict String Entry → Groups
menu_groups path surface entries = group_all path surface entries []

unfoldable pub menu_action_groups :
    List Text → Option String → Dict String Entry → List (List String)
menu_action_groups path surface entries = map (λ g. g.1) (menu_groups path surface entries)

abbrev pub concat : List (List String) → List String
concat [] = []
concat (xs ∷ xss) = xs ++ concat xss

unfoldable pub menu_actions : List Text → Option String → Dict String Entry → List String
menu_actions path surface entries = concat (menu_action_groups path surface entries)

-- `tuple(dict.fromkeys(...))`
abbrev pub from_keys : List (List Text) → List (List Text) → List (List Text)
from_keys seen [] = seen
from_keys seen (path ∷ rest) = from_keys (if elem path seen then seen else seen ++ path ∷ []) rest

unfoldable pub menu_paths : Dict String Entry → List (List Text)
menu_paths entries = from_keys [] (map (λ e. e.1.descriptor.menu_path) entries)

abbrev pub in_toolbar : String → Option String → Bool
in_toolbar toolbar none = false
in_toolbar toolbar (some t) = t == toolbar

unfoldable pub toolbar_actions : String → String → Dict String Entry → List String
toolbar_actions surface toolbar entries = keys (
    keep
      (λ e.
        in_toolbar toolbar e.1.descriptor.toolbar
        && scopes_meet e.1.descriptor.surface_id (some surface))
      entries)

unfoldable pub scoped_actions : Dict String Entry → List (Option String × String)
scoped_actions entries = map (λ e. (e.1.descriptor.surface_id, e.0)) entries
