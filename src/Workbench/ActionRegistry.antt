-- ===== src/Workbench/ActionRegistry.antt =====
-- workbench/action_registry.py. A `QAction` is its enabled and checked state; handlers are numbers.
-- Icons, tooltips, the signals that enable or check an action, and log lines are left out.
pub mod Conflicts
pub mod Harmony
pub mod Menus
pub mod Triggers
use sagittarius_engine.Prelude.{
  ℕ, ◌+◌, String, string_eq, nat_eq, Bool, true, false, not, ◌&&◌, ◌||◌, Option, none, some, List,
  [], ◌∷◌, ◌++◌, ◌==◌, elem, keep, map, list_eq, if◌then◌else◌, Dict, get, put, keys,
}
use sagittarius_engine.Workbench.ActionText.{Text, Unicode, access_keys, plain_text}
use sagittarius_engine.Workbench.ActionDescriptor.{
  Qt, Shortcut, standard, typed, ActionConfirmation, ActionDescriptor,
}

pub record Entry : Type 0 where
  pub descriptor : ActionDescriptor
  pub keys : List String
  pub enabled : Bool
  pub checked : Bool
  pub handler : Option ℕ

-- A text under the menu that holds it, or under the menu bar.
pub record Label : Type 0 where
  pub parent : List Text
  pub text : Text
  pub is_menu : Bool

unfoldable pub labels_from : List Text → List Text → Text → List Label
labels_from parent [] text = record { parent = parent; text = text; is_menu = false } ∷ []
labels_from parent (title ∷ path) text =
    record { parent = parent; text = title; is_menu = true }
    ∷ labels_from (parent ++ title ∷ []) path text

abbrev pub labels : ActionDescriptor → List Label
labels d = labels_from [] d.menu_path d.text

pub data Refusal : Type 0 where
  already_contributed : String → Refusal
  reserved_key : String → ℕ → Refusal
  both_bind : String → String → Refusal
  spelled_twice : Text → Text → Refusal
  share_access_key : Text → Text → Refusal

abbrev pub same_menu : Label → Label → Bool
same_menu mine theirs =
    mine.is_menu && theirs.is_menu && plain_text mine.text == plain_text theirs.text

unfoldable pub refuse_label_clash : Unicode → Bool → Label → Label → Option Refusal
refuse_label_clash u scopes_meet mine theirs =
    if same_menu mine theirs
    then (if mine.text == theirs.text then none else some (spelled_twice mine.text theirs.text))
    else (if scopes_meet && access_keys u mine.text == access_keys u theirs.text
        then some (share_access_key mine.text theirs.text)
        else none)

abbrev pub scopes_meet : Option String → Option String → Bool
scopes_meet none second = true
scopes_meet (some a) none = true
scopes_meet (some a) (some b) = a == b

abbrev pub bound_keys : Qt → Option Shortcut → List String
bound_keys qt none = []
bound_keys qt (some (standard key)) = qt.key_bindings key
bound_keys qt (some (typed keys)) = qt.portable keys ∷ []

abbrev pub set_default : ℕ → List String → Dict String ℕ → Dict String ℕ
set_default meaning [] d = d
set_default meaning (key ∷ rest) d =
    set_default meaning rest (if elem key (keys d) then d else put key meaning d)

abbrev pub meanings : Qt → List ℕ → Dict String ℕ → Dict String ℕ
meanings qt [] d = d
meanings qt (key ∷ rest) d = meanings qt rest (set_default key (qt.key_bindings key) d)

unfoldable pub standard_bindings : Qt → Dict String ℕ
standard_bindings qt = meanings qt qt.standard_keys []

-- The first exception of a loop is the one that is raised.
abbrev pub first : Option Refusal → Option Refusal → Option Refusal
first none next = next
first (some e) next = some e

abbrev pub refuse_reserved : Dict String ℕ → List String → Option Refusal
refuse_reserved reserved [] = none
refuse_reserved reserved (key ∷ rest) =
    first (refuse_meaning key (get key reserved)) (refuse_reserved reserved rest)
  where
    refuse_meaning : String → Option ℕ → Option Refusal
    refuse_meaning key none = none
    refuse_meaning key (some meaning) = some (reserved_key key meaning)

abbrev pub is_typed : Option Shortcut → Bool
is_typed (some (typed keys)) = true
is_typed _ = false

-- `keys & other.keys` is not empty.
abbrev pub share_a_key : List String → List String → Bool
share_a_key [] theirs = false
share_a_key (key ∷ mine) theirs = elem key theirs || share_a_key mine theirs

abbrev pub refuse_label : Unicode → Bool → Label → List Label → Option Refusal
refuse_label u meet mine [] = none
refuse_label u meet mine (theirs ∷ rest) =
    first (if mine.parent == theirs.parent then refuse_label_clash u meet mine theirs else none)
      (refuse_label u meet mine rest)

abbrev pub refuse_labels : Unicode → Bool → List Label → List Label → Option Refusal
refuse_labels u meet [] theirs = none
refuse_labels u meet (mine ∷ rest) theirs =
    first (refuse_label u meet mine theirs) (refuse_labels u meet rest theirs)

unfoldable pub refuse_against : Unicode → ActionDescriptor → List String → Entry → Option Refusal
refuse_against u d keys other =
    let meet = scopes_meet other.descriptor.surface_id d.surface_id in
    if meet && share_a_key keys other.keys
    then some (both_bind d.action_id other.descriptor.action_id)
    else refuse_labels u meet (labels d) (labels other.descriptor)

abbrev pub refuse_each :
    Unicode → ActionDescriptor → List String → Dict String Entry → Option Refusal
refuse_each u d keys [] = none
refuse_each u d keys ((i, other) ∷ rest) =
    first (refuse_against u d keys other) (refuse_each u d keys rest)

unfoldable pub refuse_conflicts :
    Qt → Unicode → ActionDescriptor → List String → Dict String Entry → Option Refusal
refuse_conflicts qt u d keys_of entries =
    if elem d.action_id (keys entries)
    then some (already_contributed d.action_id)
    else first
        (if is_typed d.shortcut then refuse_reserved (standard_bindings qt) keys_of else none)
        (refuse_each u d keys_of entries)

abbrev pub build : ActionDescriptor → List String → Entry
build d keys = record {
  descriptor = d;
  keys = keys;
  enabled = false;
  checked = false;
  handler = none;
}

pub data Contribution : Type 0 where
  contributed : Dict String Entry → Contribution
  refuses : Refusal → Contribution

abbrev pub accept_unless :
    Option Refusal → ActionDescriptor → List String → Dict String Entry → Contribution
accept_unless (some e) d keys entries = refuses e
accept_unless none d keys entries = contributed (put d.action_id (build d keys) entries)

-- The state is `_entries`.
unfoldable pub contribute : Qt → Unicode → ActionDescriptor → Dict String Entry → Contribution
contribute qt u d entries =
    let keys = bound_keys qt d.shortcut in
    accept_unless (refuse_conflicts qt u d keys entries) d keys entries

-- A refused contribution leaves the entries.
abbrev pub entries_after : Contribution → Dict String Entry → Dict String Entry
entries_after (contributed entries) before = entries
entries_after (refuses e) before = before

unfoldable pub contribute_all :
    Qt → Unicode → List ActionDescriptor → Dict String Entry → Dict String Entry
contribute_all qt u [] entries = entries
contribute_all qt u (d ∷ ds) entries =
    contribute_all qt u ds (entries_after (contribute qt u d entries) entries)

pub data Binding : Type 0 where
  bound : Dict String Entry → Binding
  no_action already_bound : Binding

abbrev pub bind_entry : Option ℕ → String → ℕ → Bool → Entry → Dict String Entry → Binding
bind_entry (some h) i handler enabled e entries = already_bound
bind_entry none i handler enabled e entries =
    bound (put i (record e { handler = some handler; enabled = enabled }) entries)

abbrev pub bind_found : Option Entry → String → ℕ → Bool → Dict String Entry → Binding
bind_found none i handler enabled entries = no_action
bind_found (some e) i handler enabled entries = bind_entry e.handler i handler enabled e entries

unfoldable pub bind : String → ℕ → Bool → Dict String Entry → Binding
bind i handler initially_enabled entries =
    bind_found (get i entries) i handler initially_enabled entries

abbrev pub is_none : Option ℕ → Bool
is_none none = true
is_none (some h) = false

unfoldable pub unbound : Dict String Entry → List String
unbound entries = keys (keep (λ e. is_none e.1.handler) entries)
