-- ===== src/Workbench/ActionDescriptor.antt =====
-- workbench/action_descriptor.py and shortcut_policy.py. What Qt says of keys is a parameter:
-- the bindings of its standard keys, and the spelling and number of keystrokes of a typed shortcut.
use sagittarius_engine.Prelude.{
  ℕ, String, string_eq, nat_eq, Bool, false, not, Option, none, some, List, [], ◌∷◌, ◌++◌, ◌==◌,
  elem, reverse, list_eq, if◌then◌else◌,
}
use sagittarius_engine.Workbench.ActionText.{Text, Unicode, plain_text, TextProblem, text_problems}

pub record Qt : Type 0 where
  pub standard_keys : List ℕ
  pub key_bindings : ℕ → List String
  pub portable : String → String
  pub keystrokes : String → ℕ

pub data Shortcut : Type 0 where
  standard : ℕ → Shortcut
  typed : String → Shortcut

pub data ShortcutProblem : Type 0 where
  many_keystrokes : ℕ → ShortcutProblem
  not_free : String → ShortcutProblem

abbrev pub free_keys : List String
free_keys =
    "Ctrl+J" ∷ "Ctrl+L" ∷ "Ctrl+0" ∷ "Ctrl+1" ∷ "Ctrl+2" ∷ "Ctrl+3" ∷ "Ctrl+4" ∷ "Ctrl+5" ∷ "Ctrl+6"
    ∷ "Ctrl+7" ∷ "Ctrl+8" ∷ "Ctrl+9" ∷ "F7" ∷ "F8" ∷ "F9" ∷ "F12" ∷ []

unfoldable pub shortcut_problem : Qt → Option Shortcut → Option ShortcutProblem
shortcut_problem qt none = none
shortcut_problem qt (some (standard key)) = none
shortcut_problem qt (some (typed keys)) =
    if not (qt.keystrokes keys == 1)
    then some (many_keystrokes (qt.keystrokes keys))
    else (if elem (qt.portable keys) free_keys then none else some (not_free keys))

pub record ActionConfirmation : Type 0 where
  pub title : Text
  pub consequence : Text
  pub accept_text : Text
  pub reject_text : Text

abbrev pub drop_spaces : Unicode → Text → Text
drop_spaces u [] = []
drop_spaces u (c ∷ cs) = let rest = drop_spaces u cs in if u.is_space c then rest else c ∷ cs

abbrev pub strip : Unicode → Text → Text
strip u text = reverse (drop_spaces u (reverse (drop_spaces u text)))

abbrev pub lowered : Unicode → Text → Text
lowered u [] = []
lowered u (c ∷ cs) = u.lower c ++ lowered u cs

-- "ok", "yes", "no"
abbrev pub vague_answers : List Text
vague_answers = (111 ∷ 107 ∷ []) ∷ (121 ∷ 101 ∷ 115 ∷ []) ∷ (110 ∷ 111 ∷ []) ∷ []

abbrev pub is_vague : Unicode → Text → Bool
is_vague u answer = elem (lowered u (strip u (plain_text answer))) vague_answers

pub data ConfirmationProblem : Type 0 where
  vague_answer : Text → ConfirmationProblem
  no_consequence : ConfirmationProblem

-- `ActionConfirmation.__post_init__`
unfoldable pub confirmation_problem : Unicode → ActionConfirmation → Option ConfirmationProblem
confirmation_problem u c =
    if is_vague u c.accept_text
    then some (vague_answer c.accept_text)
    else (if is_vague u c.reject_text
        then some (vague_answer c.reject_text)
        else (if strip u c.consequence == [] then some no_consequence else none))

pub record ActionDescriptor : Type 0 where
  pub action_id : String
  pub text : Text
  pub menu_path : List Text
  pub toolbar : Option String
  pub shortcut : Option Shortcut
  pub checkable : Bool
  pub needs_input : Bool
  pub confirm : Option ActionConfirmation
  pub surface_id : Option String
  pub group : Option String

pub data Problem : Type 0 where
  of_text : TextProblem → Problem
  in_no_menu : Problem
  of_shortcut : ShortcutProblem → Problem

abbrev pub text_issues : List TextProblem → List Problem
text_issues [] = []
text_issues (p ∷ ps) = of_text p ∷ text_issues ps

abbrev pub menu_issues : Unicode → List Text → List Problem
menu_issues u [] = []
menu_issues u (title ∷ titles) = text_issues (text_problems u title false) ++ menu_issues u titles

abbrev pub shortcut_issues : Option ShortcutProblem → List Problem
shortcut_issues none = []
shortcut_issues (some p) = of_shortcut p ∷ []

-- `ActionDescriptor.__post_init__`, which raises unless there is none.
unfoldable pub problems : Qt → Unicode → ActionDescriptor → List Problem
problems qt u d =
    text_issues (text_problems u d.text d.needs_input)
    ++ (if d.menu_path == [] then in_no_menu ∷ [] else [])
    ++ menu_issues u d.menu_path
    ++ shortcut_issues (shortcut_problem qt d.shortcut)
