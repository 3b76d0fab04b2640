-- ===== src/Workbench/ActionText.antt =====
-- workbench/action_text.py. A text is the list of its code points; Unicode's tables are
-- parameters.
pub mod Plain
pub mod Problems
use sagittarius_engine.Prelude.{
  ℕ, ◌+◌, nat_eq, Bool, true, false, not, ◌&&◌, ◌||◌, List, [], ◌∷◌, ◌++◌, length, ◌==◌,
  if◌then◌else◌, reverse,
}

abbrev pub Text : Type 0
Text = List ℕ

-- `str.lower` of a character, which may give several, `str.isalnum`, and what `str.strip` removes.
pub record Unicode : Type 0 where
  pub lower : ℕ → Text
  pub is_alnum : Text → Bool
  pub is_space : ℕ → Bool

abbrev pub marker : ℕ
marker = 38

abbrev pub ellipsis : ℕ
ellipsis = 8230

abbrev pub dot : ℕ
dot = 46

-- The loop over `index`, as a recursion on the rest of the text.
unfoldable pub access_keys : Unicode → Text → List Text
access_keys u [] = []
access_keys u (c ∷ []) = []
access_keys u (c ∷ d ∷ cs) =
    let next = access_keys u (d ∷ cs) in
    let after = access_keys u cs in
    if not (c == marker) then next else (if not (d == marker) then u.lower d ∷ after else after)

-- `text.replace("&&", sentinel)`
unfoldable pub replace_pairs : ℕ → Text → Text
replace_pairs sentinel [] = []
replace_pairs sentinel (c ∷ []) = c ∷ []
replace_pairs sentinel (c ∷ d ∷ cs) =
    let next = replace_pairs sentinel (d ∷ cs) in
    let after = replace_pairs sentinel cs in
    if c == marker && d == marker then sentinel ∷ after else c ∷ next

-- `text.replace("&", "")`
unfoldable pub drop_markers : Text → Text
drop_markers [] = []
drop_markers (c ∷ cs) = if c == marker then drop_markers cs else c ∷ drop_markers cs

-- `text.replace(sentinel, "&")`
unfoldable pub restore : ℕ → Text → Text
restore sentinel [] = []
restore sentinel (c ∷ cs) = (if c == sentinel then marker else c) ∷ restore sentinel cs

unfoldable pub plain_text : Text → Text
plain_text text = restore 0 (drop_markers (replace_pairs 0 text))

-- `"..." in text`
unfoldable pub has_three_dots : Text → Bool
has_three_dots [] = false
has_three_dots (c ∷ []) = false
has_three_dots (c ∷ d ∷ []) = false
has_three_dots (c ∷ d ∷ e ∷ cs) = (c == dot && d == dot && e == dot) || has_three_dots (d ∷ e ∷ cs)

-- `text.endswith("…")`
unfoldable pub ends_with_ellipsis : Text → Bool
ends_with_ellipsis [] = false
ends_with_ellipsis (c ∷ []) = c == ellipsis
ends_with_ellipsis (c ∷ d ∷ cs) = ends_with_ellipsis (d ∷ cs)

pub data TextProblem : Type 0 where
  marks_access_keys : ℕ → TextProblem
  marks_symbol : Text → TextProblem
  uses_three_dots asks_without_ellipsis acts_with_ellipsis : TextProblem

unfoldable pub key_problems : Unicode → List Text → List TextProblem
key_problems u (key ∷ []) = if not (u.is_alnum key) then marks_symbol key ∷ [] else []
key_problems u keys = marks_access_keys (length keys) ∷ []

abbrev pub problem_if : Bool → TextProblem → List TextProblem
problem_if here p = if here then p ∷ [] else []

unfoldable pub text_problems : Unicode → Text → Bool → List TextProblem
text_problems u text needs_input =
    key_problems u (access_keys u text)
    ++ problem_if (has_three_dots text) uses_three_dots
    ++ problem_if (needs_input && not (ends_with_ellipsis text)) asks_without_ellipsis
    ++ problem_if (ends_with_ellipsis text && not needs_input) acts_with_ellipsis
