-- ===== src/Workbench/ActionText/Problems.antt =====
-- When `text_problems` finds nothing.
use sagittarius_engine.Prelude.{
  ◌≡◌, refl, ◌↔◌, Bool, true, false, not, ◌&&◌, List, [], ◌∷◌, ◌++◌, arith,
}
use sagittarius_engine.Workbench.ActionText.{
  Text, Unicode, access_keys, has_three_dots, ends_with_ellipsis, TextProblem, uses_three_dots,
  asks_without_ellipsis, acts_with_ellipsis, key_problems, problem_if, text_problems,
}

-- One access key, a letter or a digit; no three dots; an ellipsis exactly if it asks for more.
pub record IsProper (u : Unicode) (text : Text) (needs_input : Bool) : Type 0 where
  pub key : Text
  pub one_key : access_keys u text ≡ key ∷ []
  pub alnum : u.is_alnum key ≡ true
  pub no_dots : has_three_dots text ≡ false
  pub promised : ends_with_ellipsis text ≡ needs_input

append_empty : (xs ys : List TextProblem) → xs ++ ys ≡ [] → (xs ≡ []) × (ys ≡ [])
append_empty [] ys h = (refl, h)
append_empty (x ∷ xs) ys h = absurd (cc)

if_empty : (b : Bool) (p : TextProblem) → problem_if b p ≡ [] → b ≡ false
if_empty true p h = absurd (cc)
if_empty false p h = refl

keys_proper :
    (u : Unicode) (keys : List Text)
    → key_problems u keys ≡ []
    → (key : Text) × (keys ≡ key ∷ []) × (u.is_alnum key ≡ true)
unfolding key_problems
keys_proper u [] h = absurd (cc)
keys_proper u (key ∷ []) h = (key, refl, ground (arith, h))
keys_proper u (key ∷ next ∷ keys) h = absurd (cc)

key_clear :
    (u : Unicode) (key : Text)
    → u.is_alnum key ≡ true
    → key_problems u (key ∷ []) ++ [] ++ [] ++ [] ≡ []
unfolding key_problems
key_clear u key h = rw h refl

agree :
    (ends needs : Bool) → (needs && not ends) ≡ false → (ends && not needs) ≡ false → ends ≡ needs
agree true true a b = refl
agree false false a b = refl
agree true false a b = absurd (cc)
agree false true a b = absurd (cc)

-- `text_problems` finds nothing exactly if the text marks one access key, which is a letter or a
-- digit, has no three dots, and ends with an ellipsis if and only if the command needs input.
pub text_problems-IsProper :
    (u : Unicode) (text : Text) (needs_input : Bool)
    → (text_problems u text needs_input ≡ []) ↔ IsProper u text needs_input
unfolding text_problems
text_problems-IsProper u text needs_input = (found_nothing, nothing_found)
  where
    found_nothing : text_problems u text needs_input ≡ [] → IsProper u text needs_input
    found_nothing h =
        let ends = ends_with_ellipsis text in
        let acts = problem_if (ends && not needs_input) acts_with_ellipsis in
        let asks = problem_if (needs_input && not ends) asks_without_ellipsis in
        let dots = problem_if (has_three_dots text) uses_three_dots in
        let keys = key_problems u (access_keys u text) in
        let acts_clear = append_empty (keys ++ dots ++ asks) acts h in
        let asks_clear = append_empty (keys ++ dots) asks acts_clear.0 in
        let dots_clear = append_empty keys dots asks_clear.0 in
        let proper = keys_proper u (access_keys u text) dots_clear.0 in
        record {
          key = proper.0;
          one_key = proper.1;
          alnum = proper.2;
          no_dots = if_empty (has_three_dots text) _ dots_clear.1;
          promised =
              agree (ends_with_ellipsis text) needs_input
                (if_empty (needs_input && not ends) _ asks_clear.1)
                (if_empty (ends && not needs_input) _ acts_clear.1);
        }

    clear : (b : Bool) → (b && not b) ≡ false
    clear true = refl
    clear false = refl

    nothing_found : IsProper u text needs_input → text_problems u text needs_input ≡ []
    nothing_found p =
        rw (p.one_key, p.no_dots, p.promised, clear needs_input) (key_clear u p.key p.alnum)
