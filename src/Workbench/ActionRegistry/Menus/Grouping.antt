-- ===== src/Workbench/ActionRegistry/Menus/Grouping.antt =====
-- `menu_groups` against the filter that each group stands for.
use sagittarius_engine.Prelude.{
  ◌≡◌, ◌≢◌, refl, sym, ◌∙◌, ap, String, string_eq, nat_eq, Bool, true, ◌&&◌, Option, none, some,
  List, [], ◌∷◌, ◌++◌, append-nil, append_assoc, ==_iff, All, keep, if◌then◌else◌, Bool-cases, inl,
  inr, Dict, keys, arith,
}
use sagittarius_engine.Workbench.ActionText.{Text}
use sagittarius_engine.Workbench.ActionRegistry.{Entry}
use sagittarius_engine.Workbench.ActionRegistry.Menus.{
  same_group, Groups, add_to_group, in_menu, group_all, menu_groups,
}

-- The actions of a group, none where there is no such group.
abbrev pub actions_of : Option String → Groups → List String
actions_of name [] = []
actions_of name ((other, actions) ∷ rest) =
    let later = actions_of name rest in if same_group other name then actions else later

same_group_iff : (a b : Option String) → same_group a b ≡ true → a ≡ b
same_group_iff none none h = refl
same_group_iff (some a) (some b) h = ap some ((==_iff a b).0 h)
same_group_iff none (some b) h = absurd (cc)
same_group_iff (some a) none h = absurd (cc)

same_group_refl : (a : Option String) → same_group a a ≡ true
same_group_refl none = refl
same_group_refl (some a) = (==_iff a a).1 refl

same_group_symmetric :
    (a b c : Option String) → same_group a c ≡ true → same_group b c ≡ true → same_group a b ≡ true
same_group_symmetric a b c h k = rw (same_group_iff a c h, same_group_iff b c k) (same_group_refl c)

actions_of-add :
    (asked name : Option String) (action : String) (groups : Groups)
    → actions_of asked (add_to_group name action groups)
      ≡ actions_of asked groups ++ (if same_group name asked then action ∷ [] else [])
unfolding add_to_group
actions_of-add asked name action [] = ground arith
actions_of-add asked name action ((other, actions) ∷ rest) =
    let later = actions_of-add asked name action rest in
    elim (Bool-cases (same_group other name)) [
      | inl here ↦
          let renamed = ap (λ o. same_group o asked) (same_group_iff other name here) in
          elim (Bool-cases (same_group other asked)) [
            | inl belongs ↦ rw (here, belongs, sym renamed ∙ belongs) refl
            | inr differs ↦
                rw (here, differs, sym renamed ∙ differs) (sym (append-nil (actions_of asked rest)))
          ]
      | inr there ↦ elim (Bool-cases (same_group other asked)) [
        | inl belongs ↦ elim (Bool-cases (same_group name asked)) [
          | inl both ↦ absurd (cc (there, same_group_symmetric other name asked belongs both))
          | inr differs ↦ rw (there, belongs, differs) (sym (append-nil actions))
        ]
        | inr differs ↦ rw (there, differs) later
      ]
    ]

abbrev pub in_group : List Text → Option String → Option String → String × Entry → Bool
in_group path surface name e = in_menu path surface e && same_group e.1.descriptor.group name

actions_of-group_all :
    (path : List Text) (surface name : Option String) (entries : Dict String Entry)
    (groups : Groups)
    → actions_of name (group_all path surface entries groups)
      ≡ actions_of name groups ++ keys (keep (in_group path surface name) entries)
unfolding group_all
actions_of-group_all path surface name [] groups = sym (append-nil (actions_of name groups))
actions_of-group_all path surface name (e ∷ rest) groups =
    let after = add_to_group e.1.descriptor.group e.0 groups in
    elim (Bool-cases (in_menu path surface e)) [
      | inr other ↦ rw other (actions_of-group_all path surface name rest groups)
      | inl there ↦
          let grown = actions_of-add name e.1.descriptor.group e.0 groups in
          let later = actions_of-group_all path surface name rest after in
          elim (Bool-cases (same_group e.1.descriptor.group name)) [
            | inl belongs ↦
                let kept = keys (keep (in_group path surface name) rest) in
                rw (there, belongs)
                  (later
                    ∙ ap (λ xs. xs ++ kept) (rw belongs at grown)
                    ∙ append_assoc (actions_of name groups) (e.0 ∷ []) kept)
            | inr differs ↦
                let kept = keys (keep (in_group path surface name) rest) in
                rw (there, differs)
                  (later
                    ∙ ap (λ xs. xs ++ kept)
                        (rw differs at grown ∙ append-nil (actions_of name groups)))
          ]
    ]

abbrev IsFilled : Groups → Type 0
IsFilled groups = All (λ g. g.1 ≢ []) groups

add_to_group-IsFilled :
    (name : Option String) (action : String) (groups : Groups)
    → IsFilled groups
    → IsFilled (add_to_group name action groups)
unfolding add_to_group
add_to_group-IsFilled name action [] h = (λ p. cc, tt)
add_to_group-IsFilled name action ((other, actions) ∷ rest) h =
    elim (Bool-cases (same_group other name)) [
      | inl here ↦ rw here (not_empty actions, h.1)
      | inr there ↦ rw there (h.0, add_to_group-IsFilled name action rest h.1)
    ]
  where
    not_empty : (actions : List String) → actions ++ action ∷ [] ≢ []
    not_empty [] p = cc
    not_empty (a ∷ rest) p = cc

group_all-IsFilled :
    (path : List Text) (surface : Option String) (entries : Dict String Entry) (groups : Groups)
    → IsFilled groups
    → IsFilled (group_all path surface entries groups)
unfolding group_all
group_all-IsFilled path surface [] groups h = h
group_all-IsFilled path surface (e ∷ rest) groups h = elim (Bool-cases (in_menu path surface e)) [
  | inl there ↦ rw there (
      group_all-IsFilled path surface rest (add_to_group e.1.descriptor.group e.0 groups)
        (add_to_group-IsFilled e.1.descriptor.group e.0 groups h))
  | inr other ↦ rw other (group_all-IsFilled path surface rest groups h)
]

-- The group of any name in a menu holds the commands of that menu, mode and group, in the order of
-- their contribution, and no group is empty.
pub menu_groups_lem :
    (path : List Text) (surface name : Option String) (entries : Dict String Entry)
    → (actions_of name (menu_groups path surface entries)
        ≡ keys (keep (in_group path surface name) entries))
      × All (λ g. g.1 ≢ []) (menu_groups path surface entries)
unfolding menu_groups
menu_groups_lem path surface name entries = (
  actions_of-group_all path surface name entries [],
  group_all-IsFilled path surface entries [] tt,
)
