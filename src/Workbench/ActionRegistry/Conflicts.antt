-- ===== src/Workbench/ActionRegistry/Conflicts.antt =====
-- When `_refuse_conflicts` lets a command in.
use sagittarius_engine.Prelude.{
  ℕ, ◌≡◌, ◌≢◌, refl, ◌↔◌, String, string_eq, nat_eq, Bool, true, false, ◌&&◌, Option, none, some,
  List, [], ◌∷◌, ◌==◌, ==_iff, elem, All, list_eq, if◌then◌else◌, Bool-cases, Option-cases, inl,
  inr, Dict, get, keys, arith,
}
use sagittarius_engine.Workbench.ActionText.{Unicode, access_keys}
use sagittarius_engine.Workbench.ActionDescriptor.{Qt, ActionDescriptor}
use sagittarius_engine.Workbench.ActionRegistry.{
  Entry, Label, labels, Refusal, same_menu, refuse_label_clash, scopes_meet, standard_bindings,
  first, refuse_reserved, is_typed, share_a_key, refuse_label, refuse_labels, refuse_against,
  refuse_each, refuse_conflicts,
}

-- Under one parent, one menu is spelled one way, and what can be on screen together has
-- different access keys.
abbrev pub LabelsFit : Unicode → Bool → Label → Label → Type 0
LabelsFit u meet mine theirs =
    mine.parent ≡ theirs.parent
    → (same_menu mine theirs ≡ true → mine.text ≡ theirs.text)
      × (same_menu mine theirs ≡ false
          → meet ≡ true
          → access_keys u mine.text ≢ access_keys u theirs.text)

pub record IsCompatible (u : Unicode) (d : ActionDescriptor) (keys_of : List String) (other : Entry)
    : Type 0 where
  pub no_shared_key :
      scopes_meet other.descriptor.surface_id d.surface_id ≡ true
      → All (λ k. elem k other.keys ≡ false) keys_of
  pub labels_fit :
      All
        (λ mine.
          All
            (LabelsFit u (scopes_meet other.descriptor.surface_id d.surface_id) mine)
            (labels other.descriptor))
        (labels d)

pub record IsAdmissible (qt : Qt) (u : Unicode) (d : ActionDescriptor) (keys_of : List String)
    (entries : Dict String Entry) : Type 0 where
  pub new_id : elem d.action_id (keys entries) ≡ false
  pub unreserved :
      is_typed d.shortcut ≡ true → All (λ k. get k (standard_bindings qt) ≡ none) keys_of
  pub compatible : All (λ e. IsCompatible u d keys_of e.1) entries

first-none : (a b : Option Refusal) → first a b ≡ none → (a ≡ none) × (b ≡ none)
first-none none b h = (refl, h)
first-none (some e) b h = absurd (cc)

both_none : (a b : Option Refusal) → a ≡ none → b ≡ none → first a b ≡ none
both_none none b h k = k
both_none (some e) b h k = absurd (cc)

fits_of :
    (u : Unicode) (meet : Bool) (mine theirs : Label)
    → refuse_label_clash u meet mine theirs ≡ none
    → (same_menu mine theirs ≡ true → mine.text ≡ theirs.text)
      × (same_menu mine theirs ≡ false
          → meet ≡ true
          → access_keys u mine.text ≢ access_keys u theirs.text)
unfolding refuse_label_clash
fits_of u meet mine theirs h = (
  λ same. ground (arith, h, same, ==_iff mine.text theirs.text),
  λ other together shared. ground (
    arith,
    h,
    other,
    together,
    ==_iff (access_keys u mine.text) (access_keys u theirs.text),
    shared,
  ),
)

clash_of :
    (u : Unicode) (meet : Bool) (mine theirs : Label)
    → (same_menu mine theirs ≡ true → mine.text ≡ theirs.text)
    → (same_menu mine theirs ≡ false
        → meet ≡ true
        → access_keys u mine.text ≢ access_keys u theirs.text)
    → refuse_label_clash u meet mine theirs ≡ none
unfolding refuse_label_clash
clash_of u meet mine theirs spelled apart = ground (
  arith,
  spelled,
  apart,
  ==_iff mine.text theirs.text,
  ==_iff (access_keys u mine.text) (access_keys u theirs.text),
)

refuse_label-LabelsFit :
    (u : Unicode) (meet : Bool) (mine : Label) (theirs : List Label)
    → (refuse_label u meet mine theirs ≡ none) ↔ All (LabelsFit u meet mine) theirs
refuse_label-LabelsFit u meet mine [] = (λ h. tt, λ h. refl)
refuse_label-LabelsFit u meet mine (other ∷ rest) = (
  λ h.
      let here : Option Refusal =
        if mine.parent == other.parent then refuse_label_clash u meet mine other else none in
      let both = first-none here (refuse_label u meet mine rest) h in
      (
        λ same. fits_of u meet mine other (rw ((==_iff mine.parent other.parent).1 same) at both.0),
        (refuse_label-LabelsFit u meet mine rest).0 both.1,
      ),
  λ h.
      both_none _ _
        (elim (Bool-cases (mine.parent == other.parent)) [
          | inl same ↦
              let fit = h.0 ((==_iff mine.parent other.parent).0 same) in
              rw same (clash_of u meet mine other fit.0 fit.1)
          | inr apart ↦ rw apart refl
        ])
        ((refuse_label-LabelsFit u meet mine rest).1 h.1),
)

refuse_labels-LabelsFit :
    (u : Unicode) (meet : Bool) (mine theirs : List Label)
    → (refuse_labels u meet mine theirs ≡ none) ↔ All (λ m. All (LabelsFit u meet m) theirs) mine
refuse_labels-LabelsFit u meet [] theirs = (λ h. tt, λ h. refl)
refuse_labels-LabelsFit u meet (m ∷ rest) theirs = (
  λ h.
      let both = first-none (refuse_label u meet m theirs) (refuse_labels u meet rest theirs) h in
      (
        (refuse_label-LabelsFit u meet m theirs).0 both.0,
        (refuse_labels-LabelsFit u meet rest theirs).0 both.1,
      ),
  λ h.
      both_none (refuse_label u meet m theirs) (refuse_labels u meet rest theirs)
        ((refuse_label-LabelsFit u meet m theirs).1 h.0)
        ((refuse_labels-LabelsFit u meet rest theirs).1 h.1),
)

shares_none :
    (mine theirs : List String)
    → (share_a_key mine theirs ≡ false) ↔ All (λ k. elem k theirs ≡ false) mine
shares_none [] theirs = (λ h. tt, λ h. refl)
shares_none (k ∷ mine) theirs = (
  λ h. (ground (arith, h), (shares_none mine theirs).0 (ground (arith, h))),
  λ h. rw h.0 ((shares_none mine theirs).1 h.1),
)

pub refuse_against-IsCompatible :
    (u : Unicode) (d : ActionDescriptor) (keys_of : List String) (other : Entry)
    → (refuse_against u d keys_of other ≡ none) ↔ IsCompatible u d keys_of other
unfolding refuse_against
refuse_against-IsCompatible u d keys_of other =
    let meet = scopes_meet other.descriptor.surface_id d.surface_id in
    let labels_of = refuse_labels-LabelsFit u meet (labels d) (labels other.descriptor) in
    let keys_apart = shares_none keys_of other.keys in
    (
      λ h. record {
        no_shared_key = λ together. keys_apart.0 (ground (arith, h, together));
        labels_fit = labels_of.0 (ground (arith, h));
      },
      λ c.
          let no_clash : (meet && share_a_key keys_of other.keys) ≡ false = elim (Bool-cases meet) [
            | inl together ↦ rw (together, keys_apart.1 (c.no_shared_key together)) refl
            | inr apart ↦ rw apart refl
          ] in
          rw no_clash (labels_of.1 c.labels_fit),
    )

refuse_each-IsCompatible :
    (u : Unicode) (d : ActionDescriptor) (keys_of : List String) (entries : Dict String Entry)
    → (refuse_each u d keys_of entries ≡ none) ↔ All (λ e. IsCompatible u d keys_of e.1) entries
refuse_each-IsCompatible u d keys_of [] = (λ h. tt, λ h. refl)
refuse_each-IsCompatible u d keys_of ((i, other) ∷ rest) = (
  λ h.
      let both = first-none (refuse_against u d keys_of other) (refuse_each u d keys_of rest) h in
      (
        (refuse_against-IsCompatible u d keys_of other).0 both.0,
        (refuse_each-IsCompatible u d keys_of rest).0 both.1,
      ),
  λ h.
      both_none (refuse_against u d keys_of other) (refuse_each u d keys_of rest)
        ((refuse_against-IsCompatible u d keys_of other).1 h.0)
        ((refuse_each-IsCompatible u d keys_of rest).1 h.1),
)

unreserved_all :
    (reserved : Dict String ℕ) (keys_of : List String)
    → (refuse_reserved reserved keys_of ≡ none) ↔ All (λ k. get k reserved ≡ none) keys_of
unreserved_all reserved [] = (λ h. tt, λ h. refl)
unreserved_all reserved (k ∷ rest) = (
  λ h. elim (Option-cases (get k reserved)) [
    | inl free ↦ (free, (unreserved_all reserved rest).0 (rw free at h))
    | inr (meaning, taken) ↦ absurd (reserved_refuses (rw taken at h))
  ],
  λ h. rw h.0 ((unreserved_all reserved rest).1 h.1),
)
  where
    reserved_refuses : {e : Refusal} → some e ≡ none → ⊥
    reserved_refuses h = cc

-- `_refuse_conflicts` raises nothing exactly if the id is new, a typed shortcut is none that the
-- platform reserves, and the command fits every command so far: no shared key where both can be
-- on screen, each menu spelled one way, and no shared access key under one parent.
pub refuse_conflicts-IsAdmissible :
    (qt : Qt) (u : Unicode) (d : ActionDescriptor) (keys_of : List String)
    (entries : Dict String Entry)
    → (refuse_conflicts qt u d keys_of entries ≡ none) ↔ IsAdmissible qt u d keys_of entries
unfolding refuse_conflicts
refuse_conflicts-IsAdmissible qt u d keys_of entries =
    let reserved = standard_bindings qt in
    let check_keys : Option Refusal =
      if is_typed d.shortcut then refuse_reserved reserved keys_of else none in
    let check_each = refuse_each u d keys_of entries in
    (
      λ h. elim (Bool-cases (elem d.action_id (keys entries))) [
        | inl known ↦ absurd (refusing (rw known at h))
        | inr fresh ↦
            let both = first-none check_keys check_each (rw fresh at h) in
            record {
              new_id = fresh;
              unreserved = λ typed_in. (unreserved_all reserved keys_of).0 (rw typed_in at both.0);
              compatible = (refuse_each-IsCompatible u d keys_of entries).0 both.1;
            }
      ],
      λ a. rw a.new_id (
          both_none check_keys check_each
            (elim (Bool-cases (is_typed d.shortcut)) [
              | inl typed_in ↦
                  rw typed_in ((unreserved_all reserved keys_of).1 (a.unreserved typed_in))
              | inr other ↦ rw other refl
            ])
            ((refuse_each-IsCompatible u d keys_of entries).1 a.compatible)),
    )
  where
    refusing : {e : Refusal} → some e ≡ none → ⊥
    refusing h = cc
