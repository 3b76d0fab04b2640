-- ===== src/Workbench/ActionText/Plain.antt =====
-- `plain_text` against a reading of the text from left to right, as `access_keys` reads it.
use sagittarius_engine.Prelude.{
  ℕ, ◌≡◌, refl, ap, ◌∙◌, nat_eq, false, not, [], ◌∷◌, ◌==◌, ==_iff, if◌then◌else◌, elem, Bool-cases,
  inl, inr, arith,
}
use sagittarius_engine.Workbench.ActionText.{
  Text, marker, replace_pairs, drop_markers, restore, plain_text,
}

-- One pass: `&&` is one `&`, any other `&` is left out.
pub reading : Text → Text
reading [] = []
reading (c ∷ []) = if c == marker then [] else c ∷ []
reading (c ∷ d ∷ cs) =
    let next = reading (d ∷ cs) in
    let after = reading cs in
    if not (c == marker) then c ∷ next else (if d == marker then marker ∷ after else d ∷ after)

reading_ordinary : (d : ℕ) (cs : Text) → (d == marker) ≡ false → reading (d ∷ cs) ≡ d ∷ reading cs
unfolding reading
reading_ordinary d [] h = rw h refl
reading_ordinary d (e ∷ cs) h = rw h refl

-- The three replacements read a text without the character 0 like one pass from left to right, in
-- which `&&` is one `&` and any other `&` is left out.
pub plain_text_lem : (text : Text) → elem 0 text ≡ false → plain_text text ≡ reading text
unfolding plain_text restore drop_markers replace_pairs reading
plain_text_lem [] h = refl
plain_text_lem (c ∷ []) h = ground (arith, ==_iff c 0, ==_iff 0 c)
plain_text_lem (c ∷ d ∷ cs) h =
    let next = plain_text_lem (d ∷ cs) (ground (arith, h)) in
    let after = plain_text_lem cs (ground (arith, h)) in
    let not_zero : (c == 0) ≡ false = ground (arith, h) in
    let ordinary = reading_ordinary d cs in
    elim (Bool-cases (c == marker)) [
      | inl marked ↦ elim (Bool-cases (d == marker)) [
        | inl pair ↦ rw (marked, pair) (ap (λ t. marker ∷ t) after)
        | inr single ↦ rw (marked, single, marked) (next ∙ ordinary single)
      ]
      | inr plain ↦ rw (plain, plain, not_zero) (ap (λ t. c ∷ t) next)
    ]
