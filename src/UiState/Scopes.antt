-- ===== src/UiState/Scopes.antt =====
-- Which scopes share a slice.
use sagittarius_engine.Prelude.{
  ◌≡◌, refl, ap, nat_eq, true, false, Option, none, some, [], ◌∷◌, ◌++◌, ==_iff, elem, arith,
}
use sagittarius_engine.UiState.{Key, StateScope, separator, key_of, storage_key}

-- Up to its first separator a text is read in one way.
split_once :
    (a b i j : Key)
    → elem separator a ≡ false
    → elem separator b ≡ false
    → a ++ separator ∷ i ≡ b ++ separator ∷ j
    → (a ≡ b) × (i ≡ j)
split_once [] [] i j h k p = (refl, cc)
split_once [] (y ∷ b) i j h k p =
    let first : separator ≡ y = cc in absurd (ground (arith, k, first, ==_iff y separator))
split_once (x ∷ a) [] i j h k p =
    let first : x ≡ separator = cc in absurd (ground (arith, h, first, ==_iff x separator))
split_once (x ∷ a) (y ∷ b) i j h k p =
    let heads : x ≡ y = cc in
    let tails : a ++ separator ∷ i ≡ b ++ separator ∷ j = cc in
    let rest = split_once a b i j (ground (arith, h)) (ground (arith, k)) tails in
    (cc (heads, rest.0), rest.1)

no_separator : (a i : Key) → elem separator (a ++ separator ∷ i) ≡ true
no_separator [] i = refl
no_separator (x ∷ a) i = ground (arith, no_separator a i)

by_instance :
    (a b : Key) (i j : Option Key)
    → elem separator a ≡ false
    → elem separator b ≡ false
    → key_of a i ≡ key_of b j
    → (a ≡ b) × (i ≡ j)
by_instance a b none none h k p = (p, refl)
by_instance a b (some i) (some j) h k p =
    let both = split_once a b i j h k p in (both.0, ap some both.1)
by_instance a b none (some j) h k p = absurd (cc (h, no_separator b j, p))
by_instance a b (some i) none h k p = absurd (cc (k, no_separator a i, p))

-- Two scopes whose owners have no `#` in their names share a slice only if they name the same owner
-- and the same copy of it, whatever the copies are called.
pub storage_key_injective :
    (s t : StateScope)
    → elem separator s.key ≡ false
    → elem separator t.key ≡ false
    → storage_key s ≡ storage_key t
    → (s.key ≡ t.key) × (s.instance_id ≡ t.instance_id)
unfolding storage_key
storage_key_injective s t h k p = by_instance s.key t.key s.instance_id t.instance_id h k p
