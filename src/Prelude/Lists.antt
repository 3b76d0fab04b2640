-- ===== src/Prelude/Lists.antt =====
-- Lists measured by native numbers, Boolean membership, and predicates by recursion.
use Prim.Native.Nat.{ℕ, suc, ◌+◌}
use mathlib.Core.Path.{◌≡◌, refl}
use mathlib.Core.Bool.{Bool, true, false, ◌&&◌, ◌||◌}
use mathlib.Core.Logic.{inl, inr, ◌↔◌}
use mathlib.Core.List.{List, [], ◌∷◌, ◌++◌}
use native.Mathlib.Omega.{arith}
use sagittarius_engine.Prelude.Tests.{Eq, ◌==◌, ==_iff, if◌then◌else◌, Bool-cases}

module _ {ℓ} {A : Type ℓ} where
  abbrev pub length : List A → ℕ
  length [] = 0
  length (x ∷ xs) = suc (length xs)

  pub length-append : (xs ys : List A) → length (xs ++ ys) ≡ length xs + length ys
  length-append [] ys = omega arith
  length-append (x ∷ xs) ys = omega (arith, length-append xs ys)

  -- Python's `[x for x in xs if test(x)]`.
  abbrev pub keep : (A → Bool) → List A → List A
  keep test [] = []
  keep test (x ∷ xs) = let rest = keep test xs in if test x then x ∷ rest else rest

  pub keep-append :
      (test : A → Bool) (xs ys : List A) → keep test (xs ++ ys) ≡ keep test xs ++ keep test ys
  keep-append test [] ys = refl
  keep-append test (x ∷ xs) ys = ground (arith, keep-append test xs ys)

  abbrev pub All {κ} : (A → Type κ) → List A → Type κ
  All holds [] = Unit
  All holds (first ∷ rest) = holds first × All holds rest

  pub All-append {κ} :
      (holds : A → Type κ) (front back : List A)
      → All holds front
      → All holds back
      → All holds (front ++ back)
  All-append holds [] back f b = b
  All-append holds (first ∷ front) back f b = (f.0, All-append holds front back f.1 b)

  pub All-map {κ μ} :
      {P : A → Type κ} {Q : A → Type μ} (f : (a : A) → P a → Q a) (xs : List A)
      → All P xs
      → All Q xs
  All-map f [] h = tt
  All-map f (x ∷ xs) h = (f x h.0, All-map f xs h.1)

module _ {ℓ} {A : Type ℓ} ⦃e : Eq A⦄ where
  -- Python's `x in xs`.
  abbrev pub elem : A → List A → Bool
  elem a [] = false
  elem a (x ∷ xs) = x == a || elem a xs

  pub elem-append : (a : A) (xs ys : List A) → elem a (xs ++ ys) ≡ (elem a xs || elem a ys)
  elem-append a [] ys = refl
  elem-append a (x ∷ xs) ys = ground (arith, elem-append a xs ys)

  pub elem-All {κ} : (P : A → Type κ) (a : A) (xs : List A) → All P xs → elem a xs ≡ true → P a
  elem-All P a [] h m = absurd (cc)
  elem-All P a (x ∷ xs) h m = elim (Bool-cases (x == a)) [
    | inl same ↦ rw ((==_iff x a).0 same) at h.0
    | inr other ↦ elem-All P a xs h.1 (ground arith)
  ]

  -- No element stands twice.
  abbrev pub Distinct : List A → Type 0
  Distinct [] = Unit
  Distinct (x ∷ xs) = (elem x xs ≡ false) × Distinct xs

  pub append-Distinct :
      (xs : List A) (a : A) → Distinct xs → elem a xs ≡ false → Distinct (xs ++ a ∷ [])
  append-Distinct [] a d h = (refl, tt)
  append-Distinct (x ∷ xs) a d h =
      ground (arith, append-Distinct xs a d.1, elem-append x xs (a ∷ []), ==_iff a x, ==_iff x a)

module _ {ℓ} {A : Type ℓ} ⦃e : Eq A⦄ where
  abbrev pub list_test : List A → List A → Bool
  list_test [] [] = true
  list_test [] (y ∷ ys) = false
  list_test (x ∷ xs) [] = false
  list_test (x ∷ xs) (y ∷ ys) = x == y && list_test xs ys

  pub list_test_iff : (xs ys : List A) → (list_test xs ys ≡ true) ↔ (xs ≡ ys)
  list_test_iff [] [] = (λ h. refl, λ h. refl)
  list_test_iff [] (y ∷ ys) = (λ h. absurd (cc), λ h. absurd (cc))
  list_test_iff (x ∷ xs) [] = (λ h. absurd (cc), λ h. absurd (cc))
  list_test_iff (x ∷ xs) (y ∷ ys) = (
    λ h.
        let heads : (x == y) ≡ true = ground (arith, h) in
        let tails : list_test xs ys ≡ true = ground (arith, h) in
        cc ((==_iff x y).0 heads, (list_test_iff xs ys).0 tails),
    λ h.
        let heads : x ≡ y = cc in
        let tails : xs ≡ ys = cc in rw ((==_iff x y).1 heads) ((list_test_iff xs ys).1 tails),
  )

  instance abbrev pub list_eq : Eq (List A)
  list_eq = record { test = list_test; test_iff = list_test_iff }
