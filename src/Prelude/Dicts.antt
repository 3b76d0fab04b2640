-- ===== src/Prelude/Dicts.antt =====
-- Python's `dict`: an association list in insertion order.
use mathlib.Core.Path.{◌≡◌, refl}
use mathlib.Core.Bool.{Bool, true, false, ◌||◌}
use mathlib.Core.Option.{Option, none, some}
use mathlib.Core.List.{List, [], ◌∷◌, map}
use mathlib.Core.Logic.{inl, inr}
use native.Mathlib.Omega.{arith}
use sagittarius_engine.Prelude.Tests.{Eq, ◌==◌, ==_iff, if◌then◌else◌, Bool-cases}
use sagittarius_engine.Prelude.Lists.{elem, Distinct, keep, All}

abbrev pub Dict {ℓ κ} : Type ℓ → Type κ → Type (ℓ ⊔ κ)
Dict K V = List (K × V)

module _ {ℓ κ} {K : Type ℓ} {V : Type κ} ⦃e : Eq K⦄ where
  -- `d.get(k)`.
  unfoldable pub get : K → Dict K V → Option V
  get k [] = none
  get k ((j, v) ∷ d) = if j == k then some v else get k d

  -- `d[k] = v`: a known key keeps its place.
  unfoldable pub put : K → V → Dict K V → Dict K V
  put k v [] = (k, v) ∷ []
  put k v ((j, w) ∷ d) = let rest = put k v d in if j == k then (k, v) ∷ d else (j, w) ∷ rest

  -- `d.pop(k, None)`, `del d[k]`.
  unfoldable pub remove : K → Dict K V → Dict K V
  remove k [] = []
  remove k ((j, v) ∷ d) = let rest = remove k d in if j == k then rest else (j, v) ∷ rest

  pub get-put :
      (k j : K) (v : V) (d : Dict K V) → get j (put k v d) ≡ (if k == j then some v else get j d)
  unfolding get put
  get-put k j v [] = refl
  get-put k j v ((i, w) ∷ d) = ground (arith, ==_iff k j, ==_iff i k, ==_iff i j, get-put k j v d)

  pub get-remove :
      (k j : K) (d : Dict K V) → get j (remove k d) ≡ (if k == j then none else get j d)
  unfolding get remove
  get-remove k j [] = ground arith
  get-remove k j ((i, w) ∷ d) = ground (arith, ==_iff k j, ==_iff i k, ==_iff i j, get-remove k j d)

-- `k in d`.
abbrev pub has {ℓ κ} : {K : Type ℓ} {V : Type κ} ⦃e : Eq K⦄ → K → Dict K V → Bool
has k d = elim (get k d) [ none ↦ false | some _ ↦ true ]

-- `list(d.keys())`.
abbrev pub keys {ℓ κ} : {K : Type ℓ} {V : Type κ} → Dict K V → List K
keys = map (λ e. e.0)

pub ruleset dict_laws = (get-put, get-remove)

module _ {ℓ κ} {K : Type ℓ} {V : Type κ} ⦃e : Eq K⦄ where
  pub elem-keys-put :
      (k j : K) (v : V) (d : Dict K V) → elem j (keys (put k v d)) ≡ (k == j || elem j (keys d))
  unfolding put
  elem-keys-put k j v [] = refl
  elem-keys-put k j v ((i, w) ∷ d) =
      ground (arith, ==_iff k j, ==_iff i k, ==_iff i j, elem-keys-put k j v d)

  pub put-Distinct :
      (k : K) (v : V) (d : Dict K V) → Distinct (keys d) → Distinct (keys (put k v d))
  unfolding put
  put-Distinct k v [] h = (refl, tt)
  put-Distinct k v ((i, w) ∷ d) h =
      ground (arith, ==_iff k i, ==_iff i k, elem-keys-put k i v d, put-Distinct k v d h.1)

  -- A key that is not among the keys is not found.
  pub get_absent : (k : K) (d : Dict K V) → elem k (keys d) ≡ false → get k d ≡ none
  unfolding get
  get_absent k [] h = refl
  get_absent k ((i, w) ∷ d) h = ground (arith, get_absent k d)

  -- `{k: v for k, v in d.items() if test(v)}`.
  pub get-keep :
      (test : V → Bool) (k : K) (d : Dict K V)
      → Distinct (keys d)
      → get k (keep (λ e. test e.1) d)
        ≡ elim (get k d) [ none ↦ none | some v ↦ if test v then some v else none ]
  unfolding get
  get-keep test k [] h = refl
  get-keep test k ((i, w) ∷ d) h = ground (arith, ==_iff i k, get_absent k d, get-keep test k d h.1)

  -- What holds of every value under its key is kept by `put` and `remove`.
  pub All-put {μ} :
      (P : K × V → Type μ) (k : K) (v : V) (d : Dict K V) → All P d → P (k, v) → All P (put k v d)
  unfolding put
  All-put P k v [] h p = (p, tt)
  All-put P k v ((j, w) ∷ d) h p = elim (Bool-cases (j == k)) [
    | inl same ↦ rw same (p, h.1)
    | inr other ↦ rw other (h.0, All-put P k v d h.1 p)
  ]

  pub All-remove {μ} : (P : K × V → Type μ) (k : K) (d : Dict K V) → All P d → All P (remove k d)
  unfolding remove
  All-remove P k [] h = tt
  All-remove P k ((j, w) ∷ d) h = elim (Bool-cases (j == k)) [
    | inl same ↦ rw same (All-remove P k d h.1)
    | inr other ↦ rw other (h.0, All-remove P k d h.1)
  ]

-- `{k: f(v) for k, v in d.items()}`.
abbrev pub map_values {ℓ κ μ} :
    {K : Type ℓ} {V : Type κ} {W : Type μ} → (V → W) → Dict K V → Dict K W
map_values f = map (λ e. (e.0, f e.1))

pub get-map_values {ℓ κ μ} :
    {K : Type ℓ} {V : Type κ} {W : Type μ} ⦃e : Eq K⦄ (f : V → W) (k : K) (d : Dict K V)
    → get k (map_values f d) ≡ elim (get k d) [ none ↦ none | some v ↦ some (f v) ]
unfolding get
get-map_values f k [] = refl
get-map_values f k ((j, v) ∷ d) = ground (arith, get-map_values f k d)
