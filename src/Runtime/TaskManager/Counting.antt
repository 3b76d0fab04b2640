-- ===== src/Runtime/TaskManager/Counting.antt =====
-- Tasks of a `TaskManager`, counted by weights.
use sagittarius_engine.Prelude.{
  ℕ, suc, ◌+◌, ◌<◌, ◌≡◌, refl, nat_eq, false, Option, none, some, List, [], ◌∷◌, ◌==◌, ==_iff, elem,
  Bool-cases, inl, inr, Dict, get, put, remove, keys, Distinct, All, arith,
}
use sagittarius_engine.Runtime.TaskManager.{BackgroundTask}

unfoldable pub count : (BackgroundTask → ℕ) → Dict ℕ BackgroundTask → ℕ
count w [] = 0
count w ((i, t) ∷ d) = w t + count w d

abbrev pub weight_at : (BackgroundTask → ℕ) → Option BackgroundTask → ℕ
weight_at w none = 0
weight_at w (some t) = w t

pub count-put :
    (w : BackgroundTask → ℕ) (i : ℕ) (t : BackgroundTask) (d : Dict ℕ BackgroundTask)
    → count w (put i t d) + weight_at w (get i d) ≡ count w d + w t
unfolding count put get
count-put w i t [] = omega arith
count-put w i t ((j, u) ∷ d) = elim (Bool-cases (j == i)) [
  | inl same ↦ rw same (omega arith)
  | inr other ↦ rw other (omega (arith, count-put w i t d))
]

remove_absent : (i : ℕ) (d : Dict ℕ BackgroundTask) → elem i (keys d) ≡ false → remove i d ≡ d
unfolding remove
remove_absent i [] h = refl
remove_absent i ((j, u) ∷ d) h = ground (arith, remove_absent i d)

pub count-remove :
    (w : BackgroundTask → ℕ) (i : ℕ) (d : Dict ℕ BackgroundTask)
    → Distinct (keys d)
    → count w (remove i d) + weight_at w (get i d) ≡ count w d
unfolding count remove get
count-remove w i [] h = omega arith
count-remove w i ((j, u) ∷ d) h = elim (Bool-cases (j == i)) [
  | inl same ↦ rw same (rw (remove_absent i d (rw ((==_iff j i).0 same) at h.0)) (omega arith))
  | inr other ↦ rw other (omega (arith, count-remove w i d h.1))
]

pub elem-keys-remove :
    (i j : ℕ) (d : Dict ℕ BackgroundTask)
    → elem j (keys d) ≡ false
    → elem j (keys (remove i d)) ≡ false
unfolding remove
elem-keys-remove i j [] h = refl
elem-keys-remove i j ((k, u) ∷ d) h = ground (arith, elem-keys-remove i j d)

pub remove-Distinct :
    (i : ℕ) (d : Dict ℕ BackgroundTask) → Distinct (keys d) → Distinct (keys (remove i d))
unfolding remove
remove-Distinct i [] h = tt
remove-Distinct i ((k, u) ∷ d) h = elim (Bool-cases (k == i)) [
  | inl same ↦ rw same (remove-Distinct i d h.1)
  | inr other ↦ rw other (elem-keys-remove i k d h.0, remove-Distinct i d h.1)
]

-- Weights that add up, task by task.
pub count-add :
    (v w u : BackgroundTask → ℕ) (d : Dict ℕ BackgroundTask)
    → ((t : BackgroundTask) → u t ≡ v t + w t)
    → count u d ≡ count v d + count w d
unfolding count
count-add v w u [] h = omega arith
count-add v w u ((i, t) ∷ d) h = omega (arith, h t, count-add v w u d h)

-- Keys below a bound.
pub Below-put :
    (n i : ℕ) (t : BackgroundTask) (d : Dict ℕ BackgroundTask)
    → i < n
    → All (λ k. k < n) (keys d)
    → All (λ k. k < n) (keys (put i t d))
unfolding put
Below-put n i t [] lt h = (lt, tt)
Below-put n i t ((j, u) ∷ d) lt h = elim (Bool-cases (j == i)) [
  | inl same ↦ rw same (lt, h.1)
  | inr other ↦ rw other (h.0, Below-put n i t d lt h.1)
]

pub Below-remove :
    (n i : ℕ) (d : Dict ℕ BackgroundTask)
    → All (λ k. k < n) (keys d)
    → All (λ k. k < n) (keys (remove i d))
unfolding remove
Below-remove n i [] h = tt
Below-remove n i ((j, u) ∷ d) h = elim (Bool-cases (j == i)) [
  | inl same ↦ rw same (Below-remove n i d h.1)
  | inr other ↦ rw other (h.0, Below-remove n i d h.1)
]

pub Below-suc : (n : ℕ) (ks : List ℕ) → All (λ k. k < n) ks → All (λ k. k < suc n) ks
Below-suc n [] h = tt
Below-suc n (k ∷ ks) h = (omega arith, Below-suc n ks h.1)

-- A number at or above the bound is not among them.
pub Below-absent : (n : ℕ) (ks : List ℕ) → All (λ k. k < n) ks → elem n ks ≡ false
Below-absent n [] h = refl
Below-absent n (k ∷ ks) h = ground (arith, Below-absent n ks h.1)
