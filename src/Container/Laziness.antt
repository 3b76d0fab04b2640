-- ===== src/Container/Laziness.antt =====
-- Containers whose factories are classes, and how many factories they have left.
use sagittarius_engine.Prelude.{
  ℕ, ◌+◌, ◌*◌, ◌≤◌, ◌<◌, ◌≡◌, String, string_eq, Bool, true, false, none, some, [], ◌∷◌, length,
  ◌==◌, Bool-cases, inl, inr, Dict, get, put, remove, All, All-put, All-remove, arith,
}
use sagittarius_engine.Container.{
  Error, Factory, lazy, callable, StdLibContainer, found, raised, Attempt, and_then,
}
use sagittarius_engine.Container.Steps.{IsKept, Ends}

abbrev pub is_lazy : Factory → Bool
is_lazy (lazy cls) = true
is_lazy (callable s) = false

-- Every factory wraps a class.
abbrev pub IsDeclarative : StdLibContainer → Type 0
IsDeclarative c = All (λ e. is_lazy e.1 ≡ true) c.factories

length-remove-le : {A : Type 0} (k : String) (d : Dict String A) → length (remove k d) ≤ length d
unfolding remove
length-remove-le k [] = omega arith
length-remove-le k ((j, b) ∷ d) = ground (arith, length-remove-le k d)

pub length-remove-lt :
    {A : Type 0} (k : String) (a : A) (d : Dict String A)
    → get k d ≡ some a
    → length (remove k d) < length d
unfolding get remove
length-remove-lt k a [] h = absurd (cc)
length-remove-lt k a ((j, b) ∷ d) h = elim (Bool-cases (j == k)) [
  | inl same ↦ rw same (omega (arith, length-remove-le k d))
  | inr other ↦ rw other (omega (arith, length-remove-lt k a d (rw other at h)))
]

length-put :
    {A : Type 0} (k : String) (a : A) (d : Dict String A) → length (put k a d) ≤ length d + 1
unfolding put
length-put k a [] = omega arith
length-put k a ((j, b) ∷ d) = ground (arith, length-put k a d)

pub lazy_at :
    (a : String) (f : Factory) (d : Dict String Factory)
    → All (λ e. is_lazy e.1 ≡ true) d
    → get a d ≡ some f
    → is_lazy f ≡ true
unfolding get
lazy_at a f [] h g = absurd (cc)
lazy_at a f ((j, b) ∷ d) h g = elim (Bool-cases (j == a)) [
  | inl same ↦ cc (h.0, rw same at g)
  | inr other ↦ lazy_at a f d h.1 (rw other at g)
]

-- The factories stay declarative and become no more.
abbrev pub KeepsFactories : StdLibContainer → StdLibContainer → Type 0
KeepsFactories c d = (IsDeclarative c → IsDeclarative d) × (length d.factories ≤ length c.factories)

pub factories-IsKept : IsKept KeepsFactories
factories-IsKept = record {
  nothing = λ c. ((λ h. h), omega arith);
  both = λ c d e h g. ((λ k. g.0 (h.0 k)), omega arith);
  building = λ c os. ((λ h. h), omega arith);
  scoping = λ c ss. ((λ h. h), omega arith);
  keeping = λ a f i c d absent there h. h;
  taking = λ a f i c d absent there h. (
    (λ k. h.0 (All-remove _ a c.factories k)),
    omega (arith, h.1, length-remove-lt a f c.factories there),
  );
  restoring = λ a f c d absent there h. (
    (λ k.
        All-put _ a f d.factories (h.0 (All-remove _ a c.factories k))
          (lazy_at a f c.factories k there)),
    omega (arith, h.1, length-remove-lt a f c.factories there, length-put a f d.factories),
  );
}

-- An attempt that has an outcome.
abbrev pub Outcomes : Attempt → Type 0
Outcomes none = ⊥
Outcomes (some r) = Unit

pub Outcomes-and_then :
    (c : StdLibContainer) (r : Attempt) (k : ℕ → StdLibContainer → Attempt)
    (h : Error → StdLibContainer → Attempt)
    → Outcomes r
    → Ends KeepsFactories c r
    → ((i : ℕ) (d : StdLibContainer) → KeepsFactories c d → Outcomes (k i d))
    → ((e : Error) (d : StdLibContainer) → KeepsFactories c d → Outcomes (h e d))
    → Outcomes (and_then r k h)
Outcomes-and_then c none k h o q f g = o
Outcomes-and_then c (some (found i, d)) k h o q f g = f i d q
Outcomes-and_then c (some (raised e, d)) k h o q f g = g e d q

pub mul_lt : (m n k : ℕ) → m < n → m * k + k ≤ n * k
mul_lt m n k h = grind arith
