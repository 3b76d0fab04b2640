-- ===== src/Kernel/Descriptors.antt =====
-- Extensions with their descriptors (interfaces/i_extension.py), and Python's stable `sorted` by
-- priority, the highest first.
use sagittarius_engine.Prelude.{
  ℕ, ◌≡◌, refl, String, Bool, true, false, List, [], ◌∷◌, leb, if◌then◌else◌, arith, elem, nat_eq,
  ◌==◌, ◌||◌, map, string_eq,
}

-- A Python integer: `negsuc n` is -(n + 1).
pub data ℤ : Type 0 where
  pos negsuc : ℕ → ℤ

-- `a <= b`.
abbrev pub le_int : ℤ → ℤ → Bool
le_int (pos a) (pos b) = leb a b
le_int (pos a) (negsuc b) = false
le_int (negsuc a) (pos b) = true
le_int (negsuc a) (negsuc b) = leb b a

-- An extension object: its identity and its descriptor.
pub record Extension : Type 0 where
  pub ident : ℕ
  pub name : String
  pub dependencies : List String
  pub optional_dependencies : List String
  pub priority : ℤ
  pub enabled : Bool

abbrev pub names : List Extension → List String
names = map (λ x. x.name)

insert_by_priority : Extension → List Extension → List Extension
insert_by_priority x [] = x ∷ []
insert_by_priority x (y ∷ ys) =
    let rest = insert_by_priority x ys in
    if le_int y.priority x.priority then x ∷ y ∷ ys else y ∷ rest

-- `sorted(exts, key=lambda e: e.descriptor.priority, reverse=True)`: equal priorities keep their
-- order.
unfoldable pub sort_by_priority : List Extension → List Extension
unfolding insert_by_priority
sort_by_priority [] = []
sort_by_priority (x ∷ xs) = insert_by_priority x (sort_by_priority xs)

elem-insert :
    (n : String) (x : Extension) (ys : List Extension)
    → elem n (names (insert_by_priority x ys)) ≡ (x.name == n || elem n (names ys))
unfolding insert_by_priority
elem-insert n x [] = refl
elem-insert n x (y ∷ ys) = ground (arith, elem-insert n x ys)

-- Sorting loses no name and makes none up.
pub elem-sort_by_priority :
    (n : String) (xs : List Extension) → elem n (names (sort_by_priority xs)) ≡ elem n (names xs)
unfolding sort_by_priority
elem-sort_by_priority n [] = refl
elem-sort_by_priority n (x ∷ xs) =
    ground (arith, elem-insert n x (sort_by_priority xs), elem-sort_by_priority n xs)
