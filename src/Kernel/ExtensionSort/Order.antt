-- ===== src/Kernel/ExtensionSort/Order.antt =====
-- What a sound result of `_build_and_sort` of kernel/extension_manager.py is, and that the end of a
-- visit keeps it sound.
use sagittarius_engine.Prelude.{
  ◌≡◌, refl, sym, ap, subst, ◌∙◌, String, string_eq, true, false, none, some, List, [], ◌∷◌, ◌++◌,
  elem, arith, ==_iff, append_assoc, append-nil, All, All-append, Distinct, elem-append, get, has,
}
use sagittarius_engine.Kernel.Descriptors.{Extension, names}
use sagittarius_engine.Kernel.ExtensionSort.{
  SortError, circular_dependency, missing_dependency, exhausted, Progress, ByName, finish,
}

-- `n` depends on `m`, by a required dependency or an optional one, through any number of
-- extensions.
pub data Leads (d : ByName) : String → String → Type 0 where
  required :
      {n m : String} (x : Extension) → get n d ≡ some x → elem m x.dependencies ≡ true → Leads d n m
  optional :
      {n m : String} (x : Extension)
      → get n d ≡ some x
      → elem m x.optional_dependencies ≡ true
      → Leads d n m
  through : {n m o : String} → Leads d n m → Leads d m o → Leads d n o

module _ (d : ByName) where
  -- The dependencies of `x` are among `seen`: the required ones, and the optional ones that exist.
  pub record Satisfied (seen : List String) (x : Extension) : Type 0 where
    pub required_seen : All (λ m. elem m seen ≡ true) x.dependencies
    pub optional_seen : All (λ m. has m d ≡ true → elem m seen ≡ true) x.optional_dependencies

  -- Each extension stands behind what it depends on.
  abbrev pub IsOrdered : List String → List Extension → Type 0
  IsOrdered seen [] = Unit
  IsOrdered seen (x ∷ xs) = Satisfied seen x × IsOrdered (seen ++ x.name ∷ []) xs

  -- The error is real.
  abbrev pub IsReal : SortError → Type 0
  IsReal (circular_dependency n) = Leads d n n
  IsReal (missing_dependency n m) =
      (x : Extension) × (get n d ≡ some x) × (elem m x.dependencies ≡ true) × (get m d ≡ none)
  IsReal exhausted = ⊥

  pub record IsSound (p : Progress) : Type 0 where
    pub same : p.visited ≡ names p.result
    pub ordered : IsOrdered [] p.result
    pub distinct : Distinct p.visited
    pub own : All (λ x. get x.name d ≡ some x) p.result

  -- Each entry of the dictionary stands under its own name.
  abbrev pub IsNamed : Type 0
  IsNamed = (n : String) (x : Extension) → get n d ≡ some x → x.name ≡ n

  -- The step that ends a visit keeps the order sound.
  names-snoc :
      (xs : List Extension) (x : Extension) → names (xs ++ x ∷ []) ≡ names xs ++ x.name ∷ []
  names-snoc [] x = refl
  names-snoc (y ∷ xs) x = ap (◌∷◌ y.name) (names-snoc xs x)

  IsOrdered-snoc :
      (seen : List String) (xs : List Extension) (x : Extension)
      → IsOrdered seen xs
      → Satisfied (seen ++ names xs) x
      → IsOrdered seen (xs ++ x ∷ [])
  IsOrdered-snoc seen [] x h s = (subst (λ n. Satisfied n x) (append-nil seen) s, tt)
  IsOrdered-snoc seen (y ∷ xs) x h s = (
    h.0,
    IsOrdered-snoc (seen ++ y.name ∷ []) xs x h.1
        (subst (λ n. Satisfied n x) (sym (append_assoc seen (y.name ∷ []) (names xs))) s),
  )

  Distinct-snoc :
      (ns : List String) (n : String) → Distinct ns → elem n ns ≡ false → Distinct (ns ++ n ∷ [])
  Distinct-snoc [] n h a = (refl, tt)
  Distinct-snoc (m ∷ ns) n h a =
      ground (arith, Distinct-snoc ns n h.1, elem-append m ns (n ∷ []), ==_iff m n, ==_iff n m)

  pub IsSound-finish :
      (name : String) (x : Extension) (p : Progress)
      → x.name ≡ name
      → get name d ≡ some x
      → IsSound p
      → elem name p.visited ≡ false
      → Satisfied p.visited x
      → IsSound (finish d name x p)
  unfolding finish
  IsSound-finish name x p e g s a sat = record {
    same =
        ap (λ ns. ns ++ name ∷ []) s.same
        ∙ ap (λ n. names p.result ++ n ∷ []) (sym e)
        ∙ sym (names-snoc p.result x);
    ordered = IsOrdered-snoc [] p.result x s.ordered (subst (λ ns. Satisfied ns x) s.same sat);
    distinct = Distinct-snoc p.visited name s.distinct a;
    own =
        All-append (λ y. get y.name d ≡ some y) p.result (x ∷ []) s.own
          (subst (λ n. get n d ≡ some x) (sym e) g, tt);
  }
