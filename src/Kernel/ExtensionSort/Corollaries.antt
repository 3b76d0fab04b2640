-- ===== src/Kernel/ExtensionSort/Corollaries.antt =====
-- `_build_and_sort` of kernel/extension_manager.py as a whole.
use sagittarius_engine.Prelude.{
  ℕ, suc, ◌<◌, ◌≡◌, refl, sym, ap, subst, ◌∙◌, String, string_eq, Bool, true, none, some, List, [],
  ◌∷◌, elem, length, arith, ==_iff, ◌||◌, All, Distinct, elem-All, get, put, has, keys, get-put,
}
use sagittarius_engine.Kernel.Descriptors.{
  Extension, names, sort_by_priority, elem-sort_by_priority,
}
use sagittarius_engine.Kernel.ExtensionSort.{
  Result, ok, err, circular_dependency, missing_dependency, exhausted, Progress, ByName,
  by_name_from, visit_all, build_and_sort, enabled_only, result_of,
}
use sagittarius_engine.Kernel.ExtensionSort.Order.{
  Leads, required, optional, through, IsOrdered, IsReal, IsNamed,
}
use sagittarius_engine.Kernel.ExtensionSort.Soundness.{Post-visit_all, Visited, Post}

named-by_name_from : (d : ByName) (xs : List Extension) → IsNamed d → IsNamed (by_name_from d xs)
unfolding by_name_from
named-by_name_from d [] h = h
named-by_name_from d (x ∷ xs) h =
    named-by_name_from (put x.name x d) xs
      (λ n y g. ground (arith, get-put x.name n x d, h n y, ==_iff x.name n))

has-by_name_from :
    (n : String) (d : ByName) (xs : List Extension)
    → has n (by_name_from d xs) ≡ (has n d || elem n (names xs))
unfolding by_name_from
has-by_name_from n d [] = ground arith
has-by_name_from n d (x ∷ xs) =
    ground (arith, has-by_name_from n (put x.name x d) xs, get-put x.name n x d)

-- The dictionary that the sort builds.
abbrev pub dictionary : List Extension → ByName
dictionary registered = by_name_from [] (enabled_only registered)

dictionary-IsNamed : (registered : List Extension) → IsNamed (dictionary registered)
unfolding get
dictionary-IsNamed registered =
    named-by_name_from [] (enabled_only registered) (λ n x e. absurd (cc))

has-dictionary :
    (n : String) (registered : List Extension)
    → has n (dictionary registered) ≡ elem n (names (enabled_only registered))
unfolding get
has-dictionary n registered = has-by_name_from n [] (enabled_only registered)

-- What the sort owes: an order of the enabled extensions, each name once, each extension the last
-- that was registered under its name and behind its dependencies; or an error that is real.
abbrev pub Sorts : List Extension → Result (List Extension) → Type 0
Sorts registered (ok order) =
    let d = dictionary registered in
    IsOrdered d [] order
    × Distinct (names order)
    × All (λ x. get x.name d ≡ some x) order
    × ((n : String) → elem n (names order) ≡ elem n (names (enabled_only registered)))
Sorts registered (err e) = IsReal (dictionary registered) e

own-elem :
    (d : ByName) (n : String) (order : List Extension)
    → All (λ x. get x.name d ≡ some x) order
    → elem n (names order) ≡ true
    → has n d ≡ true
own-elem d n [] h m = cc
own-elem d n (x ∷ order) h m = ground (arith, own-elem d n order h.1, h.0, ==_iff x.name n)

member :
    (d : ByName) (ns : List String) (q : Progress) (n : String)
    → All (λ m. Visited d m q) ns
    → elem n ns ≡ true
    → Visited d n q
member d ns q n h m = elem-All (λ k. Visited d k q) n ns h m

iff→eq : (a b : Bool) → (a ≡ true → b ≡ true) → (b ≡ true → a ≡ true) → a ≡ b
iff→eq a b f g = ground arith

conclude :
    (registered : List Extension) (p : Progress) (r : Result Progress)
    → Post
        (dictionary registered)
        []
        (λ q.
          All
            (λ m. Visited (dictionary registered) m q)
            (names (sort_by_priority (enabled_only registered))))
        p
        r
    → Sorts registered (result_of r)
conclude registered p (err e) h = h
conclude registered p (ok q) h =
    let d = dictionary registered in
    let s = h.0 in
    (
      s.ordered,
      subst Distinct s.same s.distinct,
      s.own,
      λ n.
          iff→eq (elem n (names q.result)) (elem n (names (enabled_only registered)))
            (λ e. sym (has-dictionary n registered) ∙ own-elem d n q.result s.own e)
            (λ e.
              sym (ap (elem n) s.same)
              ∙ member d (names (sort_by_priority (enabled_only registered))) q n h.3
                  (elem-sort_by_priority n (enabled_only registered) ∙ e)
                  (has-dictionary n registered ∙ e)),
    )

-- `_build_and_sort` always ends within the fuel. It returns the enabled extensions, each name once,
-- each behind all that it requires and behind those of its optional dependencies that are there; or
-- it raises the circular dependency error for an extension that does depend on itself through
-- others, or the missing dependency error for a required dependency that no enabled extension has
-- for its name.
pub build_and_sort-Sorts :
    (registered : List Extension) → Sorts registered (build_and_sort registered)
unfolding build_and_sort
build_and_sort-Sorts registered =
    let d = dictionary registered in
    conclude registered (record { visited = []; result = [] })
      (visit_all d (suc (length (keys d))) (names (sort_by_priority (enabled_only registered)))
        (record { visited = []; result = [] }))
      (Post-visit_all d (dictionary-IsNamed registered) (suc (length (keys d)))
        (names (sort_by_priority (enabled_only registered))) (record { visited = []; result = [] })
        (omega arith) (record { same = refl; ordered = tt; distinct = tt; own = tt }))

-- A rank that falls along every dependency of the enabled extensions, so that the graph has no
-- cycle.
abbrev pub IsRanked : (String → ℕ) → List Extension → Type 0
IsRanked rank registered =
    (n m : String) (x : Extension)
    → get n (dictionary registered) ≡ some x
    → (elem m x.dependencies || elem m x.optional_dependencies) ≡ true
    → rank m < rank n

Leads-rank :
    (rank : String → ℕ) (registered : List Extension)
    → IsRanked rank registered
    → {n m : String} → Leads (dictionary registered) n m
    → rank m < rank n
Leads-rank rank registered h (required {n} {m} x g e) = h n m x g (ground arith)
Leads-rank rank registered h (optional {n} {m} x g e) = h n m x g (ground arith)
Leads-rank rank registered h (through a b) =
    omega (arith, Leads-rank rank registered h a, Leads-rank rank registered h b)

real_has : (d : ByName) (n m : String) (x : Extension) → get m d ≡ none → has m d ≡ true → ⊥
real_has d n m x e f = ground arith

-- If the dependencies have no cycle, as a rank shows that each of them lowers, and every required
-- one is an enabled extension, then the sort succeeds.
pub build_and_sort_succeeds :
    (rank : String → ℕ) (registered : List Extension)
    → IsRanked rank registered
    → ((n m : String) (x : Extension)
        → get n (dictionary registered) ≡ some x
        → elem m x.dependencies ≡ true
        → elem m (names (enabled_only registered)) ≡ true)
    → (order : List Extension) × (build_and_sort registered ≡ ok order)
build_and_sort_succeeds rank registered ranked closed =
    decide_result (build_and_sort registered) (build_and_sort-Sorts registered)
  where
    decide_result :
        (r : Result (List Extension))
        → Sorts registered r
        → (order : List Extension) × (r ≡ ok order)
    decide_result (ok order) h = (order, refl)
    decide_result (err (circular_dependency n)) h =
        absurd (omega (arith, Leads-rank rank registered ranked h))
    decide_result (err (missing_dependency n m)) h = absurd (
        real_has (dictionary registered) n m h.0 h.3
          (has-dictionary m registered ∙ closed n m h.0 h.1 h.2))
    decide_result (err exhausted) h = absurd h
