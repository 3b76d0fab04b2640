-- ===== src/Kernel/ExtensionSort/Soundness.antt =====
-- What `dfs` of kernel/extension_manager.py returns, on every outcome: an order in which
-- dependencies come first, or an error that names a real cycle or a real gap.
use sagittarius_engine.Prelude.{
  ℕ, zero, suc, ◌<◌, ◌≡◌, sym, subst, String, string_eq, true, false, none, some, List, [], ◌∷◌,
  elem, length, arith, ==_iff, All, All-map, elem-append, elem-All, get, has, keys, if◌then◌else◌,
  Bool-cases, Option-cases, inl, inr, get_absent,
}
use sagittarius_engine.Kernel.Descriptors.{Extension}
use sagittarius_engine.Kernel.ExtensionSort.{
  Result, ok, err, ◌>>=◌, Progress, ByName, visit_required, visit_optional, finish, enter, dfs,
  visit_all,
}
use sagittarius_engine.Kernel.ExtensionSort.Order.{
  Leads, required, optional, through, IsReal, IsSound, IsNamed, IsSound-finish,
}
use sagittarius_engine.Kernel.ExtensionSort.Fuel.{room, room-le, room-cons-lt}

-- A list fulfils what each of its members does.
All_of_elem :
    (P : String → Type 0) (ns : List String) → ((m : String) → elem m ns ≡ true → P m) → All P ns
All_of_elem P [] f = tt
All_of_elem P (n ∷ ns) f =
    (f n (ground (arith, ==_iff n n)), All_of_elem P ns (λ m e. f m (ground arith)))

module _ (d : ByName) where
  abbrev pub Unvisited : List String → Progress → Type 0
  Unvisited path p = All (λ n. elem n p.visited ≡ false) path

  abbrev pub Grown : Progress → Progress → Type 0
  Grown p q = (n : String) → elem n p.visited ≡ true → elem n q.visited ≡ true

  -- What a call leaves, begun at `p` with `path` being visited, for the names that it had to visit.
  abbrev pub Post : List String → (Progress → Type 0) → Progress → Result Progress → Type 0
  Post path Done p (ok q) = IsSound d q × Unvisited path q × Grown p q × Done q
  Post path Done p (err e) = IsReal d e

  abbrev pub Visited : String → Progress → Type 0
  Visited n q = has n d ≡ true → elem n q.visited ≡ true

  -- Every name that is being visited leads to `n`.
  abbrev LeadTo : List String → String → Type 0
  LeadTo path n = All (λ m. Leads d m n) path

  abbrev Visit : Type 0
  Visit = String → Progress → Result Progress

  -- A correct `visit`, for the names to which the path leads.
  abbrev IsCorrect : List String → Visit → Type 0
  IsCorrect path visit =
      (n : String) (p : Progress)
      → LeadTo path n
      → IsSound d p
      → Unvisited path p
      → Post path (Visited n) p (visit n p)

  Post-weaken :
      (path : List String) (H T : Progress → Type 0) (p : Progress) (r : Result Progress)
      → ((q : Progress) → H q → T q)
      → Post path H p r
      → Post path T p r
  Post-weaken path H T p (err e) f h = h
  Post-weaken path H T p (ok q) f h = (h.0, h.1, h.2, f q h.3)

  module _ (path : List String) (visit : Visit) (correct : IsCorrect path visit) where
    Post-bind :
        (H T : Progress → Type 0) (next : Progress → Result Progress) (p : Progress)
        (r : Result Progress)
        → ((q o : Progress) → Grown q o → H q → H o)
        → Post path H p r
        → ((q : Progress) → IsSound d q → Unvisited path q → Post path T q (next q))
        → Post path (λ o. H o × T o) p (r >>= next)
    Post-bind H T next p (err e) mono h k = h
    Post-bind H T next p (ok q) mono h k = join (next q) (k q h.0 h.1)
      where
        join : (o : Result Progress) → Post path T q o → Post path (λ v. H v × T v) p o
        join (err e) g = g
        join (ok o) g = (g.0, g.1, (λ m v. g.2 m (h.2 m v)), (mono q o g.2 h.3, g.3))

    Post-visit_required :
        (name : String) (x : Extension) (deps : List String) (p : Progress)
        → get name d ≡ some x
        → All (λ m. (elem m x.dependencies ≡ true) × LeadTo path m) deps
        → IsSound d p
        → Unvisited path p
        → Post path
            (λ q. All (λ m. elem m q.visited ≡ true) deps)
            p
            (visit_required d visit name deps p)
    unfolding visit_required
    Post-visit_required name x [] p g own s u = (s, u, (λ m v. v), tt)
    Post-visit_required name x (dep ∷ deps) p g own s u = elim (Bool-cases (has dep d)) [
      | inl there ↦ rw there (
          Post-bind (λ q. elem dep q.visited ≡ true) (λ q. All (λ m. elem m q.visited ≡ true) deps)
            (visit_required d visit name deps) p (visit dep p) (λ q o grown v. grown dep v)
            (Post-weaken path (Visited dep) (λ q. elem dep q.visited ≡ true) p (visit dep p)
              (λ q v. v there) (correct dep p own.0.1 s u))
            (λ q sq uq. Post-visit_required name x deps q g own.1 sq uq))
      | inr gone ↦ rw gone (x, g, own.0.0, ground arith)
    ]

    Post-visit_optional :
        (deps : List String) (p : Progress)
        → All (λ m. LeadTo path m) deps
        → IsSound d p
        → Unvisited path p
        → Post path (λ q. All (λ m. Visited m q) deps) p (visit_optional d visit deps p)
    unfolding visit_optional
    Post-visit_optional [] p own s u = (s, u, (λ m v. v), tt)
    Post-visit_optional (dep ∷ deps) p own s u =
        let here = visit dep p >>= visit_optional d visit deps in
        let skip = visit_optional d visit deps p in
        let done : Progress → Type 0 = λ q. All (λ m. Visited m q) (dep ∷ deps) in
        elim (Bool-cases (has dep d)) [
          | inl there ↦
              subst (λ b. Post path done p (if b then here else skip)) (sym there)
                (Post-bind (Visited dep) (λ q. All (λ m. Visited m q) deps)
                  (visit_optional d visit deps) p (visit dep p) (λ q o grown v e. grown dep (v e))
                  (correct dep p own.0 s u) (λ q sq uq. Post-visit_optional deps q own.1 sq uq))
          | inr gone ↦
              subst (λ b. Post path done p (if b then here else skip)) (sym gone)
                (Post-weaken path (λ q. All (λ m. Visited m q) deps) done p skip
                  (λ q v. ((λ e. absurd (cc)), v)) (Post-visit_optional deps p own.1 s u))
        ]

  Unvisited-finish :
      (path : List String) (name : String) (x : Extension) (p : Progress)
      → elem name path ≡ false
      → Unvisited path p
      → Unvisited path (finish d name x p)
  unfolding finish
  Unvisited-finish [] name x p a u = tt
  Unvisited-finish (n ∷ path) name x p a u = (
    ground (arith, u.0, elem-append n p.visited (name ∷ []), ==_iff name n, ==_iff n name),
    Unvisited-finish path name x p (ground arith) u.1,
  )

  module _ (named : IsNamed d) where
    module _ (path : List String) (visit : Visit) (name : String) (p : Progress)
        (correct : IsCorrect (name ∷ path) visit) (a : elem name path ≡ false)
        (v : elem name p.visited ≡ false) (l : LeadTo path name) (s : IsSound d p)
        (u : Unvisited path p) (x : Extension) (g : get name d ≡ some x) where
      abbrev inner : List String
      inner = name ∷ path

      leads : (m : String) → Leads d name m → LeadTo inner m
      leads m step = (step, All-map (λ k to. through to step) path l)

      abbrev Required : Progress → Type 0
      Required q = All (λ m. elem m q.visited ≡ true) x.dependencies

      abbrev Optional : Progress → Type 0
      Optional q = All (λ m. Visited m q) x.optional_dependencies

      Required-Grown : (q o : Progress) → Grown q o → Required q → Required o
      Required-Grown q o grown = All-map grown x.dependencies

      close :
          (o : Result Progress)
          → Post inner (λ r. Required r × Optional r) p o
          → Post path (Visited name) p (o >>= λ r. ok (finish d name x r))
      unfolding finish
      close (err e) h = h
      close (ok r) h = (
        IsSound-finish d name x r (named name x g) g h.0 h.1.0
            (record { required_seen = h.3.0; optional_seen = h.3.1 }),
        Unvisited-finish path name x r a h.1.1,
        (λ m w. ground (arith, elem-append m r.visited (name ∷ []), h.2 m w)),
        (λ e. ground (arith, elem-append name r.visited (name ∷ []), ==_iff name name)),
      )

      then_optional :
          (o : Result Progress)
          → Post inner Required p o
          → Post path (Visited name) p (
              o >>= λ q.
              visit_optional d visit x.optional_dependencies q >>= λ r. ok (finish d name x r))
      then_optional (err e) h = h
      then_optional (ok q) h = close (visit_optional d visit x.optional_dependencies q) (
          Post-bind inner visit correct Required Optional
            (visit_optional d visit x.optional_dependencies) p (ok q) Required-Grown h
            (λ q' sq uq.
              Post-visit_optional inner visit correct x.optional_dependencies q'
                (All_of_elem _ x.optional_dependencies (λ m e. leads m (optional x g e))) sq uq))

      Post-enter-some : Post path (Visited name) p (enter d visit name (some x) p)
      unfolding enter
      Post-enter-some = then_optional (visit_required d visit name x.dependencies p) (
          Post-visit_required inner visit correct name x x.dependencies p g
            (All_of_elem _ x.dependencies (λ m e. (e, leads m (required x g e)))) s (v, u))

    Post-enter-none :
        (path : List String) (visit : Visit) (n : String) (p : Progress)
        → IsSound d p
        → Unvisited path p
        → get n d ≡ none
        → Post path (Visited n) p (enter d visit n none p)
    unfolding enter
    Post-enter-none path visit n p s u gone = (s, u, (λ m w. w), λ e. absurd (ground arith))

    elem-keys : (n : String) (x : Extension) → get n d ≡ some x → elem n (keys d) ≡ true
    elem-keys n x g = ground (arith, get_absent n d)

    -- Fuel for one call more than there are names outside the path.
    Post-dfs :
        (fuel : ℕ) (path : List String)
        → room (keys d) path < fuel
        → IsCorrect path (dfs d fuel path)
    unfolding dfs
    Post-dfs zero path h n p l s u = absurd (omega arith)
    Post-dfs (suc fuel) path h n p l s u =
        let body = enter d (dfs d fuel (n ∷ path)) n (get n d) p in
        elim (Bool-cases (elem n path)) [
          | inl busy ↦ rw busy (elem-All (λ m. Leads d m n) n path l busy)
          | inr free ↦ rw free (elim (Bool-cases (elem n p.visited)) [
            | inl old ↦ rw old (s, u, (λ m w. w), (λ e. old))
            | inr fresh ↦ rw fresh (elim (Option-cases (get n d)) [
              | inl gone ↦
                  subst (λ o. Post path (Visited n) p (enter d (dfs d fuel (n ∷ path)) n o p))
                    (sym gone) (Post-enter-none path (dfs d fuel (n ∷ path)) n p s u gone)
              | inr (x, g) ↦
                  subst (λ o. Post path (Visited n) p (enter d (dfs d fuel (n ∷ path)) n o p))
                    (sym g)
                    (Post-enter-some path (dfs d fuel (n ∷ path)) n p
                      (Post-dfs fuel (n ∷ path)
                        (omega (arith, room-cons-lt (keys d) path n (elem-keys n x g) free)))
                      free fresh l s u x g)
            ])
          ])
        ]

    -- The loop over the names, from any sound point.
    pub Post-visit_all :
        (fuel : ℕ) (ns : List String) (p : Progress)
        → length (keys d) < fuel
        → IsSound d p
        → Post [] (λ q. All (λ m. Visited m q) ns) p (visit_all d fuel ns p)
    unfolding visit_all
    Post-visit_all fuel [] p h s = (s, tt, (λ m w. w), tt)
    Post-visit_all fuel (n ∷ ns) p h s =
        let correct = Post-dfs fuel [] (omega (arith, room-le (keys d) [])) in
        Post-bind [] (dfs d fuel []) correct (Visited n) (λ q. All (λ m. Visited m q) ns)
          (visit_all d fuel ns) p (dfs d fuel [] n p) (λ q o grown w e. grown n (w e))
          (correct n p tt s tt) (λ q sq uq. Post-visit_all fuel ns q h sq)
