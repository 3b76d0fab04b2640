-- ===== src/Runtime/ResourceScope.antt =====
-- runtime/tasks/resource_scope.py: resources of one run, disposed together in LIFO order. A
-- resource is named by its handle. `raises` says which disposals raise, and `registers` which
-- resources a disposal registers on the same scope, which it may, since the lock is not held.
use sagittarius_engine.Prelude.{
  ℕ, zero, suc, ◌<◌, ◌≡◌, ◌∙◌, refl, Bool, Option, none, some, List, [], ◌∷◌, ◌++◌, keep,
  keep-append, if◌then◌else◌, arith, length, append_assoc, append-nil,
}

-- `_registrations`, the last registered first.
pub record ResourceScope : Type 0 where
  pub registrations : List ℕ

abbrev pub new : ResourceScope
new = record { registrations = [] }

unfoldable pub add : ℕ → ResourceScope → ResourceScope
add h s = record { registrations = h ∷ s.registrations }

-- What a finished `dispose_all` leaves: the scope, the disposals made, in order, and the `errors`
-- that an ExceptionGroup raises when there are any.
pub record Disposal : Type 0 where
  pub scope : ResourceScope
  pub disposed : List ℕ
  pub errors : List ℕ

module _ (raises : ℕ → Bool) (registers : ℕ → List ℕ) where
  add_all : List ℕ → ResourceScope → ResourceScope
  unfolding add
  add_all [] s = s
  add_all (h ∷ hs) s = add_all hs (add h s)

  -- The `while True` loop; `none` where the fuel runs out.
  loop : ℕ → List ℕ → ResourceScope → List ℕ → List ℕ → Option Disposal
  unfolding add_all
  loop zero _ s disposed errors = none
  loop (suc fuel) [] s disposed errors =
      some (record { scope = s; disposed = disposed; errors = errors })
  loop (suc fuel) (h ∷ rest) s disposed errors =
      let s' = add_all (registers h) (record { registrations = rest }) in
      loop fuel s'.registrations s' (disposed ++ h ∷ [])
        (if raises h then errors ++ h ∷ [] else errors)

  unfoldable pub dispose_all : ℕ → ResourceScope → Option Disposal
  unfolding loop
  dispose_all fuel s = loop fuel s.registrations s [] []

  loop_quiet :
      (quiet : (h : ℕ) → registers h ≡ [])
      → (fuel : ℕ) (rs : List ℕ) (s : ResourceScope) (disposed errors : List ℕ)
      → s.registrations ≡ rs
      → length rs < fuel
      → loop fuel rs s disposed errors
        ≡ some
            (record { scope = new; disposed = disposed ++ rs; errors = errors ++ keep raises rs })
  unfolding loop
  loop_quiet quiet zero rs s disposed errors e lt = absurd (omega arith)
  loop_quiet quiet (suc fuel) [] s disposed errors e lt =
      ground (arith, append-nil disposed, append-nil errors)
  loop_quiet quiet (suc fuel) (h ∷ rest) s disposed errors e lt = rw (quiet h) (
      loop_quiet quiet fuel rest (record { registrations = rest }) (disposed ++ h ∷ [])
        (if raises h then errors ++ h ∷ [] else errors) refl (omega arith)
      ∙ ground (
        arith,
        append_assoc disposed (h ∷ []) rest,
        append_assoc errors (h ∷ []) (keep raises rest),
      ))

  -- Where the disposals register nothing: `dispose_all` ends, whichever of them raise, within one
  -- round more than there are resources; each resource is disposed once, the last registered
  -- first; the errors are those of the disposals that raised, in that order; the scope is empty,
  -- and a second call disposes nothing and raises nothing.
  pub dispose_all_lifo :
      (quiet : (h : ℕ) → registers h ≡ []) (s : ResourceScope) (fuel : ℕ)
      → length s.registrations < fuel
      → (dispose_all fuel s
          ≡ some (record {
            scope = new;
            disposed = s.registrations;
            errors = keep raises s.registrations;
          }))
        × (dispose_all 1 new ≡ some (record { scope = new; disposed = []; errors = [] }))
  unfolding dispose_all
  dispose_all_lifo quiet s fuel lt = (loop_quiet quiet fuel s.registrations s [] [] refl lt, refl)

  loop_emptied :
      (fuel : ℕ) (rs : List ℕ) (s : ResourceScope) (disposed errors : List ℕ) (d : Disposal)
      → s.registrations ≡ rs
      → loop fuel rs s disposed errors ≡ some d
      → d.scope.registrations ≡ []
  unfolding loop
  loop_emptied zero rs s disposed errors d e r = absurd (cc)
  loop_emptied (suc fuel) [] s disposed errors d e r = ground arith
  loop_emptied (suc fuel) (h ∷ rest) s disposed errors d e r =
      let s' = add_all (registers h) (record { registrations = rest }) in
      loop_emptied fuel s'.registrations s' (disposed ++ h ∷ [])
        (if raises h then errors ++ h ∷ [] else errors) d refl r

  loop_errors :
      (fuel : ℕ) (rs : List ℕ) (s : ResourceScope) (disposed errors : List ℕ) (d : Disposal)
      → errors ≡ keep raises disposed
      → loop fuel rs s disposed errors ≡ some d
      → d.errors ≡ keep raises d.disposed
  unfolding loop
  loop_errors zero rs s disposed errors d e r = absurd (cc)
  loop_errors (suc fuel) [] s disposed errors d e r = ground arith
  loop_errors (suc fuel) (h ∷ rest) s disposed errors d e r =
      let s' = add_all (registers h) (record { registrations = rest }) in
      loop_errors fuel s'.registrations s' (disposed ++ h ∷ [])
        (if raises h then errors ++ h ∷ [] else errors) d
        (ground (arith, keep-append raises disposed (h ∷ []), append-nil (keep raises disposed))) r

  -- Whatever the disposals register: a `dispose_all` that ends leaves the scope empty, and its
  -- errors are those of exactly the disposals that raised.
  pub dispose_all_ends :
      (fuel : ℕ) (s : ResourceScope) (d : Disposal)
      → dispose_all fuel s ≡ some d
      → (d.scope.registrations ≡ []) × (d.errors ≡ keep raises d.disposed)
  unfolding dispose_all
  dispose_all_ends fuel s d e = (
    loop_emptied fuel s.registrations s [] [] d refl e,
    loop_errors fuel s.registrations s [] [] d refl e,
  )
