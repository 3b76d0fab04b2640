-- ===== src/Container/Scopes.antt =====
-- Scopes of a `StdLibContainer`.
use sagittarius_engine.Prelude.{
  ℕ, ◌+◌, ◌≡◌, refl, ap, ◌∙◌, String, string_eq, true, false, none, some, List, [], ◌∷◌, ◌++◌,
  length, length-append, ==_refl, Dict, get, put, get-put, arith,
}
use sagittarius_engine.Container.{ClassInfo, StdLibContainer, found, enter_scope, exit_scope}
use sagittarius_engine.Container.Resolve.{
  needs_nothing, call_bare, construct, resolve, resolve_scoped,
}

-- `concrete()` returns an object.
pub record IsBare (info : ClassInfo) : Type 0 where
  pub concrete : info.is_abstract ≡ false
  pub bare : needs_nothing info.init ≡ true
  pub quiet : info.raises ≡ false

-- The container after `t()`.
abbrev made : String → StdLibContainer → StdLibContainer
made t c = record c { built = c.built ++ record { cls = t; args = [] } ∷ [] }

-- The container after the first resolution of `a` in a new scope, which made a `t`.
abbrev pub resolved : String → String → StdLibContainer → StdLibContainer
resolved a t c = record (made t (enter_scope c)) { scopes = put a (length c.built) [] ∷ c.scopes }

module _ (classes : Dict String ClassInfo) (fuel : ℕ) (a t : String) (info : ClassInfo)
    (known : get t classes ≡ some info) (bare : IsBare info) where
  call_bare_lem :
      (c : StdLibContainer)
      → call_bare classes t (get t classes) c ≡ some (found (length c.built), made t c)
  unfolding construct
  call_bare_lem c = rw (known, bare.concrete, bare.bare, known, bare.quiet)

  resolve_new :
      (c : StdLibContainer) (s : Dict String ℕ) (ss : List (Dict String ℕ))
      → c.scopes ≡ s ∷ ss
      → get a c.scoped_registry ≡ some t
      → get a s ≡ none
      → resolve classes fuel a c
        ≡ some
            (found (length c.built), record (made t c) { scopes = put a (length c.built) s ∷ ss })
  unfolding resolve resolve_scoped
  resolve_new c s ss open_scope registered new =
      rw (open_scope, registered, new, call_bare_lem (record c { scopes = s ∷ ss }))

  -- The container in whose newest scope `a` is the object `i`.
  resolve_in_scope :
      (c : StdLibContainer) (s : Dict String ℕ) (ss : List (Dict String ℕ)) (i : ℕ)
      → c.scopes ≡ s ∷ ss
      → get a c.scoped_registry ≡ some t
      → get a s ≡ some i
      → resolve classes fuel a c ≡ some (found i, c)
  unfolding resolve resolve_scoped
  resolve_in_scope c s ss i open_scope registered there = rw (open_scope, registered, there)

  -- A type with a scoped class that can be called without arguments. The first resolution in a new
  -- scope makes an object, the next one in that scope returns the same; leaving the scope brings
  -- back the scopes that were open and their number; and a scope entered after that gets an object
  -- of its own.
  pub scope_lem :
      (c : StdLibContainer)
      → get a c.scoped_registry ≡ some t
      → (resolve classes fuel a (enter_scope c) ≡ some (found (length c.built), resolved a t c))
        × (resolve classes fuel a (resolved a t c) ≡ some (found (length c.built), resolved a t c))
        × ((exit_scope (resolved a t c)).scopes ≡ c.scopes)
        × ((exit_scope (resolved a t c)).open_scopes ≡ c.open_scopes)
        × (resolve classes fuel a (enter_scope (exit_scope (resolved a t c)))
            ≡ some (found (length c.built + 1), resolved a t (exit_scope (resolved a t c))))
  unfolding enter_scope exit_scope get put
  scope_lem c registered = (
    resolve_new (enter_scope c) [] c.scopes refl registered refl,
    resolve_in_scope (resolved a t c) (put a (length c.built) []) c.scopes (length c.built) refl
        registered (get-put a a (length c.built) [] ∙ rw (==_refl a)),
    refl,
    omega arith,
    resolve_new (enter_scope (exit_scope (resolved a t c))) [] c.scopes refl registered refl
        ∙ ap (λ n. some (found n, resolved a t (exit_scope (resolved a t c))))
            (length-append c.built (record { cls = t; args = [] } ∷ [])),
  )
