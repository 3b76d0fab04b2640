-- ===== src/Kernel/ExtensionManager/Hooks.antt =====
-- The effects of the hooks in kernel/extension_manager.py, and the managers that they leave.
use sagittarius_engine.Prelude.{
  ℕ, nat_eq, ◌≡◌, refl, sym, ap, ◌∙◌, true, false, not, Option, none, some, List, [], ◌∷◌, ◌++◌,
  elem, elem-append, keep, arith, ==_iff, append_assoc, append-nil, map,
}
use sagittarius_engine.Kernel.Descriptors.{Extension}
use sagittarius_engine.Kernel.ExtensionManager.{
  Exception, Hook, initialize, start, Effect, called, emitted, returned, caught_stopping, Manager,
  log, initialized, responded,
}

-- The effects of a list of extensions, one after the other.
abbrev pub each : (Extension → List Effect) → List Extension → List Effect
each f [] = []
each f (x ∷ xs) = f x ++ each f xs

abbrev pub idents : List Extension → List ℕ
idents = map (λ x. x.ident)

-- The extensions that `initialize_and_start` still has to initialize.
abbrev pub uninitialized : List ℕ → List Extension → List Extension
uninitialized seen = keep (λ x. not (elem x.ident seen))

abbrev pub initializing : Extension → List Effect
initializing x = emitted initialize x.name ∷ called initialize x.ident ∷ []

abbrev pub starting : Extension → List Effect
starting x = called start x.ident ∷ emitted start x.name ∷ []

pub uninitialized_lem :
    (i : ℕ) (seen : List ℕ) (xs : List Extension)
    → elem i (idents xs) ≡ false
    → uninitialized (seen ++ i ∷ []) xs ≡ uninitialized seen xs
uninitialized_lem i seen [] h = refl
uninitialized_lem i seen (x ∷ xs) h = ground (
  arith,
  uninitialized_lem i seen xs,
  elem-append x.ident seen (i ∷ []),
  ==_iff x.ident i,
  ==_iff i x.ident,
)

pub idents-append : (xs ys : List Extension) → idents (xs ++ ys) ≡ idents xs ++ idents ys
idents-append [] ys = refl
idents-append (x ∷ xs) ys = ap (◌∷◌ x.ident) (idents-append xs ys)

-- Extensions that initialize, one after the other.
abbrev pub initialized_all : List Extension → Manager → Manager
initialized_all xs m = record m {
  initialized_extensions = m.initialized_extensions ++ xs;
  effects = m.effects ++ each initializing xs;
}

pub initialized_all_nil : (m : Manager) → m ≡ initialized_all [] m
initialized_all_nil m =
    ap (λ l. record m { initialized_extensions = l }) (sym (append-nil m.initialized_extensions))
    ∙ ap (λ es. record m { initialized_extensions = m.initialized_extensions ++ []; effects = es })
        (sym (append-nil m.effects))

pub initialized_all_cons :
    (x : Extension) (xs : List Extension) (m : Manager)
    → initialized_all xs (initialized x m) ≡ initialized_all (x ∷ xs) m
initialized_all_cons x xs m =
    ap
      (λ l. record m {
        initialized_extensions = l;
        effects = (m.effects ++ initializing x) ++ each initializing xs;
      })
      (append_assoc m.initialized_extensions (x ∷ []) xs)
    ∙ ap
        (λ es. record m {
          initialized_extensions = m.initialized_extensions ++ x ∷ xs;
          effects = es;
        })
        (append_assoc m.effects (initializing x) (each initializing xs))

-- The effects that follow a call whose exception, if any, is caught.
abbrev pub answered : Hook → Extension → Option Exception → List Effect
answered hook x none = emitted hook x.name ∷ []
answered hook x (some e) = []

pub responded_lem :
    (hook : Hook) (x : Extension) (m : Manager) (response : Option Exception)
    → ((e : Exception) → response ≡ some e → caught_stopping e ≡ true)
    → responded hook x (log (called hook x.ident ∷ []) m) response
      ≡ (log (called hook x.ident ∷ answered hook x response) m, returned)
responded_lem hook x m none h =
    ap (λ es. (record m { effects = es }, returned))
      (append_assoc m.effects (called hook x.ident ∷ []) (emitted hook x.name ∷ []))
responded_lem hook x m (some e) h = rw (h e refl) refl
