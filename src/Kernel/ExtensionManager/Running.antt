-- ===== src/Kernel/ExtensionManager/Running.antt =====
-- `initialize_and_start`, `stop_and_dispose` and `_rollback` of kernel/extension_manager.py: which
-- hooks run and in which order.
use sagittarius_engine.Prelude.{
  ℕ, nat_eq, ◌≡◌, refl, sym, ap, ◌∙◌, true, false, Option, none, some, List, [], ◌∷◌, ◌++◌, elem,
  append_assoc, append-nil, All, reverse, Distinct, Bool-cases, inl, inr,
}
use sagittarius_engine.Kernel.Descriptors.{Extension}
use sagittarius_engine.Kernel.ExtensionSort.{build_and_sort}
use sagittarius_engine.Kernel.ExtensionSort
use sagittarius_engine.Kernel.ExtensionManager.{
  Exception, Hook, initialize, start, stop, dispose, Effect, called, emitted, Outcome, returned,
  raised, caught_stopping, caught_initializing, Manager, log, initialized, failed, dispose_each,
  rollback, roll_back_and_raise, initialize_each, start_each, start_sorted, initialize_sorted,
  initialize_and_start, attempt, and_then, raise_after, stop_each, stop_and_dispose,
}
use sagittarius_engine.Kernel.ExtensionManager.Hooks.{
  each, idents, uninitialized, initializing, starting, uninitialized_lem, idents-append,
  initialized_all, initialized_all_nil, initialized_all_cons, answered, responded_lem,
}

module _ (behaves : Hook → ℕ → Option Exception) where
  -- Every exception that a hook of the extension raises is one that stopping catches.
  abbrev pub IsCaught : Hook → Extension → Type 0
  IsCaught hook x = (e : Exception) → behaves hook x.ident ≡ some e → caught_stopping e ≡ true

  abbrev pub Succeeds : Hook → Extension → Type 0
  Succeeds hook x = behaves hook x.ident ≡ none

  abbrev pub tried : Hook → Extension → List Effect
  tried hook x = called hook x.ident ∷ answered hook x (behaves hook x.ident)

  attempt_lem :
      (hook : Hook) (x : Extension) (m : Manager)
      → IsCaught hook x
      → attempt behaves hook x m ≡ (log (tried hook x) m, returned)
  attempt_lem hook x m h = responded_lem hook x m (behaves hook x.ident) h

  dispose_each_lem :
      (xs : List Extension) (m : Manager)
      → All (IsCaught dispose) xs
      → dispose_each behaves xs m ≡ (
        record m { initialized_extensions = []; effects = m.effects ++ each (tried dispose) xs },
        returned,
      )
  unfolding dispose_each
  dispose_each_lem [] m h =
      ap (λ es. (record m { initialized_extensions = []; effects = es }, returned))
        (sym (append-nil m.effects))
  dispose_each_lem (x ∷ xs) m h =
      ap (λ r. and_then r (dispose_each behaves xs)) (attempt_lem dispose x m h.0)
      ∙ dispose_each_lem xs (log (tried dispose x) m) h.1
      ∙ ap (λ es. (record m { initialized_extensions = []; effects = es }, returned))
          (append_assoc m.effects (tried dispose x) (each (tried dispose) xs))

  abbrev pub stopping : Extension → List Effect
  stopping x = tried stop x ++ tried dispose x

  abbrev stopped : Manager → List Effect → Manager × Outcome
  stopped m es =
      (record m { sorted_extensions = []; initialized_extensions = []; effects = es }, returned)

  stop_each_lem :
      (xs : List Extension) (m : Manager)
      → All (IsCaught stop) xs
      → All (IsCaught dispose) xs
      → stop_each behaves xs m ≡ stopped m (m.effects ++ each stopping xs)
  unfolding stop_each
  stop_each_lem [] m h k = ap (stopped m) (sym (append-nil m.effects))
  stop_each_lem (x ∷ xs) m h k =
      ap (λ r. and_then r (λ m'. and_then (attempt behaves dispose x m') (stop_each behaves xs)))
        (attempt_lem stop x m h.0)
      ∙ ap (λ r. and_then r (stop_each behaves xs))
          (attempt_lem dispose x (log (tried stop x) m) k.0)
      ∙ stop_each_lem xs (log (tried dispose x) (log (tried stop x) m)) h.1 k.1
      ∙ ap (stopped m) (
          append_assoc (m.effects ++ tried stop x) (tried dispose x) (each stopping xs)
          ∙ append_assoc m.effects (tried stop x) (tried dispose x ++ each stopping xs)
          ∙ ap (λ es. m.effects ++ es)
              (sym (append_assoc (tried stop x) (tried dispose x) (each stopping xs))))

  start_each_lem :
      (xs : List Extension) (m : Manager)
      → All (Succeeds start) xs
      → start_each behaves xs m ≡ (log (each starting xs) m, returned)
  unfolding start_each
  start_each_lem [] m h =
      ap (λ es. (record m { effects = es }, returned)) (sym (append-nil m.effects))
  start_each_lem (x ∷ xs) m h =
      rw (start_each, h.0)
        (start_each_lem xs (log (emitted start x.name ∷ []) (log (called start x.ident ∷ []) m)) h.1
          ∙ ap (λ es. (record m { effects = es }, returned))
              (append_assoc (m.effects ++ called start x.ident ∷ []) (emitted start x.name ∷ [])
                  (each starting xs)
                ∙ append_assoc m.effects (called start x.ident ∷ [])
                    (emitted start x.name ∷ each starting xs)))

  initialize_each_lem :
      (xs rest : List Extension) (m : Manager)
      → Distinct (idents xs)
      → All (Succeeds initialize) xs
      → initialize_each behaves (xs ++ rest) m
        ≡ initialize_each behaves rest
            (initialized_all (uninitialized (idents m.initialized_extensions) xs) m)
  unfolding initialize_each
  initialize_each_lem [] rest m d h = ap (initialize_each behaves rest) (initialized_all_nil m)
  initialize_each_lem (x ∷ xs) rest m d h =
      elim (Bool-cases (elem x.ident (idents m.initialized_extensions))) [
        | inl there ↦ rw there (initialize_each_lem xs rest m d.1 h.1)
        | inr new_one ↦ rw new_one (
            rw h.0 (
              initialize_each_lem xs rest (initialized x m) d.1 h.1
              ∙ ap (initialize_each behaves rest) (
                  ap (λ ys. initialized_all ys (initialized x m))
                    (ap (λ seen. uninitialized seen xs)
                        (idents-append m.initialized_extensions (x ∷ []))
                      ∙ uninitialized_lem x.ident (idents m.initialized_extensions) xs d.0)
                  ∙ initialized_all_cons x (uninitialized (idents m.initialized_extensions) xs) m)))
      ]

  -- If the sort gives an order of distinct extensions and no initialize or start hook raises, then
  -- `initialize_and_start` returns with the order stored. In that order it initializes the
  -- extensions that are not initialized yet, and only then starts all of them, each once.
  pub initialize_and_start_lem :
      (m : Manager) (order : List Extension)
      → build_and_sort m.registered_extensions ≡ ExtensionSort.ok order
      → Distinct (idents order)
      → All (Succeeds initialize) order
      → All (Succeeds start) order
      → initialize_and_start behaves m ≡ (
        record m {
          sorted_extensions = order;
          initialized_extensions =
              m.initialized_extensions ++ uninitialized (idents m.initialized_extensions) order;
          effects =
              (m.effects
                ++ each initializing (uninitialized (idents m.initialized_extensions) order))
              ++ each starting order;
        },
        returned,
      )
  unfolding initialize_and_start initialize_sorted start_sorted
  initialize_and_start_lem m order sorted d i s =
      let m' : Manager = record m { sorted_extensions = order } in
      let fresh : List Extension = uninitialized (idents m.initialized_extensions) order in
      ap (λ r. initialize_sorted behaves r m) sorted
      ∙ ap (start_sorted behaves) (
          ap (λ xs. initialize_each behaves xs m') (sym (append-nil order))
          ∙ initialize_each_lem order [] m' d i)
      ∙ start_each_lem order (initialized_all fresh m') s

  roll_back_lem :
      (e : Exception) (m : Manager)
      → All (IsCaught dispose) (reverse m.initialized_extensions)
      → roll_back_and_raise behaves e m ≡ (
        record m {
          initialized_extensions = [];
          effects = m.effects ++ each (tried dispose) (reverse m.initialized_extensions);
        },
        raised e,
      )
  unfolding roll_back_and_raise rollback
  roll_back_lem e m h = ap (raise_after e) (dispose_each_lem (reverse m.initialized_extensions) m h)

  initialize_each_fails :
      (x : Extension) (xs : List Extension) (m : Manager) (e : Exception)
      → elem x.ident (idents m.initialized_extensions) ≡ false
      → behaves initialize x.ident ≡ some e
      → caught_initializing e ≡ true
      → initialize_each behaves (x ∷ xs) m ≡ roll_back_and_raise behaves e (failed x m)
  unfolding initialize_each
  initialize_each_fails x xs m e new_one fails caught = rw new_one (rw fails (rw caught refl))

  -- If in the sorted order the extensions before `x` initialize and `x` raises an exception that
  -- the manager catches, then `initialize_and_start` raises it and starts nothing. It has disposed
  -- everything that was initialized, the last one first, and forgotten it; the dispose hooks
  -- raise at most what the rollback catches.
  pub initialize_and_start_rolls_back :
      (m : Manager) (xs : List Extension) (x : Extension) (ys : List Extension) (e : Exception)
      → build_and_sort m.registered_extensions ≡ ExtensionSort.ok (xs ++ x ∷ ys)
      → Distinct (idents xs)
      → All (Succeeds initialize) xs
      → elem x.ident
          (idents (m.initialized_extensions ++ uninitialized (idents m.initialized_extensions) xs))
        ≡ false
      → behaves initialize x.ident ≡ some e
      → caught_initializing e ≡ true
      → All
          (IsCaught dispose)
          (reverse (m.initialized_extensions ++ uninitialized (idents m.initialized_extensions) xs))
      → initialize_and_start behaves m ≡ (
        record m {
          sorted_extensions = xs ++ x ∷ ys;
          initialized_extensions = [];
          effects =
              ((m.effects ++ each initializing (uninitialized (idents m.initialized_extensions) xs))
                ++ initializing x)
              ++ each (tried dispose) (
                  reverse (
                    m.initialized_extensions
                    ++ uninitialized (idents m.initialized_extensions) xs));
        },
        raised e,
      )
  unfolding initialize_and_start initialize_sorted start_sorted
  initialize_and_start_rolls_back m xs x ys e sorted d i new_one fails caught disposes =
      let m' : Manager = record m { sorted_extensions = xs ++ x ∷ ys } in
      let fresh : List Extension = uninitialized (idents m.initialized_extensions) xs in
      ap (λ r. initialize_sorted behaves r m) sorted
      ∙ ap (start_sorted behaves) (
          initialize_each_lem xs (x ∷ ys) m' d i
          ∙ initialize_each_fails x ys (initialized_all fresh m') e new_one fails caught
          ∙ roll_back_lem e (failed x (initialized_all fresh m')) disposes)

  -- If the stop and dispose hooks of the sorted extensions raise at most what the manager catches,
  -- then `stop_and_dispose` returns. Each of these extensions has been stopped and then disposed
  -- before the one ahead of it in the order, and the manager has forgotten them all.
  pub stop_and_dispose_lem :
      (m : Manager)
      → All (IsCaught stop) (reverse m.sorted_extensions)
      → All (IsCaught dispose) (reverse m.sorted_extensions)
      → stop_and_dispose behaves m ≡ (
        record m {
          sorted_extensions = [];
          initialized_extensions = [];
          effects = m.effects ++ each stopping (reverse m.sorted_extensions);
        },
        returned,
      )
  unfolding stop_and_dispose
  stop_and_dispose_lem m h k = stop_each_lem (reverse m.sorted_extensions) m h k
