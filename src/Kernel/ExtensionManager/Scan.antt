-- ===== src/Kernel/ExtensionManager/Scan.antt =====
-- `_try_initialize_available` of kernel/extension_manager.py: in which order it initializes, and
-- what a round leaves pending.
use sagittarius_engine.Prelude.{
  ℕ, ◌+◌, ◌<◌, ◌≡◌, refl, sym, ap, subst, ◌∙◌, String, string_eq, true, false, Option, none, some,
  List, [], ◌∷◌, ◌++◌, elem, elem-append, length, arith, ==_refl, append_assoc, append-nil, All,
  if◌then◌else◌, Bool-cases, inl, inr, ◌⊎◌,
}
use sagittarius_engine.Kernel.Descriptors.{Extension, names}
use sagittarius_engine.Kernel.ExtensionManager.{
  Exception, Hook, initialize, returned, Manager, Round, deps_satisfied, initialized, after_try,
  keep_pending, made_progress, scan,
}

-- Each extension is behind all its dependencies, the optional ones too.
abbrev pub IsInOrder : List String → List Extension → Type 0
IsInOrder known [] = Unit
IsInOrder known (x ∷ xs) = (deps_satisfied known x ≡ true) × IsInOrder (known ++ x.name ∷ []) xs

pub IsInOrder-append :
    (known : List String) (xs ys : List Extension)
    → IsInOrder known xs
    → IsInOrder (known ++ names xs) ys
    → IsInOrder known (xs ++ ys)
IsInOrder-append known [] ys h k = subst (λ n. IsInOrder n ys) (append-nil known) k
IsInOrder-append known (x ∷ xs) ys h k = (
  h.0,
  IsInOrder-append (known ++ x.name ∷ []) xs ys h.1
      (subst (λ n. IsInOrder n ys) (sym (append_assoc known (x.name ∷ []) (names xs))) k),
)

pub names-append : (xs ys : List Extension) → names (xs ++ ys) ≡ names xs ++ names ys
names-append [] ys = refl
names-append (x ∷ xs) ys = ap (◌∷◌ x.name) (names-append xs ys)

-- An extension that no further round can initialize.
abbrev pub IsSettledBy : List String → Extension → Type 0
IsSettledBy known x = (elem x.name known ≡ true) ⊎ (deps_satisfied known x ≡ false)

-- What a round leaves.
pub record Scanned (pending : List Extension) (m : Manager) (known : List String) (r : Round)
    : Type 1 where
  pub fresh : List Extension
  pub appended : r.manager.initialized_extensions ≡ m.initialized_extensions ++ fresh
  pub learnt : r.known ≡ known ++ names fresh
  pub in_order : IsInOrder known fresh
  pub registered : r.manager.registered_extensions ≡ m.registered_extensions
  pub fewer : r.outcome ≡ returned → length r.next_pending + length fresh ≡ length pending
  pub progress : r.initialized_any ≡ false → (fresh ≡ []) × (r.outcome ≡ returned)
  pub moved : r.outcome ≡ returned → r.initialized_any ≡ true → 0 < length fresh
  pub covers :
      (P : Extension → Type 0)
      → r.outcome ≡ returned
      → All P r.next_pending
      → All (λ x. (elem x.name r.known ≡ true) ⊎ P x) pending
  pub blocked : r.initialized_any ≡ false → All (λ x. deps_satisfied known x ≡ false) r.next_pending

Scanned-keep_pending :
    (x : Extension) {xs : List Extension} {m : Manager} {known : List String} {r : Round}
    → deps_satisfied known x ≡ false
    → Scanned xs m known r
    → Scanned (x ∷ xs) m known (keep_pending x r)
Scanned-keep_pending x missing s = record {
  fresh = s.fresh;
  appended = s.appended;
  learnt = s.learnt;
  in_order = s.in_order;
  registered = s.registered;
  fewer = λ e. ground (arith, s.fewer e);
  progress = s.progress;
  moved = s.moved;
  covers = λ P e h. (inr h.0, s.covers P e h.1);
  blocked = λ e. (missing, s.blocked e);
}

elem-learnt :
    (x : Extension) (known : List String) (fresh : List Extension)
    → elem x.name ((known ++ x.name ∷ []) ++ names fresh) ≡ true
elem-learnt x known fresh = ground (
  arith,
  elem-append x.name (known ++ x.name ∷ []) (names fresh),
  elem-append x.name known (x.name ∷ []),
  ==_refl x.name,
)

Scanned-made_progress :
    (x : Extension) {xs : List Extension} {m : Manager} {known : List String} {r : Round}
    → deps_satisfied known x ≡ true
    → Scanned xs (initialized x m) (known ++ x.name ∷ []) r
    → Scanned (x ∷ xs) m known (made_progress r)
Scanned-made_progress x {xs} {m} {known} satisfied s = record {
  fresh = x ∷ s.fresh;
  appended = s.appended ∙ append_assoc m.initialized_extensions (x ∷ []) s.fresh;
  learnt = s.learnt ∙ append_assoc known (x.name ∷ []) (names s.fresh);
  in_order = (satisfied, s.in_order);
  registered = s.registered;
  fewer = λ e. ground (arith, s.fewer e);
  progress = λ e. absurd (cc);
  moved = λ e f. ground arith;
  covers = λ P e h. (
    inl (subst (λ k. elem x.name k ≡ true) (sym s.learnt) (elem-learnt x known s.fresh)),
    s.covers P e h,
  );
  blocked = λ e. absurd (cc);
}

Scanned-after_try :
    (x : Extension) {xs : List Extension} {m : Manager} {known : List String} {r : Round}
    (response : Option Exception)
    → deps_satisfied known x ≡ true
    → Scanned xs (initialized x m) (known ++ x.name ∷ []) r
    → Scanned (x ∷ xs) m known (after_try response x m known (made_progress r))
Scanned-after_try x none satisfied s = Scanned-made_progress x satisfied s
Scanned-after_try x {xs} {m} {known} (some e) satisfied s = record {
  fresh = [];
  appended = sym (append-nil m.initialized_extensions);
  learnt = sym (append-nil known);
  in_order = tt;
  registered = refl;
  fewer = λ e. absurd (cc);
  progress = λ e. absurd (cc);
  moved = λ e f. absurd (cc);
  covers = λ P e h. absurd (cc);
  blocked = λ e. absurd (cc);
}

module _ (behaves : Hook → ℕ → Option Exception) where
  pub scan-Scanned :
      (pending : List Extension) (m : Manager) (known : List String)
      → Scanned pending m known (scan behaves pending m known)
  unfolding scan
  scan-Scanned [] m known = record {
    fresh = [];
    appended = sym (append-nil m.initialized_extensions);
    learnt = sym (append-nil known);
    in_order = tt;
    registered = refl;
    fewer = λ e. refl;
    progress = λ e. (refl, refl);
    moved = λ e f. absurd (cc);
    covers = λ P e h. tt;
    blocked = λ e. tt;
  }
  scan-Scanned (x ∷ xs) m known =
      let later = made_progress (scan behaves xs (initialized x m) (known ++ x.name ∷ [])) in
      let skipped = keep_pending x (scan behaves xs m known) in
      let tried = after_try (behaves initialize x.ident) x m known later in
      elim (Bool-cases (deps_satisfied known x)) [
        | inl ok ↦
            subst (λ b. Scanned (x ∷ xs) m known (if b then tried else skipped)) (sym ok)
              (Scanned-after_try x (behaves initialize x.ident) ok
                (scan-Scanned xs (initialized x m) (known ++ x.name ∷ [])))
        | inr no_way ↦
            subst (λ b. Scanned (x ∷ xs) m known (if b then tried else skipped)) (sym no_way)
              (Scanned-keep_pending x no_way (scan-Scanned xs m known))
      ]
