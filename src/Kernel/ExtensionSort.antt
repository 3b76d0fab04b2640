-- ===== src/Kernel/ExtensionSort.antt =====
-- `_build_and_sort` of kernel/extension_manager.py: the depth-first topological sort. The set
-- `visiting` is the argument `path`: the code adds a name when it begins with it and takes it out
-- before it returns.
pub mod Fuel
pub mod Order
pub mod Soundness
pub mod Corollaries
use sagittarius_engine.Prelude.{
  ℕ, zero, suc, String, string_eq, Bool, true, false, Option, none, some, List, [], ◌∷◌, ◌++◌, Eq,
  ◌==◌, elem, if◌then◌else◌, Dict, get, put, has, keep, keys, length, map,
}
use sagittarius_engine.Kernel.Descriptors.{Extension, names, sort_by_priority}

-- `exhausted` is no outcome of the program: the recursion stops there when the fuel runs out.
pub data SortError : Type 0 where
  circular_dependency : String → SortError
  missing_dependency : String → String → SortError
  exhausted : SortError

pub data Result (A : Type 0) : Type 0 where
  ok : A → Result A
  err : SortError → Result A

infixl 5 ◌>>=◌
abbrev pub ◌>>=◌ : {A B : Type 0} → Result A → (A → Result B) → Result B
ok a >>= f = f a
err e >>= f = err e

-- `visited` and `result`.
pub record Progress : Type 0 where
  pub visited : List String
  pub result : List Extension

abbrev pub ByName : Type 0
ByName = Dict String Extension

-- `{ext.descriptor.name: ext for ext in exts}`: the last of a name wins.
unfoldable pub by_name_from : ByName → List Extension → ByName
by_name_from d [] = d
by_name_from d (x ∷ xs) = by_name_from (put x.name x d) xs

module _ (d : ByName) where
  -- The loop over the required dependencies, `visit` being `dfs`.
  unfoldable pub visit_required :
      (String → Progress → Result Progress) → String → List String → Progress → Result Progress
  visit_required visit name [] p = ok p
  visit_required visit name (dep ∷ deps) p =
      let rest = visit dep p >>= visit_required visit name deps in
      if has dep d then rest else err (missing_dependency name dep)

  -- The loop over the optional dependencies.
  unfoldable pub visit_optional :
      (String → Progress → Result Progress) → List String → Progress → Result Progress
  visit_optional visit [] p = ok p
  visit_optional visit (dep ∷ deps) p =
      let here = visit dep p >>= visit_optional visit deps in
      let skip = visit_optional visit deps p in if has dep d then here else skip

  pub finish : String → Extension → Progress → Progress
  finish name x p = record { visited = p.visited ++ name ∷ []; result = p.result ++ x ∷ [] }

  -- The body of `dfs` for a name that is neither being visited nor visited.
  unfoldable pub enter :
      (String → Progress → Result Progress) → String → Option Extension → Progress → Result Progress
  unfolding visit_required visit_optional finish
  enter visit name none p = ok p
  enter visit name (some x) p = do
    q ← visit_required visit name x.dependencies p
    r ← visit_optional visit x.optional_dependencies q
    ok (finish name x r)

  unfoldable pub dfs : ℕ → List String → String → Progress → Result Progress
  unfolding enter
  dfs zero path name p = err exhausted
  dfs (suc fuel) path name p =
      let body = enter (dfs fuel (name ∷ path)) name (get name d) p in
      if elem name path
      then err (circular_dependency name)
      else if elem name p.visited
      then ok p
      else body

  -- The loop over the extensions by priority.
  unfoldable pub visit_all : ℕ → List String → Progress → Result Progress
  unfolding dfs
  visit_all fuel [] p = ok p
  visit_all fuel (name ∷ rest) p = dfs fuel [] name p >>= visit_all fuel rest

abbrev pub enabled_only : List Extension → List Extension
enabled_only = keep (λ x. x.enabled)

abbrev result_of : Result Progress → Result (List Extension)
result_of (ok p) = ok p.result
result_of (err e) = err e

unfoldable pub build_and_sort : List Extension → Result (List Extension)
unfolding by_name_from visit_all sort_by_priority
build_and_sort registered =
    let d = by_name_from [] (enabled_only registered) in
    result_of (
      visit_all d (suc (length (keys d))) (names (sort_by_priority (enabled_only registered)))
        (record { visited = []; result = [] }))
