-- ===== src/Runtime/TaskManager/Settled.antt =====
-- The tasks of a `TaskManager` that have settled, and what the finished identities are to be.
use sagittarius_engine.Prelude.{
  ℕ, ◌<◌, ◌≡◌, subst, nat_eq, Bool, true, false, Option, none, some, List, length, elem, elem-All,
  if◌then◌else◌, Bool-cases, inl, inr, Dict, get, keys, Distinct, All,
}
use sagittarius_engine.Runtime.TaskManager.{Phase, ended, refused, BackgroundTask}
use sagittarius_engine.Runtime.TaskManager.Counting.{count}

abbrev pub has_settled : Phase → Bool
has_settled ended = true
has_settled refused = true
has_settled _ = false

abbrev pub IsSettled : Option BackgroundTask → Type 0
IsSettled none = ⊥
IsSettled (some t) = has_settled t.phase ≡ true

abbrev pub settled_weight : BackgroundTask → ℕ
settled_weight t = if has_settled t.phase then 1 else 0

-- Of the tasks, the finished identities and the next identity.
pub record IsSound (tasks : Dict ℕ BackgroundTask) (finished : List ℕ) (next : ℕ) : Type 0 where
  pub distinct : Distinct (keys tasks)
  pub below : All (λ k. k < next) (keys tasks)
  pub once : Distinct finished
  pub settled : All (λ i. IsSettled (get i tasks)) finished
  pub counted : count settled_weight tasks ≡ length finished

-- A finished identity belongs to a task that has settled.
pub settled_of :
    (i : ℕ) (t : BackgroundTask) (tasks : Dict ℕ BackgroundTask) (finished : List ℕ)
    → All (λ k. IsSettled (get k tasks)) finished
    → get i tasks ≡ some t
    → has_settled t.phase ≡ false
    → elem i finished ≡ false
settled_of i t tasks finished h g open_task = elim (Bool-cases (elem i finished)) [
  | inl there ↦
      absurd (
        cc
          (subst (λ o. IsSettled o) g (elem-All (λ k. IsSettled (get k tasks)) i finished h there)))
  | inr gone ↦ gone
]
