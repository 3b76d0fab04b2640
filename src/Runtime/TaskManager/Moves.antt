-- ===== src/Runtime/TaskManager/Moves.antt =====
-- How a step may change the tasks of a `TaskManager`.
use sagittarius_engine.Prelude.{
  ℕ, ◌≤◌, ◌≡◌, refl, sym, ap, subst, ◌∙◌, nat_eq, true, false, Option, none, some, List, [], ◌∷◌,
  ◌++◌, length, ◌==◌, ==_iff, Bool-cases, Option-cases, inl, inr, Dict, get, put, get-put,
}
use sagittarius_engine.Runtime.TaskManager.{
  never_ran, BackgroundTask, TaskManager, drop_oldest, cleanup_old_tasks, retire,
}
use sagittarius_engine.Runtime.TaskManager.Invariant.{
  Cleaned, IsSound-put, IsSound-append, drop_oldest-Cleaned,
}
use sagittarius_engine.Runtime.TaskManager.Settled.{has_settled, IsSound}

abbrev pub IsAbandoned : Option BackgroundTask → Type 0
IsAbandoned none = ⊥
IsAbandoned (some t) = t.phase ≡ never_ran

abbrev pub Sound : TaskManager → Type 0
Sound m = IsSound m.tasks m.finished_task_ids m.next_id

pub record Stepped (limit : ℕ) (m after : TaskManager) : Type 0 where
  pub sound : Sound after
  pub bounded : length m.finished_task_ids ≤ limit → length after.finished_task_ids ≤ limit
  pub abandoned : (k : ℕ) → IsAbandoned (get k m.tasks) → IsAbandoned (get k after.tasks)

pub stays : (limit : ℕ) (m : TaskManager) → Sound m → Stepped limit m m
stays limit m s = record { sound = s; bounded = λ h. h; abandoned = λ k h. h }

IsAbandoned-put :
    (i k : ℕ) (t u : BackgroundTask) (tasks : Dict ℕ BackgroundTask)
    → get i tasks ≡ some t
    → (t.phase ≡ never_ran → u.phase ≡ never_ran)
    → IsAbandoned (get k tasks)
    → IsAbandoned (get k (put i u tasks))
IsAbandoned-put i k t u tasks g still h = elim (Bool-cases (i == k)) [
  | inl same ↦
      let at_i =
        subst (λ o. IsAbandoned o) (ap (λ j. get j tasks) (sym ((==_iff i k).0 same)) ∙ g) h in
      rw (get-put i k u tasks, same) (still at_i)
  | inr other ↦ rw (get-put i k u tasks, other) h
]

-- A task changes and stays settled or open.
pub changes :
    (limit i : ℕ) (t u : BackgroundTask) (m after : TaskManager)
    → get i m.tasks ≡ some t
    → has_settled u.phase ≡ has_settled t.phase
    → (t.phase ≡ never_ran → u.phase ≡ never_ran)
    → after.tasks ≡ put i u m.tasks
    → after.finished_task_ids ≡ m.finished_task_ids
    → after.next_id ≡ m.next_id
    → Sound m
    → Stepped limit m after
changes limit i t u m after g same still tasks finished next s = record {
  sound =
      rw (tasks, finished, next) (IsSound-put i t u m.tasks m.finished_task_ids m.next_id g same s);
  bounded = λ h. rw finished h;
  abandoned = λ k h. rw tasks (IsAbandoned-put i k t u m.tasks g still h);
}

IsAbandoned-cleaned :
    (limit : ℕ) (tasks : Dict ℕ BackgroundTask) (next k : ℕ) (r : List ℕ × Dict ℕ BackgroundTask)
    → Cleaned limit tasks next r
    → IsAbandoned (get k tasks)
    → IsAbandoned (get k r.1)
IsAbandoned-cleaned limit tasks next k r c h = elim (Option-cases (get k tasks)) [
  | inl none_there ↦ absurd (subst (λ o. IsAbandoned o) none_there h)
  | inr (t, there) ↦
      let never = subst (λ o. IsAbandoned o) there h in
      rw (c.open_kept k t there (rw never refl)) never
]

-- An open task settles, and the clean-up follows.
pub settles :
    (limit i : ℕ) (t u : BackgroundTask) (m before : TaskManager)
    → get i m.tasks ≡ some t
    → has_settled t.phase ≡ false
    → has_settled u.phase ≡ true
    → (t.phase ≡ never_ran → ⊥)
    → before.tasks ≡ put i u m.tasks
    → before.finished_task_ids ≡ m.finished_task_ids
    → before.next_id ≡ m.next_id
    → Sound m
    → Cleaned limit
        (put i u m.tasks)
        m.next_id
        (drop_oldest limit (m.finished_task_ids ++ i ∷ []) (put i u m.tasks))
      × Stepped limit m (retire limit i before)
unfolding retire cleanup_old_tasks
settles limit i t u m before g open_task closed ran tasks finished next s =
    let clean =
      drop_oldest-Cleaned limit (m.finished_task_ids ++ i ∷ []) (put i u m.tasks) m.next_id
        (IsSound-append i t u m.tasks m.finished_task_ids m.next_id g open_task closed s) in
    (
      clean,
      record {
        sound = rw (tasks, finished, next) clean.sound;
        bounded = λ h. rw (tasks, finished) clean.bounded;
        abandoned = λ k h.
            rw (tasks, finished)
              (IsAbandoned-cleaned limit (put i u m.tasks) m.next_id k
                (drop_oldest limit (m.finished_task_ids ++ i ∷ []) (put i u m.tasks)) clean
                (IsAbandoned-put i k t u m.tasks g (λ never. absurd (ran never)) h));
      },
    )
