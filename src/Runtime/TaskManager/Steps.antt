-- ===== src/Runtime/TaskManager/Steps.antt =====
-- One step of a `TaskManager` keeps the invariant, the bound of the finished identities, and the
-- tasks that never ran.
use sagittarius_engine.Prelude.{
  ℕ, ◌≡◌, refl, sym, ap, subst, ◌∙◌, String, nat_eq, true, none, some, List, [], ◌∷◌, ◌==◌, ==_iff,
  Bool-cases, Option-cases, inl, inr, Dict, get, put, keys, get-put, get_absent,
}
use sagittarius_engine.Runtime.TaskManager.{
  cancelled, completed, failed, Place, Phase, queued, executing, ended, never_ran, refused,
  BackgroundTask, TaskManager, new, emit, set_task, task_failed, done_in, retire, fail_task,
  spawned, register_task, spawn, begin_from, begin_task, Ending, returns, raises, is_cancelled,
  record_ending, end_from, end_task, cancel_from, cancel, on_task, Step, spawns, begins, ends,
  cancels, step, run,
}
use sagittarius_engine.Runtime.TaskManager.Counting.{count, Below-absent}
use sagittarius_engine.Runtime.TaskManager.Invariant.{get-put_self, IsSound-new}
use sagittarius_engine.Runtime.TaskManager.Moves.{
  IsAbandoned, Sound, Stepped, stays, changes, settles,
}

begin_from-Stepped :
    (limit : ℕ) (ph : Phase) (i : ℕ) (t : BackgroundTask) (m : TaskManager)
    → get i m.tasks ≡ some t
    → t.phase ≡ ph
    → Sound m
    → Stepped limit m (begin_from ph i t m)
begin_from-Stepped limit queued i t m g ph s =
    changes limit i t (record t { phase = executing }) m (begin_from queued i t m) g (rw ph refl)
      (λ never. cc) refl refl refl s
begin_from-Stepped limit executing i t m g ph s = stays limit m s
begin_from-Stepped limit ended i t m g ph s = stays limit m s
begin_from-Stepped limit never_ran i t m g ph s = stays limit m s
begin_from-Stepped limit refused i t m g ph s = stays limit m s

cancel_from-Stepped :
    (limit : ℕ) (ph : Phase) (i : ℕ) (t : BackgroundTask) (m : TaskManager)
    → get i m.tasks ≡ some t
    → t.phase ≡ ph
    → Sound m
    → Stepped limit m (cancel_from ph i t m)
cancel_from-Stepped limit queued i t m g ph s =
    changes limit i t (record t { token_set = true; status = cancelled; phase = never_ran }) m
      (cancel_from queued i t m) g (rw ph refl) (λ never. refl) refl refl refl s
cancel_from-Stepped limit refused i t m g ph s =
    changes limit i t (record t { token_set = true }) m (cancel_from refused i t m) g refl
      (λ never. never) refl refl refl s
cancel_from-Stepped limit executing i t m g ph s =
    changes limit i t (record t { token_set = true; status = cancelled }) m
      (cancel_from executing i t m) g refl (λ never. never) refl refl refl s
cancel_from-Stepped limit ended i t m g ph s =
    changes limit i t (record t { token_set = true; status = cancelled }) m
      (cancel_from ended i t m) g refl (λ never. never) refl refl refl s
cancel_from-Stepped limit never_ran i t m g ph s =
    changes limit i t (record t { token_set = true; status = cancelled }) m
      (cancel_from never_ran i t m) g refl (λ never. never) refl refl refl s

-- What `done_in` changes is not seen here.
done_in-Stepped :
    (limit : ℕ) (place : Place) (m after : TaskManager)
    → Stepped limit m after
    → Stepped limit m (done_in place after)
done_in-Stepped limit place m after s = record {
  sound = s.sound;
  bounded = s.bounded;
  abandoned = s.abandoned;
}

end_from-Stepped :
    (limit : ℕ) (ph : Phase) (how : Ending) (i : ℕ) (t : BackgroundTask) (m : TaskManager)
    → get i m.tasks ≡ some t
    → t.phase ≡ ph
    → Sound m
    → Stepped limit m (end_from ph limit how i t m)
end_from-Stepped limit executing returns i t m g ph s =
    done_in-Stepped limit t.place m (retire limit i (record_ending returns i t m))
      (settles limit i t (record t { status = completed; phase = ended }) m
        (record_ending returns i t m) g (rw ph refl) refl (λ never. cc) refl refl refl s).1
end_from-Stepped limit executing (raises why) i t m g ph s =
    done_in-Stepped limit t.place m (retire limit i (record_ending (raises why) i t m))
      (settles limit i t (record t { status = failed; error = some why; phase = ended }) m
        (record_ending (raises why) i t m) g (rw ph refl) refl (λ never. cc) refl refl refl s).1
end_from-Stepped limit executing is_cancelled i t m g ph s =
    done_in-Stepped limit t.place m (retire limit i (record_ending is_cancelled i t m))
      (settles limit i t (record t { phase = ended }) m (record_ending is_cancelled i t m) g
        (rw ph refl) refl (λ never. cc) refl refl refl s).1
end_from-Stepped limit queued how i t m g ph s = stays limit m s
end_from-Stepped limit ended how i t m g ph s = stays limit m s
end_from-Stepped limit never_ran how i t m g ph s = stays limit m s
end_from-Stepped limit refused how i t m g ph s = stays limit m s

on_task-Stepped :
    (limit i : ℕ) (act : BackgroundTask → TaskManager → TaskManager) (m : TaskManager)
    → Sound m
    → ((t : BackgroundTask) → get i m.tasks ≡ some t → Stepped limit m (act t m))
    → Stepped limit m (on_task (get i m.tasks) act m)
on_task-Stepped limit i act m s h = elim (Option-cases (get i m.tasks)) [
  | inl absent ↦ rw absent (stays limit m s)
  | inr (t, there) ↦ rw there (h t there)
]

IsAbandoned-new :
    (i k : ℕ) (u : BackgroundTask) (tasks : Dict ℕ BackgroundTask)
    → get i tasks ≡ none
    → IsAbandoned (get k tasks)
    → IsAbandoned (get k (put i u tasks))
IsAbandoned-new i k u tasks absent h = elim (Bool-cases (i == k)) [
  | inl same ↦
      absurd
        (subst (λ o. IsAbandoned o) (ap (λ j. get j tasks) (sym ((==_iff i k).0 same)) ∙ absent) h)
  | inr other ↦ rw (get-put i k u tasks, other) h
]

pub register_task-Stepped :
    (limit : ℕ) (name : String) (place : Place) (m : TaskManager)
    → Sound m
    → Stepped limit m (register_task name place m)
register_task-Stepped limit name place m s = record {
  sound = IsSound-new (spawned name place) m.tasks m.finished_task_ids m.next_id refl s;
  bounded = λ h. h;
  abandoned = λ k h.
      IsAbandoned-new m.next_id k (spawned name place) m.tasks
        (get_absent m.next_id m.tasks (Below-absent m.next_id (keys m.tasks) s.below)) h;
}

Stepped-trans :
    (limit : ℕ) (m between after : TaskManager)
    → Stepped limit m between
    → Stepped limit between after
    → Stepped limit m after
Stepped-trans limit m between after a b = record {
  sound = b.sound;
  bounded = λ h. b.bounded (a.bounded h);
  abandoned = λ k h. b.abandoned k (a.abandoned k h);
}

-- A refused task settles right after it is known.
pub fail_task-Stepped :
    (limit : ℕ) (name : String) (place : Place) (why : String) (m : TaskManager)
    → Sound m
    → Stepped limit (register_task name place m) (
        fail_task limit m.next_id
          (record (spawned name place) { phase = refused })
          why
          (register_task name place m))
unfolding fail_task
fail_task-Stepped limit name place why m s =
    let known = register_task name place m in
    let u : BackgroundTask = record (spawned name place) {
      phase = refused;
      status = failed;
      error = some why;
    } in
    (settles limit m.next_id (spawned name place) u known
      (emit (task_failed m.next_id) (set_task m.next_id u known))
      (get-put_self m.next_id (spawned name place) m.tasks) refl refl (λ never. cc) refl refl refl
      (register_task-Stepped limit name place m s).sound).1

pub step-Stepped :
    (limit : ℕ) (e : Step) (m : TaskManager) → Sound m → Stepped limit m (step limit e m)
unfolding step spawn begin_task end_task cancel
step-Stepped limit (spawns name place none) m s = register_task-Stepped limit name place m s
step-Stepped limit (spawns name place (some why)) m s =
    Stepped-trans limit m (register_task name place m) _
      (register_task-Stepped limit name place m s) (fail_task-Stepped limit name place why m s)
step-Stepped limit (begins i) m s =
    on_task-Stepped limit i (λ t. begin_from t.phase i t) m s
      (λ t there. begin_from-Stepped limit t.phase i t m there refl s)
step-Stepped limit (ends i how) m s =
    on_task-Stepped limit i (λ t. end_from t.phase limit how i t) m s
      (λ t there. end_from-Stepped limit t.phase how i t m there refl s)
step-Stepped limit (cancels i) m s =
    on_task-Stepped limit i (λ t. cancel_from t.phase i t) m s
      (λ t there. cancel_from-Stepped limit t.phase i t m there refl s)

pub new-Sound : Sound new
unfolding new count
new-Sound = record { distinct = tt; below = tt; once = tt; settled = tt; counted = refl }

pub run-Stepped :
    (limit : ℕ) (es : List Step) (m : TaskManager) → Sound m → Stepped limit m (run limit es m)
unfolding run
run-Stepped limit [] m s = stays limit m s
run-Stepped limit (e ∷ es) m s =
    let first = step-Stepped limit e m s in
    Stepped-trans limit m (step limit e m) (run limit es (step limit e m)) first
      (run-Stepped limit es (step limit e m) first.sound)
