-- ===== src/Runtime/TaskManager/Pools.antt =====
-- The counters of a `TaskManager`'s pools against its tasks.
use sagittarius_engine.Prelude.{
  ℕ, ◌+◌, ◌≡◌, refl, subst, String, nat_eq, Bool, true, false, none, some, List, [], ◌∷◌,
  if◌then◌else◌, Option-cases, inl, inr, Dict, get, put, keys, get_absent, arith,
}
use sagittarius_engine.Runtime.TaskManager.{
  cancelled, completed, failed, Place, Phase, queued, executing, ended, never_ran, refused,
  BackgroundTask, Pool, TaskManager, emit, set_task, is_background, is_critical, submit_if, done_if,
  task_failed, cleanup_old_tasks, retire, fail_task, spawned, register_task, spawn, begin_from,
  begin_task, Ending, returns, raises, is_cancelled, record_ending, end_from, end_task, cancel_from,
  cancel, on_task, Step, spawns, begins, ends, cancels, step, run,
}
use sagittarius_engine.Runtime.TaskManager.Counting.{count, weight_at, count-put, Below-absent}
use sagittarius_engine.Runtime.TaskManager.Invariant.{get-put_self}
use sagittarius_engine.Runtime.TaskManager.Settled.{has_settled}
use sagittarius_engine.Runtime.TaskManager.Steps.{register_task-Stepped, step-Stepped}
use sagittarius_engine.Runtime.TaskManager.Moves.{Sound, settles}
use sagittarius_engine.Runtime.TaskManager.Weights.{
  is_outstanding, outstanding, refusal_in, refusals, Balanced, weight_of, settled_weightless,
  count_after, done-balance, submit-balance, open_weight,
}

module _ (here : Place → Bool) (pick : Pool → Pool → Pool)
    (submits : (place : Place) (b c : Pool)
      → pick (submit_if (is_background place) b) (submit_if (is_critical place) c)
        ≡ submit_if (here place) (pick b c))
    (finishes : (place : Place) (b c : Pool)
      → pick (done_if (is_background place) b) (done_if (is_critical place) c)
        ≡ done_if (here place) (pick b c)) where
  abbrev pool : TaskManager → Pool
  pool m = pick m.background_pool m.critical_pool

  abbrev Keeps : TaskManager → TaskManager → Type 0
  Keeps m after =
      (n : ℕ) → Balanced here (pool m) m.tasks n → Balanced here (pool after) after.tasks n

  -- A task that changes weighs as much as before.
  unweighed :
      (i : ℕ) (t u : BackgroundTask) (m : TaskManager) (after : Dict ℕ BackgroundTask)
      → get i m.tasks ≡ some t
      → outstanding here u ≡ outstanding here t
      → count (outstanding here) after ≡ count (outstanding here) (put i u m.tasks)
      → (n : ℕ) → Balanced here (pool m) m.tasks n
      → Balanced here (pool m) after n
  unweighed i t u m after g same counted n h =
      omega (arith, count_after here i t u m.tasks g, same, counted, h)

  -- The future of a task is done.
  finished :
      (i : ℕ) (t u : BackgroundTask) (m : TaskManager) (after : Dict ℕ BackgroundTask)
      → get i m.tasks ≡ some t
      → is_outstanding t.phase ≡ true
      → outstanding here u ≡ 0
      → count (outstanding here) after ≡ count (outstanding here) (put i u m.tasks)
      → (n : ℕ) → Balanced here (pool m) m.tasks n
      → Balanced here
          (pick
            (done_if (is_background t.place) m.background_pool)
            (done_if (is_critical t.place) m.critical_pool))
          after
          n
  finished i t u m after g open_task gone counted n h =
      rw (finishes t.place m.background_pool m.critical_pool) (
        done-balance (here t.place) (pool m) (count (outstanding here) after)
          (count (outstanding here) m.tasks) n
          (omega (
            arith,
            count_after here i t u m.tasks g,
            gone,
            counted,
            open_weight (here t.place) t.phase open_task,
          ))
          h)

  register_task-Keeps :
      (name : String) (place : Place) (m : TaskManager)
      → Sound m
      → Keeps m (register_task name place m)
  register_task-Keeps name place m s n h =
      let absent = get_absent m.next_id m.tasks (Below-absent m.next_id (keys m.tasks) s.below) in
      let u = spawned name place in
      let change : count (outstanding here) (put m.next_id u m.tasks) + 0
          ≡ count (outstanding here) m.tasks + outstanding here u =
        subst
          (λ o.
            count (outstanding here) (put m.next_id u m.tasks) + weight_at (outstanding here) o
            ≡ count (outstanding here) m.tasks + outstanding here u)
          absent (count-put (outstanding here) m.next_id u m.tasks) in
      rw (submits place m.background_pool m.critical_pool) (
        submit-balance (here place) (pool m) (count (outstanding here) (put m.next_id u m.tasks))
          (count (outstanding here) m.tasks) n
          (omega (arith, change, open_weight (here place) queued refl)) h)

  begin_from-Keeps :
      (ph : Phase) (i : ℕ) (t : BackgroundTask) (m : TaskManager)
      → get i m.tasks ≡ some t
      → t.phase ≡ ph
      → Keeps m (begin_from ph i t m)
  begin_from-Keeps queued i t m g ph n h =
      unweighed i t (record t { phase = executing }) m
        (put i (record t { phase = executing }) m.tasks) g (rw ph refl) refl n h
  begin_from-Keeps executing i t m g ph n h = h
  begin_from-Keeps ended i t m g ph n h = h
  begin_from-Keeps never_ran i t m g ph n h = h
  begin_from-Keeps refused i t m g ph n h = h

  cancel_from-Keeps :
      (ph : Phase) (i : ℕ) (t : BackgroundTask) (m : TaskManager)
      → get i m.tasks ≡ some t
      → t.phase ≡ ph
      → Keeps m (cancel_from ph i t m)
  cancel_from-Keeps queued i t m g ph n h =
      let u : BackgroundTask = record t {
        token_set = true;
        status = cancelled;
        phase = never_ran;
      } in
      finished i t u m (put i u m.tasks) g (rw ph refl) (unopened (here t.place)) refl n h
    where
      unopened : (b : Bool) → weight_of b never_ran ≡ 0
      unopened true = refl
      unopened false = refl
  cancel_from-Keeps refused i t m g ph n h =
      let u : BackgroundTask = record t { token_set = true } in
      unweighed i t u m (put i u m.tasks) g refl refl n h
  cancel_from-Keeps executing i t m g ph n h =
      let u : BackgroundTask = record t { token_set = true; status = cancelled } in
      unweighed i t u m (put i u m.tasks) g refl refl n h
  cancel_from-Keeps ended i t m g ph n h =
      let u : BackgroundTask = record t { token_set = true; status = cancelled } in
      unweighed i t u m (put i u m.tasks) g refl refl n h
  cancel_from-Keeps never_ran i t m g ph n h =
      let u : BackgroundTask = record t { token_set = true; status = cancelled } in
      unweighed i t u m (put i u m.tasks) g refl refl n h

  settled_end :
      (limit i : ℕ) (t u : BackgroundTask) (m before : TaskManager)
      → get i m.tasks ≡ some t
      → t.phase ≡ executing
      → has_settled u.phase ≡ true
      → before.tasks ≡ put i u m.tasks
      → before.finished_task_ids ≡ m.finished_task_ids
      → before.next_id ≡ m.next_id
      → Sound m
      → (n : ℕ) → Balanced here (pool m) m.tasks n
      → Balanced here
          (pick
            (done_if (is_background t.place) m.background_pool)
            (done_if (is_critical t.place) m.critical_pool))
          (retire limit i before).tasks
          n
  unfolding retire cleanup_old_tasks
  settled_end limit i t u m before g ph closed tasks ids next s n h =
      let clean =
        (settles limit i t u m before g (rw ph refl) closed (λ never. cc) tasks ids next s).0 in
      finished i t u m (retire limit i before).tasks g (rw ph refl)
        (settled_weightless here u closed)
        (rw (tasks, ids) (clean.kept (outstanding here) (settled_weightless here))) n h

  end_from-Keeps :
      (limit : ℕ) (ph : Phase) (how : Ending) (i : ℕ) (t : BackgroundTask) (m : TaskManager)
      → get i m.tasks ≡ some t
      → t.phase ≡ ph
      → Sound m
      → Keeps m (end_from ph limit how i t m)
  unfolding retire cleanup_old_tasks
  end_from-Keeps limit executing returns i t m g ph s n h =
      let u : BackgroundTask = record t { status = completed; phase = ended } in
      settled_end limit i t u m (record_ending returns i t m) g ph refl refl refl refl s n h
  end_from-Keeps limit executing (raises why) i t m g ph s n h =
      let u : BackgroundTask = record t { status = failed; error = some why; phase = ended } in
      settled_end limit i t u m (record_ending (raises why) i t m) g ph refl refl refl refl s n h
  end_from-Keeps limit executing is_cancelled i t m g ph s n h =
      let u : BackgroundTask = record t { phase = ended } in
      settled_end limit i t u m (record_ending is_cancelled i t m) g ph refl refl refl refl s n h
  end_from-Keeps limit queued how i t m g ph s n h = h
  end_from-Keeps limit ended how i t m g ph s n h = h
  end_from-Keeps limit never_ran how i t m g ph s n h = h
  end_from-Keeps limit refused how i t m g ph s n h = h

  fail_task-balance :
      (limit : ℕ) (name : String) (place : Place) (why : String) (m : TaskManager) (n : ℕ)
      → Sound m
      → Balanced here (pool (register_task name place m)) (register_task name place m).tasks n
      → (let after =
            fail_task limit m.next_id
              (record (spawned name place) { phase = refused })
              why
              (register_task name place m) in
          Balanced here (pool after) after.tasks ((if here place then 1 else 0) + n))
  unfolding fail_task retire cleanup_old_tasks
  fail_task-balance limit name place why m n s h =
      let known = register_task name place m in
      let t = spawned name place in
      let u : BackgroundTask = record t { phase = refused; status = failed; error = some why } in
      let there = get-put_self m.next_id t m.tasks in
      let clean =
        (settles limit m.next_id t u known
          (emit (task_failed m.next_id) (set_task m.next_id u known)) there refl refl (λ never. cc)
          refl refl refl (register_task-Stepped limit name place m s).sound).0 in
      omega (
        arith,
        h,
        clean.kept (outstanding here) (settled_weightless here),
        count_after here m.next_id t u known.tasks there,
        open_weight (here place) queued refl,
        settled_weightless here u refl,
      )

  on_task-Keeps :
      (i : ℕ) (act : BackgroundTask → TaskManager → TaskManager) (m : TaskManager)
      → ((t : BackgroundTask) → get i m.tasks ≡ some t → Keeps m (act t m))
      → Keeps m (on_task (get i m.tasks) act m)
  on_task-Keeps i act m h n b = elim (Option-cases (get i m.tasks)) [
    | inl absent ↦ rw absent b
    | inr (t, there) ↦ rw there (h t there n b)
  ]

  step-balance :
      (limit : ℕ) (e : Step) (m : TaskManager) (n : ℕ)
      → Sound m
      → Balanced here (pool m) m.tasks n
      → Balanced here (pool (step limit e m)) (step limit e m).tasks (refusal_in here e + n)
  unfolding step spawn begin_task end_task cancel
  step-balance limit (spawns name place none) m n s h =
      let after = register_task-Keeps name place m s n h in omega (arith, after)
  step-balance limit (spawns name place (some why)) m n s h =
      fail_task-balance limit name place why m n s (register_task-Keeps name place m s n h)
  step-balance limit (begins i) m n s h =
      let after =
        on_task-Keeps i (λ t. begin_from t.phase i t) m
          (λ t there. begin_from-Keeps t.phase i t m there refl) n h in
      omega (arith, after)
  step-balance limit (ends i how) m n s h =
      let after =
        on_task-Keeps i (λ t. end_from t.phase limit how i t) m
          (λ t there. end_from-Keeps limit t.phase how i t m there refl s) n h in
      omega (arith, after)
  step-balance limit (cancels i) m n s h =
      let after =
        on_task-Keeps i (λ t. cancel_from t.phase i t) m
          (λ t there. cancel_from-Keeps t.phase i t m there refl) n h in
      omega (arith, after)

  pub run-balance :
      (limit : ℕ) (es : List Step) (m : TaskManager) (n : ℕ)
      → Sound m
      → Balanced here (pool m) m.tasks n
      → Balanced here (pool (run limit es m)) (run limit es m).tasks (refusals here es + n)
  unfolding run refusals
  run-balance limit [] m n s h = omega (arith, h)
  run-balance limit (e ∷ es) m n s h =
      let rest =
        run-balance limit es (step limit e m) (refusal_in here e + n)
          (step-Stepped limit e m s).sound (step-balance limit e m n s h) in
      omega (arith, rest)
