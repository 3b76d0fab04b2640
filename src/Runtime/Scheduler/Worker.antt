-- ===== src/Runtime/Scheduler/Worker.antt =====
-- `start` and `stop` of runtime/scheduler/scheduler.py, and the threads that they leave. A thread
-- is a number, given out in order. A thread ends when it finds that the scheduler no longer runs,
-- or by an exception of its own.
use sagittarius_engine.Prelude.{
  ℕ, suc, ◌≤◌, nat_eq, Bool, true, false, not, ◌&&◌, Option, none, some, List, [], ◌∷◌, ◌++◌, ◌==◌,
  ◌≡◌, refl, sym, subst, elem, keep, length, if◌then◌else◌, arith, ==_iff,
}

pub data Notice : Type 0 where
  scheduler_started scheduler_stopped refused not_stopped : Notice

-- `_running`, `_thread`, the threads that are alive, and the events emitted and errors logged.
pub record Worker : Type 0 where
  pub running : Bool
  pub thread : Option ℕ
  pub alive : List ℕ
  pub next_thread : ℕ
  pub notices : List Notice

abbrev pub idle : Worker
idle = record { running = false; thread = none; alive = []; next_thread = 0; notices = [] }

abbrev pub is_alive : Option ℕ → List ℕ → Bool
is_alive none alive = false
is_alive (some t) alive = elem t alive

abbrev pub notify : Notice → Worker → Worker
notify n w = record w { notices = w.notices ++ n ∷ [] }

abbrev pub spawn_thread : Worker → Worker
spawn_thread w = record w {
  running = true;
  thread = some w.next_thread;
  alive = w.next_thread ∷ w.alive;
  next_thread = suc w.next_thread;
}

unfoldable pub start : Worker → Worker
start w =
    if w.running
    then w
    else if is_alive w.thread w.alive
    then notify refused w
    else notify scheduler_started (spawn_thread w)

abbrev pub ended : ℕ → List ℕ → List ℕ
ended t = keep (λ u. not (u == t))

-- The `join`: `exits` says whether a thread that is alive ends within the timeout.
abbrev pub join_thread : Option ℕ → Bool → Worker → Worker
join_thread none exits w = notify scheduler_stopped w
join_thread (some t) exits w =
    if elem t w.alive && not exits
    then notify not_stopped w
    else notify scheduler_stopped (record w { thread = none; alive = ended t w.alive })

unfoldable pub stop : Bool → Worker → Worker
stop exits w =
    let w' : Worker = record w { running = false } in
    if not w.running && not (is_alive w.thread w.alive) then w' else join_thread w.thread exits w'

-- The tracked thread ends by itself.
abbrev pub end_thread : Option ℕ → Worker → Worker
end_thread none w = w
end_thread (some t) w = record w { alive = ended t w.alive }

pub data Event : Type 0 where
  starts : Event
  stops : Bool → Event
  leaves : Event
  dies : Event

-- A thread leaves its loop only once the scheduler no longer runs; it may die at any time.
unfoldable pub step : Event → Worker → Worker
unfolding start stop
step starts w = start w
step (stops exits) w = stop exits w
step leaves w = if w.running then w else end_thread w.thread w
step dies w = end_thread w.thread w

unfoldable pub run : List Event → Worker → Worker
unfolding step
run [] w = w
run (e ∷ es) w = run es (step e w)

-- The tracked thread is the only one that can be alive.
abbrev pub IsTracked : Option ℕ → List ℕ → Type 0
IsTracked none alive = alive ≡ []
IsTracked (some t) [] = Unit
IsTracked (some t) (u ∷ us) = (u ≡ t) × (us ≡ [])

abbrev Tracks : Worker → Type 0
Tracks w = IsTracked w.thread w.alive

none_alive :
    (o : Option ℕ) (alive : List ℕ) → IsTracked o alive → is_alive o alive ≡ false → alive ≡ []
none_alive none alive tracked h = tracked
none_alive (some t) [] tracked h = refl
none_alive (some t) (u ∷ us) tracked h = ground (arith, ==_iff u t, tracked)

ended-nil : (t : ℕ) (alive : List ℕ) → IsTracked (some t) alive → ended t alive ≡ []
ended-nil t [] tracked = refl
ended-nil t (u ∷ us) tracked =
    rw ((==_iff u t).1 tracked.0) (subst (λ l. ended t l ≡ []) (sym tracked.1) refl)

start-Tracks : (w : Worker) → Tracks w → Tracks (start w)
unfolding start
start-Tracks w tracked = by_state w.running (is_alive w.thread w.alive) refl
  where
    by_state :
        (going alive : Bool)
        → is_alive w.thread w.alive ≡ alive
        → Tracks (
            if going
            then w
            else if alive
            then notify refused w
            else notify scheduler_started (spawn_thread w))
    by_state true alive e = tracked
    by_state false true e = tracked
    by_state false false e = (refl, none_alive w.thread w.alive tracked e)

join_thread-Tracks :
    (o : Option ℕ) (exits : Bool) (w : Worker)
    → w.thread ≡ o
    → Tracks w
    → Tracks (join_thread o exits w)
join_thread-Tracks none exits w e tracked = tracked
join_thread-Tracks (some t) exits w e tracked = by_end (elem t w.alive && not exits)
  where
    by_end :
        (hung : Bool)
        → Tracks (
            if hung
            then notify not_stopped w
            else notify scheduler_stopped (record w { thread = none; alive = ended t w.alive }))
    by_end true = tracked
    by_end false = ended-nil t w.alive (subst (λ o. IsTracked o w.alive) e tracked)

stop-Tracks : (exits : Bool) (w : Worker) → Tracks w → Tracks (stop exits w)
unfolding stop
stop-Tracks exits w tracked = by_state (not w.running && not (is_alive w.thread w.alive))
  where
    by_state :
        (still : Bool)
        → Tracks (
            if still
            then record w { running = false }
            else join_thread w.thread exits (record w { running = false }))
    by_state true = tracked
    by_state false = join_thread-Tracks w.thread exits (record w { running = false }) refl tracked

end_thread-Tracks : (o : Option ℕ) (w : Worker) → w.thread ≡ o → Tracks w → Tracks (end_thread o w)
end_thread-Tracks none w e tracked = tracked
end_thread-Tracks (some t) w e tracked =
    subst (IsTracked w.thread)
      (sym (ended-nil t w.alive (subst (λ o. IsTracked o w.alive) e tracked)))
      (nothing_alive w.thread)
  where
    nothing_alive : (o : Option ℕ) → IsTracked o []
    nothing_alive none = refl
    nothing_alive (some u) = tt

join_thread_clears :
    (o : Option ℕ) (w : Worker) → IsTracked o w.alive → (join_thread o true w).alive ≡ []
join_thread_clears none w tracked = tracked
join_thread_clears (some t) w tracked = by_end (elem t w.alive)
  where
    by_end :
        (live : Bool)
        → (if live && false
            then notify not_stopped w
            else notify scheduler_stopped
                (record w { thread = none; alive = ended t w.alive })).alive
          ≡ []
    by_end true = ended-nil t w.alive tracked
    by_end false = ended-nil t w.alive tracked

stop_clears : (w : Worker) → Tracks w → (stop true w).alive ≡ []
unfolding stop
stop_clears w tracked = by_state w.running (is_alive w.thread w.alive) refl
  where
    by_state :
        (going alive : Bool)
        → is_alive w.thread w.alive ≡ alive
        → (if not going && not alive
            then record w { running = false }
            else join_thread w.thread true (record w { running = false })).alive
          ≡ []
    by_state false false e = none_alive w.thread w.alive tracked e
    by_state false true e = join_thread_clears w.thread (record w { running = false }) tracked
    by_state true alive e = join_thread_clears w.thread (record w { running = false }) tracked

step-Tracks : (e : Event) (w : Worker) → Tracks w → Tracks (step e w)
unfolding step
step-Tracks starts w tracked = start-Tracks w tracked
step-Tracks (stops exits) w tracked = stop-Tracks exits w tracked
step-Tracks leaves w tracked = by_state w.running
  where
    by_state : (going : Bool) → Tracks (if going then w else end_thread w.thread w)
    by_state true = tracked
    by_state false = end_thread-Tracks w.thread w refl tracked
step-Tracks dies w tracked = end_thread-Tracks w.thread w refl tracked

run-Tracks : (es : List Event) (w : Worker) → Tracks w → Tracks (run es w)
unfolding run
run-Tracks [] w tracked = tracked
run-Tracks (e ∷ es) w tracked = run-Tracks es (step e w) (step-Tracks e w tracked)

at_most_one : (o : Option ℕ) (alive : List ℕ) → IsTracked o alive → length alive ≤ 1
at_most_one none alive tracked = rw tracked (omega arith)
at_most_one (some t) [] tracked = omega arith
at_most_one (some t) (u ∷ us) tracked = rw tracked.1 (omega arith)

-- After any calls of `start` and `stop`, in any order, with threads that end late, never, or by an
-- exception: no more than one scheduler thread is alive, and it is the one that the scheduler
-- tracks. A `stop` whose thread ends within the timeout leaves no thread alive.
pub one_thread :
    (es : List Event)
    → let w = run es idle in
      (length w.alive ≤ 1) × IsTracked w.thread w.alive × ((stop true w).alive ≡ [])
one_thread es =
    let w : Worker = run es idle in
    let tracked : Tracks w = run-Tracks es idle refl in
    (at_most_one w.thread w.alive tracked, tracked, stop_clears w tracked)
