-- ===== src/Runtime/ExclusiveAction.antt =====
-- runtime/tasks/exclusive_action.py: the one slot that excludes background actions from one
-- another. A reading of the monotonic clock is an argument.
use sagittarius_engine.Prelude.{
  ℕ, suc, ◌+◌, ◌-◌, ◌≤◌, String, ◌≡◌, ◌≢◌, ◌↔◌, refl, Bool, true, false, not, Option, none, some,
  List, [], ◌∷◌, ◌==◌, string_eq, if◌then◌else◌, arith, ==_refl, elem,
}

pub record HeldSlot : Type 0 where
  pub key : String
  pub held_seconds : ℕ

pub record ExclusiveAction : Type 0 where
  pub running_key : Option String
  pub started_at : Option ℕ

abbrev pub new : ExclusiveAction
new = record { running_key = none; started_at = none }

abbrev reserve : Option String → String → ℕ → ExclusiveAction → ExclusiveAction × Bool
reserve (some _) key now a = (a, false)
reserve none key now a = (record { running_key = some key; started_at = some now }, true)

unfoldable pub try_start : String → ℕ → ExclusiveAction → ExclusiveAction × Bool
try_start key now a = reserve a.running_key key now a

abbrev holds : Option String → String → Bool
holds none key = false
holds (some k) key = k == key

-- `finish`, and `_release_on_done` with it.
unfoldable pub finish : String → ExclusiveAction → ExclusiveAction
finish key a =
    if holds a.running_key key then record { running_key = none; started_at = none } else a

abbrev slot : Option String → Option ℕ → ℕ → Option HeldSlot
slot (some k) (some t) now = some (record { key = k; held_seconds = now - t })
slot _ _ now = none

unfoldable pub held_slot : ℕ → ExclusiveAction → Option HeldSlot
held_slot now a = slot a.running_key a.started_at now

abbrev running : Option String → Option String → Bool
running (some k) none = true
running none none = false
running r (some key) = holds r key

-- `is_running(key)`, and `is_running()` for none.
unfoldable pub is_running : Option String → ExclusiveAction → Bool
is_running key a = running a.running_key key

-- What threads do with one instance, in the order in which they take its lock. A task that was
-- submitted settles at any later moment, and its done-callback calls `finish`.
pub data Event : Type 0 where
  starts : String → ℕ → Event
  submits : String → Event
  settles : String → Event
  finishes : String → Event

-- The instance, the submitted tasks that have not settled, and how many reservations were granted
-- and given back.
pub record Run : Type 0 where
  pub action : ExclusiveAction
  pub in_flight : List String
  pub granted : ℕ
  pub released : ℕ

abbrev pub initial : Run
initial = record { action = new; in_flight = []; granted = 0; released = 0 }

-- The first occurrence goes.
abbrev take_out : String → List String → List String
take_out k [] = []
take_out k (j ∷ js) = let rest = take_out k js in if j == k then js else j ∷ rest

release : String → Run → Run
unfolding finish
release k r = record r {
  action = finish k r.action;
  released = if holds r.action.running_key k then suc r.released else r.released;
}

unfoldable pub step : Event → Run → Run
unfolding try_start release
step (starts k now) r =
    let (a, got) = try_start k now r.action in
    record r { action = a; granted = if got then suc r.granted else r.granted }
step (submits k) r = record r { in_flight = k ∷ r.in_flight }
step (settles k) r =
    if elem k r.in_flight then release k (record r { in_flight = take_out k r.in_flight }) else r
step (finishes k) r = release k r

unfoldable pub run : List Event → Run → Run
unfolding step
run [] r = r
run (e ∷ es) r = run es (step e r)

-- The slots taken: one or none.
abbrev pub taken : Option String → ℕ
taken none = 0
taken (some _) = 1

-- Every grant but the standing one was given back; the clock reading stands exactly while the key
-- does.
pub record IsExclusive (r : Run) : Type 0 where
  pub balance : r.granted ≡ r.released + taken r.action.running_key
  pub timed : taken r.action.running_key ≡ 0 → r.action.started_at ≡ none
  pub timed_held : taken r.action.running_key ≡ 1 → r.action.started_at ≢ none

step-IsExclusive : (e : Event) (r : Run) → IsExclusive r → IsExclusive (step e r)
unfolding step
step-IsExclusive (starts k now) r h = ground arith
step-IsExclusive (submits k) r h = ground arith
step-IsExclusive (settles k) r h = ground arith
step-IsExclusive (finishes k) r h = ground arith

run-IsExclusive : (es : List Event) (r : Run) → IsExclusive r → IsExclusive (run es r)
unfolding run
run-IsExclusive [] r h = h
run-IsExclusive (e ∷ es) r h = run-IsExclusive es (step e r) (step-IsExclusive e r h)

-- In every interleaving of starts, submissions, settlements and releases, the reservations granted
-- exceed those given back by the one that stands, if any: two actions never hold the slot at once.
pub run_exclusive :
    (es : List Event)
    → let r = run es initial in
      (r.granted ≡ r.released + taken r.action.running_key) × (r.granted ≤ r.released + 1)
run_exclusive es =
    let h =
      run-IsExclusive es initial
        (record { balance = refl; timed = λ e. refl; timed_held = λ e. absurd (omega arith) }) in
    ground arith

-- `try_start` succeeds exactly when nothing runs on the instance, not even the same key; then the
-- key runs and no other does, until its own `finish`: that of another key changes nothing.
pub try_start_lem :
    (key other : String) (now : ℕ) (a : ExclusiveAction)
    → let (a', got) = try_start key now a in
      (got ≡ not (is_running none a))
      × (got ≡ false → a' ≡ a)
      × (got ≡ true
          → (is_running (some other) a' ≡ (key == other))
            × (finish other a' ≡ (if key == other then new else a'))
            × (held_slot (now + 5) a' ≡ some (record { key = key; held_seconds = 5 })))
unfolding try_start is_running finish held_slot
try_start_lem key other now a = ground arith

-- After any events `held_slot` reports a slot exactly when `is_running()` holds.
pub held_slot-is_running :
    (es : List Event) (now : ℕ)
    → let a = (run es initial).action in (held_slot now a ≢ none) ↔ (is_running none a ≡ true)
unfolding held_slot is_running
held_slot-is_running es now =
    let h =
      run-IsExclusive es initial
        (record { balance = refl; timed = λ e. refl; timed_held = λ e. absurd (omega arith) }) in
    ground arith

-- When the task of the key that holds the slot settles, the slot is free.
pub settles_frees :
    (k : String) (r : Run)
    → r.action.running_key ≡ some k
    → elem k r.in_flight ≡ true
    → ((step (settles k) r).action ≡ new) × ((step (settles k) r).released ≡ r.released + 1)
unfolding step
settles_frees k r h m = ground (arith, ==_refl k)
