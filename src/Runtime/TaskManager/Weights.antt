-- ===== src/Runtime/TaskManager/Weights.antt =====
-- What the tasks of a `TaskManager` weigh in its pools.
use sagittarius_engine.Prelude.{
  ℕ, ◌+◌, ◌≡◌, refl, subst, nat_eq, Bool, true, false, ◌&&◌, some, List, [], ◌∷◌, if◌then◌else◌,
  Dict, get, put, arith,
}
use sagittarius_engine.Runtime.TaskManager.{
  Place, Phase, queued, executing, ended, never_ran, refused, BackgroundTask, Pool, submit_if,
  done_if, Step, spawns,
}
use sagittarius_engine.Runtime.TaskManager.Counting.{count, weight_at, count-put}
use sagittarius_engine.Runtime.TaskManager.Settled.{has_settled}

abbrev pub is_outstanding : Phase → Bool
is_outstanding queued = true
is_outstanding executing = true
is_outstanding _ = false

-- A task of the pool whose future is not done.
abbrev pub outstanding : (Place → Bool) → BackgroundTask → ℕ
outstanding here t = if here t.place && is_outstanding t.phase then 1 else 0

abbrev pub refusal_in : (Place → Bool) → Step → ℕ
refusal_in here (spawns name place (some why)) = if here place then 1 else 0
refusal_in here _ = 0

unfoldable pub refusals : (Place → Bool) → List Step → ℕ
refusals here [] = 0
refusals here (e ∷ es) = refusal_in here e + refusals here es

-- Of a pool, the tasks and the submissions that were refused.
abbrev pub Balanced : (Place → Bool) → Pool → Dict ℕ BackgroundTask → ℕ → Type 0
Balanced here p tasks refusals_so_far =
    p.submitted ≡ p.done + count (outstanding here) tasks + refusals_so_far

abbrev pub weight_of : Bool → Phase → ℕ
weight_of here ph = if here && is_outstanding ph then 1 else 0

phase_weightless : (here : Bool) (ph : Phase) → has_settled ph ≡ true → weight_of here ph ≡ 0
phase_weightless here queued h = cc
phase_weightless here executing h = cc
phase_weightless here never_ran h = cc
phase_weightless true ended h = refl
phase_weightless false ended h = refl
phase_weightless true refused h = refl
phase_weightless false refused h = refl

pub settled_weightless :
    (here : Place → Bool) (t : BackgroundTask) → has_settled t.phase ≡ true → outstanding here t ≡ 0
settled_weightless here t h = phase_weightless (here t.place) t.phase h

pub count_after :
    (here : Place → Bool) (i : ℕ) (t u : BackgroundTask) (tasks : Dict ℕ BackgroundTask)
    → get i tasks ≡ some t
    → count (outstanding here) (put i u tasks) + outstanding here t
      ≡ count (outstanding here) tasks + outstanding here u
count_after here i t u tasks g =
    subst
      (λ o.
        count (outstanding here) (put i u tasks) + weight_at (outstanding here) o
        ≡ count (outstanding here) tasks + outstanding here u)
      g (count-put (outstanding here) i u tasks)

-- One task fewer, where the pool is the task's.
pub done-balance :
    (b : Bool) (p : Pool) (fewer before n : ℕ)
    → fewer + (if b then 1 else 0) ≡ before
    → p.submitted ≡ p.done + before + n
    → (done_if b p).submitted ≡ (done_if b p).done + fewer + n
done-balance true p fewer before n change h =
    let goal : p.submitted ≡ p.done + 1 + fewer + n = omega (arith, change, h) in goal
done-balance false p fewer before n change h =
    let goal : p.submitted ≡ p.done + fewer + n = omega (arith, change, h) in goal

-- One task more.
pub submit-balance :
    (b : Bool) (p : Pool) (more before n : ℕ)
    → more ≡ before + (if b then 1 else 0)
    → p.submitted ≡ p.done + before + n
    → (submit_if b p).submitted ≡ (submit_if b p).done + more + n
submit-balance true p more before n change h =
    let goal : p.submitted + 1 ≡ p.done + more + n = omega (arith, change, h) in goal
submit-balance false p more before n change h =
    let goal : p.submitted ≡ p.done + more + n = omega (arith, change, h) in goal

pub open_weight :
    (b : Bool) (ph : Phase) → is_outstanding ph ≡ true → weight_of b ph ≡ (if b then 1 else 0)
open_weight true ph h = rw h refl
open_weight false ph h = refl
