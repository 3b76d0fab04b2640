-- ===== src/Audit/LifecycleState.antt =====
-- `LifecycleState` of extensions/audit/contracts.py.
use sagittarius_engine.Prelude.{ℕ, ◌≡◌, refl, String, List}
use sagittarius_engine.Audit.Json.{
  int, text, arr, Fields, end, field, nil, Result, ok, ◌>>=◌, get, item_or, as_int, as_text,
  as_list, write_each, as_list-write_each, write_pair, read_pair,
}

pub record LifecycleState : Type 0 where
  pub state : String
  pub transitions : List (String × ℕ)
  pub extensions_registered : ℕ
  pub extensions_initialized : ℕ
  pub hosted_registered : ℕ
  pub hosted_started : ℕ
  pub scheduler_jobs : ℕ
  pub scheduler_jobs_without_next_run : ℕ

unfoldable pub to_dict : LifecycleState → Fields
to_dict e = field "state" (text e.state) (
    field "transitions" (arr (write_each write_pair e.transitions)) (
      field "extensions_registered" (int e.extensions_registered) (
        field "extensions_initialized" (int e.extensions_initialized) (
          field "hosted_registered" (int e.hosted_registered) (
            field "hosted_started" (int e.hosted_started) (
              field "scheduler_jobs" (int e.scheduler_jobs) (
                field "scheduler_jobs_without_next_run" (int e.scheduler_jobs_without_next_run)
                  end)))))))

unfoldable pub from_dict : Fields → Result LifecycleState
from_dict d = do
  state ← as_text (item_or "state" (text "") d)
  transitions ← as_list read_pair (item_or "transitions" (arr nil) d)
  extensions_registered ← as_int (item_or "extensions_registered" (int 0) d)
  extensions_initialized ← as_int (item_or "extensions_initialized" (int 0) d)
  hosted_registered ← as_int (item_or "hosted_registered" (int 0) d)
  hosted_started ← as_int (item_or "hosted_started" (int 0) d)
  scheduler_jobs ← as_int (item_or "scheduler_jobs" (int 0) d)
  scheduler_jobs_without_next_run ← as_int (item_or "scheduler_jobs_without_next_run" (int 0) d)
  ok (record {
    state = state;
    transitions = transitions;
    extensions_registered = extensions_registered;
    extensions_initialized = extensions_initialized;
    hosted_registered = hosted_registered;
    hosted_started = hosted_started;
    scheduler_jobs = scheduler_jobs;
    scheduler_jobs_without_next_run = scheduler_jobs_without_next_run;
  })

pub from_dict-to_dict : (e : LifecycleState) → from_dict (to_dict e) ≡ ok e
unfolding from_dict to_dict get
from_dict-to_dict e = rw (as_list-write_each read_pair write_pair (λ p. refl) e.transitions)
