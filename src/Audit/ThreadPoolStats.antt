-- ===== src/Audit/ThreadPoolStats.antt =====
-- `ThreadPoolStats` of extensions/audit/contracts.py.
use sagittarius_engine.Prelude.{ℕ, ◌≡◌, refl, String}
use sagittarius_engine.Audit.Json.{
  int, text, Fields, end, field, Result, ok, ◌>>=◌, get, item, item_or, as_int, as_text,
}

pub record ThreadPoolStats : Type 0 where
  pub name : String
  pub max_workers : ℕ
  pub in_flight : ℕ
  pub queue_depth : ℕ
  pub submitted : ℕ
  pub completed : ℕ

unfoldable pub to_dict : ThreadPoolStats → Fields
to_dict e = field "name" (text e.name) (
    field "max_workers" (int e.max_workers) (
      field "in_flight" (int e.in_flight) (
        field "queue_depth" (int e.queue_depth)
          (field "submitted" (int e.submitted) (field "completed" (int e.completed) end)))))

unfoldable pub from_dict : Fields → Result ThreadPoolStats
from_dict d = do
  name ← item "name" d >>= as_text
  max_workers ← as_int (item_or "max_workers" (int 0) d)
  in_flight ← as_int (item_or "in_flight" (int 0) d)
  queue_depth ← as_int (item_or "queue_depth" (int 0) d)
  submitted ← as_int (item_or "submitted" (int 0) d)
  completed ← as_int (item_or "completed" (int 0) d)
  ok (record {
    name = name;
    max_workers = max_workers;
    in_flight = in_flight;
    queue_depth = queue_depth;
    submitted = submitted;
    completed = completed;
  })

pub from_dict-to_dict : (e : ThreadPoolStats) → from_dict (to_dict e) ≡ ok e
unfolding from_dict to_dict get
from_dict-to_dict e = refl
