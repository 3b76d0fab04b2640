-- ===== src/Audit/BoundedStructures.antt =====
-- `BoundedStructures` of extensions/audit/contracts.py.
use sagittarius_engine.Prelude.{ℕ, ◌≡◌, refl, List}
use sagittarius_engine.Audit.Json.{
  int, arr, Fields, end, field, nil, Result, ok, ◌>>=◌, get, item_or, as_int, as_list, write_each,
  as_list-write_each,
}

pub record BoundedStructures : Type 0 where
  pub ring_used : ℕ
  pub ring_capacity : ℕ
  pub ring_dropped : ℕ
  pub retained_tasks : ℕ
  pub retained_task_limit : ℕ
  pub subscriptions : ℕ
  pub gc_counts : List ℕ

unfoldable pub to_dict : BoundedStructures → Fields
to_dict e = field "ring_used" (int e.ring_used) (
    field "ring_capacity" (int e.ring_capacity) (
      field "ring_dropped" (int e.ring_dropped) (
        field "retained_tasks" (int e.retained_tasks) (
          field "retained_task_limit" (int e.retained_task_limit) (
            field "subscriptions" (int e.subscriptions)
              (field "gc_counts" (arr (write_each int e.gc_counts)) end))))))

unfoldable pub from_dict : Fields → Result BoundedStructures
from_dict d = do
  ring_used ← as_int (item_or "ring_used" (int 0) d)
  ring_capacity ← as_int (item_or "ring_capacity" (int 0) d)
  ring_dropped ← as_int (item_or "ring_dropped" (int 0) d)
  retained_tasks ← as_int (item_or "retained_tasks" (int 0) d)
  retained_task_limit ← as_int (item_or "retained_task_limit" (int 0) d)
  subscriptions ← as_int (item_or "subscriptions" (int 0) d)
  gc_counts ← as_list as_int (item_or "gc_counts" (arr nil) d)
  ok (record {
    ring_used = ring_used;
    ring_capacity = ring_capacity;
    ring_dropped = ring_dropped;
    retained_tasks = retained_tasks;
    retained_task_limit = retained_task_limit;
    subscriptions = subscriptions;
    gc_counts = gc_counts;
  })

pub from_dict-to_dict : (e : BoundedStructures) → from_dict (to_dict e) ≡ ok e
unfolding from_dict to_dict get
from_dict-to_dict e = rw (as_list-write_each as_int int (λ i. refl) e.gc_counts)
