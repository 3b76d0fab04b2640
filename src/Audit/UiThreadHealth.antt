-- ===== src/Audit/UiThreadHealth.antt =====
-- `UiThreadHealth` of extensions/audit/contracts.py.
use sagittarius_engine.Prelude.{ℕ, ◌≡◌, refl}
use sagittarius_engine.Audit.Json.{
  int, float, Fields, end, field, Result, ok, ◌>>=◌, get, item_or, as_int, as_float,
}

pub record UiThreadHealth : Type 0 where
  pub freeze_count : ℕ
  pub worst_freeze_ms : ℕ
  pub off_thread_mutation_count : ℕ

unfoldable pub to_dict : UiThreadHealth → Fields
to_dict e = field "freeze_count" (int e.freeze_count) (
    field "worst_freeze_ms" (float e.worst_freeze_ms)
      (field "off_thread_mutation_count" (int e.off_thread_mutation_count) end))

unfoldable pub from_dict : Fields → Result UiThreadHealth
from_dict d = do
  freeze_count ← as_int (item_or "freeze_count" (int 0) d)
  worst_freeze_ms ← as_float (item_or "worst_freeze_ms" (float 0) d)
  off_thread_mutation_count ← as_int (item_or "off_thread_mutation_count" (int 0) d)
  ok (record {
    freeze_count = freeze_count;
    worst_freeze_ms = worst_freeze_ms;
    off_thread_mutation_count = off_thread_mutation_count;
  })

pub from_dict-to_dict : (e : UiThreadHealth) → from_dict (to_dict e) ≡ ok e
unfolding from_dict to_dict get
from_dict-to_dict e = refl
