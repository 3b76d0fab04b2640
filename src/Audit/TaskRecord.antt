-- ===== src/Audit/TaskRecord.antt =====
-- `TaskRecord` of extensions/audit/contracts.py.
use sagittarius_engine.Prelude.{ℕ, ◌≡◌, refl, String}
use sagittarius_engine.Audit.Json.{
  int, float, text, Fields, end, field, Result, ok, ◌>>=◌, get, item, item_or, as_int, as_float,
  as_text,
}

pub record TaskRecord : Type 0 where
  pub id : String
  pub name : String
  pub state : String
  pub progress : ℕ
  pub age_ns : ℕ
  pub thread : String
  pub error : String

unfoldable pub to_dict : TaskRecord → Fields
to_dict e = field "id" (text e.id) (
    field "name" (text e.name) (
      field "state" (text e.state) (
        field "progress" (float e.progress) (
          field "age_ns" (int e.age_ns)
            (field "thread" (text e.thread) (field "error" (text e.error) end))))))

unfoldable pub from_dict : Fields → Result TaskRecord
from_dict d = do
  id ← item "id" d >>= as_text
  name ← as_text (item_or "name" (text "") d)
  state ← as_text (item_or "state" (text "") d)
  progress ← as_float (item_or "progress" (float 0) d)
  age_ns ← as_int (item_or "age_ns" (int 0) d)
  thread ← as_text (item_or "thread" (text "") d)
  error ← as_text (item_or "error" (text "") d)
  ok (record {
    id = id;
    name = name;
    state = state;
    progress = progress;
    age_ns = age_ns;
    thread = thread;
    error = error;
  })

pub from_dict-to_dict : (e : TaskRecord) → from_dict (to_dict e) ≡ ok e
unfolding from_dict to_dict get
from_dict-to_dict e = refl
