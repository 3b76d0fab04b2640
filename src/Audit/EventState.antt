-- ===== src/Audit/EventState.antt =====
-- `EventState` of extensions/audit/contracts.py.
use sagittarius_engine.Prelude.{ℕ, ◌≡◌, refl, String, Bool, true, List}
use sagittarius_engine.Audit.Json.{
  bool, int, text, arr, Fields, end, field, nil, Result, ok, ◌>>=◌, get, item, item_or, as_bool,
  as_int, as_text, as_list, write_each, as_list-write_each,
}

pub record EventState : Type 0 where
  pub name : String
  pub module_name : String
  pub handlers : List String
  pub emits : ℕ
  pub failures : ℕ
  pub registered : Bool

unfoldable pub to_dict : EventState → Fields
to_dict e = field "name" (text e.name) (
    field "module" (text e.module_name) (
      field "handlers" (arr (write_each text e.handlers)) (
        field "emits" (int e.emits)
          (field "failures" (int e.failures) (field "registered" (bool e.registered) end)))))

unfoldable pub from_dict : Fields → Result EventState
from_dict d = do
  name ← item "name" d >>= as_text
  module_name ← as_text (item_or "module" (text "") d)
  handlers ← as_list as_text (item_or "handlers" (arr nil) d)
  emits ← as_int (item_or "emits" (int 0) d)
  failures ← as_int (item_or "failures" (int 0) d)
  registered ← as_bool (item_or "registered" (bool true) d)
  ok (record {
    name = name;
    module_name = module_name;
    handlers = handlers;
    emits = emits;
    failures = failures;
    registered = registered;
  })

pub from_dict-to_dict : (e : EventState) → from_dict (to_dict e) ≡ ok e
unfolding from_dict to_dict get
from_dict-to_dict e = rw (as_list-write_each as_text text (λ s. refl) e.handlers)
