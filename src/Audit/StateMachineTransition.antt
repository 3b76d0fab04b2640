-- ===== src/Audit/StateMachineTransition.antt =====
-- `StateMachineTransition` of extensions/audit/contracts.py.
use sagittarius_engine.Prelude.{ℕ, ◌≡◌, refl, String, Bool, false}
use sagittarius_engine.Audit.Json.{
  bool, int, text, Fields, end, field, Result, ok, ◌>>=◌, get, item, item_or, as_bool, as_int,
  as_text,
}

pub record StateMachineTransition : Type 0 where
  pub from_state : String
  pub to_state : String
  pub event : String
  pub rejected : Bool
  pub at_ns : ℕ

unfoldable pub to_dict : StateMachineTransition → Fields
to_dict e = field "from_state" (text e.from_state) (
    field "to_state" (text e.to_state) (
      field "event" (text e.event)
        (field "rejected" (bool e.rejected) (field "at_ns" (int e.at_ns) end))))

unfoldable pub from_dict : Fields → Result StateMachineTransition
from_dict d = do
  from_state ← item "from_state" d >>= as_text
  to_state ← as_text (item_or "to_state" (text "") d)
  event ← as_text (item_or "event" (text "") d)
  rejected ← as_bool (item_or "rejected" (bool false) d)
  at_ns ← as_int (item_or "at_ns" (int 0) d)
  ok (record {
    from_state = from_state;
    to_state = to_state;
    event = event;
    rejected = rejected;
    at_ns = at_ns;
  })

pub from_dict-to_dict : (e : StateMachineTransition) → from_dict (to_dict e) ≡ ok e
unfolding from_dict to_dict get
from_dict-to_dict e = refl
