-- ===== src/Audit/StateMachineState.antt =====
-- `StateMachineState` of extensions/audit/contracts.py.
use sagittarius_engine.Prelude.{ℕ, ◌≡◌, String, List}
use sagittarius_engine.Audit.Json.{
  int, text, arr, obj, Fields, end, field, nil, Result, ok, ◌>>=◌, get, item, item_or, as_int,
  as_text, as_record, as_list, write_each, as_list-write_each,
}
use sagittarius_engine.Audit.StateMachineTransition
use sagittarius_engine.Audit.StateMachineTransition.{StateMachineTransition}

pub record StateMachineState : Type 0 where
  pub name : String
  pub current_state : String
  pub transitions : List StateMachineTransition
  pub rejected_count : ℕ

unfoldable pub to_dict : StateMachineState → Fields
to_dict e = field "name" (text e.name) (
    field "current_state" (text e.current_state) (
      field "transitions"
        (arr (write_each (λ r. obj (StateMachineTransition.to_dict r)) e.transitions))
        (field "rejected_count" (int e.rejected_count) end)))

unfoldable pub from_dict : Fields → Result StateMachineState
from_dict d = do
  name ← item "name" d >>= as_text
  current_state ← as_text (item_or "current_state" (text "") d)
  transitions ←
      as_list (as_record StateMachineTransition.from_dict) (item_or "transitions" (arr nil) d)
  rejected_count ← as_int (item_or "rejected_count" (int 0) d)
  ok (record {
    name = name;
    current_state = current_state;
    transitions = transitions;
    rejected_count = rejected_count;
  })

pub from_dict-to_dict : (e : StateMachineState) → from_dict (to_dict e) ≡ ok e
unfolding from_dict to_dict get
from_dict-to_dict e = rw (
    as_list-write_each (as_record StateMachineTransition.from_dict)
      (λ r. obj (StateMachineTransition.to_dict r)) StateMachineTransition.from_dict-to_dict
      e.transitions)
