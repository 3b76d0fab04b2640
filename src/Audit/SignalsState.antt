-- ===== src/Audit/SignalsState.antt =====
-- `SignalsState` of extensions/audit/contracts.py.
use sagittarius_engine.Prelude.{◌≡◌, Option, List}
use sagittarius_engine.Audit.Json.{
  null, arr, obj, Fields, end, nil, Result, ok, ◌>>=◌, get, item_or, as_record, as_optional,
  as_list, as_list-write_each, put_some, get-put_some, or_else-none, list_field, option_field,
  list_field_lem, option_field_lem,
}
use sagittarius_engine.Audit.DeadLetterEntry
use sagittarius_engine.Audit.DeadLetterEntry.{DeadLetterEntry}
use sagittarius_engine.Audit.StateMachineState
use sagittarius_engine.Audit.StateMachineState.{StateMachineState}
use sagittarius_engine.Audit.UiThreadHealth
use sagittarius_engine.Audit.UiThreadHealth.{UiThreadHealth}

pub record SignalsState : Type 0 where
  pub dead_letters : List DeadLetterEntry
  pub state_machines : List StateMachineState
  pub ui_thread : Option UiThreadHealth

unfoldable pub to_dict : SignalsState → Fields
to_dict s = put_some "ui_thread" (option_field (λ x. obj (UiThreadHealth.to_dict x)) s.ui_thread) (
    put_some "state_machines" (list_field (λ x. obj (StateMachineState.to_dict x)) s.state_machines)
      (put_some "dead_letters" (list_field (λ x. obj (DeadLetterEntry.to_dict x)) s.dead_letters)
        end))

unfoldable pub from_dict : Fields → Result SignalsState
from_dict d = do
  dead_letters ← as_list (as_record DeadLetterEntry.from_dict) (item_or "dead_letters" (arr nil) d)
  state_machines ←
      as_list (as_record StateMachineState.from_dict) (item_or "state_machines" (arr nil) d)
  ui_thread ← as_optional (as_record UiThreadHealth.from_dict) (item_or "ui_thread" null d)
  ok (record {
    dead_letters = dead_letters;
    state_machines = state_machines;
    ui_thread = ui_thread;
  })

pub from_dict-to_dict : (s : SignalsState) → from_dict (to_dict s) ≡ ok s
unfolding from_dict to_dict get
from_dict-to_dict s =
    simp (get-put_some, or_else-none)
      (rw (
        list_field_lem (as_record DeadLetterEntry.from_dict) (λ x. obj (DeadLetterEntry.to_dict x))
            s.dead_letters
            (as_list-write_each (as_record DeadLetterEntry.from_dict)
              (λ x. obj (DeadLetterEntry.to_dict x)) DeadLetterEntry.from_dict-to_dict
              s.dead_letters),
        list_field_lem (as_record StateMachineState.from_dict)
            (λ x. obj (StateMachineState.to_dict x)) s.state_machines
            (as_list-write_each (as_record StateMachineState.from_dict)
              (λ x. obj (StateMachineState.to_dict x)) StateMachineState.from_dict-to_dict
              s.state_machines),
        option_field_lem UiThreadHealth.from_dict UiThreadHealth.to_dict s.ui_thread
            UiThreadHealth.from_dict-to_dict,
      ))
