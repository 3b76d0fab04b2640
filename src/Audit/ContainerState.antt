-- ===== src/Audit/ContainerState.antt =====
-- `ContainerState` of extensions/audit/contracts.py.
use sagittarius_engine.Prelude.{ℕ, ◌≡◌, List}
use sagittarius_engine.Audit.Json.{
  int, arr, obj, Fields, end, field, nil, Result, ok, ◌>>=◌, get, item_or, as_int, as_record,
  as_list, write_each, as_list-write_each,
}
use sagittarius_engine.Audit.RegistrationState
use sagittarius_engine.Audit.RegistrationState.{RegistrationState}

pub record ContainerState : Type 0 where
  pub registrations : List RegistrationState
  pub open_scopes : ℕ

unfoldable pub to_dict : ContainerState → Fields
to_dict e =
    field "registrations"
      (arr (write_each (λ r. obj (RegistrationState.to_dict r)) e.registrations))
      (field "open_scopes" (int e.open_scopes) end)

unfoldable pub from_dict : Fields → Result ContainerState
from_dict d = do
  registrations ←
      as_list (as_record RegistrationState.from_dict) (item_or "registrations" (arr nil) d)
  open_scopes ← as_int (item_or "open_scopes" (int 0) d)
  ok (record { registrations = registrations; open_scopes = open_scopes })

pub from_dict-to_dict : (e : ContainerState) → from_dict (to_dict e) ≡ ok e
unfolding from_dict to_dict get
from_dict-to_dict e = rw (
    as_list-write_each (as_record RegistrationState.from_dict)
      (λ r. obj (RegistrationState.to_dict r)) RegistrationState.from_dict-to_dict e.registrations)
