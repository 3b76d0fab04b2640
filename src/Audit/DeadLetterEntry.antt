-- ===== src/Audit/DeadLetterEntry.antt =====
-- `DeadLetterEntry` of extensions/audit/contracts.py.
use sagittarius_engine.Prelude.{ℕ, ◌≡◌, refl, String}
use sagittarius_engine.Audit.Json.{
  int, text, Fields, end, field, Result, ok, ◌>>=◌, get, item, item_or, as_int, as_text,
}

pub record DeadLetterEntry : Type 0 where
  pub event_name : String
  pub handler : String
  pub exception_type : String
  pub exception_message : String
  pub payload_repr : String
  pub retries : ℕ
  pub parked_at_ns : ℕ

unfoldable pub to_dict : DeadLetterEntry → Fields
to_dict e = field "event_name" (text e.event_name) (
    field "handler" (text e.handler) (
      field "exception_type" (text e.exception_type) (
        field "exception_message" (text e.exception_message) (
          field "payload_repr" (text e.payload_repr)
            (field "retries" (int e.retries) (field "parked_at_ns" (int e.parked_at_ns) end))))))

unfoldable pub from_dict : Fields → Result DeadLetterEntry
from_dict d = do
  event_name ← item "event_name" d >>= as_text
  handler ← as_text (item_or "handler" (text "") d)
  exception_type ← as_text (item_or "exception_type" (text "") d)
  exception_message ← as_text (item_or "exception_message" (text "") d)
  payload_repr ← as_text (item_or "payload_repr" (text "") d)
  retries ← as_int (item_or "retries" (int 0) d)
  parked_at_ns ← as_int (item_or "parked_at_ns" (int 0) d)
  ok (record {
    event_name = event_name;
    handler = handler;
    exception_type = exception_type;
    exception_message = exception_message;
    payload_repr = payload_repr;
    retries = retries;
    parked_at_ns = parked_at_ns;
  })

pub from_dict-to_dict : (e : DeadLetterEntry) → from_dict (to_dict e) ≡ ok e
unfolding from_dict to_dict get
from_dict-to_dict e = refl
