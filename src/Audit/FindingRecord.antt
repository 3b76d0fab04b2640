-- ===== src/Audit/FindingRecord.antt =====
-- `FindingRecord` of extensions/audit/contracts.py.
use sagittarius_engine.Prelude.{◌≡◌, String, Option}
use sagittarius_engine.Audit.Json.{
  null, text, Fields, end, field, Result, ok, ◌>>=◌, get, item, item_or, as_text, as_optional,
  put_some, get-put_some, or_else-none, option_field, option_text_lem,
}

pub record FindingRecord : Type 0 where
  pub check : String
  pub severity : String
  pub subject : String
  pub message : String
  pub hint : Option String

unfoldable pub to_dict : FindingRecord → Fields
to_dict f = put_some "hint" (option_field text f.hint) (
    field "check" (text f.check) (
      field "severity" (text f.severity)
        (field "subject" (text f.subject) (field "message" (text f.message) end))))

unfoldable pub from_dict : Fields → Result FindingRecord
from_dict d = do
  check ← item "check" d >>= as_text
  severity ← item "severity" d >>= as_text
  subject ← item "subject" d >>= as_text
  message ← item "message" d >>= as_text
  hint ← as_optional as_text (item_or "hint" null d)
  ok (record {
    check = check;
    severity = severity;
    subject = subject;
    message = message;
    hint = hint;
  })

pub from_dict-to_dict : (f : FindingRecord) → from_dict (to_dict f) ≡ ok f
unfolding from_dict to_dict get
from_dict-to_dict f = simp (get-put_some, or_else-none) (rw (option_text_lem f.hint))
