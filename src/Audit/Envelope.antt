-- ===== src/Audit/Envelope.antt =====
-- `Envelope`, `check_protocol` and the messages of extensions/audit/contracts.py.
use sagittarius_engine.Prelude.{nat_eq, string_eq, ℕ, ◌≡◌, refl, String, List, ◌==◌, if◌then◌else◌}
use sagittarius_engine.Audit.Json.{
  ◌>>◌, Json, null, int, text, arr, obj, Fields, end, field, Result, ok, err, value_error,
  protocol_mismatch, ◌>>=◌, get, item, item_or, as_int, as_text, write_each,
}
use sagittarius_engine.Audit.TraceRecord
use sagittarius_engine.Audit.TraceRecord.{TraceRecord}
use sagittarius_engine.Audit.StateSnapshot
use sagittarius_engine.Audit.StateSnapshot.{StateSnapshot}

pub data MessageType : Type 0 where
  hello trace snapshot error : MessageType

unfoldable pub type_value : MessageType → String
type_value hello = "hello"
type_value trace = "trace"
type_value snapshot = "snapshot"
type_value error = "error"

-- `MessageType(value)`.
unfoldable pub type_of : String → Result MessageType
type_of s =
    if s == "hello"
    then ok hello
    else if s == "trace"
    then ok trace
    else if s == "snapshot"
    then ok snapshot
    else if s == "error"
    then ok error
    else err (value_error s)

-- `PROTOCOL_VERSION`.
abbrev pub protocol_version : ℕ
protocol_version = 2

unfoldable pub check_protocol : ℕ → Result (Unit {0})
check_protocol v = if v == protocol_version then ok tt else err (protocol_mismatch v)

pub record Envelope : Type 0 where
  pub kind : MessageType
  pub seq : ℕ
  pub body : Json

unfoldable pub to_dict : Envelope → Fields
to_dict e =
    field "v" (int protocol_version)
      (field "type" (text (type_value e.kind)) (field "seq" (int e.seq) (field "data" e.body end)))

unfoldable pub from_dict : Fields → Result Envelope
unfolding check_protocol
from_dict d = do
  v ← item "v" d >>= as_int
  check_protocol v
  kind ← item "type" d >>= as_text >>= type_of
  seq ← item "seq" d >>= as_int
  ok (record { kind = kind; seq = seq; body = item_or "data" null d })

-- `trace_batch`, `error_message` and `snapshot_message`.
unfoldable pub trace_batch : ℕ → List TraceRecord → Envelope
trace_batch seq records = record {
  kind = trace;
  seq = seq;
  body = arr (write_each (λ r. obj (TraceRecord.to_dict r)) records);
}

unfoldable pub error_message : ℕ → String → Envelope
error_message seq detail = record {
  kind = error;
  seq = seq;
  body = obj (field "detail" (text detail) end);
}

unfoldable pub snapshot_message : ℕ → StateSnapshot → Envelope
snapshot_message seq s = record { kind = snapshot; seq = seq; body = obj (StateSnapshot.to_dict s) }

type_of-type_value : (t : MessageType) → type_of (type_value t) ≡ ok t
unfolding type_of type_value
type_of-type_value hello = refl
type_of-type_value trace = refl
type_of-type_value snapshot = refl
type_of-type_value error = refl

pub from_dict-to_dict : (e : Envelope) → from_dict (to_dict e) ≡ ok e
unfolding from_dict to_dict get
from_dict-to_dict e = rw (type_of-type_value e.kind)
