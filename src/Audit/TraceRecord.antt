-- ===== src/Audit/TraceRecord.antt =====
-- `TraceRecord` and `RecordKind` of extensions/audit/contracts.py, with the lanes of
-- interfaces/i_trace_recorder.py.
use sagittarius_engine.Prelude.{
  string_eq, ℕ, ◌≡◌, refl, String, Option, none, some, List, [], ◌∷◌, ◌==◌, if◌then◌else◌,
}
use sagittarius_engine.Audit.Json.{
  null, int, text, obj, Fields, end, field, Result, ok, err, value_error, ◌>>=◌, get, item, item_or,
  as_int, as_text, as_dict, as_optional, put_some, get-put_some, or_else-none, text_field,
  int_field, option_field, text_field_lem, int_field_lem, default,
}
use sagittarius_engine.Kernel.Dispatcher.{
  Lane, kernel_lane, extension_lane, event_bus_lane, dispatch_lane, middleware_lane, task_lane,
  scheduler_lane, hosted_lane, user_lane,
}

pub data RecordKind : Type 0 where
  instant span : RecordKind

unfoldable pub kind_value : RecordKind → String
kind_value instant = "i"
kind_value span = "s"

-- `RecordKind(value)`.
unfoldable pub kind_of : String → Result RecordKind
kind_of s = if s == "i" then ok instant else if s == "s" then ok span else err (value_error s)

unfoldable pub lane_value : Lane → String
lane_value kernel_lane = "kernel"
lane_value extension_lane = "extension"
lane_value event_bus_lane = "event_bus"
lane_value dispatch_lane = "dispatch"
lane_value middleware_lane = "middleware"
lane_value task_lane = "task"
lane_value scheduler_lane = "scheduler"
lane_value hosted_lane = "hosted"
lane_value user_lane = "user"

-- `tuple(Lane)`.
abbrev pub lanes : List Lane
lanes =
    kernel_lane ∷ extension_lane ∷ event_bus_lane ∷ dispatch_lane ∷ middleware_lane ∷ task_lane
    ∷ scheduler_lane ∷ hosted_lane ∷ user_lane ∷ []

abbrev lane_among : List Lane → String → Result Lane
lane_among [] s = err (value_error s)
lane_among (l ∷ ls) s = let rest = lane_among ls s in if lane_value l == s then ok l else rest

-- `Lane(value)`.
unfoldable pub lane_of : String → Result Lane
lane_of s = lane_among lanes s

-- A row of the ring buffer, `(t, kind, lane, name, cat, cid, dur, args)`, has the same fields.
pub record TraceRecord : Type 0 where
  pub t : ℕ
  pub kind : RecordKind
  pub lane : Lane
  pub name : String
  pub cat : String
  pub cid : ℕ
  pub dur : ℕ
  pub args : Option Fields

unfoldable pub to_dict : TraceRecord → Fields
to_dict r = put_some "a" (option_field obj r.args) (
    put_some "d" (int_field r.dur) (
      put_some "id" (int_field r.cid) (
        put_some "c" (text_field r.cat) (
          field "t" (int r.t) (
            field "k" (text (kind_value r.kind))
              (field "l" (text (lane_value r.lane)) (field "n" (text r.name) end)))))))

unfoldable pub from_dict : Fields → Result TraceRecord
from_dict d = do
  t ← item "t" d >>= as_int
  kind ← item "k" d >>= as_text >>= kind_of
  lane ← item "l" d >>= as_text >>= lane_of
  name ← item "n" d >>= as_text
  cat ← as_text (item_or "c" (text "") d)
  cid ← as_int (item_or "id" (int 0) d)
  dur ← as_int (item_or "d" (int 0) d)
  args ← as_optional as_dict (item_or "a" null d)
  ok (record {
    t = t;
    kind = kind;
    lane = lane;
    name = name;
    cat = cat;
    cid = cid;
    dur = dur;
    args = args;
  })

kind_of-kind_value : (k : RecordKind) → kind_of (kind_value k) ≡ ok k
unfolding kind_of kind_value
kind_of-kind_value instant = refl
kind_of-kind_value span = refl

lane_of-lane_value : (l : Lane) → lane_of (lane_value l) ≡ ok l
unfolding lane_of lane_value
lane_of-lane_value kernel_lane = refl
lane_of-lane_value extension_lane = refl
lane_of-lane_value event_bus_lane = refl
lane_of-lane_value dispatch_lane = refl
lane_of-lane_value middleware_lane = refl
lane_of-lane_value task_lane = refl
lane_of-lane_value scheduler_lane = refl
lane_of-lane_value hosted_lane = refl
lane_of-lane_value user_lane = refl

args_lem : (o : Option Fields) → as_optional as_dict (default null (option_field obj o)) ≡ ok o
unfolding option_field
args_lem none = refl
args_lem (some d) = refl

pub from_dict-to_dict : (r : TraceRecord) → from_dict (to_dict r) ≡ ok r
unfolding from_dict to_dict get
from_dict-to_dict r =
    simp (get-put_some, or_else-none)
      (rw (
        kind_of-kind_value r.kind,
        lane_of-lane_value r.lane,
        text_field_lem r.cat,
        int_field_lem r.cid,
        int_field_lem r.dur,
        args_lem r.args,
      ))
