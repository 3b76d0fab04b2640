-- ===== src/Audit/Recorder.antt =====
-- `TraceRecorder` of extensions/audit/recorder.py. A row of the ring buffer has the fields of a
-- `TraceRecord`, so `from_row` changes nothing. A tap is its identity, and `raises` says on which
-- rows it raises an exception. One call of a method is one step.
pub mod Ring
use sagittarius_engine.Prelude.{
  ℕ, zero, suc, ◌+◌, ◌-◌, String, Bool, true, false, not, Option, none, some, List, [], ◌∷◌, ◌++◌,
  length, ltb, ◌==◌, nat_eq, elem, keep, if◌then◌else◌, map,
}
use sagittarius_engine.Kernel.Dispatcher.{Lane}
use sagittarius_engine.Audit.Json.{Fields}
use sagittarius_engine.Audit.TraceRecord
use sagittarius_engine.Audit.TraceRecord.{TraceRecord, RecordKind, instant, span, lanes}
use sagittarius_engine.Audit.Envelope.{protocol_version}
use sagittarius_engine.Audit.Hello.{Hello}

pub record TraceRecorder : Type 0 where
  pub capacity : ℕ
  pub buffer : List TraceRecord
  pub epoch_ns : ℕ
  pub epoch_wall_ns : ℕ
  pub dropped : ℕ
  pub last_cid : ℕ
  pub taps : List ℕ
  pub tap_failures : ℕ

unfoldable pub new : ℕ → ℕ → ℕ → TraceRecorder
new capacity epoch_ns epoch_wall_ns = record {
  capacity = capacity;
  buffer = [];
  epoch_ns = epoch_ns;
  epoch_wall_ns = epoch_wall_ns;
  dropped = 0;
  last_cid = 0;
  taps = [];
  tap_failures = 0;
}

unfoldable pub add_tap : ℕ → TraceRecorder → TraceRecorder
add_tap tap r = if elem tap r.taps then r else record r { taps = r.taps ++ tap ∷ [] }

unfoldable pub remove_tap : ℕ → TraceRecorder → TraceRecorder
remove_tap tap r = record r { taps = keep (λ t. not (t == tap)) r.taps }

-- The taps that raise on a row: each of them is counted, and the others are called all the same.
unfoldable pub notify_taps : (ℕ → TraceRecord → Bool) → TraceRecord → TraceRecorder → TraceRecorder
notify_taps raises row r = record r {
  tap_failures = r.tap_failures + length (keep (λ t. raises t row) r.taps);
}

-- `deque(maxlen=capacity).append(row)`: the oldest row falls out of a full deque.
unfoldable pub append_row : ℕ → TraceRecord → List TraceRecord → List TraceRecord
append_row capacity row [] = if ltb 0 capacity then row ∷ [] else []
append_row capacity row (oldest ∷ rows) =
    if ltb (length (oldest ∷ rows)) capacity then oldest ∷ (rows ++ row ∷ []) else rows ++ row ∷ []

-- The end that `instant`, `span_begin` and `span_end` share.
unfoldable pub capture : (ℕ → TraceRecord → Bool) → TraceRecord → TraceRecorder → TraceRecorder
capture raises row r =
    let missed = if length r.buffer == r.capacity then r.dropped + 1 else r.dropped in
    notify_taps raises row
      (record r { dropped = missed; buffer = append_row r.capacity row r.buffer })

module _ (raises : ℕ → TraceRecord → Bool) (now : ℕ) where
  unfoldable pub record_instant :
      Lane → String → String → ℕ → Option Fields → TraceRecorder → TraceRecorder
  record_instant lane name cat cid args r =
      capture raises
        (record {
          t = now - r.epoch_ns;
          kind = instant;
          lane = lane;
          name = name;
          cat = cat;
          cid = cid;
          dur = 0;
          args = args;
        })
        r

  -- With the start that it returns.
  unfoldable pub span_begin :
      Lane → String → String → ℕ → Option Fields → TraceRecorder → TraceRecorder × ℕ
  span_begin lane name cat cid args r = (
    capture raises
        (record {
          t = now - r.epoch_ns;
          kind = span;
          lane = lane;
          name = name;
          cat = cat;
          cid = cid;
          dur = 0;
          args = args;
        })
        r,
    now,
  )

  unfoldable pub span_end :
      Lane → String → ℕ → String → ℕ → Option Fields → TraceRecorder → TraceRecorder
  span_end lane name started cat cid args r =
      capture raises
        (record {
          t = now - r.epoch_ns;
          kind = span;
          lane = lane;
          name = name;
          cat = cat;
          cid = cid;
          dur = now - started;
          args = args;
        })
        r

unfoldable pub next_cid : TraceRecorder → TraceRecorder × ℕ
next_cid r = (record r { last_cid = suc r.last_cid }, suc r.last_cid)

-- `popleft()`, so often, or until the deque is empty.
unfoldable pub pop_rows : ℕ → List TraceRecord → List TraceRecord × List TraceRecord
pop_rows zero rows = ([], rows)
pop_rows (suc n) [] = ([], [])
pop_rows (suc n) (row ∷ rows) = let (taken, left) = pop_rows n rows in (row ∷ taken, left)

abbrev pub batch_size : Option ℕ → ℕ → ℕ
batch_size none n = n
batch_size (some limit) n = if ltb limit n then limit else n

unfoldable pub drain : Option ℕ → TraceRecorder → List TraceRecord × TraceRecorder
drain limit r =
    let (taken, left) = pop_rows (batch_size limit (length r.buffer)) r.buffer in
    (taken, record r { buffer = left })

unfoldable pub snapshot : TraceRecorder → List TraceRecord
snapshot r = r.buffer

unfoldable pub hello : TraceRecorder → Hello
hello r = record {
  protocol_version = protocol_version;
  epoch_wall_ns = r.epoch_wall_ns;
  clock_resolution_ns = 1000;
  capacity = r.capacity;
  dropped_before_connect = r.dropped;
  lanes = map TraceRecord.lane_value lanes;
}

unfoldable pub clear : TraceRecorder → TraceRecorder
clear r = record r { buffer = []; dropped = 0 }
