-- ===== src/Audit/Recorder/Ring.antt =====
-- What becomes of the rows that a `TraceRecorder` captures.
use sagittarius_engine.Prelude.{
  ℕ, zero, suc, ◌+◌, ◌≤◌, ◌≡◌, refl, sym, ap, ◌∙◌, Bool, true, false, Option, List, [], ◌∷◌, ◌++◌,
  length, length-append, append_assoc, append-nil, ltb, ◌==◌, nat_eq, if◌then◌else◌, map, arith,
}
use sagittarius_engine.Audit.TraceRecord.{TraceRecord}
use sagittarius_engine.Audit.Recorder.{
  TraceRecorder, new, append_row, capture, notify_taps, pop_rows, drain, batch_size,
}

-- What an application and a consumer do, in any order.
pub data Event : Type 0 where
  captures : TraceRecord → Event
  drains : Option ℕ → Event

pub record World : Type 0 where
  pub recorder : TraceRecorder
  pub captured : List TraceRecord
  pub drained : List TraceRecord

unfoldable pub step : (ℕ → TraceRecord → Bool) → Event → World → World
step raises (captures row) w = record w {
  recorder = capture raises row w.recorder;
  captured = w.captured ++ row ∷ [];
}
step raises (drains limit) w =
    let (taken, r) = drain limit w.recorder in
    record w { recorder = r; drained = w.drained ++ taken }

unfoldable pub run : (ℕ → TraceRecord → Bool) → List Event → World → World
run raises [] w = w
run raises (e ∷ es) w = run raises es (step raises e w)

-- The rows that have left the buffer, each with whether it was drained or evicted.
abbrev pub Fates : Type 0
Fates = List (TraceRecord × Bool)

abbrev pub rows_of : Fates → List TraceRecord
rows_of [] = []
rows_of ((row, b) ∷ fs) = row ∷ rows_of fs

abbrev pub drained_of : Fates → List TraceRecord
drained_of [] = []
drained_of ((row, true) ∷ fs) = row ∷ drained_of fs
drained_of ((row, false) ∷ fs) = drained_of fs

abbrev pub evicted_of : Fates → ℕ
evicted_of [] = 0
evicted_of ((row, true) ∷ fs) = evicted_of fs
evicted_of ((row, false) ∷ fs) = suc (evicted_of fs)

pub record Accounted (w : World) (fates : Fates) : Type 0 where
  pub all : w.captured ≡ rows_of fates ++ w.recorder.buffer
  pub drained : w.drained ≡ drained_of fates
  pub dropped : w.recorder.dropped ≡ evicted_of fates
  pub bounded : length w.recorder.buffer ≤ w.recorder.capacity

rows_of-append : (fs gs : Fates) → rows_of (fs ++ gs) ≡ rows_of fs ++ rows_of gs
rows_of-append [] gs = refl
rows_of-append ((row, b) ∷ fs) gs = ap (◌∷◌ row) (rows_of-append fs gs)

drained_of-append : (fs gs : Fates) → drained_of (fs ++ gs) ≡ drained_of fs ++ drained_of gs
drained_of-append [] gs = refl
drained_of-append ((row, true) ∷ fs) gs = ap (◌∷◌ row) (drained_of-append fs gs)
drained_of-append ((row, false) ∷ fs) gs = drained_of-append fs gs

evicted_of-append : (fs gs : Fates) → evicted_of (fs ++ gs) ≡ evicted_of fs + evicted_of gs
evicted_of-append [] gs = omega arith
evicted_of-append ((row, true) ∷ fs) gs = evicted_of-append fs gs
evicted_of-append ((row, false) ∷ fs) gs = omega (arith, evicted_of-append fs gs)

abbrev marked : List TraceRecord → Fates
marked = map (λ row. (row, true))

rows_of-marked : (rows : List TraceRecord) → rows_of (marked rows) ≡ rows
rows_of-marked [] = refl
rows_of-marked (row ∷ rows) = ap (◌∷◌ row) (rows_of-marked rows)

drained_of-marked : (rows : List TraceRecord) → drained_of (marked rows) ≡ rows
drained_of-marked [] = refl
drained_of-marked (row ∷ rows) = ap (◌∷◌ row) (drained_of-marked rows)

evicted_of-marked : (rows : List TraceRecord) → evicted_of (marked rows) ≡ 0
evicted_of-marked [] = refl
evicted_of-marked (row ∷ rows) = evicted_of-marked rows

pub pop_rows_lem :
    (n : ℕ) (rows : List TraceRecord) → (pop_rows n rows).0 ++ (pop_rows n rows).1 ≡ rows
unfolding pop_rows
pop_rows_lem zero rows = refl
pop_rows_lem (suc n) [] = refl
pop_rows_lem (suc n) (row ∷ rows) = ap (◌∷◌ row) (pop_rows_lem n rows)

-- Rows move from the buffer to the fates, and `tail` is captured.
extend :
    (fates out : Fates) (captured old left tail : List TraceRecord)
    → captured ≡ rows_of fates ++ old
    → old ++ tail ≡ rows_of out ++ left
    → captured ++ tail ≡ rows_of (fates ++ out) ++ left
extend fates out captured old left tail h k = cc (
  append_assoc (rows_of fates) old tail,
  append_assoc (rows_of fates) (rows_of out) left,
  rows_of-append fates out,
)

-- What a capture pushes out of the buffer.
abbrev pushed_out : ℕ → TraceRecord → List TraceRecord → Fates
pushed_out capacity row [] = if ltb 0 capacity then [] else (row, false) ∷ []
pushed_out capacity row (oldest ∷ rows) =
    if ltb (length (oldest ∷ rows)) capacity then [] else (oldest, false) ∷ []

append_row_lem :
    (capacity : ℕ) (row : TraceRecord) (rows : List TraceRecord)
    → length rows ≤ capacity
    → (rows ++ row ∷ [] ≡ rows_of (pushed_out capacity row rows) ++ append_row capacity row rows)
      × (drained_of (pushed_out capacity row rows) ≡ [])
      × (evicted_of (pushed_out capacity row rows) ≡ (if length rows == capacity then 1 else 0))
      × (length (append_row capacity row rows) ≤ capacity)
unfolding append_row
append_row_lem capacity row [] h = ground arith
append_row_lem capacity row (oldest ∷ rows) h = ground (arith, length-append rows (row ∷ []))

module _ (raises : ℕ → TraceRecord → Bool) where
  step-Accounted :
      (e : Event) (w : World) (fates : Fates)
      → Accounted w fates
      → (more : Fates) × Accounted (step raises e w) (fates ++ more)
  unfolding step capture notify_taps drain
  step-Accounted (captures row) w fates a =
      let r = w.recorder in
      let out = pushed_out r.capacity row r.buffer in
      let fact = append_row_lem r.capacity row r.buffer a.bounded in
      (
        out,
        record {
          all =
              extend fates out w.captured r.buffer (append_row r.capacity row r.buffer) (row ∷ [])
                a.all fact.0;
          drained =
              cc (a.drained, drained_of-append fates out, fact.1, append-nil (drained_of fates));
          dropped = ground (arith, a.dropped, fact.2, evicted_of-append fates out);
          bounded = fact.3;
        },
      )
  step-Accounted (drains limit) w fates a =
      let r = w.recorder in
      let n = batch_size limit (length r.buffer) in
      let out = marked (pop_rows n r.buffer).0 in
      (
        out,
        record {
          all =
              sym (append-nil w.captured)
              ∙ extend fates out w.captured r.buffer (pop_rows n r.buffer).1 [] a.all (
                  append-nil r.buffer
                  ∙ sym (pop_rows_lem n r.buffer)
                  ∙ ap (λ t. t ++ (pop_rows n r.buffer).1)
                      (sym (rows_of-marked (pop_rows n r.buffer).0)));
          drained =
              cc
                (a.drained, drained_of-append fates out, drained_of-marked (pop_rows n r.buffer).0);
          dropped = ground (
            arith,
            a.dropped,
            evicted_of-append fates out,
            evicted_of-marked (pop_rows n r.buffer).0,
          );
          bounded = omega (
            arith,
            a.bounded,
            ap length (pop_rows_lem n r.buffer),
            length-append (pop_rows n r.buffer).0 (pop_rows n r.buffer).1,
          );
        },
      )

  steps-Accounted :
      (es : List Event) (w : World) (fates : Fates)
      → Accounted w fates
      → (all_fates : Fates) × Accounted (run raises es w) all_fates
  unfolding run
  steps-Accounted [] w fates a = (fates, a)
  steps-Accounted (e ∷ es) w fates a =
      let next = step-Accounted e w fates a in
      steps-Accounted es (step raises e w) (fates ++ next.0) next.1

  -- Over any captures and drains, with taps that raise or not, every row that a new recorder
  -- captured has one of three fates: it was drained, once and in the order of capture; it was
  -- evicted and counted in `dropped`; or it is still in the buffer. The evicted and drained rows are
  -- the oldest, and the buffer never holds more than its capacity.
  pub run-Accounted :
      (es : List Event) (capacity epoch epoch_wall : ℕ)
      → (fates : Fates) × Accounted
          (run raises es
            (record { recorder = new capacity epoch epoch_wall; captured = []; drained = [] }))
          fates
  unfolding new
  run-Accounted es capacity epoch epoch_wall =
      steps-Accounted es
        (record { recorder = new capacity epoch epoch_wall; captured = []; drained = [] }) []
        (record { all = refl; drained = refl; dropped = refl; bounded = omega arith })
