-- ===== src/Audit/TraceServer/Replies.antt =====
-- What a connection of `TraceServer` discloses, and what `sagittarius-trace snapshot` shows of it.
use sagittarius_engine.Prelude.{
  ℕ, ◌≡◌, suc, subst, refl, ◌∙◌, String, Bool, true, false, Option, none, some, List, [], ◌∷◌, map,
  All, if◌then◌else◌, arith, nat_eq,
}
use sagittarius_engine.Audit.TraceRecord.{TraceRecord}
use sagittarius_engine.Audit.ConfigEntry.{IsMasked}
use sagittarius_engine.Audit.Hello.{Hello}
use sagittarius_engine.Audit.StateSnapshot
use sagittarius_engine.Audit.StateSnapshot.{StateSnapshot}
use sagittarius_engine.Audit.Envelope
use sagittarius_engine.Audit.Envelope.{Envelope, trace_batch, snapshot_message}
use sagittarius_engine.Audit.Recorder.{TraceRecorder, add_tap, hello, snapshot}
use sagittarius_engine.Audit.TraceServer.{
  Connection, Phase, connecting, closed, unauthorized, greeted, tapped, forwarding, accept, proceed,
  forward, request, disconnect, observe, send_rows, is_rejected,
}
use sagittarius_engine.Audit.TraceServer.Delivery.{
  Event, proceeds, forwards, disconnects, requests, captures, step,
}
use sagittarius_engine.Audit.TraceServer.Streams.{greeting}
use sagittarius_engine.Audit.Client.{exit_ok, snapshot_once}

abbrev pub is_empty : List TraceRecord → Bool
is_empty [] = true
is_empty (row ∷ rows) = false

buffer-add_tap : (me : ℕ) (r : TraceRecorder) → (add_tap me r).buffer ≡ r.buffer
unfolding add_tap
buffer-add_tap me r = ground arith

-- The client that has been greeted and sent `rows`, and asks.
first_answer :
    (rows : List TraceRecord) (h : Hello) (s : StateSnapshot) (c : Connection)
    → All IsMasked s.config
    → c.phase ≡ forwarding
    → c.sent ≡ greeting h ∷ []
    → snapshot_once (map Envelope.to_dict (request (some s) (send_rows rows c)).sent)
      ≡ (if is_empty rows then exit_ok (some s) else exit_ok none)
unfolding snapshot_once request send_rows trace_batch snapshot_message
first_answer [] h s c masked p e = rw (
  p,
  e,
  Envelope.from_dict-to_dict (greeting h),
  Envelope.from_dict-to_dict (snapshot_message (suc c.seq) s),
  StateSnapshot.from_dict-to_dict s masked,
)
first_answer (row ∷ rows) h s c masked p e = rw (
  p,
  e,
  Envelope.from_dict-to_dict (greeting h),
  Envelope.from_dict-to_dict (trace_batch (suc c.seq) (row ∷ rows)),
)

-- The handler runs up to its loops, and the client asks.
abbrev pub asks_at_once : StateSnapshot → List Event
asks_at_once s = proceeds ∷ proceeds ∷ proceeds ∷ requests (some s) ∷ []

module _ (token supplied : Option String) (me : ℕ) (raises : ℕ → TraceRecord → Bool) where
  unfoldable pub run : List Event → Connection → Connection
  run [] c = c
  run (e ∷ es) c = run es (step token supplied me raises e c)

  -- The phases of a connection that has not been let in.
  abbrev Outside : Phase → Type 0
  Outside connecting = Unit
  Outside unauthorized = Unit
  Outside closed = Unit
  Outside _ = ⊥

  step-Outside :
      (p : Phase) (e : Event) (c : Connection)
      → is_rejected token supplied ≡ true
      → c.phase ≡ p
      → Outside p
      → Outside (step token supplied me raises e c).phase
        × ((step token supplied me raises e c).sent ≡ c.sent)
  unfolding step proceed forward request disconnect observe
  step-Outside connecting proceeds c bad e o = rw (e, bad) (tt, refl)
  step-Outside connecting forwards c bad e o = rw e (tt, refl)
  step-Outside connecting disconnects c bad e o = rw e (tt, refl)
  step-Outside connecting (requests s) c bad e o = rw e (tt, refl)
  step-Outside connecting (captures row) c bad e o = rw e (tt, refl)
  step-Outside unauthorized proceeds c bad e o = rw e (tt, refl)
  step-Outside unauthorized forwards c bad e o = rw e (tt, refl)
  step-Outside unauthorized disconnects c bad e o = rw e (tt, refl)
  step-Outside unauthorized (requests s) c bad e o = rw e (tt, refl)
  step-Outside unauthorized (captures row) c bad e o = rw e (tt, refl)
  step-Outside closed proceeds c bad e o = rw e (tt, refl)
  step-Outside closed forwards c bad e o = rw e (tt, refl)
  step-Outside closed disconnects c bad e o = rw e (tt, refl)
  step-Outside closed (requests s) c bad e o = rw e (tt, refl)
  step-Outside closed (captures row) c bad e o = rw e (tt, refl)
  step-Outside greeted ev c bad e o = absurd o
  step-Outside tapped ev c bad e o = absurd o
  step-Outside forwarding ev c bad e o = absurd o

  run-Outside :
      (es : List Event) (c : Connection)
      → is_rejected token supplied ≡ true
      → Outside c.phase
      → (run es c).sent ≡ c.sent
  unfolding run
  run-Outside [] c bad o = refl
  run-Outside (e ∷ es) c bad o =
      let next = step-Outside c.phase e c bad refl o in
      run-Outside es (step token supplied me raises e c) bad next.0 ∙ next.1

  -- Where the server has a token, a client that supplies none or another one is sent nothing, not
  -- even a greeting, whatever it asks for and whatever the application captures.
  pub rejected_is_silent :
      (es : List Event) (r : TraceRecorder)
      → is_rejected token supplied ≡ true
      → (run es (accept r)).sent ≡ []
  unfolding accept
  rejected_is_silent es r bad = run-Outside es (accept r) bad tt

  -- A client that is let in and asks for a snapshot at once: `snapshot` shows it if the recorder
  -- retained no row, and the snapshot's configuration keeps masked values out. If a row was
  -- retained, then `snapshot` takes the backlog for the answer: it shows nothing and exits as if
  -- all were well.
  pub snapshot_once_lem :
      (r : TraceRecorder) (s : StateSnapshot)
      → is_rejected token supplied ≡ false
      → All IsMasked s.config
      → snapshot_once (map Envelope.to_dict (run (asks_at_once s) (accept r)).sent)
        ≡ (if is_empty r.buffer then exit_ok (some s) else exit_ok none)
  unfolding run step accept proceed request snapshot
  snapshot_once_lem r s good masked =
      let c : Connection = record {
        recorder = add_tap me r;
        row_queue = [];
        sent = greeting (hello r) ∷ [];
        seq = 0;
        phase = forwarding;
      } in
      rw good (
        subst
          (λ rows.
            snapshot_once
              (map Envelope.to_dict (request (some s) (send_rows (add_tap me r).buffer c)).sent)
            ≡ (if is_empty rows then exit_ok (some s) else exit_ok none))
          (buffer-add_tap me r) (first_answer (add_tap me r).buffer (hello r) s c masked refl refl))
