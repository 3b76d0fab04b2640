-- ===== src/Audit/TraceServer/Delivery.antt =====
-- What a client receives over a connection of `TraceServer`, read by `attach`.
use sagittarius_engine.Prelude.{
  ℕ, zero, suc, ◌≡◌, String, length, refl, subst, sym, ap, ◌∙◌, Bool, true, false, Option, none,
  some, List, [], ◌∷◌, ◌++◌, append_assoc, Bool-cases, inl, inr, length-append, elem-append, ==_iff,
  nat_eq, append-nil, elem, map, arith,
}
use sagittarius_engine.Audit.TraceRecord.{TraceRecord}
use sagittarius_engine.Audit.Hello.{Hello}
use sagittarius_engine.Audit.StateSnapshot.{StateSnapshot}
use sagittarius_engine.Audit.Envelope
use sagittarius_engine.Audit.Envelope.{Envelope, MessageType, trace_batch, snapshot_message}
use sagittarius_engine.Audit.Recorder.{
  TraceRecorder, snapshot, add_tap, capture, notify_taps, hello, pop_rows,
}
use sagittarius_engine.Audit.Recorder.Ring.{pop_rows_lem}
use sagittarius_engine.Audit.TraceServer.{
  Connection, Phase, connecting, greeted, tapped, forwarding, closed, unauthorized, accept, proceed,
  send_rows, is_rejected, max_batch_rows, forward, request, disconnect, observe,
}
use sagittarius_engine.Audit.Client.{exit_ok, attach}
use sagittarius_engine.Audit.TraceServer.Streams.{
  Message, batch, reply, envelope, envelopes, rows_in, greeting, envelopes-snoc, rows_in-append,
  attach_lem,
}

-- The handler of a connection, its loops, the client and the application, in any order.
pub data Event : Type 0 where
  proceeds forwards disconnects : Event
  requests : Option StateSnapshot → Event
  captures : TraceRecord → Event

module _ (token supplied : Option String) (me : ℕ) (raises : ℕ → TraceRecord → Bool) where
  unfoldable pub step : Event → Connection → Connection
  step proceeds c = proceed token supplied me c
  step forwards c = forward c
  step disconnects c = disconnect me c
  step (requests s) c = request s c
  step (captures row) c = observe me raises row c

-- A connection with what it should deliver: the rows that were retained when the handler read its
-- backlog, and those captured since it registered its tap.
pub record Observed : Type 0 where
  pub connection : Connection
  pub backlog : List TraceRecord
  pub live : List TraceRecord

unfoldable pub opened : TraceRecorder → Observed
opened r = record { connection = accept r; backlog = []; live = [] }

abbrev watched : Phase → Event → Observed → Observed
watched tapped proceeds w = record w { backlog = snapshot w.connection.recorder }
watched tapped (captures row) w = record w { live = w.live ++ row ∷ [] }
watched forwarding (captures row) w = record w { live = w.live ++ row ∷ [] }
watched _ _ w = w

module _ (token supplied : Option String) (me : ℕ) (raises : ℕ → TraceRecord → Bool) where
  unfoldable pub observe_step : Event → Observed → Observed
  observe_step e w = record (watched w.connection.phase e w) {
    connection = step token supplied me raises e w.connection;
  }

  unfoldable pub observe_run : List Event → Observed → Observed
  observe_run [] w = w
  observe_run (e ∷ es) w = observe_run es (observe_step e w)

-- What holds of a connection, its backlog and its live rows, in each phase.
abbrev Delivers : ℕ → Phase → Observed → Type 0
Delivers me connecting w =
    (elem me w.connection.recorder.taps ≡ false)
    × (w.connection.row_queue ≡ [])
    × (w.connection.sent ≡ [])
    × (w.connection.seq ≡ 0)
    × (w.live ≡ [])
Delivers me greeted w =
    (h : Hello) × (elem me w.connection.recorder.taps ≡ false)
    × (w.connection.row_queue ≡ [])
    × (w.connection.sent ≡ greeting h ∷ [])
    × (w.connection.seq ≡ 0)
    × (w.live ≡ [])
Delivers me tapped w =
    (h : Hello) × (elem me w.connection.recorder.taps ≡ true)
    × (w.connection.sent ≡ greeting h ∷ [])
    × (w.connection.seq ≡ 0)
    × (w.live ≡ w.connection.row_queue)
Delivers me forwarding w =
    (h : Hello) × (ms : List Message) × (elem me w.connection.recorder.taps ≡ true)
    × (w.connection.sent ≡ greeting h ∷ envelopes 1 ms)
    × (w.connection.seq ≡ length ms)
    × (rows_in ms ++ w.connection.row_queue ≡ w.backlog ++ w.live)
Delivers me _ w = Unit

elem-add_tap : (me : ℕ) (r : TraceRecorder) → elem me (add_tap me r).taps ≡ true
unfolding add_tap
elem-add_tap me r = ground (arith, elem-append me r.taps (me ∷ []), ==_iff me me)

-- Sending one more message.
sent_more :
    (h : Hello) (ms : List Message) (m : Message) (sent : List Envelope) (seq : ℕ)
    → sent ≡ greeting h ∷ envelopes 1 ms
    → seq ≡ length ms
    → sent ++ envelope (suc seq) m ∷ [] ≡ greeting h ∷ envelopes 1 (ms ++ m ∷ [])
sent_more h ms m sent seq e k =
    rw (e, k)
      (ap (◌∷◌ (greeting h))
        (sym (envelopes-snoc 1 ms m ∙ ap (λ n. envelopes 1 ms ++ envelope n m ∷ []) (omega arith))))

-- A batch of rows goes out.
send_rows-Delivers :
    (me : ℕ) (h : Hello) (ms : List Message) (rows : List TraceRecord) (c : Connection)
    (backlog live : List TraceRecord)
    → c.phase ≡ forwarding
    → elem me c.recorder.taps ≡ true
    → c.sent ≡ greeting h ∷ envelopes 1 ms
    → c.seq ≡ length ms
    → rows_in ms ++ (rows ++ c.row_queue) ≡ backlog ++ live
    → Delivers me
        (send_rows rows c).phase
        (record { connection = send_rows rows c; backlog = backlog; live = live })
unfolding send_rows
send_rows-Delivers me h ms [] c backlog live p t s k d = rw p (h, ms, t, s, k, d)
send_rows-Delivers me h ms (row ∷ rows) c backlog live p t s k d =
    let m = batch (row ∷ rows) in
    rw p (
      h,
      ms ++ m ∷ [],
      t,
      sent_more h ms m c.sent c.seq s k,
      omega (arith, k, length-append ms (m ∷ [])),
      cc (
        d,
        rows_in-append ms (m ∷ []),
        append-nil (row ∷ rows),
        append_assoc (rows_in ms) (row ∷ rows) c.row_queue,
      ),
    )

module _ (token supplied : Option String) (me : ℕ) (raises : ℕ → TraceRecord → Bool) where
  step-Delivers :
      (p : Phase) (e : Event) (w : Observed)
      → w.connection.phase ≡ p
      → Delivers me p w
      → Delivers me
          (observe_step token supplied me raises e w).connection.phase
          (observe_step token supplied me raises e w)
  unfolding observe_step step proceed forward request disconnect observe capture notify_taps
      snapshot
  step-Delivers connecting proceeds w e d = rw e (elim (Bool-cases (is_rejected token supplied)) [
    | inl bad ↦ rw bad tt
    | inr good ↦ rw good (
      hello w.connection.recorder,
      d.0,
      d.1,
      ap (λ t. t ++ greeting (hello w.connection.recorder) ∷ []) d.2,
      d.3,
      d.4,
    )
  ])
  step-Delivers connecting forwards w e d = rw e d
  step-Delivers connecting disconnects w e d = rw e tt
  step-Delivers connecting (requests s) w e d = rw e d
  step-Delivers connecting (captures row) w e d = rw (e, d.0) (refl, d.1, d.2, d.3, d.4)
  step-Delivers greeted proceeds w e d =
      rw e (d.0, elem-add_tap me w.connection.recorder, d.3, d.4, d.5 ∙ sym d.2)
  step-Delivers greeted forwards w e d = rw e d
  step-Delivers greeted disconnects w e d = rw e tt
  step-Delivers greeted (requests s) w e d = rw e d
  step-Delivers greeted (captures row) w e d = rw (e, d.1) (d.0, refl, d.2, d.3, d.4, d.5)
  step-Delivers tapped proceeds w e d =
      let c = w.connection in
      rw e (
        send_rows-Delivers me d.0 [] c.recorder.buffer (record c { phase = forwarding })
          c.recorder.buffer w.live refl d.1 d.2 d.3 (ap (λ t. c.recorder.buffer ++ t) (sym d.4)))
  step-Delivers tapped forwards w e d = rw e d
  step-Delivers tapped disconnects w e d = rw e tt
  step-Delivers tapped (requests s) w e d = rw e d
  step-Delivers tapped (captures row) w e d =
      rw (e, d.1) (d.0, refl, d.2, d.3, ap (λ t. t ++ row ∷ []) d.4)
  step-Delivers forwarding proceeds w e d = rw e d
  step-Delivers forwarding forwards w e d =
      let c = w.connection in
      let taken = (pop_rows max_batch_rows c.row_queue).0 in
      let left = (pop_rows max_batch_rows c.row_queue).1 in
      rw e (
        send_rows-Delivers me d.0 d.1 taken (record c { row_queue = left; phase = forwarding })
          w.backlog w.live refl d.2 d.3 d.4
          (ap (λ t. rows_in d.1 ++ t) (pop_rows_lem max_batch_rows c.row_queue) ∙ d.5))
  step-Delivers forwarding disconnects w e d = rw e tt
  step-Delivers forwarding (requests none) w e d = rw e d
  step-Delivers forwarding (requests (some s)) w e d = rw e (
    d.0,
    d.1 ++ reply s ∷ [],
    d.2,
    sent_more d.0 d.1 (reply s) w.connection.sent w.connection.seq d.3 d.4,
    omega (arith, d.4, length-append d.1 (reply s ∷ [])),
    cc (d.5, rows_in-append d.1 (reply s ∷ []), append-nil (rows_in d.1)),
  )
  step-Delivers forwarding (captures row) w e d =
      rw (e, d.2)
        (
          d.0,
          d.1,
          refl,
          d.3,
          d.4,
          cc (
            d.5,
            append_assoc (rows_in d.1) w.connection.row_queue (row ∷ []),
            append_assoc w.backlog w.live (row ∷ []),
          ),
        )
  step-Delivers closed proceeds w e d = rw e tt
  step-Delivers closed forwards w e d = rw e tt
  step-Delivers closed disconnects w e d = rw e tt
  step-Delivers closed (requests s) w e d = rw e tt
  step-Delivers closed (captures row) w e d = rw e tt
  step-Delivers unauthorized proceeds w e d = rw e tt
  step-Delivers unauthorized forwards w e d = rw e tt
  step-Delivers unauthorized disconnects w e d = rw e tt
  step-Delivers unauthorized (requests s) w e d = rw e tt
  step-Delivers unauthorized (captures row) w e d = rw e tt

  run-Delivers :
      (es : List Event) (w : Observed)
      → Delivers me w.connection.phase w
      → Delivers me
          (observe_run token supplied me raises es w).connection.phase
          (observe_run token supplied me raises es w)
  unfolding observe_run
  run-Delivers [] w d = d
  run-Delivers (e ∷ es) w d =
      run-Delivers es (observe_step token supplied me raises e w)
        (step-Delivers w.connection.phase e w refl d)

-- `n`, `n + 1`, and so on.
abbrev pub count_from : ℕ → ℕ → List ℕ
count_from n zero = []
count_from n (suc k) = n ∷ count_from (suc n) k

seq-envelopes :
    (n : ℕ) (ms : List Message)
    → map (λ e. e.seq) (envelopes n ms) ≡ count_from n (length (envelopes n ms))
unfolding trace_batch snapshot_message
seq-envelopes n [] = refl
seq-envelopes n (batch rows ∷ ms) = ap (◌∷◌ n) (seq-envelopes (suc n) ms)
seq-envelopes n (reply s ∷ ms) = ap (◌∷◌ n) (seq-envelopes (suc n) ms)

module _ (token supplied : Option String) (me : ℕ) (raises : ℕ → TraceRecord → Bool) where
  -- A connection whose tap is new, after any interleaving of its handler, its loops, requests for
  -- snapshots and rows that the application captures: while it is forwarding, what it has sent is
  -- read by `attach` without an error, as a greeting and rows. These rows, and behind them the ones
  -- still queued, are the backlog that the handler read and then every row captured since it
  -- registered its tap, each in its order: none is lost. The messages are numbered from 0 without
  -- a gap.
  pub received_all :
      (es : List Event) (r : TraceRecorder)
      → elem me r.taps ≡ false
      → (observe_run token supplied me raises es (opened r)).connection.phase ≡ forwarding
      → (h : Hello) × (rows : List TraceRecord) × (attach (
            map Envelope.to_dict
              (observe_run token supplied me raises es (opened r)).connection.sent)
          ≡ exit_ok (h, rows))
        × (rows ++ (observe_run token supplied me raises es (opened r)).connection.row_queue
            ≡ (observe_run token supplied me raises es (opened r)).backlog
              ++ (observe_run token supplied me raises es (opened r)).live)
        × (map (λ e. e.seq) (observe_run token supplied me raises es (opened r)).connection.sent
            ≡ count_from 0
                (length (observe_run token supplied me raises es (opened r)).connection.sent))
  unfolding opened accept
  received_all es r new p =
      let w = observe_run token supplied me raises es (opened r) in
      let all = run-Delivers token supplied me raises es (opened r) (new, refl, refl, refl, refl) in
      let d = subst (λ q. Delivers me q w) p all in
      (
        d.0,
        rows_in d.1,
        rw d.3 (attach_lem d.0 d.1),
        d.5,
        rw d.3 (ap (◌∷◌ 0) (seq-envelopes 1 d.1)),
      )
