-- ===== src/Audit/TraceServer.antt =====
-- `TraceServer` of extensions/audit/infra/trace_server.py: one client's connection beside the
-- application that is traced. Its row queue never raises. The socket is what has been sent so far;
-- the tap is `me`, the identity of `row_queue.put`.
pub mod Delivery
pub mod Streams
pub mod Replies
use sagittarius_engine.Prelude.{
  ℕ, zero, suc, ◌+◌, String, string_eq, nat_eq, Bool, true, false, not, Option, none, some, List,
  [], ◌∷◌, ◌++◌, elem, ◌==◌, ◌&&◌, if◌then◌else◌,
}
use sagittarius_engine.Audit.Json.{obj}
use sagittarius_engine.Audit.TraceRecord.{TraceRecord}
use sagittarius_engine.Audit.Hello
use sagittarius_engine.Audit.StateSnapshot.{StateSnapshot}
use sagittarius_engine.Audit.Envelope.{Envelope, MessageType, trace_batch, snapshot_message}
use sagittarius_engine.Audit.Recorder.{
  TraceRecorder, add_tap, remove_tap, capture, pop_rows, snapshot, hello,
}

abbrev pub loopback_hosts : List String
loopback_hosts = "127.0.0.1" ∷ "::1" ∷ "localhost" ∷ []

-- Whether the constructor raises `TraceServerConfigError`.
unfoldable pub refuses : String → Option String → Bool
refuses host none = not (elem host loopback_hosts)
refuses host (some token) = false

-- Where the handler of a connection stands: about to check the token and greet, to register its
-- tap, to read the backlog, or forwarding; or the socket is closed, with or without an error code.
pub data Phase : Type 0 where
  connecting greeted tapped forwarding closed unauthorized : Phase

pub record Connection : Type 0 where
  pub recorder : TraceRecorder
  pub row_queue : List TraceRecord
  pub sent : List Envelope
  pub seq : ℕ
  pub phase : Phase

unfoldable pub accept : TraceRecorder → Connection
accept r = record { recorder = r; row_queue = []; sent = []; seq = 0; phase = connecting }

-- `self._token is not None and self._extract_token(websocket) != self._token`.
unfoldable pub is_rejected : Option String → Option String → Bool
is_rejected none supplied = false
is_rejected (some token) none = true
is_rejected (some token) (some supplied) = not (supplied == token)

-- `websocket.send(…(next(seq_counter), …))`.
abbrev pub send : Envelope → Connection → Connection
send e c = record c { sent = c.sent ++ e ∷ []; seq = suc c.seq }

-- A batch, unless it is empty.
unfoldable pub send_rows : List TraceRecord → Connection → Connection
send_rows [] c = c
send_rows (row ∷ rows) c = send (trace_batch (suc c.seq) (row ∷ rows)) c

abbrev pub max_batch_rows : ℕ
max_batch_rows = 500

module _ (token supplied : Option String) (me : ℕ) where
  -- The next step of `_handle`, up to the loops.
  abbrev pub proceed_from : Phase → Connection → Connection
  proceed_from connecting c =
      if is_rejected token supplied then record c { phase = unauthorized } else record c {
        sent =
            c.sent
            ++ record {
              kind = MessageType.hello;
              seq = 0;
              body = obj (Hello.to_dict (hello c.recorder));
            }
              ∷ [];
        phase = greeted;
      }
  proceed_from greeted c = record c { recorder = add_tap me c.recorder; phase = tapped }
  proceed_from tapped c = send_rows (snapshot c.recorder) (record c { phase = forwarding })
  proceed_from _ c = c

  unfoldable pub proceed : Connection → Connection
  proceed c = proceed_from c.phase c

-- An iteration of `_forward_loop`.
abbrev pub forward_from : Phase → Connection → Connection
forward_from forwarding c =
    let (rows, left) = pop_rows max_batch_rows c.row_queue in
    send_rows rows (record c { row_queue = left })
forward_from _ c = c

unfoldable pub forward : Connection → Connection
forward c = forward_from c.phase c

-- An iteration of `_snapshot_request_loop`, with what the provider gives if there is one.
abbrev pub request_from : Phase → Option StateSnapshot → Connection → Connection
request_from forwarding (some s) c = send (snapshot_message (suc c.seq) s) c
request_from _ _ c = c

unfoldable pub request : Option StateSnapshot → Connection → Connection
request s c = request_from c.phase s c

module _ (me : ℕ) where
  -- The client goes away.
  abbrev pub disconnect_from : Phase → Connection → Connection
  disconnect_from unauthorized c = c
  disconnect_from closed c = c
  disconnect_from tapped c = record c { recorder = remove_tap me c.recorder; phase = closed }
  disconnect_from forwarding c = record c { recorder = remove_tap me c.recorder; phase = closed }
  disconnect_from _ c = record c { phase = closed }

  unfoldable pub disconnect : Connection → Connection
  disconnect c = disconnect_from c.phase c

  -- The application captures a row: a registered tap puts it on the queue.
  unfoldable pub observe : (ℕ → TraceRecord → Bool) → TraceRecord → Connection → Connection
  observe raises row c = record c {
    recorder = capture raises row c.recorder;
    row_queue = if elem me c.recorder.taps then c.row_queue ++ row ∷ [] else c.row_queue;
  }
