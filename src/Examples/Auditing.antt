-- ===== src/Examples/Auditing.antt =====
-- The trace protocol at concrete rows, settings and connections.
use sagittarius_engine.Prelude.{
  leb, ◌&&◌, ◌+◌, ℕ, ◌≡◌, refl, String, string_eq, nat_eq, Bool, true, false, Option, none, some,
  List, [], ◌∷◌, ◌++◌, length, map, elem, if◌then◌else◌, All, Distinct, Dict, keys,
}
use sagittarius_engine.Kernel.Dispatcher.{task_lane}
use sagittarius_engine.Audit.Json.{Fields, field, text, ok}
use sagittarius_engine.Audit.TraceRecord
use sagittarius_engine.Audit.TraceRecord.{TraceRecord}
use sagittarius_engine.Audit.Hello.{Hello}
use sagittarius_engine.Audit.ConfigEntry.{IsMasked}
use sagittarius_engine.Audit.StateSnapshot
use sagittarius_engine.Audit.StateSnapshot.{StateSnapshot}
use sagittarius_engine.Audit.Masking.{mask_config, is_secret_key, has_userinfo}
use sagittarius_engine.Audit.Masking.Disclosing.{Discloses, mask_config-Discloses}
use sagittarius_engine.Audit.Envelope
use sagittarius_engine.Audit.Recorder.{
  TraceRecorder, new, add_tap, capture, snapshot, notify_taps, append_row, pop_rows,
}
use sagittarius_engine.Audit.Recorder.Ring
use sagittarius_engine.Audit.Recorder.Ring.{Accounted, Fates, run-Accounted}
use sagittarius_engine.Audit.TraceServer.{
  accept, is_rejected, proceed, forward, request, observe, send_rows, Phase,
}
use sagittarius_engine.Audit.TraceServer.Delivery
use sagittarius_engine.Audit.TraceServer.Delivery.{
  Event, observe_run, opened, count_from, received_all,
}
use sagittarius_engine.Audit.TraceServer.Replies.{run, is_empty, asks_at_once, snapshot_once_lem}
use sagittarius_engine.Audit.Client.{exit_ok, attach, snapshot_once}

abbrev row : ℕ → String → TraceRecord
row t name = record {
  t = t;
  kind = TraceRecord.instant;
  lane = task_lane;
  name = name;
  cat = "";
  cid = 0;
  dur = 0;
  args = some (field "task_id" (text "a1") Fields.end);
}

abbrev settings : Dict String (Option String)
settings =
    ("database.url", some "postgresql://app:hunter2@db/prod")
    ∷ ("api_token", some "t0")
    ∷ ("host", some "localhost")
    ∷ []

-- Lower case of ASCII letters.
abbrev lower : List ℕ → List ℕ
lower cs = map (λ c. if leb b'A' c && leb c b'Z' then c + 32 else c) cs

secret_by_name : is_secret_key lower "API_Token" ≡ true
unfolding is_secret_key
secret_by_name = refl

secret_by_value : has_userinfo "postgresql://app:hunter2@db/prod" ≡ true
unfolding has_userinfo
secret_by_value = refl

no_secret : has_userinfo "http://host/a@b" ≡ false
unfolding has_userinfo
no_secret = refl

abbrev same : String → String
same s = s

mask_config-Discloses_example :
    All (Discloses lower same settings false []) (mask_config lower same settings false [])
    × Distinct (map (λ c. c.key) (mask_config lower same settings false []))
    × ((k : String)
        → elem k (map (λ c. c.key) (mask_config lower same settings false []))
          ≡ elem k (keys settings))
mask_config-Discloses_example =
    mask_config-Discloses lower same settings false [] (refl, (refl, (refl, tt)))

abbrev reading : StateSnapshot
reading = record {
  t = 7;
  lifecycle = none;
  events = [];
  container = none;
  tasks = [];
  thread_pools = [];
  bounded = none;
  config =
      record { key = "api_token"; source = "env:APP_"; value = none; masked = true }
      ∷ record { key = "host"; source = ""; value = some "localhost"; masked = false }
      ∷ [];
  findings = [];
  signals = none;
}

reading-IsMasked : All IsMasked reading.config
reading-IsMasked = ((λ h. refl), ((λ h. cc), tt))

from_dict-to_dict_example : StateSnapshot.from_dict (StateSnapshot.to_dict reading) ≡ ok reading
from_dict-to_dict_example = StateSnapshot.from_dict-to_dict reading reading-IsMasked

abbrev quiet : ℕ → TraceRecord → Bool
quiet tap r = false

abbrev ring_events : List Ring.Event
ring_events =
    Ring.captures (row 1 "a")
    ∷ Ring.captures (row 2 "b")
    ∷ Ring.captures (row 3 "c")
    ∷ Ring.drains (some 1)
    ∷ Ring.captures (row 4 "d")
    ∷ []

run-Accounted_example :
    (fates : Fates) × Accounted
      (Ring.run quiet ring_events (record { recorder = new 2 0 0; captured = []; drained = [] }))
      fates
run-Accounted_example = run-Accounted quiet ring_events 2 0 0

abbrev session : List Event
session =
    Event.captures (row 1 "a")
    ∷ Event.proceeds
    ∷ Event.captures (row 2 "b")
    ∷ Event.proceeds
    ∷ Event.captures (row 3 "c")
    ∷ Event.proceeds
    ∷ Event.forwards
    ∷ Event.requests (some reading)
    ∷ Event.captures (row 4 "d")
    ∷ []

tap_is_new : elem 9 (new 2 0 0).taps ≡ false
unfolding new
tap_is_new = refl

session_forwards :
    (observe_run (some "t") (some "t") 9 quiet session (opened (new 2 0 0))).connection.phase
    ≡ Phase.forwarding
unfolding observe_run opened new Delivery.observe_step Delivery.step observe request forward proceed
    accept is_rejected send_rows snapshot capture notify_taps append_row add_tap pop_rows
session_forwards = refl

received_all_example :
    (h : Hello) × (rows : List TraceRecord) × (attach (
        map Envelope.to_dict
          (observe_run (some "t") (some "t") 9 quiet session (opened (new 2 0 0))).connection.sent)
      ≡ exit_ok (h, rows))
    × (rows
          ++ (observe_run
              (some "t")
              (some "t")
              9
              quiet
              session
              (opened (new 2 0 0))).connection.row_queue
        ≡ (observe_run (some "t") (some "t") 9 quiet session (opened (new 2 0 0))).backlog
          ++ (observe_run (some "t") (some "t") 9 quiet session (opened (new 2 0 0))).live)
    × (map
          (λ e. e.seq)
          (observe_run (some "t") (some "t") 9 quiet session (opened (new 2 0 0))).connection.sent
        ≡ count_from 0 (
            length
              (observe_run
                (some "t")
                (some "t")
                9
                quiet
                session
                (opened (new 2 0 0))).connection.sent))
received_all_example =
    received_all (some "t") (some "t") 9 quiet session (new 2 0 0) tap_is_new session_forwards

wrong_token : is_rejected (some "t") (some "u") ≡ true
unfolding is_rejected
wrong_token = refl

right_token : is_rejected (some "t") (some "t") ≡ false
unfolding is_rejected
right_token = refl

abbrev retaining : TraceRecorder
retaining = record {
  capacity = 2;
  buffer = row 1 "a" ∷ [];
  epoch_ns = 0;
  epoch_wall_ns = 0;
  dropped = 0;
  last_cid = 0;
  taps = [];
  tap_failures = 0;
}

snapshot_once_lem_example :
    snapshot_once (
      map Envelope.to_dict
        (run (some "t") (some "t") 9 quiet (asks_at_once reading) (accept retaining)).sent)
    ≡ (if is_empty retaining.buffer then exit_ok (some reading) else exit_ok none)
snapshot_once_lem_example =
    snapshot_once_lem (some "t") (some "t") 9 quiet retaining reading right_token reading-IsMasked
