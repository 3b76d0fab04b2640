-- ===== src/Audit/Client.antt =====
-- `sagittarius-trace` of extensions/audit/cli.py: `attach` and `snapshot`, over the messages that
-- arrive until the peer closes the connection. What they print of a record is left out.
use sagittarius_engine.Prelude.{Option, none, some, List, [], ◌∷◌, ◌++◌}
use sagittarius_engine.Audit.Json.{
  Fields, Json, Result, ok, err, WireError, protocol_mismatch, as_list, as_record,
}
use sagittarius_engine.Audit.TraceRecord
use sagittarius_engine.Audit.TraceRecord.{TraceRecord}
use sagittarius_engine.Audit.Hello
use sagittarius_engine.Audit.Hello.{Hello}
use sagittarius_engine.Audit.StateSnapshot
use sagittarius_engine.Audit.StateSnapshot.{StateSnapshot}
use sagittarius_engine.Audit.Envelope
use sagittarius_engine.Audit.Envelope.{Envelope, MessageType}

-- A return of `EXIT_USAGE`, or an exception that nothing catches.
pub data Failure : Type 0 where
  exit_usage : Failure
  escaped : WireError → Failure
  closed_early : Failure

pub data Exit (A : Type 0) : Type 0 where
  exit_ok : A → Exit A
  failed : Failure → Exit A

-- `except ProtocolMismatch: return EXIT_USAGE`.
abbrev pub failing : {A : Type 0} → WireError → Exit A
failing (protocol_mismatch v) = failed exit_usage
failing e = failed (escaped e)

abbrev pub bind : {A B : Type 0} → Result A → (A → Exit B) → Exit B
bind (ok a) f = f a
bind (err e) f = failing e

abbrev pub on_trace : {A : Type 0} → MessageType → (Json → Exit A) → (Json → Exit A) → Json → Exit A
on_trace MessageType.trace yes_it_is other v = yes_it_is v
on_trace _ yes_it_is other v = other v

-- The loop of `attach`, with the records that it has received.
unfoldable pub stream : Hello → List TraceRecord → List Fields → Exit (Hello × List TraceRecord)
stream h records [] = exit_ok (h, records)
stream h records (m ∷ ms) = bind (Envelope.from_dict m) λ e.
    on_trace e.kind
      (λ v.
        bind (as_list (as_record TraceRecord.from_dict) v) (λ rows. stream h (records ++ rows) ms))
      (λ v. stream h records ms) e.body

abbrev pub greet : {A : Type 0} → MessageType → (Json → Exit A) → Json → Exit A
greet MessageType.hello next v = next v
greet _ next v = failed exit_usage

-- `_recv_envelope`, and the check that the peer says hello first.
abbrev pub receive_hello : {A : Type 0} → List Fields → (Json → List Fields → Exit A) → Exit A
receive_hello [] next = failed closed_early
receive_hello (m ∷ ms) next =
    bind (Envelope.from_dict m) (λ e. greet e.kind (λ v. next v ms) e.body)

unfoldable pub attach : List Fields → Exit (Hello × List TraceRecord)
attach ms = receive_hello ms (λ v rest. bind (as_record Hello.from_dict v) (λ h. stream h [] rest))

-- What `snapshot` prints of the message that follows its request.
abbrev pub shown : MessageType → Json → Exit (Option StateSnapshot)
shown MessageType.snapshot v = bind (as_record StateSnapshot.from_dict v) (λ s. exit_ok (some s))
shown _ v = exit_ok none

abbrev pub first_reply : List Fields → Exit (Option StateSnapshot)
first_reply [] = exit_ok none
first_reply (m ∷ ms) = bind (Envelope.from_dict m) (λ e. shown e.kind e.body)

-- `snapshot` without `--watch`: it asks once, and shows the next message if that is a snapshot.
unfoldable pub snapshot_once : List Fields → Exit (Option StateSnapshot)
snapshot_once ms = receive_hello ms (λ v rest. first_reply rest)
